-- ===== src/Bitmap.antt =====
-- src/alloc/bitmap.c: which clusters of a disk are in use, one bit to a cluster.
pub mod Marks
pub mod Search
pub mod Runs
pub mod Count
pub mod Persist
use simple_file_system.Base.{
  ℕ, zero, suc, ◌+◌, ◌-◌, ◌*◌, ◌/◌, ◌%◌, ◌^◌, ◌<◌, ◌≡◌, Bool, true, false, not, ◌||◌, Bytes, zeros,
  copy, store, Status, file_access, invalid_argument, out_of_bounds, memory_allocation, no_space,
  Result, ok, err, Exec, if◌then◌else◌, ltb, leb, ◌==◌, AreBytes, pure, ◌>>=◌, ◌>>◌,
}
use simple_file_system.Base.Bits.{bit_at, set_bit, clear_bit}
use simple_file_system.Config.{cluster_size, bitmap_start_cluster_index}
use simple_file_system.Platform.{Stdio}
use simple_file_system.Disk.{Disk}
use simple_file_system.Disk.Chunks.{write_chunks, read_chunks}

-- struct fs_bitmap
pub record Bitmap : Type 0 where
  pub bitmap_buffer : Bytes
  pub total_cluster_count : ℕ
  pub bitmap_byte_length : ℕ

-- fs_bitmap_create; the flags tell whether the calls of `calloc` returned memory. The sum is one of
-- `uint32_t`.
unfoldable pub create : (got_context got_buffer : Bool) → ℕ → Result Bitmap
create got_context got_buffer total_cluster_count =
    if total_cluster_count == 0
    then err invalid_argument
    else if not got_context
    then err memory_allocation
    else if not got_buffer
    then err memory_allocation
    else ok (record {
      bitmap_buffer = zeros;
      total_cluster_count = total_cluster_count;
      bitmap_byte_length = (total_cluster_count + 7) % 2 ^ 32 / 8;
    })

-- How the loop over the bits of a byte ends.
pub data Scan : Type 0 where
  found : ℕ → Scan
  past_end : Scan
  all_used : Scan

-- The inner loop of fs_bitmap_find_free_cluster, with `rounds` rounds left.
unfoldable pub scan_bits : (total byte_index current_byte rounds bit_offset : ℕ) → Scan
scan_bits total byte_index current_byte zero bit_offset = all_used
scan_bits total byte_index current_byte (suc rounds) bit_offset =
    let rest = scan_bits total byte_index current_byte rounds (bit_offset + 1) in
    let candidate_cluster_index = (byte_index * 8 % 2 ^ 32 + bit_offset) % 2 ^ 32 in
    if leb total candidate_cluster_index
    then past_end
    else if bit_at current_byte bit_offset == 0
    then found candidate_cluster_index
    else rest

-- The outer loop, with `rounds` bytes left.
unfoldable pub scan_bytes : Bitmap → (rounds byte_index : ℕ) → Result ℕ
scan_bytes m zero byte_index = err no_space
scan_bytes m (suc rounds) byte_index =
    let rest = scan_bytes m rounds (byte_index + 1) in
    let current_byte = m.bitmap_buffer byte_index in
    if current_byte == 255
    then rest
    else elim (scan_bits m.total_cluster_count byte_index current_byte 8 0) [
      | found c ↦ ok c
      | past_end ↦ err no_space
      | all_used ↦ rest
    ]

-- fs_bitmap_find_free_cluster
unfoldable pub find_free_cluster : Bitmap → Result ℕ
unfolding scan_bits scan_bytes
find_free_cluster m = scan_bytes m m.bitmap_byte_length 0

-- fs_bitmap_mark_cluster_used
unfoldable pub mark_cluster_used : ℕ → Exec Bitmap (Unit {0})
unfolding store
mark_cluster_used target_cluster_index m =
    if leb m.total_cluster_count target_cluster_index
    then (err out_of_bounds, m)
    else let byte_index = target_cluster_index / 8 in
      let bit_offset = target_cluster_index % 8 in
      let byte = set_bit (m.bitmap_buffer byte_index) bit_offset in
      (ok tt, record m { bitmap_buffer = store m.bitmap_buffer byte_index byte })

-- fs_bitmap_mark_cluster_free
unfoldable pub mark_cluster_free : ℕ → Exec Bitmap (Unit {0})
unfolding store
mark_cluster_free target_cluster_index m =
    if leb m.total_cluster_count target_cluster_index
    then (err out_of_bounds, m)
    else let byte_index = target_cluster_index / 8 in
      let bit_offset = target_cluster_index % 8 in
      let byte = clear_bit (m.bitmap_buffer byte_index) bit_offset in
      (ok tt, record m { bitmap_buffer = store m.bitmap_buffer byte_index byte })

-- fs_bitmap_is_cluster_free
unfoldable pub is_cluster_free : Bitmap → ℕ → Bool
is_cluster_free m cluster_index =
    if leb m.total_cluster_count cluster_index
    then false
    else bit_at (m.bitmap_buffer (cluster_index / 8)) (cluster_index % 8) == 0

-- The loop of fs_bitmap_find_contiguous_free, with `rounds` clusters left.
unfoldable pub scan_run :
    Bitmap → (cluster_count rounds cluster_index consecutive_count start_index : ℕ) → Result ℕ
scan_run m cluster_count zero cluster_index consecutive_count start_index = err no_space
scan_run m cluster_count (suc rounds) cluster_index consecutive_count start_index =
    let start = if consecutive_count == 0 then cluster_index else start_index in
    let longer =
      scan_run m cluster_count rounds (cluster_index + 1) (consecutive_count + 1) start in
    let reset = scan_run m cluster_count rounds (cluster_index + 1) 0 start_index in
    if is_cluster_free m cluster_index
    then (if consecutive_count + 1 == cluster_count then ok start else longer)
    else reset

-- fs_bitmap_find_contiguous_free
unfoldable pub find_contiguous_free : Bitmap → ℕ → Result ℕ
unfolding scan_run
find_contiguous_free m cluster_count =
    if cluster_count == 0
    then err invalid_argument
    else scan_run m cluster_count m.total_cluster_count 0 0 0

-- The loop of fs_bitmap_count_used_clusters, with `rounds` clusters left.
unfoldable pub count_used_from : Bitmap → (rounds cluster_index used_count : ℕ) → ℕ
count_used_from m zero cluster_index used_count = used_count
count_used_from m (suc rounds) cluster_index used_count =
    let byte = m.bitmap_buffer (cluster_index / 8) in
    count_used_from m rounds (cluster_index + 1)
      (if bit_at byte (cluster_index % 8) == 0 then used_count else used_count + 1)

-- fs_bitmap_count_used_clusters
unfoldable pub count_used_clusters : Bitmap → ℕ
unfolding count_used_from
count_used_clusters m = count_used_from m m.total_cluster_count 0 0

module _ (io : Stdio) where
  -- fs_bitmap_serialize_to_disk. A round moves at least a byte, so there are no more than bytes.
  unfoldable pub serialize_to_disk : Bitmap → Exec (Disk io) (Unit {0})
  unfolding write_chunks
  serialize_to_disk m =
      write_chunks io bitmap_start_cluster_index m.bitmap_buffer m.bitmap_byte_length
        m.bitmap_byte_length 0

  -- fs_bitmap_deserialize_from_disk
  unfoldable pub deserialize_from_disk : Exec (Bitmap × Disk io) (Unit {0})
  unfolding read_chunks
  deserialize_from_disk (m, d) =
      let n = m.bitmap_byte_length in
      let (r, (buffer, d')) =
        read_chunks io bitmap_start_cluster_index n n 0 (m.bitmap_buffer, d) in
      (r, (record m { bitmap_buffer = buffer }, d'))

-- What every operation keeps: one bit for each cluster, bytes that are bytes, and a size that the
-- sum in fs_bitmap_create does not wrap at.
pub record IsValid (m : Bitmap) : Type 0 where
  pub bytes : AreBytes m.bitmap_buffer
  pub byte_length : m.bitmap_byte_length ≡ (m.total_cluster_count + 7) / 8
  pub fits : m.total_cluster_count + 7 < 2 ^ 32
