-- ===== src/Bitmap/Marks.antt =====
-- Marking a cluster of src/alloc/bitmap.c used or free.
use simple_file_system.Base.{
  ℕ, ◌+◌, ◌/◌, ◌%◌, ◌^◌, ◌<◌, ◌≡◌, Bool, true, false, out_of_bounds, ok, err, if◌then◌else◌, ltb,
  ◌==◌, arith,
}
use simple_file_system.Base.Bits.{
  bit_at, set_bit-lt, clear_bit-lt, bit_at-set_bit, bit_at-clear_bit,
}
use simple_file_system.Bitmap.{
  Bitmap, IsValid, create, mark_cluster_used, mark_cluster_free, is_cluster_free,
}

-- A bitmap that was created for a number of clusters that leaves room below 2 ^ 32 is valid, and all its clusters are free.
pub create-IsValid :
    (got_context got_buffer : Bool) (total : ℕ) {m : Bitmap}
    → total + 7 < 2 ^ 32
    → create got_context got_buffer total ≡ ok m
    → IsValid m
      × (m.total_cluster_count ≡ total)
      × ((i : ℕ) → i < total → is_cluster_free m i ≡ true)
unfolding create is_cluster_free bit_at
create-IsValid gc gb total fits e = (ground arith, ground arith, λ i h. ground arith)

pub mark_cluster_used-IsValid : {m : Bitmap} (c : ℕ) → IsValid m → IsValid (mark_cluster_used c m).1
unfolding mark_cluster_used
mark_cluster_used-IsValid {m} c v = record {
  bytes = λ i. ground (
    arith,
    v.bytes i,
    set_bit-lt (m.bitmap_buffer (c / 8)) (c % 8) (v.bytes (c / 8)) (omega arith),
  );
  byte_length = ground arith;
  fits = ground arith;
}

pub mark_cluster_free-IsValid : {m : Bitmap} (c : ℕ) → IsValid m → IsValid (mark_cluster_free c m).1
unfolding mark_cluster_free
mark_cluster_free-IsValid {m} c v = record {
  bytes = λ i. ground (
    arith,
    v.bytes i,
    clear_bit-lt (m.bitmap_buffer (c / 8)) (c % 8) (v.bytes (c / 8)) (omega arith),
  );
  byte_length = ground arith;
  fits = ground arith;
}

-- On a valid bitmap, after a cluster is marked used it is not free, and every other cluster is as
-- before; out of range the call changes nothing, and no cluster there is free.
pub is_cluster_free-mark_cluster_used :
    {m : Bitmap} (c j : ℕ)
    → IsValid m
    → is_cluster_free (mark_cluster_used c m).1 j ≡ (if j == c then false else is_cluster_free m j)
unfolding mark_cluster_used is_cluster_free
is_cluster_free-mark_cluster_used {m} c j v = ground (
  arith,
  bit_at-set_bit (m.bitmap_buffer (c / 8)) (c % 8) (v.bytes (c / 8)) (omega arith) (j % 8)
      (omega arith),
)

-- On a valid bitmap, after a cluster of the disk is marked free it is free, and every other cluster is
-- as before; out of range the call changes nothing.
pub is_cluster_free-mark_cluster_free :
    {m : Bitmap} (c j : ℕ)
    → IsValid m
    → is_cluster_free (mark_cluster_free c m).1 j
      ≡ (if j == c then ltb c m.total_cluster_count else is_cluster_free m j)
unfolding mark_cluster_free is_cluster_free
is_cluster_free-mark_cluster_free {m} c j v = ground (
  arith,
  bit_at-clear_bit (m.bitmap_buffer (c / 8)) (c % 8) (v.bytes (c / 8)) (omega arith) (j % 8)
      (omega arith),
)

pub total-mark_cluster_used :
    (m : Bitmap) (c : ℕ) → (mark_cluster_used c m).1.total_cluster_count ≡ m.total_cluster_count
unfolding mark_cluster_used
total-mark_cluster_used m c = ground arith

pub total-mark_cluster_free :
    (m : Bitmap) (c : ℕ) → (mark_cluster_free c m).1.total_cluster_count ≡ m.total_cluster_count
unfolding mark_cluster_free
total-mark_cluster_free m c = ground arith

-- Marking succeeds exactly on the clusters of the disk.
pub mark_cluster_used-result :
    (m : Bitmap) (c : ℕ)
    → (mark_cluster_used c m).0 ≡ (if ltb c m.total_cluster_count then ok tt else err out_of_bounds)
unfolding mark_cluster_used
mark_cluster_used-result m c = ground arith
