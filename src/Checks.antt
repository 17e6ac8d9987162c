-- ===== src/Checks.antt =====
-- States of the file system at which the theorems are checked, on a file that is held in memory.
pub mod Space
pub mod Contents
pub mod Open
pub mod Lines
pub mod Sorting
pub mod Directory
pub mod Paths
pub mod Coding
pub mod Insertion
pub mod Shell
use simple_file_system.Base.{
  ℕ, ◌+◌, ◌-◌, ◌^◌, ◌<◌, ◌≡◌, ◌≢◌, refl, true, false, some, arith, Bytes, zeros, copy, store, ok,
  ◌==◌, if◌then◌else◌, min,
}
use simple_file_system.Config.{direct_pointers, magic_number, bitmap_start_cluster_index}
use simple_file_system.Platform.{Stdio, IsFile, IsReliable}
use simple_file_system.Disk.{Disk, write_cluster, read_cluster}
use simple_file_system.Disk.Laws.{cluster, write_cluster-other}
use simple_file_system.Disk.Chunks.Write.{HasRoom}
use simple_file_system.Bitmap.{
  Bitmap, create, IsValid, find_free_cluster, find_contiguous_free, mark_cluster_used,
  mark_cluster_free, is_cluster_free, count_used_clusters, serialize_to_disk, deserialize_from_disk,
}
use simple_file_system.Bitmap.Marks.{
  create-IsValid, is_cluster_free-mark_cluster_used, is_cluster_free-mark_cluster_free,
}
use simple_file_system.Bitmap.Search.{IsFirstFree, find_free_cluster-IsFirstFree}
use simple_file_system.Bitmap.Runs.{IsFirstRun, find_contiguous_free-IsFirstRun}
use simple_file_system.Bitmap.Count.{is_used, count-mark_cluster_used, count-mark_cluster_free}
use simple_file_system.Bitmap.Persist.{deserialize-serialize}
use simple_file_system.Base.Counting.{one_if}
use simple_file_system.Base.Bits.{bit_at}
use simple_file_system.Superblock.{Superblock, write_to_disk, read_from_disk}
use simple_file_system.Superblock.Roundtrip.{InRange, read-write}
use simple_file_system.Index.{
  word_of_inode, Inode, Index, empty_inode, new_inode, flush, load_from_disk, allocate_inode,
  free_inode, count_used_inodes, read_inode, write_inode,
}
use simple_file_system.Index.Slots.{Allocated, allocate_inode-Allocated, read_inode-write_inode}
use simple_file_system.Index.Count.{used, CountedAllocation, count-allocate_inode, count-free_inode}
use simple_file_system.Index.Persist.{SameInode, load-flush}
use simple_file_system.Alloc.{Work, allocate_and_zero_cluster, resolve_cluster}
use simple_file_system.Alloc.Allocate.{Outcome, allocate-Outcome, clusters}
use simple_file_system.Alloc.Files.{read_data, write_data, truncate_file, clusters_of_size}
use simple_file_system.Alloc.Grow.{Grows}
use simple_file_system.Alloc.Growth.{resolve_cluster-Growth, write_data-Growth}
use simple_file_system.Alloc.Resolve.{SameFile}
use simple_file_system.Alloc.Transfer.{write_data-ok, read_data-SameFile, read_data-ok}
use simple_file_system.Alloc.Truncate.{emptied, truncate_file-Empties}
use simple_file_system.Vfs.{Context, FileDescriptor, Session}
use simple_file_system.Vfs.Cache.{find_slot, find_least_recently_used_slot, load_cluster}
use simple_file_system.Vfs.Cache.Slots.{
  IsSlotOf, IsOldest, find_slot-IsSlotOf, find_least_recently_used_slot-IsOldest,
}
use simple_file_system.Vfs.Cache.Load.{IsCoherent, load_cluster-finds}
use simple_file_system.Base.Integer.{◌+ℤ◌, pos, negsuc}
use simple_file_system.Vfs.Files.{
  max_open_files, from_end, new_position, find_free_descriptor, seek, close,
}
use simple_file_system.Vfs.Files.Seek.{moved, seek-moves, close-closes}
use simple_file_system.Vfs.Files.Free.{IsFirstClosed, find_free_descriptor-IsFirstClosed}

-- A file of which every call succeeds: its bytes and its position.
abbrev pub memory : Stdio
memory = record {
  Stream = Bytes × ℕ;
  seek_set = λ s o. (true, (s.0, o));
  fread = λ s n. (λ i. s.0 (s.1 + i), n, (s.0, s.1 + n));
  fwrite = λ s b n. (n, (copy s.0 s.1 b 0 n, s.1 + n));
  flush = λ s. (true, s);
  sync = λ s. (true, s);
}

pub memory_file : IsFile memory
unfolding copy
memory_file = record {
  contents = λ s. s.0;
  position = λ s. s.1;
  contents-seek = λ s o. refl;
  position-seek = λ s o e. refl;
  contents-fread = λ s n. refl;
  fread_bytes = λ s n i e h. refl;
  fwrite_bytes = λ s b n i e h. ground arith;
  fwrite_before = λ s b n i h. ground arith;
  fwrite_after = λ s b n i h. ground arith;
}

pub memory_reliable : IsReliable memory
memory_reliable = record {
  seek_succeeds = λ s o. refl;
  fread_succeeds = λ s n. refl;
  fwrite_succeeds = λ s b n. refl;
}

-- Sixteen clusters, of which 0 and 2 are in use.
abbrev pub two_used : Bitmap
two_used = record {
  bitmap_buffer = store zeros 0 5;
  total_cluster_count = 16;
  bitmap_byte_length = 2;
}

pub two_used-IsValid : IsValid two_used
unfolding store
two_used-IsValid = record { bytes = λ i. ground arith; byte_length = refl; fits = omega arith }

abbrev pub none_used : Bitmap
none_used = record { bitmap_buffer = zeros; total_cluster_count = 16; bitmap_byte_length = 2 }

pub none_used-IsValid : IsValid none_used
none_used-IsValid = record { bytes = λ i. omega arith; byte_length = refl; fits = omega arith }

abbrev pub blank_disk : Disk memory
blank_disk = record { file_stream = (zeros, 0); total_cluster_count = 16; is_read_only = false }

pub bitmap_room : HasRoom memory bitmap_start_cluster_index 2 blank_disk
bitmap_room = record { writable = refl; room = omega arith }

abbrev pub four_slots : Index
four_slots = record {
  inode_table = λ j. if j == 0 then new_inode 0 1 else empty_inode j;
  total_inodes = 4;
  start_cluster = 2;
  table_size_clusters = 1;
  is_dirty = true;
}

-- A file of ten bytes in cluster 2.
abbrev pub small_file : Inode
small_file = record (new_inode 1 0) {
  size = 10;
  cluster_count = 1;
  direct_clusters = λ j. if j == 0 then 2 else 0;
}

abbrev pub work : Work memory
work = record { disk = blank_disk; bitmap = two_used; index = four_slots; inode = small_file }

abbrev pub small_superblock : Superblock
small_superblock = record {
  magic = magic_number;
  total_clusters = 16;
  root_inode_id = 2;
  inode_table_start_cluster = 2;
  inode_table_size_clusters = 1;
  data_start_cluster = 3;
}

pub small_superblock-InRange : InRange small_superblock
small_superblock-InRange = record {
  magic = omega arith;
  total_clusters = omega arith;
  root_inode_id = omega arith;
  inode_table_start_cluster = omega arith;
  inode_table_size_clusters = omega arith;
  data_start_cluster = omega arith;
}

pub four_slots-InRange :
    (j : ℕ) → j < 4 → (w : ℕ) → w < 21 → word_of_inode (four_slots.inode_table j) w < 2 ^ 32
unfolding word_of_inode
four_slots-InRange j hj w hw = ground arith

-- An open file whose four slots hold the clusters 0, 1, 2 and 3, of which slot 1 is the oldest.
abbrev pub full_cache : FileDescriptor
full_cache = record {
  is_open = true;
  inode_id = 1;
  type = 0;
  current_position = 0;
  cached_file_size = 10;
  allow_read = true;
  allow_write = true;
  cached_logical_indices = λ j. j;
  cached_buffers = λ j. zeros;
  cache_slot_dirty = λ j. false;
  cache_access_timestamp = λ j. if j == 1 then 3 else j + 4;
  cache_timestamp_counter = 9;
  cache_valid_count = 4;
}

pub full_cache-IsCoherent : IsCoherent full_cache
full_cache-IsCoherent = record { fits = omega arith; distinct = λ i j hi hj e. e }

abbrev pub session : Session memory
session = record {
  disk = blank_disk;
  bitmap = two_used;
  index = record four_slots { inode_table = λ j. small_file };
  file = full_cache;
}

-- Descriptor 3 is open and no other is.
abbrev pub table : Context memory
table = record {
  disk = blank_disk;
  bitmap = two_used;
  index = record four_slots { inode_table = λ j. small_file };
  root_inode_id = 2;
  open_files = λ j. if j == 3 then full_cache else record full_cache { is_open = false };
}
