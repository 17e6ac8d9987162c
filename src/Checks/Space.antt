-- ===== src/Checks/Space.antt =====
-- The theorems on clusters, marks, superblock and inodes at concrete states.
use simple_file_system.Bitmap.Search.{IsFirstFree, find_free_cluster-IsFirstFree}
use simple_file_system.Bitmap.{find_free_cluster}
use simple_file_system.Base.{ℕ, ◌<◌, ◌≡◌, refl, false, arith, ok}
use simple_file_system.Bitmap.{
  find_contiguous_free, is_cluster_free, serialize_to_disk, deserialize_from_disk,
}
use simple_file_system.Bitmap.Runs.{IsFirstRun, find_contiguous_free-IsFirstRun}
use simple_file_system.Bitmap.Persist.{deserialize-serialize}
use simple_file_system.Superblock.{write_to_disk, read_from_disk}
use simple_file_system.Superblock.Roundtrip.{read-write}
use simple_file_system.Index.{flush, load_from_disk, allocate_inode}
use simple_file_system.Index.Slots.{Allocated, allocate_inode-Allocated}
use simple_file_system.Index.Persist.{SameInode, load-flush}
use simple_file_system.Checks.{
  memory, memory_file, memory_reliable, two_used, two_used-IsValid, none_used, none_used-IsValid,
  blank_disk, bitmap_room, four_slots, small_superblock, small_superblock-InRange,
  four_slots-InRange,
}

find_contiguous_free_example : IsFirstRun two_used 3 (find_contiguous_free two_used 3)
find_contiguous_free_example = find_contiguous_free-IsFirstRun two_used 3 (omega arith)

deserialize-serialize_example :
    let (wrote, d') = serialize_to_disk memory two_used blank_disk in
    let (read, (got, _)) = deserialize_from_disk memory (none_used, d') in
    (wrote ≡ ok tt)
    × (read ≡ ok tt)
    × ((c : ℕ) → is_cluster_free got c ≡ is_cluster_free two_used c)
deserialize-serialize_example =
    deserialize-serialize memory memory_file memory_reliable two_used none_used blank_disk
      two_used-IsValid none_used-IsValid refl bitmap_room

read-write_example :
    let (wrote, d') = write_to_disk memory small_superblock blank_disk in
    (wrote ≡ ok tt) × ((read_from_disk memory d').0 ≡ ok small_superblock)
read-write_example =
    read-write memory memory_file memory_reliable small_superblock blank_disk
      small_superblock-InRange refl (omega arith)

load-flush_example :
    let (wrote, (x', d')) = flush memory (four_slots, blank_disk) in
    let (read, (got, _)) = load_from_disk memory (four_slots, d') in
    (wrote ≡ ok tt)
    × (read ≡ ok tt)
    × (x'.is_dirty ≡ false)
    × ((j : ℕ) → j < 4 → SameInode (got.inode_table j) (four_slots.inode_table j))
load-flush_example =
    load-flush memory memory_file memory_reliable four_slots four_slots blank_disk refl refl refl
      four_slots-InRange (record { writable = refl; room = omega arith })

allocate_inode_example : let (r, x') = allocate_inode 1 four_slots in Allocated four_slots 1 r x'
allocate_inode_example = allocate_inode-Allocated four_slots 1

find_free_cluster_example : IsFirstFree two_used (find_free_cluster two_used)
find_free_cluster_example = find_free_cluster-IsFirstFree two_used two_used-IsValid
