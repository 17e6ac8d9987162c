-- ===== src/Checks/Contents.antt =====
-- The theorems on the contents of files at concrete states.
use simple_file_system.Base.{ℕ, ◌+◌, ◌*◌, ◌<◌, ◌≤◌, ◌≡◌, ◌≢◌, refl, true, arith, zeros, store, ok}
use simple_file_system.Config.{direct_pointers}
use simple_file_system.Disk.{write_cluster, read_cluster}
use simple_file_system.Bitmap.{IsValid, find_free_cluster, mark_cluster_used, is_cluster_free}
use simple_file_system.Base.Bits.{bit_at}
use simple_file_system.Index.{write_inode}
use simple_file_system.Alloc.{allocate_and_zero_cluster, resolve_cluster}
use simple_file_system.Alloc.Allocate.{Outcome, allocate-Outcome, clusters}
use simple_file_system.Alloc.Files.{read_data, write_data, truncate_file}
use simple_file_system.Alloc.Grow.{Grows}
use simple_file_system.Alloc.Growth.{write_data-Growth}
use simple_file_system.Alloc.Transfer.{write_data-ok}
use simple_file_system.Alloc.Truncate.{emptied, truncate_file-Empties}
use simple_file_system.Checks.{
  memory, memory_file, two_used, two_used-IsValid, four_slots, small_file, work,
}

allocate_example :
    let (r, w') = allocate_and_zero_cluster memory work in Outcome memory memory_file work r w'
allocate_example = allocate-Outcome memory memory_file work two_used-IsValid

write_data-Growth_example :
    Grows memory memory_file work (λ _. Unit {0}) (write_data memory 4094 zeros 3 work).1
write_data-Growth_example = write_data-Growth memory memory_file work 4094 zeros 3 two_used-IsValid

short_write : (write_data memory 4094 zeros 3 work).0 ≡ ok 3
unfolding write_data resolve_cluster read_cluster write_cluster find_free_cluster store bit_at
    mark_cluster_used
short_write = refl

write_data-ok_example :
    let inode = (write_data memory 4094 zeros 3 work).1.inode in
    (◌≡◌ {A = ℕ} 3 3)
    × (inode.size ≡ 4097)
    × (inode.size ≤ inode.cluster_count * 4096)
    × (inode.cluster_count * 4096 < inode.size + 4096)
    × (inode.id ≡ 1)
    × (inode.type ≡ 0)
    × (inode.link_count ≡ 1)
write_data-ok_example =
    write_data-ok memory memory_file work 4094 zeros 3 3 two_used-IsValid (omega arith)
      (omega arith) short_write

short_read : (read_data memory 4 20 (work, zeros)).0 ≡ ok 6
unfolding read_data resolve_cluster read_cluster
short_read = refl

truncate_file_example :
    let w' = (truncate_file memory work).1 in
    (w'.inode ≡ emptied small_file)
    × ((truncate_file memory work).0 ≡ (write_inode (emptied small_file) four_slots).0)
    × (w'.index ≡ (write_inode (emptied small_file) four_slots).1)
    × IsValid w'.bitmap
    × (clusters memory memory_file w' ≡ clusters memory memory_file work)
    × ((j : ℕ) → is_cluster_free two_used j ≡ true → is_cluster_free w'.bitmap j ≡ true)
    × ((j : ℕ)
        → j < direct_pointers
        → small_file.direct_clusters j ≢ 0
        → small_file.direct_clusters j < 16
        → is_cluster_free w'.bitmap (small_file.direct_clusters j) ≡ true)
truncate_file_example = truncate_file-Empties memory memory_file work two_used-IsValid
