-- ===== src/Checks/Insertion.antt =====
-- What is written and read again, at concrete states.
use simple_file_system.Base.{
  none, ◌+◌, ◌%◌, ◌≡◌, refl, ap, some, List, [], ◌∷◌, arith, Bytes, zeros, ok,
}
use simple_file_system.Index.{read_inode, write_inode}
use simple_file_system.Disk.{read_cluster, write_cluster}
use simple_file_system.Alloc.{Work, resolve_cluster}
use simple_file_system.Alloc.Files.{read_data, write_data}
use simple_file_system.Alloc.Readback.{read_data-write_data}
use simple_file_system.Base.Text.{same, length, before}
use simple_file_system.Dir.{
  remove_first, Dentry, dentry_create, dot, dot_dot, total_size, fill_entries,
}
use simple_file_system.Dir.Names.{assign}
use simple_file_system.Dir.Table.{
  remove_entry, open_entries, insert_entry, find_entry, load_entries, read_directory,
}
use simple_file_system.Dir.Search.{lookup}
use simple_file_system.Dir.Lookup.{find_entry-insert_entry, find_entry-remove_entry}
use simple_file_system.Checks.{memory, memory_file, work}
use simple_file_system.Checks.Sorting.{simple, simple-IsStdlib}
use simple_file_system.Checks.Directory.{
  opened_directory, opens_entries, not_fixed, a_is_1, name_a, name_b, entries, names,
  entries-IsTable, with_directory, read_inode_0, loaded, reads_directory, is_directory,
  loads_entries, valid_b, no_b,
}

abbrev source : Bytes
source i = i % 256

writes : (write_data memory 20 source 10 work).0 ≡ ok 10
unfolding write_data resolve_cluster read_cluster write_cluster
writes = refl

reads : (read_data memory 20 10 ((write_data memory 20 source 10 work).1, zeros)).0 ≡ ok 10
unfolding write_data read_data resolve_cluster read_cluster write_cluster
reads = refl

read_data-write_data_example :
    (read_data memory 20 10 ((write_data memory 20 source 10 work).1, zeros)).1.1 7 ≡ source 7
read_data-write_data_example =
    read_data-write_data memory memory_file work 20 source zeros 10 10 10 7 (λ q. omega arith)
      (omega arith) writes reads (omega arith)

abbrev with_b : Work memory
with_b = (insert_entry memory simple 0 name_b 3 with_directory).1

abbrev four_entries : List Dentry
four_entries =
    dentry_create 0 dot
    ∷ dentry_create 0 dot_dot
    ∷ dentry_create 1 name_a
    ∷ dentry_create 3 name_b
    ∷ []

abbrev opened_again : Work memory
opened_again = (open_entries memory simple 0 with_b).1

inserts : (insert_entry memory simple 0 name_b 3 with_directory).0 ≡ ok tt
unfolding insert_entry read_inode resolve_cluster read_cluster before write_cluster write_inode
inserts = refl

opens_again : (open_entries memory simple 0 with_b).0 ≡ ok four_entries
unfolding open_entries insert_entry read_inode resolve_cluster read_cluster before write_cluster
    write_inode
opens_again = refl

owns : loaded.inode.id ≡ 0
unfolding load_entries read_directory read_inode resolve_cluster read_cluster fill_entries
owns = refl

holds : loaded.inode.direct_clusters 0 ≡ 2
unfolding load_entries read_directory read_inode resolve_cluster read_cluster fill_entries
holds = refl

room : total_size entries + (dentry_create 3 name_b).record_length ≡ 48
unfolding total_size dentry_create length
room = refl

find_entry-insert_entry_example :
    find_entry memory simple 0 name_a with_b
    ≡ (lookup (assign name_b (some 3) names name_a), opened_again)
find_entry-insert_entry_example =
    find_entry-insert_entry memory memory_file simple simple-IsStdlib 0 name_b name_a 3 names
      entries four_entries with_directory read_inode_0 loaded with_b opened_again reads_directory
      is_directory loads_entries owns (λ q. omega (arith, holds)) entries-IsTable
      (omega (arith, room)) valid_b (omega arith, tt) no_b (omega arith)
      (ap (λ r. (r, with_b)) inserts) (ap (λ r. (r, opened_again)) opens_again)

abbrev without_a : Work memory
without_a = (remove_entry memory simple 0 name_a with_directory).1

abbrev two_entries : List Dentry
two_entries = dentry_create 0 dot ∷ dentry_create 0 dot_dot ∷ []

abbrev opened_without : Work memory
opened_without = (open_entries memory simple 0 without_a).1

removes : (remove_entry memory simple 0 name_a with_directory).0 ≡ ok tt
unfolding remove_entry read_inode resolve_cluster read_cluster before write_cluster write_inode
removes = refl

opens_without : (open_entries memory simple 0 without_a).0 ≡ ok two_entries
unfolding open_entries remove_entry read_inode resolve_cluster read_cluster before write_cluster
    write_inode
opens_without = refl

owns_opened : opened_directory.inode.id ≡ 0
unfolding open_entries read_directory read_inode resolve_cluster read_cluster fill_entries
owns_opened = refl

holds_opened : opened_directory.inode.direct_clusters 0 ≡ 2
unfolding open_entries read_directory read_inode resolve_cluster read_cluster fill_entries
holds_opened = refl

room_before : total_size entries ≡ 36
unfolding total_size dentry_create length
room_before = refl

left : total_size (remove_first name_a entries) ≡ 24
unfolding total_size remove_first dentry_create length same
left = refl

find_entry-remove_entry_example :
    find_entry memory simple 0 name_a without_a
    ≡ (lookup (assign name_a none names name_a), opened_without)
find_entry-remove_entry_example =
    find_entry-remove_entry memory memory_file simple simple-IsStdlib 0 name_a name_a 1 names
      entries two_entries with_directory opened_directory without_a opened_without opens_entries
      owns_opened (λ q. omega (arith, holds_opened)) entries-IsTable (omega (arith, room_before))
      (omega (arith, left)) not_fixed a_is_1 (ap (λ r. (r, without_a)) removes)
      (ap (λ r. (r, opened_without)) opens_without)
