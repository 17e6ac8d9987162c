-- ===== src/Checks/Directory.antt =====
-- The theorems on directories at a directory of three entries.
use simple_file_system.Base.{
  ℕ, ◌^◌, ◌<◌, ◌≡◌, refl, ap, true, false, not, none, some, List, [], ◌∷◌, arith, zeros, copy,
  invalid_argument, out_of_bounds, ok, err, ◌==◌, if◌then◌else◌,
}
use simple_file_system.Base.Text.{Text, same, length, before}
use simple_file_system.Index.{
  Index, new_inode, empty_inode, read_inode, type_directory, type_regular,
}
use simple_file_system.Alloc.{Work, resolve_cluster}
use simple_file_system.Disk.{read_cluster}
use simple_file_system.Dir.{
  Dentry, dentry_create, dot, dot_dot, find_name, validate_name, total_size, fill_entries,
  parse_entries,
}
use simple_file_system.Dir.Names.{IsDistinct, Names, assign}
use simple_file_system.Dir.Roundtrip.{IsEntry, AreEntries, parse_entries-fill}
use simple_file_system.Dir.Tables.{IsTable, dentry_create-IsEntry}
use simple_file_system.Dir.Table.{
  read_directory, load_entries, open_entries, save_entries, insert_entry, remove_entry, find_entry,
  rename_entry, is_fixed, is_found,
}
use simple_file_system.Dir.Search.{lookup, find_entry-finds}
use simple_file_system.Dir.Runs.{insert_entry-inserts, remove_entry-removes, rename_entry-renames}
use simple_file_system.Checks.{memory, two_used}
use simple_file_system.Checks.Sorting.{simple, simple-IsStdlib}

-- "a" and "b"
abbrev pub name_a : Text
name_a = 97 ∷ []

abbrev pub name_b : Text
name_b = 98 ∷ []

abbrev pub entries : List Dentry
entries = dentry_create 0 dot ∷ dentry_create 0 dot_dot ∷ dentry_create 1 name_a ∷ []

abbrev pub names : Names
names name = find_name name entries

character-IsEntry : (id : ℕ) (c : ℕ) → id < 2 ^ 32 → 0 < c → IsEntry (dentry_create id (c ∷ []))
unfolding length
character-IsEntry id c h p = dentry_create-IsEntry id (c ∷ []) ((p, tt), omega arith) h

entries-AreEntries : AreEntries entries
unfolding length
entries-AreEntries = (
  character-IsEntry 0 46 (omega arith) (omega arith),
  (
    dentry_create-IsEntry 0 dot_dot ((omega arith, (omega arith, tt)), omega arith) (omega arith),
    (character-IsEntry 1 97 (omega arith) (omega arith), tt),
  ),
)

entries-IsDistinct : IsDistinct entries
unfolding IsDistinct find_name dentry_create same
entries-IsDistinct = (refl, (refl, (refl, tt)))

pub entries-IsTable : IsTable entries names
entries-IsTable = record {
  represents = (entries-IsDistinct, λ name. refl);
  are_entries = entries-AreEntries;
}

-- A directory in cluster 2, and an empty file.
abbrev pub two_inodes : Index
two_inodes = record {
  inode_table = λ j.
      if j == 0
      then (record (new_inode 0 type_directory) {
        size = 36;
        cluster_count = 1;
        direct_clusters = λ i. if i == 0 then 2 else 0;
      })
      else if j == 1
      then new_inode 1 type_regular
      else empty_inode j;
  total_inodes = 4;
  start_cluster = 2;
  table_size_clusters = 1;
  is_dirty = true;
}

abbrev pub with_directory : Work memory
with_directory = record {
  disk = record {
    file_stream = (copy zeros 8192 (fill_entries entries 0 zeros) 0 36, 0);
    total_cluster_count = 16;
    is_read_only = false;
  };
  bitmap = two_used;
  index = two_inodes;
  inode = empty_inode 0;
}

abbrev pub opened_directory : Work memory
opened_directory = (open_entries memory simple 0 with_directory).1

reads_entries : (open_entries memory simple 0 with_directory).0 ≡ ok entries
unfolding open_entries read_inode resolve_cluster read_cluster fill_entries before
reads_entries = refl

pub opens_entries : open_entries memory simple 0 with_directory ≡ (ok entries, opened_directory)
opens_entries = ap (λ r. (r, opened_directory)) reads_entries

-- The same, in the two steps of fs_dir_insert_entry.
abbrev pub read_inode_0 : Work memory
read_inode_0 = (read_directory memory simple 0 with_directory).1

abbrev pub loaded : Work memory
loaded = (load_entries memory simple read_inode_0).1

pub reads_directory : read_directory memory simple 0 with_directory ≡ (ok tt, read_inode_0)
unfolding read_directory read_inode
reads_directory = refl

pub is_directory : (read_inode_0.inode.type == type_directory) ≡ true
unfolding read_directory read_inode
is_directory = refl

loads : (load_entries memory simple read_inode_0).0 ≡ ok entries
unfolding load_entries read_directory read_inode resolve_cluster read_cluster fill_entries before
loads = refl

pub loads_entries : load_entries memory simple read_inode_0 ≡ (ok entries, loaded)
loads_entries = ap (λ r. (r, loaded)) loads

pub valid_b : validate_name name_b ≡ ok tt
unfolding validate_name
valid_b = refl

pub no_b : names name_b ≡ none
unfolding find_name dentry_create same
no_b = refl

pub a_is_1 : names name_a ≡ some 1
unfolding find_name dentry_create same
a_is_1 = refl

pub not_fixed : is_fixed name_a ≡ false
unfolding same
not_fixed = refl

insert_entry-inserts_example :
    (new : List Dentry) × IsTable new (assign name_b (some 3) names)
    × (insert_entry memory simple 0 name_b 3 with_directory ≡ save_entries memory simple new loaded)
insert_entry-inserts_example =
    insert_entry-inserts memory simple 0 name_b 3 names entries with_directory read_inode_0 loaded
      simple-IsStdlib reads_directory is_directory loads_entries entries-IsTable valid_b
      (omega arith, tt) no_b (omega arith)

rename_entry-renames_example :
    (new : List Dentry) × IsTable new (assign name_b (some 1) (assign name_a none names))
    × (rename_entry memory simple 0 name_a name_b with_directory
        ≡ save_entries memory simple new opened_directory)
rename_entry-renames_example =
    rename_entry-renames memory simple 0 name_a name_b 1 names entries with_directory
      opened_directory simple-IsStdlib opens_entries entries-IsTable not_fixed valid_b
      (omega arith, tt) a_is_1 no_b

remove_entry-removes_example :
    (new : List Dentry) × IsTable new (assign name_a none names)
    × (remove_entry memory simple 0 name_a with_directory ≡ (
        if is_fixed name_a
        then (err invalid_argument, with_directory)
        else if not (is_found (names name_a))
        then (err out_of_bounds, opened_directory)
        else save_entries memory simple new opened_directory))
remove_entry-removes_example =
    remove_entry-removes memory simple 0 name_a names entries with_directory opened_directory
      opens_entries entries-IsTable

find_entry-finds_example :
    find_entry memory simple 0 name_a with_directory ≡ (lookup (names name_a), opened_directory)
find_entry-finds_example =
    find_entry-finds memory simple simple-IsStdlib 0 name_a names entries with_directory
      opened_directory opens_entries entries-IsTable.represents

parse_entries-fill_example :
    parse_entries (total_size entries) (fill_entries entries 0 zeros) ≡ entries
parse_entries-fill_example = parse_entries-fill entries zeros entries-AreEntries
