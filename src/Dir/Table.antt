-- ===== src/Dir/Table.antt =====
-- src/logical/dir.c: the operations on a directory. The inode of the state is the local
-- `directory_inode` of the source.
use simple_file_system.Base.{
  ℕ, ◌%◌, ◌^◌, Bool, true, false, not, ◌&&◌, ◌||◌, Option, none, some, List, [], ◌∷◌, ◌++◌, Bytes,
  zeros, file_access, invalid_argument, out_of_bounds, memory_allocation, Result, ok, err, Exec,
  pure, reject_if, lift_result, ◌>>=◌, ◌>>◌, ltb, leb, ◌==◌, if◌then◌else◌,
}
use simple_file_system.Base.Text.{Text, length, same}
use simple_file_system.Platform.{Stdio}
use simple_file_system.Index.{Index, type_directory, read_inode, write_inode}
use simple_file_system.Alloc.{Work, on_index}
use simple_file_system.Alloc.Files.{read_data, write_data, clusters_of_size}
use simple_file_system.Dir.{
  Dentry, dentry_create, parse_entries, total_size, fill_entries, find_name, update_first,
  remove_first, rename_first, dot, dot_dot, validate_name, Site, directory_buffer, entry_array,
  parsed_entry, write_buffer, longer_array, new_entry, Stdlib,
}

-- Whether a search has found something.
abbrev pub is_found : Option ℕ → Bool
is_found none = false
is_found (some id) = true

-- The guard of the names that every directory has.
abbrev pub is_fixed : Text → Bool
is_fixed name = same name dot || same name dot_dot

-- The end of fs_dir_find_entry.
abbrev pub found_id : Option Dentry → Result ℕ
found_id none = err out_of_bounds
found_id (some e) = ok e.inode_id

-- The calls of the callback of fs_dir_list_entries: name, inode id and type.
unfoldable pub listing : Index → List Dentry → List (Text × ℕ × ℕ)
unfolding read_inode
listing x [] = []
listing x (e ∷ es) = elim (read_inode x e.inode_id) [
  | ok child ↦ (e.name, e.inode_id, child.type) ∷ listing x es
  | err _ ↦ listing x es
]

-- The entries of a directory that has just been made.
abbrev pub first_entries : (own_id parent_id : ℕ) → List Dentry
first_entries own_id parent_id = dentry_create own_id dot ∷ dentry_create parent_id dot_dot ∷ []

module _ (io : Stdio) (lib : Stdlib) where
  abbrev pub need : Site → Exec (Work io) (Unit {0})
  need site = reject_if (not (lib.has_memory site)) memory_allocation

  -- `fs_inode_t directory_inode = {0}` and fs_index_read_inode
  unfoldable pub read_directory : ℕ → Exec (Work io) (Unit {0})
  read_directory id w = elim (read_inode w.index id) [
    | ok n ↦ (ok tt, record w { inode = n })
    | err e ↦ (err e, w)
  ]

  -- fs_alloc_read_data from byte 0 into a buffer of zeros: the bytes and how many were read.
  unfoldable pub read_from_start : (bytes_to_read : ℕ) → Exec (Work io) (Bytes × ℕ)
  unfolding read_data
  read_from_start bytes_to_read w =
      let (r, (w', buffer)) = read_data io 0 bytes_to_read (w, zeros) in
      elim r [ ok n ↦ (ok (buffer, n), w') | err e ↦ (err e, w') ]

  -- The part of load_and_parse_directory_entries after its early return.
  unfoldable pub load_bytes : (size : ℕ) → Exec (Work io) (List Dentry)
  unfolding read_from_start parse_entries
  load_bytes size = do
    need directory_buffer
    (buffer, bytes_read) ← read_from_start size
    reject_if (not (bytes_read == size)) file_access
    need entry_array
    let es = parse_entries size buffer
    reject_if (ltb 0 (length es) && not (lib.has_memory parsed_entry)) memory_allocation
    pure (lib.qsort es)

  -- load_and_parse_directory_entries
  unfoldable pub load_entries : Exec (Work io) (List Dentry)
  unfolding load_bytes
  load_entries w = if w.inode.size == 0 then (ok [], w) else load_bytes w.inode.size w

  -- The end of save_directory_entries.
  unfoldable pub set_size : ℕ → Exec (Work io) (Unit {0})
  set_size bytes_written w =
      let size = bytes_written % 2 ^ 32 in
      (
        ok tt,
        record w {
          inode = record w.inode { size = size; cluster_count = clusters_of_size io size };
        },
      )

  unfoldable pub store_inode : Exec (Work io) (Unit {0})
  unfolding on_index
  store_inode w = on_index io (write_inode w.inode) w

  -- save_directory_entries
  unfoldable pub save_entries : List Dentry → Exec (Work io) (Unit {0})
  unfolding write_data fill_entries total_size set_size store_inode
  save_entries es = do
    need write_buffer
    bytes_written ← write_data io 0 (fill_entries es 0 zeros) (total_size es)
    reject_if (not (bytes_written == total_size es)) file_access
    set_size bytes_written
    store_inode

  -- `if (directory_inode.type != FS_TYPE_DIRECTORY)`
  unfoldable pub require_directory : Exec (Work io) (Unit {0})
  require_directory w = reject_if (not (w.inode.type == type_directory)) invalid_argument w

  -- The entries of a directory, once its inode is read.
  unfoldable pub open_entries : (directory_inode_id : ℕ) → Exec (Work io) (List Dentry)
  unfolding read_directory load_entries
  open_entries directory_inode_id = read_directory directory_inode_id >> load_entries

  -- fs_dir_insert_entry
  unfoldable pub insert_entry :
      (directory_inode_id : ℕ) (entry_name : Text) (target_inode_id : ℕ) → Exec (Work io) (Unit {0})
  unfolding validate_name read_directory require_directory load_entries find_name dentry_create
      save_entries
  insert_entry directory_inode_id entry_name target_inode_id = do
    lift_result (validate_name entry_name)
    read_directory directory_inode_id
    require_directory
    es ← load_entries
    reject_if (is_found (find_name entry_name es)) invalid_argument
    need longer_array
    need new_entry
    save_entries (lib.qsort (es ++ (dentry_create target_inode_id entry_name ∷ [])))

  -- fs_dir_update_entry_inode
  unfoldable pub update_entry_inode :
      (directory_inode_id : ℕ) (entry_name : Text) (new_target_inode_id : ℕ)
      → Exec (Work io) (Unit {0})
  unfolding open_entries find_name update_first save_entries
  update_entry_inode directory_inode_id entry_name new_target_inode_id = do
    es ← open_entries directory_inode_id
    reject_if (not (is_found (find_name entry_name es))) out_of_bounds
    save_entries (update_first entry_name new_target_inode_id es)

  -- fs_dir_remove_entry
  unfoldable pub remove_entry :
      (directory_inode_id : ℕ) (entry_name : Text) → Exec (Work io) (Unit {0})
  unfolding same open_entries find_name remove_first save_entries
  remove_entry directory_inode_id entry_name = do
    reject_if (is_fixed entry_name) invalid_argument
    es ← open_entries directory_inode_id
    reject_if (not (is_found (find_name entry_name es))) out_of_bounds
    save_entries (remove_first entry_name es)

  -- fs_dir_find_entry
  unfoldable pub find_entry : (directory_inode_id : ℕ) (entry_name : Text) → Exec (Work io) ℕ
  unfolding open_entries
  find_entry directory_inode_id entry_name = do
    es ← open_entries directory_inode_id
    lift_result (found_id (lib.bsearch entry_name es))

  -- fs_dir_list_entries
  unfoldable pub list_entries : (directory_inode_id : ℕ) → Exec (Work io) (List (Text × ℕ × ℕ))
  unfolding open_entries listing
  list_entries directory_inode_id = do
    es ← open_entries directory_inode_id
    λ w. (ok (listing w.index es), w)

  -- fs_dir_create_new
  unfoldable pub create_new :
      (new_directory_inode_id parent_directory_inode_id : ℕ) → Exec (Work io) (Unit {0})
  unfolding read_directory require_directory fill_entries total_size write_data store_inode
  create_new new_directory_inode_id parent_directory_inode_id = do
    read_directory new_directory_inode_id
    require_directory
    need new_entry
    need write_buffer
    let es = first_entries new_directory_inode_id parent_directory_inode_id
    bytes_written ← write_data io 0 (fill_entries es 0 zeros) (total_size es)
    store_inode

  -- fs_dir_rename_entry
  unfoldable pub rename_entry :
      (directory_inode_id : ℕ) (old_name new_name : Text) → Exec (Work io) (Unit {0})
  unfolding same validate_name open_entries find_name rename_first save_entries
  rename_entry directory_inode_id old_name new_name = do
    reject_if (is_fixed old_name) invalid_argument
    lift_result (validate_name new_name)
    es ← open_entries directory_inode_id
    reject_if (not (is_found (find_name old_name es))) out_of_bounds
    reject_if (is_found (find_name new_name es)) invalid_argument
    need new_entry
    save_entries (lib.qsort (rename_first old_name new_name es))

  -- fs_dir_is_empty
  unfoldable pub is_empty : (directory_inode_id : ℕ) → Exec (Work io) Bool
  unfolding open_entries length
  is_empty directory_inode_id = do es ← open_entries directory_inode_id; pure (leb (length es) 2)
