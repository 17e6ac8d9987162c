-- ===== src/Vfs/Operations.antt =====
-- src/vfs/operations.c: what is asked of a path.
use simple_file_system.Base.{
  ℕ, zero, suc, ◌+◌, ◌%◌, ◌^◌, Bool, false, not, ◌&&◌, ◌||◌, none, some, [], ◌∷◌, invalid_argument,
  Result, ok, err, Exec, pure, fail, reject_if, ◌>>=◌, ◌>>◌, ◌==◌, if◌then◌else◌,
}
use simple_file_system.Base.Text.{Text, length, same, take, char_at}
use simple_file_system.Config.{max_filename_length}
use simple_file_system.Platform.{Stdio}
use simple_file_system.Index.{
  Inode, type_directory, type_symlink, write_inode, allocate_inode, free_inode,
}
use simple_file_system.Alloc.Files.{write_data, truncate_file, clusters_of_size}
use simple_file_system.Dir.{Stdlib, dot_dot}
use simple_file_system.Dir.Table.{
  insert_entry, update_entry_inode, remove_entry, find_entry, create_new, is_empty,
}
use simple_file_system.Vfs.{Context, FileDescriptor, on_work, on_directories, on_inodes, get_inode}
use simple_file_system.Vfs.Files.{max_open_files}
use simple_file_system.Vfs.Path.{
  slash, resolve_path, split_last, resolve_parent_and_name, read_link,
}

-- The loop of vfs_is_inode_open, with `rounds` descriptors left.
unfoldable pub open_from : (ℕ → FileDescriptor) → (target rounds descriptor_index : ℕ) → Bool
open_from open_files target zero k = false
open_from open_files target (suc rounds) k =
    (open_files k).is_open && (open_files k).inode_id == target
    || open_from open_files target rounds (k + 1)

-- vfs_is_inode_open
unfoldable pub is_inode_open : (ℕ → FileDescriptor) → ℕ → Bool
unfolding open_from
is_inode_open open_files target_inode_id = open_from open_files target_inode_id max_open_files 0

-- What is done when a call has failed, before its status is returned.
unfoldable pub or_undo : {S A : Type 0} → (S → S) → Result A → Exec S A
or_undo undo (ok a) s = (ok a, s)
or_undo undo (err e) s = (err e, undo s)

unfoldable pub cleanup : {S A : Type 0} → Exec S A → (S → S) → Exec S A
unfolding or_undo
cleanup m undo s = let (r, s') = m s in or_undo undo r s'

-- The new parent of fs_vfs_rename.
unfoldable pub parent_path : Text → Text
parent_path [] = slash ∷ []
parent_path (c ∷ s) = c ∷ s

-- `snprintf(updated_target, ..., "../%s", symlink_target)`
abbrev pub one_level_up : Text → Text
one_level_up target = 46 ∷ 46 ∷ slash ∷ target

-- `if (symlink_target[0] != '/')`
unfoldable pub is_relative : Text → Bool
unfolding char_at
is_relative target = not (char_at target 0 == slash)

module _ (io : Stdio) (lib : Stdlib) where
  -- fs_alloc_truncate_file on a local inode, and what is left of the inode.
  abbrev pub truncate : Inode → Exec (Context io) Inode
  truncate inode = do (_, emptied) ← on_work io inode (truncate_file io); pure emptied

  -- `if (vfs_is_inode_open(vfs_context, inode_id))`
  unfoldable pub reject_open : ℕ → Exec (Context io) (Unit {0})
  unfolding is_inode_open
  reject_open id v = reject_if (is_inode_open v.open_files id) invalid_argument v

  -- The id of a path without its last symbolic link followed, with its parent and its name.
  unfoldable pub locate : Text → Exec (Context io) (ℕ × Text × ℕ)
  unfolding resolve_parent_and_name on_directories find_entry
  locate file_path = do
    (parent_inode_id, name) ← resolve_parent_and_name io lib file_path
    target_inode_id ← on_directories io (find_entry io lib parent_inode_id name)
    pure (parent_inode_id, name, target_inode_id)

  -- fs_vfs_get_info
  unfoldable pub get_info : Text → Exec (Context io) Inode
  unfolding resolve_path get_inode
  get_info file_path = resolve_path io lib file_path >>= get_inode io

  -- fs_vfs_get_info_no_follow
  unfoldable pub get_info_no_follow : Text → Exec (Context io) Inode
  unfolding locate get_inode
  get_info_no_follow file_path = do
    (parent_inode_id, name, target_inode_id) ← locate file_path
    get_inode io target_inode_id

  -- fs_vfs_remove
  unfoldable pub remove : Text → Exec (Context io) (Unit {0})
  unfolding locate reject_open get_inode on_directories remove_entry on_work truncate_file on_inodes
      free_inode
  remove file_path = do
    (parent_inode_id, name, target_inode_id) ← locate file_path
    reject_open target_inode_id
    inode ← get_inode io target_inode_id
    reject_if (inode.type == type_directory) invalid_argument
    on_directories io (remove_entry io lib parent_inode_id name)
    truncate inode
    on_inodes io (free_inode target_inode_id)

  -- The new parent and the new name of fs_vfs_rename.
  unfoldable pub new_place : Text → Exec (Context io) (ℕ × Text)
  unfolding split_last length parent_path take resolve_path
  new_place new_path = elim (split_last new_path) [
    | none ↦ fail invalid_argument
    | some (parent, name) ↦ (do
      reject_if (length name == 0) invalid_argument
      new_parent_inode_id ← resolve_path io lib (parent_path parent)
      pure (new_parent_inode_id, take max_filename_length name))
  ]

  -- The bytes of an inode's file, as a string of at most 1023 characters.
  abbrev text_of : Inode → Exec (Context io) Text
  text_of = read_link io lib

  -- What fs_vfs_rename writes into a relative symbolic link.
  unfoldable pub rewrite_link : Inode → Text → Exec (Context io) (Unit {0})
  unfolding on_work truncate_file write_data char_at length on_inodes write_inode
  rewrite_link inode target = do
    emptied ← truncate inode
    let updated = one_level_up target
    (bytes_written, written) ←
        on_work io emptied (write_data io 0 (char_at updated) (length updated + 1))
    on_inodes io (write_inode (record written { size = bytes_written % 2 ^ 32 }))

  -- The part of fs_vfs_rename for a symbolic link that goes to another directory.
  unfoldable pub move_link : Inode → (old_parent new_parent : Inode) → Exec (Context io) (Unit {0})
  unfolding read_link same is_relative rewrite_link
  move_link inode old_parent new_parent = do
    old_text ← text_of old_parent
    new_text ← text_of new_parent
    if same old_text new_text then pure tt else do
      target ← text_of inode
      if is_relative target then rewrite_link inode target else pure tt

  -- The part of fs_vfs_rename for a symbolic link.
  unfoldable pub rename_link :
      Inode → (old_parent_id new_parent_id : ℕ) → Exec (Context io) (Unit {0})
  unfolding get_inode move_link
  rename_link inode old_parent_id new_parent_id = do
    old_parent ← get_inode io old_parent_id
    new_parent ← get_inode io new_parent_id
    if not (old_parent_id == new_parent_id) then move_link inode old_parent new_parent else pure tt

  -- The part of fs_vfs_rename for a directory.
  abbrev rename_directory : (id new_parent_id : ℕ) → Exec (Context io) (Unit {0})
  rename_directory id new_parent_id =
      on_directories io (update_entry_inode io lib id dot_dot new_parent_id)

  -- fs_vfs_rename
  unfoldable pub rename : (old_path new_path : Text) → Exec (Context io) (Unit {0})
  unfolding resolve_parent_and_name new_place on_directories find_entry get_inode update_entry_inode
      rename_link remove_entry insert_entry
  rename old_path new_path = do
    (old_parent_id, old_name) ← resolve_parent_and_name io lib old_path
    (new_parent_id, new_name) ← new_place new_path
    target_id ← on_directories io (find_entry io lib old_parent_id old_name)
    inode ← get_inode io target_id
    if inode.type == type_directory then rename_directory target_id new_parent_id else pure tt
    if inode.type == type_symlink then rename_link inode old_parent_id new_parent_id else pure tt
    on_directories io (remove_entry io lib old_parent_id old_name)
    on_directories io (insert_entry io lib new_parent_id new_name target_id)

  -- `(void)fs_index_free_inode(...)`
  abbrev pub drop_inode : ℕ → Context io → Context io
  drop_inode id v = (on_inodes io (free_inode id) v).1

  -- `(void)fs_alloc_truncate_file(...)`
  abbrev pub drop_file : Inode → Context io → Context io
  drop_file inode v = (on_work io inode (truncate_file io) v).1

  -- fs_vfs_create_directory
  unfoldable pub create_directory : Text → Exec (Context io) (Unit {0})
  unfolding resolve_parent_and_name on_inodes allocate_inode cleanup on_directories create_new
      free_inode insert_entry
  create_directory directory_path = do
    (parent_id, name) ← resolve_parent_and_name io lib directory_path
    new_id ← on_inodes io (allocate_inode type_directory)
    cleanup (on_directories io (create_new io lib new_id parent_id)) (drop_inode new_id)
    on_directories io (insert_entry io lib parent_id name new_id)

  -- fs_vfs_remove_directory
  unfoldable pub remove_directory : Text → Exec (Context io) (Unit {0})
  unfolding locate reject_open on_directories is_empty remove_entry on_inodes free_inode
  remove_directory directory_path = do
    (parent_id, name, target_id) ← locate directory_path
    reject_open target_id
    empty ← on_directories io (is_empty io lib target_id)
    reject_if (not empty) invalid_argument
    on_directories io (remove_entry io lib parent_id name)
    on_inodes io (free_inode target_id)

  -- The inode of a symbolic link, once its target is written.
  abbrev with_target : (target_length : ℕ) → Inode → Inode
  with_target target_length inode =
      let size = (target_length + 1) % 2 ^ 32 in
      record inode { size = size; cluster_count = clusters_of_size io size }

  -- The part of fs_vfs_create_symlink from the allocation of the inode on.
  unfoldable pub make_link :
      (parent_id : ℕ) (name target_path : Text) → Exec (Context io) (Unit {0})
  unfolding on_inodes allocate_inode cleanup get_inode on_work write_data char_at length write_inode
      on_directories insert_entry truncate_file free_inode
  make_link parent_id name target_path = do
    new_id ← on_inodes io (allocate_inode type_symlink)
    inode ← cleanup (get_inode io new_id) (drop_inode new_id)
    (n, written) ←
        cleanup (on_work io inode (write_data io 0 (char_at target_path) (length target_path + 1)))
          (drop_inode new_id)
    let link = with_target (length target_path) written
    let undo : Context io → Context io = λ v. drop_inode new_id (drop_file link v)
    cleanup (on_inodes io (write_inode link)) undo
    cleanup (on_directories io (insert_entry io lib parent_id name new_id)) undo

  -- fs_vfs_create_symlink
  unfoldable pub create_symlink : (target_path link_path : Text) → Exec (Context io) (Unit {0})
  unfolding resolve_parent_and_name on_directories find_entry make_link
  create_symlink target_path link_path = do
    (parent_id, name) ← resolve_parent_and_name io lib link_path
    λ v.
        let (r, v') = on_directories io (find_entry io lib parent_id name) v in
        elim r [
          | ok _ ↦ (err invalid_argument, v')
          | err _ ↦ make_link parent_id name target_path v'
        ]
