-- ===== src/Vfs/Open.antt =====
-- src/vfs/context.c: opening a file, and closing all of them.
use simple_file_system.Base.{
  false, zeros, memory_allocation, ℕ, zero, suc, ◌+◌, Bool, true, not, ◌&&◌, none, Option, some,
  Result, invalid_argument, out_of_bounds, ok, err, Exec, pure, fail, reject_if, ◌>>=◌, ◌>>◌, ◌==◌,
  if◌then◌else◌,
}
use simple_file_system.Base.Bits.{bit_at}
use simple_file_system.Base.Integer.{pos}
use simple_file_system.Base.Text.{Text}
use simple_file_system.Disk.{Disk}
use simple_file_system.Bitmap.{Bitmap}
use simple_file_system.Platform.{Stdio}
use simple_file_system.Index.{Index, Inode, type_regular, allocate_inode, free_inode}
use simple_file_system.Alloc.Files.{truncate_file}
use simple_file_system.Dir.{Stdlib}
use simple_file_system.Dir.Table.{insert_entry}
use simple_file_system.Vfs.{
  Context, FileDescriptor, set_at, on_work, on_directories, on_inodes, get_inode,
}
use simple_file_system.Vfs.Files.{max_open_files, find_free_descriptor, close}
use simple_file_system.Vfs.Path.{resolve_path, resolve_parent_and_name}
use simple_file_system.Vfs.Operations.{cleanup, drop_inode, truncate}

-- FS_OPEN_READ_ONLY, FS_OPEN_WRITE_ONLY, FS_OPEN_APPEND, FS_OPEN_CREATE and FS_OPEN_TRUNCATE, by the
-- number of the bit.
pub record OpenFlags : Type 0 where
  pub is_read_mode : Bool
  pub is_write_mode : Bool
  pub is_append_mode : Bool
  pub is_create_mode : Bool
  pub is_truncate_mode : Bool

abbrev pub flags_of : ℕ → OpenFlags
flags_of open_flags = record {
  is_read_mode = bit_at open_flags 0 == 1;
  is_write_mode = bit_at open_flags 1 == 1;
  is_append_mode = bit_at open_flags 2 == 1;
  is_create_mode = bit_at open_flags 3 == 1;
  is_truncate_mode = bit_at open_flags 4 == 1;
}

-- What fs_vfs_open writes into a descriptor.
abbrev pub opened : OpenFlags → (id : ℕ) → Inode → FileDescriptor → FileDescriptor
opened flags id inode file = record file {
  is_open = true;
  inode_id = id;
  type = inode.type;
  cached_file_size = inode.size;
  allow_read = flags.is_read_mode;
  allow_write = flags.is_write_mode;
  cache_valid_count = 0;
  cache_timestamp_counter = 0;
  current_position = if flags.is_append_mode then inode.size else 0;
}

-- A descriptor as `calloc` leaves it.
abbrev pub blank_file : FileDescriptor
blank_file = record {
  is_open = false;
  inode_id = 0;
  type = 0;
  current_position = 0;
  cached_file_size = 0;
  allow_read = false;
  allow_write = false;
  cached_logical_indices = λ k. 0;
  cached_buffers = λ k. zeros;
  cache_slot_dirty = λ k. false;
  cache_access_timestamp = λ k. 0;
  cache_timestamp_counter = 0;
  cache_valid_count = 0;
}

-- fs_vfs_create_context
unfoldable pub create_context :
    (io : Stdio) (got_memory : Bool) (disk : Disk io) (bitmap : Bitmap) (index : Index)
    (root_inode_id : ℕ)
    → Result (Context io)
create_context io got_memory disk bitmap index root_inode_id =
    if not got_memory
    then err memory_allocation
    else ok (record {
      disk = disk;
      bitmap = bitmap;
      index = index;
      open_files = λ k. blank_file;
      root_inode_id = root_inode_id;
    })

module _ (io : Stdio) (lib : Stdlib) where
  -- The part of fs_vfs_open that makes the file.
  unfoldable pub create_file : Text → Exec (Context io) ℕ
  unfolding resolve_parent_and_name on_inodes allocate_inode cleanup on_directories insert_entry
      free_inode
  create_file file_path = do
    (parent_id, name) ← resolve_parent_and_name io lib file_path
    new_id ← on_inodes io (allocate_inode type_regular)
    cleanup (on_directories io (insert_entry io lib parent_id name new_id))
        (drop_inode io lib new_id)
    pure new_id

  -- `if (resolve_status != FS_STATUS_OK)` the file is made, if that is allowed.
  unfoldable pub or_create : (is_create_mode : Bool) → Text → Result ℕ → Exec (Context io) ℕ
  unfolding create_file
  or_create is_create_mode file_path (ok id) = pure id
  or_create is_create_mode file_path (err e) =
      if not is_create_mode then fail e else create_file file_path

  -- The inode of the path, which is made if it is missing and that is allowed.
  unfoldable pub open_target : (is_create_mode : Bool) → Text → Exec (Context io) ℕ
  unfolding resolve_path or_create
  open_target is_create_mode file_path v =
      let (r, v') = resolve_path io lib file_path v in or_create is_create_mode file_path r v'

  -- The descriptor that was found, if any, is filled.
  unfoldable pub fill_descriptor : OpenFlags → (id : ℕ) → Inode → Option ℕ → Exec (Context io) ℕ
  fill_descriptor flags id inode none v = (err out_of_bounds, v)
  fill_descriptor flags id inode (some k) v = (
    ok k,
    record v { open_files = set_at v.open_files k (opened flags id inode (v.open_files k)) },
  )

  -- The end of fs_vfs_open, on the inode as it is then.
  unfoldable pub take_descriptor : OpenFlags → (id : ℕ) → Inode → Exec (Context io) ℕ
  unfolding find_free_descriptor fill_descriptor
  take_descriptor flags id inode v =
      fill_descriptor flags id inode (find_free_descriptor v.open_files) v

  -- fs_vfs_open, with its flags read
  unfoldable pub open_with : OpenFlags → Text → Exec (Context io) ℕ
  unfolding open_target get_inode on_work truncate_file take_descriptor
  open_with flags file_path = do
    reject_if (not flags.is_read_mode && not flags.is_write_mode) invalid_argument
    id ← open_target flags.is_create_mode file_path
    inode ← get_inode io id
    reject_if (not (inode.type == type_regular)) invalid_argument
    inode' ←
        if flags.is_truncate_mode && flags.is_write_mode then truncate io lib inode else pure inode
    take_descriptor flags id inode'

  -- fs_vfs_open
  unfoldable pub open_file : Text → (open_flags : ℕ) → Exec (Context io) ℕ
  unfolding bit_at open_with
  open_file file_path open_flags = open_with (flags_of open_flags) file_path

  -- The loop of fs_vfs_destroy_context, with `rounds` descriptors left.
  unfoldable pub close_from : (rounds descriptor_index : ℕ) → Context io → Context io
  unfolding close
  close_from zero k v = v
  close_from (suc rounds) k v =
      let closed = (close io (pos k) v).1 in
      close_from rounds (k + 1) (if (v.open_files k).is_open then closed else v)

  -- fs_vfs_destroy_context
  unfoldable pub close_all : Context io → Context io
  unfolding close_from
  close_all v = close_from max_open_files 0 v
