-- ===== src/Vfs/Files.antt =====
-- src/vfs/context.c: the table of open files, closing and seeking.
pub mod Flush
pub mod Seek
pub mod Free
use simple_file_system.Base.{
  ℕ, zero, suc, ◌+◌, ◌-◌, ◌*◌, ◌/◌, ◌%◌, ◌^◌, ◌<◌, ◌≤◌, ◌≡◌, ◌≢◌, ◌⊎◌, refl, sym, ap, ◌∙◌, fun_ext,
  inl, inr, Bool, true, false, not, ◌&&◌, ◌||◌, Option, none, some, List, [], ◌∷◌, ◌++◌, arith,
  Bytes, zeros, copy, store, AreBytes, u32_at, set_u32, byte_of_u32, u32_word, u32_at-agree,
  u32_at_of_bytes, u32_at-set_u32, u32_at-set_u32_ne, Status, file_access, invalid_argument,
  out_of_bounds, memory_allocation, read_only, no_space, Result, ok, err, Exec, pure, fail,
  reject_if, lift_result, continue, ◌>>=◌, ◌>>◌, bind-ok, ltb, leb, ◌==◌, if◌then◌else◌, Bool-cases,
  ltb→lt, lt→ltb, le→ltb, le→leb, lt→leb, ==→eq, ==-ne, ==-refl, ne→==, lt_or_le, min, max,
}
use simple_file_system.Base.Integer.{ℤ, pos, negsuc, ◌+ℤ◌}
use simple_file_system.Config.{cluster_size}
use simple_file_system.Platform.{Stdio}
use simple_file_system.Disk.{Disk}
use simple_file_system.Bitmap.{Bitmap}
use simple_file_system.Index.{Inode, Index, read_inode}
use simple_file_system.Vfs.{Context, FileDescriptor, Session, set_at, on_file}
use simple_file_system.Vfs.Cache.{store_inode, flush_all, flush_and_invalidate}

-- FS_MAX_OPEN_FILES
abbrev pub max_open_files : ℕ
max_open_files = 64

-- The `origin` of fs_vfs_seek, and any other number.
pub data Origin : Type 0 where
  from_start from_current from_end other_origin : Origin

-- The `switch` of fs_vfs_seek.
unfoldable pub new_position : FileDescriptor → ℤ → Origin → Result ℤ
new_position file offset from_start = ok offset
new_position file offset from_current = ok (pos file.current_position +ℤ offset)
new_position file offset from_end = ok (pos file.cached_file_size +ℤ offset)
new_position file offset other_origin = err invalid_argument

-- The loop of vfs_find_free_descriptor, with `rounds` descriptors left; -1 is `none`.
unfoldable pub free_from : (ℕ → FileDescriptor) → (rounds descriptor_index : ℕ) → Option ℕ
free_from open_files zero descriptor_index = none
free_from open_files (suc rounds) descriptor_index =
    let rest = free_from open_files rounds (descriptor_index + 1) in
    if not ((open_files descriptor_index).is_open) then some descriptor_index else rest

-- vfs_find_free_descriptor
unfoldable pub find_free_descriptor : (ℕ → FileDescriptor) → Option ℕ
unfolding free_from
find_free_descriptor open_files = free_from open_files max_open_files 0

module _ (io : Stdio) where
  -- A call on the descriptor at an index of the table.
  unfoldable pub at_descriptor : {A : Type 0} → ℕ → Exec (Session io) A → Exec (Context io) A
  at_descriptor k m v =
      let (r, s) =
        m (record { disk = v.disk; bitmap = v.bitmap; index = v.index; file = v.open_files k }) in
      (
        r,
        record {
          disk = s.disk;
          bitmap = s.bitmap;
          index = s.index;
          open_files = set_at v.open_files k s.file;
          root_inode_id = v.root_inode_id;
        },
      )

  -- The guards on the number of a descriptor, and on the descriptor.
  unfoldable pub on_descriptor :
      {A : Type 0} (accepts : FileDescriptor → Bool) → ℤ → Exec (Session io) A → Exec (Context io) A
  unfolding at_descriptor
  on_descriptor accepts (negsuc n) m v = (err invalid_argument, v)
  on_descriptor accepts (pos k) m v =
      if leb max_open_files k
      then (err invalid_argument, v)
      else if not (accepts (v.open_files k))
      then (err invalid_argument, v)
      else at_descriptor k m v

  -- The guards with which fs_vfs_close and fs_vfs_seek begin.
  unfoldable pub on_open_file : {A : Type 0} → ℤ → Exec (Session io) A → Exec (Context io) A
  unfolding on_descriptor
  on_open_file = on_descriptor (λ file. file.is_open)

  -- vfs_sync_inode_size
  unfoldable pub sync_inode_size : Exec (Session io) (Unit {0})
  unfolding store_inode
  sync_inode_size s =
      (do
        inode ← lift_result (read_inode s.index s.file.inode_id)
        store_inode io (record inode { size = s.file.cached_file_size }))
        s

  -- fs_vfs_close, after its guards
  unfoldable pub close_file : Exec (Session io) (Unit {0})
  unfolding flush_all sync_inode_size on_file
  close_file = do
    flush_all io
    sync_inode_size
    on_file io (λ file. record file { is_open = false })

  -- fs_vfs_close
  unfoldable pub close : ℤ → Exec (Context io) (Unit {0})
  unfolding on_open_file close_file
  close file_descriptor = on_open_file file_descriptor close_file

  -- The end of fs_vfs_seek, at a position that is not negative.
  unfoldable pub move_to : ℕ → Exec (Session io) (Unit {0})
  unfolding flush_and_invalidate on_file
  move_to position s =
      let target = position % 2 ^ 32 in
      let same_cluster = s.file.current_position / cluster_size == target / cluster_size in
      ((if same_cluster then pure tt else flush_and_invalidate io)
          >> on_file io (λ file. record file { current_position = target }))
        s

  -- fs_vfs_seek, at the position of its `switch`
  unfoldable pub seek_to : Result ℤ → Exec (Session io) (Unit {0})
  unfolding move_to
  seek_to (err e) = fail e
  seek_to (ok (negsuc n)) = fail out_of_bounds
  seek_to (ok (pos position)) = move_to position

  -- fs_vfs_seek, after its guards
  unfoldable pub seek_file : ℤ → Origin → Exec (Session io) (Unit {0})
  unfolding new_position seek_to
  seek_file offset origin s = seek_to (new_position s.file offset origin) s

  -- fs_vfs_seek
  unfoldable pub seek : ℤ → ℤ → Origin → Exec (Context io) (Unit {0})
  unfolding on_open_file seek_file
  seek file_descriptor offset origin = on_open_file file_descriptor (seek_file offset origin)
