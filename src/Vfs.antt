-- ===== src/Vfs.antt =====
-- include/fs/vfs/internal.h: an open file of src/vfs, and the parts of the file system it works on.
pub mod Cache
pub mod Files
pub mod Path
pub mod Io
pub mod Operations
pub mod Open
pub mod Descriptors
pub mod Busy
pub mod Opening
pub mod Transfer
pub mod Writing
use simple_file_system.Base.{
  ◌>>=◌, pure, ℕ, Bool, Bytes, Result, ok, err, Exec, ◌==◌, if◌then◌else◌,
}
use simple_file_system.Platform.{Stdio}
use simple_file_system.Disk.{Disk}
use simple_file_system.Bitmap.{Bitmap}
use simple_file_system.Index.{empty_inode, read_inode, Inode, Index}
use simple_file_system.Alloc.{Work}

-- FS_CACHE_CLUSTER_COUNT
abbrev pub cache_cluster_count : ℕ
cache_cluster_count = 4

pub record FileDescriptor : Type 0 where
  pub is_open : Bool
  pub inode_id : ℕ
  pub type : ℕ
  pub current_position : ℕ
  pub cached_file_size : ℕ
  pub allow_read : Bool
  pub allow_write : Bool
  pub cached_logical_indices : ℕ → ℕ
  pub cached_buffers : ℕ → Bytes
  pub cache_slot_dirty : ℕ → Bool
  pub cache_access_timestamp : ℕ → ℕ
  pub cache_timestamp_counter : ℕ
  pub cache_valid_count : ℕ

-- `array[k] = a`
abbrev pub set_at : {A : Type 0} → (ℕ → A) → ℕ → A → ℕ → A
set_at array k a j = if j == k then a else array j

module _ (io : Stdio) where
  -- What a call on an open file works on: the disk, bitmap and index that the contexts of
  -- fs_vfs_context_t share, and the descriptor.
  pub record Session : Type 0 where
    pub disk : Disk io
    pub bitmap : Bitmap
    pub index : Index
    pub file : FileDescriptor

  -- A call of src/alloc on a local inode.
  unfoldable pub on_inode : {A : Type 0} → Inode → Exec (Work io) A → Exec Session (A × Inode)
  on_inode inode m s =
      let (r, w) =
        m (record { disk = s.disk; bitmap = s.bitmap; index = s.index; inode = inode }) in
      (
        elim r [ ok a ↦ ok (a, w.inode) | err e ↦ err e ],
        record s { disk = w.disk; bitmap = w.bitmap; index = w.index },
      )

  unfoldable pub on_file : (FileDescriptor → FileDescriptor) → Exec Session (Unit {0})
  on_file change s = (ok tt, record s { file = change s.file })

  -- struct fs_vfs_context, with what its contexts point at.
  pub record Context : Type 0 where
    pub disk : Disk io
    pub bitmap : Bitmap
    pub index : Index
    pub open_files : ℕ → FileDescriptor
    pub root_inode_id : ℕ

  -- A call of src/alloc or src/logical, on a local inode.
  unfoldable pub on_work : {A : Type 0} → Inode → Exec (Work io) A → Exec Context (A × Inode)
  on_work inode m v =
      let (r, w) =
        m (record { disk = v.disk; bitmap = v.bitmap; index = v.index; inode = inode }) in
      (
        elim r [ ok a ↦ ok (a, w.inode) | err e ↦ err e ],
        record v { disk = w.disk; bitmap = w.bitmap; index = w.index },
      )

  -- A call of src/logical, which has its own local inode.
  unfoldable pub on_directories : {A : Type 0} → Exec (Work io) A → Exec Context A
  unfolding on_work
  on_directories m = do (a, inode) ← on_work (empty_inode 0) m; pure a

  -- A call of src/metadata/index.c.
  unfoldable pub on_inodes : {A : Type 0} → Exec Index A → Exec Context A
  on_inodes m v = let (r, x) = m v.index in (r, record v { index = x })

  -- fs_index_read_inode
  unfoldable pub get_inode : ℕ → Exec Context Inode
  unfolding read_inode
  get_inode id v = (read_inode v.index id, v)
