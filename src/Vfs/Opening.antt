-- ===== src/Vfs/Opening.antt =====
-- src/vfs/context.c: what opening a file does to the table of open files.
use simple_file_system.Base.{
  ℕ, ◌≡◌, true, not, ◌&&◌, some, invalid_argument, ok, Exec, pure, ◌==◌, if◌then◌else◌, ◌≢◌,
  reject_if, ◌>>=◌, ◌>>◌,
}
use simple_file_system.Base.Keeps.{Keeps}
use simple_file_system.Base.Text.{Text}
use simple_file_system.Platform.{Stdio}
use simple_file_system.Index.{Inode, type_regular, read_inode}
use simple_file_system.Dir.{Stdlib}
use simple_file_system.Vfs.{Context, FileDescriptor, get_inode}
use simple_file_system.Vfs.Files.{find_free_descriptor}
use simple_file_system.Vfs.Operations.{truncate}
use simple_file_system.Vfs.Open.{OpenFlags, open_target, take_descriptor}
use simple_file_system.Vfs.Descriptors.{HasFiles}

module _ (io : Stdio) (lib : Stdlib) (open_files : ℕ → FileDescriptor) (root_inode_id : ℕ) where
  abbrev Same : Context io → Type 0
  Same = HasFiles io lib open_files root_inode_id

-- A descriptor of a file just opened: it is open, allows what was asked for, has no cluster in its slots,
-- and is at the start of the file, or at its end if it is to append.
pub record IsFilled (flags : OpenFlags) (id : ℕ) (inode : Inode) (file : FileDescriptor)
    : Type 0 where
  pub is_open : file.is_open ≡ true
  pub on_inode : file.inode_id ≡ id
  pub has_type : file.type ≡ inode.type
  pub has_size : file.cached_file_size ≡ inode.size
  pub reads : file.allow_read ≡ flags.is_read_mode
  pub writes : file.allow_write ≡ flags.is_write_mode
  pub no_slots : file.cache_valid_count ≡ 0
  pub position : file.current_position ≡ (if flags.is_append_mode then inode.size else 0)

module _ (io : Stdio) (lib : Stdlib) where
  -- The inode that is left of one that is opened.
  abbrev leave : OpenFlags → Inode → Exec (Context io) Inode
  leave flags inode =
      if flags.is_truncate_mode && flags.is_write_mode then truncate io lib inode else pure inode

  -- The descriptor at `k` was free and is filled now, for the inode that the path leads to in `v`,
  -- truncated if it is to be, and no other is changed.
  pub record IsOpened (flags : OpenFlags) (path : Text) (k : ℕ) (v v' : Context io) : Type 0 where
    pub id : ℕ
    pub leads : (open_target io lib flags.is_create_mode path v).0 ≡ ok id
    pub inode : Inode
    pub informs : read_inode (open_target io lib flags.is_create_mode path v).1.index id ≡ ok inode
    pub is_regular : inode.type ≡ type_regular
    pub left : Inode
    pub leaves : (leave flags inode (open_target io lib flags.is_create_mode path v).1).0 ≡ ok left
    pub was_free : find_free_descriptor v.open_files ≡ some k
    pub filled : IsFilled flags id left (v'.open_files k)
    pub others : (j : ℕ) → j ≢ k → v'.open_files j ≡ v.open_files j

  -- What the last step of fs_vfs_open does to the table of open files.
  record Takes (flags : OpenFlags) (id : ℕ) (left : Inode) (open_files : ℕ → FileDescriptor) (k : ℕ)
      (v' : Context io) : Type 0 where
    was_free : find_free_descriptor open_files ≡ some k
    filled : IsFilled flags id left (v'.open_files k)
    others : (j : ℕ) → j ≢ k → v'.open_files j ≡ open_files j

  -- The rest of fs_vfs_open behind the path, and behind the inode.
  abbrev behind_inode : OpenFlags → ℕ → Inode → Exec (Context io) ℕ
  behind_inode flags id inode =
      reject_if (not (inode.type == type_regular)) invalid_argument
      >> (leave flags inode >>= λ left. take_descriptor io lib flags id left)

  abbrev behind_path : OpenFlags → ℕ → Exec (Context io) ℕ
  behind_path flags id = get_inode io id >>= λ inode. behind_inode flags id inode
