-- ===== src/Superblock.antt =====
-- include/fs/types.h, fs_superblock_t, and src/storage/superblock.c. The structure is six numbers of
-- four bytes each.
pub mod Roundtrip
use simple_file_system.Base.{
  lift_result, ℕ, zero, suc, ◌+◌, ◌-◌, ◌*◌, ◌/◌, ◌%◌, ◌^◌, ◌<◌, ◌≤◌, ◌≡◌, ◌≢◌, ◌⊎◌, refl, sym, ap,
  ◌∙◌, fun_ext, inl, inr, Bool, true, false, not, ◌&&◌, ◌||◌, Option, none, some, List, [], ◌∷◌,
  ◌++◌, arith, Bytes, zeros, copy, store, AreBytes, u32_at, set_u32, byte_of_u32, Status,
  file_access, invalid_argument, out_of_bounds, memory_allocation, read_only, no_space, Result, ok,
  err, Exec, pure, fail, reject_if, continue, ◌>>=◌, ◌>>◌, bind-ok, ltb, leb, ◌==◌, if◌then◌else◌,
  Bool-cases, ltb→lt, lt→ltb, le→ltb, le→leb, lt→leb, ==→eq, ==-ne, ==-refl, ne→==, lt_or_le, min,
  max,
}
use simple_file_system.Config.{magic_number, inode_count, cluster_size}
use simple_file_system.Platform.{Stdio}
use simple_file_system.Disk.{Disk, read_cluster, write_cluster}

-- fs_superblock_t
pub record Superblock : Type 0 where
  pub magic : ℕ
  pub total_clusters : ℕ
  pub root_inode_id : ℕ
  pub inode_table_start_cluster : ℕ
  pub inode_table_size_clusters : ℕ
  pub data_start_cluster : ℕ

-- sizeof(fs_inode_t)
abbrev pub inode_bytes : ℕ
inode_bytes = 84

-- fs_superblock_initialize
unfoldable pub initialize : ℕ → Result Superblock
initialize total_cluster_count =
    if total_cluster_count == 0
    then err invalid_argument
    else let total_inode_bytes = inode_count * inode_bytes in
      let size = (total_inode_bytes + cluster_size - 1) / cluster_size % 2 ^ 32 in
      ok (record {
        magic = magic_number;
        total_clusters = total_cluster_count;
        root_inode_id = 0;
        inode_table_start_cluster = 2;
        inode_table_size_clusters = size;
        data_start_cluster = (2 + size) % 2 ^ 32;
      })

-- fs_superblock_validate
unfoldable pub validate : Superblock → Result (Unit {0})
validate s = if not (s.magic == magic_number) then err invalid_argument else ok tt

-- `memcpy(cluster_buffer, superblock, sizeof(fs_superblock_t))` into zeros
unfoldable pub to_cluster : Superblock → Bytes
unfolding set_u32
to_cluster s =
    set_u32
      (set_u32
        (set_u32 (set_u32 (set_u32 (set_u32 zeros 0 s.magic) 1 s.total_clusters) 2 s.root_inode_id)
          3 s.inode_table_start_cluster)
        4 s.inode_table_size_clusters)
      5 s.data_start_cluster

-- `memcpy(superblock, cluster_buffer, sizeof(fs_superblock_t))`
unfoldable pub of_cluster : Bytes → Superblock
unfolding u32_at
of_cluster b = record {
  magic = u32_at b 0;
  total_clusters = u32_at b 1;
  root_inode_id = u32_at b 2;
  inode_table_start_cluster = u32_at b 3;
  inode_table_size_clusters = u32_at b 4;
  data_start_cluster = u32_at b 5;
}

module _ (io : Stdio) where
  -- fs_superblock_read_from_disk. The structure is filled also where its magic is wrong; the result
  -- that matters to a caller is the one of an accepted structure.
  unfoldable pub read_from_disk : Exec (Disk io) Superblock
  unfolding of_cluster validate
  read_from_disk = do
    cluster_buffer ← read_cluster io 0
    let s = of_cluster cluster_buffer
    lift_result (validate s)
    pure s

  -- fs_superblock_write_to_disk
  unfoldable pub write_to_disk : Superblock → Exec (Disk io) (Unit {0})
  unfolding to_cluster
  write_to_disk s = write_cluster io 0 (to_cluster s)
