-- ===== src/Superblock/Roundtrip.antt =====
-- The superblock of src/storage/superblock.c on the disk.
use simple_file_system.Base.{
  ℕ, ◌^◌, ◌<◌, ◌≡◌, ◌∙◌, false, arith, Bytes, u32_at, u32_word, u32_at-agree, invalid_argument, ok,
  err, ◌==◌, if◌then◌else◌,
}
use simple_file_system.Config.{magic_number, cluster_size}
use simple_file_system.Platform.{Stdio, IsFile, IsReliable}
use simple_file_system.Disk.{Disk, write_cluster}
use simple_file_system.Disk.Laws.{
  read_cluster-ok, write_cluster-ok, write_cluster-SameShape, read_cluster-total,
  write_cluster-total,
}
use simple_file_system.Superblock.{
  Superblock, validate, to_cluster, of_cluster, read_from_disk, write_to_disk,
}

-- Every field fits in a `uint32_t`.
pub record InRange (s : Superblock) : Type 0 where
  pub magic : s.magic < 2 ^ 32
  pub total_clusters : s.total_clusters < 2 ^ 32
  pub root_inode_id : s.root_inode_id < 2 ^ 32
  pub inode_table_start_cluster : s.inode_table_start_cluster < 2 ^ 32
  pub inode_table_size_clusters : s.inode_table_size_clusters < 2 ^ 32
  pub data_start_cluster : s.data_start_cluster < 2 ^ 32

-- Buffers that agree in a cluster hold the same superblock.
of_cluster-same :
    (b c : Bytes) → ((i : ℕ) → i < cluster_size → b i ≡ c i) → of_cluster b ≡ of_cluster c
unfolding of_cluster u32_at
of_cluster-same b c same = λ i. record {
  magic = u32_at-agree b c cluster_size 0 same (omega arith) i;
  total_clusters = u32_at-agree b c cluster_size 1 same (omega arith) i;
  root_inode_id = u32_at-agree b c cluster_size 2 same (omega arith) i;
  inode_table_start_cluster = u32_at-agree b c cluster_size 3 same (omega arith) i;
  inode_table_size_clusters = u32_at-agree b c cluster_size 4 same (omega arith) i;
  data_start_cluster = u32_at-agree b c cluster_size 5 same (omega arith) i;
}

of_cluster-to_cluster : (s : Superblock) → InRange s → of_cluster (to_cluster s) ≡ s
unfolding of_cluster to_cluster
of_cluster-to_cluster s r = λ i. record {
  magic = u32_word s.magic r.magic i;
  total_clusters = u32_word s.total_clusters r.total_clusters i;
  root_inode_id = u32_word s.root_inode_id r.root_inode_id i;
  inode_table_start_cluster = u32_word s.inode_table_start_cluster r.inode_table_start_cluster i;
  inode_table_size_clusters = u32_word s.inode_table_size_clusters r.inode_table_size_clusters i;
  data_start_cluster = u32_word s.data_start_cluster r.data_start_cluster i;
}

module _ (io : Stdio) (file : IsFile io) (reliable : IsReliable io) where
  -- On a medium where no call fails, a superblock that is written to a writable disk is read back as
  -- it was if its magic is right, and is refused if it is not.
  pub read-write :
      (s : Superblock) (d : Disk io)
      → InRange s
      → d.is_read_only ≡ false
      → 0 < d.total_cluster_count
      → let (wrote, d') = write_to_disk io s d in
        (wrote ≡ ok tt)
        × ((read_from_disk io d').0
            ≡ (if s.magic == magic_number then ok s else err invalid_argument))
  unfolding write_to_disk read_from_disk validate
  read-write s d r w h =
      let d' = (write_cluster io 0 (to_cluster s) d).1 in
      let wrote = write_cluster-total io reliable d 0 (to_cluster s) w h in
      let shape = write_cluster-SameShape io d 0 (to_cluster s) in
      let (b, read) = read_cluster-total io reliable d' 0 (rw shape.same_count h) in
      let same : of_cluster b ≡ s =
        of_cluster-same b (to_cluster s) (λ i lt.
          read_cluster-ok io file d' 0 i read lt
          ∙ write_cluster-ok io file d 0 i (to_cluster s) wrote lt)
        ∙ of_cluster-to_cluster s r in
      (wrote, rw (read, same) (ground arith))
