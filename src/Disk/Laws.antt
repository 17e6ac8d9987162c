-- ===== src/Disk/Laws.antt =====
-- What a file's promises give for the clusters of src/storage/disk.c.
use simple_file_system.Base.{false, ℕ, ◌+◌, ◌*◌, ◌<◌, ◌≡◌, ◌≢◌, ap, Bytes, ok, arith}
use simple_file_system.Config.{cluster_size}
use simple_file_system.Platform.{Stdio, IsFile, IsReliable}
use simple_file_system.Disk.{Disk, read_cluster, write_cluster}

module _ (io : Stdio) (file : IsFile io) where
  open io use {seek_set, fread, fwrite}
  open file use {
    contents, position, contents-seek, position-seek, contents-fread, fread_bytes, fwrite_bytes,
    fwrite_before, fwrite_after,
  }

  -- Byte `i` of cluster `c`, as the file holds it.
  unfoldable pub cluster : Disk io → ℕ → Bytes
  cluster d c i = contents d.file_stream (c * cluster_size + i)

  contents-read_cluster :
      (d : Disk io) (c : ℕ) → contents (read_cluster io c d).1.file_stream ≡ contents d.file_stream
  unfolding read_cluster
  contents-read_cluster d c =
      let s = (seek_set d.file_stream (c * cluster_size)).1 in
      ground (arith, contents-seek d.file_stream (c * cluster_size), contents-fread s cluster_size)

  -- A read, also one that fails, leaves every cluster as it is.
  pub cluster-read_cluster : (d : Disk io) (c : ℕ) → cluster (read_cluster io c d).1 ≡ cluster d
  unfolding cluster
  cluster-read_cluster d c =
      ap (λ (f : Bytes). λ (k i : ℕ). f (k * cluster_size + i)) (contents-read_cluster d c)

  -- A read that succeeds returns the bytes of the cluster.
  pub read_cluster-ok :
      (d : Disk io) (c i : ℕ) {b : Bytes}
      → (read_cluster io c d).0 ≡ ok b
      → i < cluster_size
      → b i ≡ cluster d c i
  unfolding read_cluster cluster
  read_cluster-ok d c i e h =
      let s = (seek_set d.file_stream (c * cluster_size)).1 in
      ground (
        arith,
        contents-seek d.file_stream (c * cluster_size),
        position-seek d.file_stream (c * cluster_size),
        fread_bytes s cluster_size i,
      )

  -- A write that succeeds has stored the bytes.
  pub write_cluster-ok :
      (d : Disk io) (c i : ℕ) (b : Bytes)
      → (write_cluster io c b d).0 ≡ ok tt
      → i < cluster_size
      → cluster (write_cluster io c b d).1 c i ≡ b i
  unfolding write_cluster cluster
  write_cluster-ok d c i b e h =
      let s = (seek_set d.file_stream (c * cluster_size)).1 in
      ground
        (arith, position-seek d.file_stream (c * cluster_size), fwrite_bytes s b cluster_size i)

  -- A write, also one that fails, leaves the other clusters as they are.
  pub write_cluster-other :
      (d : Disk io) (c k i : ℕ) (b : Bytes)
      → k ≢ c
      → i < cluster_size
      → cluster (write_cluster io c b d).1 k i ≡ cluster d k i
  unfolding write_cluster cluster
  write_cluster-other d c k i b ne h =
      let s = (seek_set d.file_stream (c * cluster_size)).1 in
      ground (
        arith,
        contents-seek d.file_stream (c * cluster_size),
        position-seek d.file_stream (c * cluster_size),
        fwrite_before s b cluster_size (k * cluster_size + i),
        fwrite_after s b cluster_size (k * cluster_size + i),
      )

-- What a call leaves alone, and when it cannot fail.
module _ (io : Stdio) where
  -- The size and the mode of a disk never change.
  pub record SameShape (d e : Disk io) : Type 0 where
    pub same_count : e.total_cluster_count ≡ d.total_cluster_count
    pub same_mode : e.is_read_only ≡ d.is_read_only

  pub read_cluster-SameShape : (d : Disk io) (c : ℕ) → SameShape d (read_cluster io c d).1
  unfolding read_cluster
  read_cluster-SameShape d c = ground arith

  pub write_cluster-SameShape :
      (d : Disk io) (c : ℕ) (b : Bytes) → SameShape d (write_cluster io c b d).1
  unfolding write_cluster
  write_cluster-SameShape d c b = ground arith

  module _ (reliable : IsReliable io) where
    open reliable use {seek_succeeds, fread_succeeds, fwrite_succeeds}

    pub read_cluster-total :
        (d : Disk io) (c : ℕ)
        → c < d.total_cluster_count
        → (b : Bytes) × ((read_cluster io c d).0 ≡ ok b)
    unfolding read_cluster
    read_cluster-total d c h =
        let s = (io.seek_set d.file_stream (c * cluster_size)).1 in
        (
          (io.fread s cluster_size).0,
          ground (
            arith,
            seek_succeeds d.file_stream (c * cluster_size),
            fread_succeeds s cluster_size,
          ),
        )

    pub write_cluster-total :
        (d : Disk io) (c : ℕ) (b : Bytes)
        → d.is_read_only ≡ false
        → c < d.total_cluster_count
        → (write_cluster io c b d).0 ≡ ok tt
    unfolding write_cluster
    write_cluster-total d c b w h =
        let s = (io.seek_set d.file_stream (c * cluster_size)).1 in
        ground
          (arith, seek_succeeds d.file_stream (c * cluster_size), fwrite_succeeds s b cluster_size)
