-- ===== src/Alloc/Files.antt =====
-- src/alloc/alloc.c: reading, writing and truncating a file.
use simple_file_system.Base.{
  ℕ, zero, suc, ◌+◌, ◌-◌, ◌/◌, ◌%◌, ◌^◌, true, false, not, Bytes, zeros, copy, u32_at, ok, err,
  Exec, pure, ◌>>=◌, ◌>>◌, ltb, leb, ◌==◌, if◌then◌else◌,
}
use simple_file_system.Config.{cluster_size, direct_pointers}
use simple_file_system.Platform.{Stdio}
use simple_file_system.Disk.{read_cluster, write_cluster}
use simple_file_system.Index.{Inode, write_inode}
use simple_file_system.Alloc.{
  put_direct, put_single, put_double, put_triple, Work, on_disk, on_index, release, resolve_cluster,
  pointers_per_cluster,
}

-- How many of the `left` bytes stand in the cluster that byte `at` is in.
abbrev pub piece : ℕ → ℕ → ℕ
piece at left =
    let bytes_in_cluster = cluster_size - at % cluster_size in
    if ltb bytes_in_cluster left then bytes_in_cluster else left

module _ (io : Stdio) where
  -- The cluster that byte `at` of the file stands in.
  unfoldable pub fetch : (at : ℕ) → Exec (Work io) Bytes
  unfolding on_disk
  fetch at = do
    physical ← resolve_cluster io (at / cluster_size % 2 ^ 32) false
    on_disk io (read_cluster io physical)

  -- One round of the loop of fs_alloc_read_data: the state has the destination buffer too.
  unfoldable pub read_piece : (byte_offset total chunk_size : ℕ) → Exec (Work io × Bytes) (Unit {0})
  unfolding fetch copy
  read_piece byte_offset total chunk_size (w, destination) =
      let at = byte_offset + total in
      let (r, w') = fetch at w in
      elim r [
        | ok buffer ↦ (ok tt, (w', copy destination total buffer (at % cluster_size) chunk_size))
        | err e ↦ (err e, (w', destination))
      ]

  -- The loop, with at most `fuel` rounds left.
  unfoldable pub read_loop : (byte_offset bytes_to_copy fuel total : ℕ) → Exec (Work io × Bytes) ℕ
  unfolding read_piece
  read_loop byte_offset bytes_to_copy zero total = pure total
  read_loop byte_offset bytes_to_copy (suc fuel) total =
      if not (ltb total bytes_to_copy) then pure total else do
        let chunk_size = piece (byte_offset + total) (bytes_to_copy - total)
        read_piece byte_offset total chunk_size
        read_loop byte_offset bytes_to_copy fuel (total + chunk_size)

  -- fs_alloc_read_data; the number is `*bytes_actually_read`. A round moves at least a byte.
  unfoldable pub read_data : (byte_offset bytes_to_read : ℕ) → Exec (Work io × Bytes) ℕ
  unfolding read_loop
  read_data byte_offset bytes_to_read (w, destination) =
      if leb w.inode.size byte_offset
      then (ok 0, (w, destination))
      else let bytes_available = w.inode.size - byte_offset in
        let bytes_to_copy =
          if ltb bytes_available bytes_to_read then bytes_available else bytes_to_read in
        read_loop byte_offset bytes_to_copy bytes_to_copy 0 (w, destination)

  -- The size after the bytes below `at` are written: `(uint32_t)` cuts it.
  abbrev pub grown : ℕ → Inode → Inode
  grown at n = if ltb n.size at then record n { size = at % 2 ^ 32 } else n

  -- `if (byte_offset + total_bytes_written > inode->size)` the size is set.
  unfoldable pub grow_to : ℕ → Exec (Work io) (Unit {0})
  grow_to at w = (ok tt, record w { inode = grown at w.inode })

  -- `if (chunk_size < FS_CLUSTER_SIZE)` the cluster is read before its part is replaced.
  unfoldable pub old_bytes : (chunk_size physical : ℕ) → Exec (Work io) Bytes
  unfolding on_disk
  old_bytes chunk_size physical =
      if ltb chunk_size cluster_size then on_disk io (read_cluster io physical) else pure zeros

  -- One round of the loop of fs_alloc_write_data.
  unfoldable pub write_piece :
      (byte_offset : ℕ) (source : Bytes) (total chunk_size : ℕ) → Exec (Work io) (Unit {0})
  unfolding old_bytes on_disk copy grow_to
  write_piece byte_offset source total chunk_size = do
    let at = byte_offset + total
    physical ← resolve_cluster io (at / cluster_size % 2 ^ 32) true
    buffer ← old_bytes chunk_size physical
    on_disk io (write_cluster io physical (copy buffer (at % cluster_size) source total chunk_size))
    grow_to (at + chunk_size)

  -- The loop, with at most `fuel` rounds left.
  unfoldable pub write_loop :
      (byte_offset : ℕ) (source : Bytes) (bytes_to_write fuel total : ℕ) → Exec (Work io) ℕ
  unfolding write_piece
  write_loop byte_offset source bytes_to_write zero total = pure total
  write_loop byte_offset source bytes_to_write (suc fuel) total =
      if not (ltb total bytes_to_write) then pure total else do
        let chunk_size = piece (byte_offset + total) (bytes_to_write - total)
        write_piece byte_offset source total chunk_size
        write_loop byte_offset source bytes_to_write fuel (total + chunk_size)

  -- The number of clusters of a size. The sum is one of `uint32_t`.
  abbrev pub clusters_of_size : ℕ → ℕ
  clusters_of_size size = (size + cluster_size - 1) % 2 ^ 32 / cluster_size

  unfoldable pub set_cluster_count : Exec (Work io) (Unit {0})
  set_cluster_count w =
      (ok tt, record w { inode = record w.inode { cluster_count = clusters_of_size w.inode.size } })

  -- fs_alloc_write_data; the number is `*bytes_actually_written`.
  unfoldable pub write_data :
      (byte_offset : ℕ) (source : Bytes) (bytes_to_write : ℕ) → Exec (Work io) ℕ
  unfolding write_loop set_cluster_count
  write_data byte_offset source bytes_to_write = do
    total ← write_loop byte_offset source bytes_to_write bytes_to_write 0
    set_cluster_count
    pure total

  -- The loop of free_indirect_blocks over the pointers of a cluster, with `rounds` left.
  unfoldable pub each_pointer :
      (ℕ → Work io → Work io) → Bytes → (rounds index : ℕ) → Work io → Work io
  unfolding u32_at
  each_pointer free pointers zero index w = w
  each_pointer free pointers (suc rounds) index w =
      let pointer = u32_at pointers index in
      each_pointer free pointers rounds (index + 1) (if pointer == 0 then w else free pointer w)

  -- The body of free_indirect_blocks: `free` is what is done to each pointer of the cluster.
  unfoldable pub free_block : (ℕ → Work io → Work io) → ℕ → Work io → Work io
  unfolding each_pointer on_disk release
  free_block free indirect w =
      if indirect == 0
      then w
      else let (r, w') = on_disk io (read_cluster io indirect) w in
        elim r [
          | err _ ↦ w'
          | ok pointers ↦
              release io indirect (each_pointer free pointers (pointers_per_cluster io) 0 w')
        ]

  -- free_indirect_blocks at depth `deeper + 1`
  unfoldable pub free_indirect_blocks : (deeper : ℕ) → ℕ → Work io → Work io
  unfolding free_block release
  free_indirect_blocks zero = free_block (release io)
  free_indirect_blocks (suc deeper) = free_block (free_indirect_blocks deeper)

  -- The loop of fs_alloc_truncate_file over the direct pointers.
  unfoldable pub free_direct : (rounds i : ℕ) → Work io → Work io
  unfolding release
  free_direct zero i w = w
  free_direct (suc rounds) i w =
      let pointer = w.inode.direct_clusters i in
      let freed = release io pointer w in
      free_direct rounds (i + 1)
        (if pointer == 0 then w else record freed { inode = put_direct io i 0 freed.inode })

  -- One of the three parts of fs_alloc_truncate_file on the indirect pointers of the inode.
  unfoldable pub free_level :
      (deeper : ℕ) (get : Inode → ℕ) (put : ℕ → Inode → Inode) → Work io → Work io
  unfolding free_indirect_blocks
  free_level deeper get put w =
      let freed = free_indirect_blocks deeper (get w.inode) w in
      if get w.inode == 0 then w else record freed { inode = put 0 freed.inode }

  -- What fs_alloc_truncate_file frees and sets in the inode.
  unfoldable pub clear_file : Work io → Work io
  unfolding free_direct free_level
  clear_file w =
      free_level 2 (λ n. n.triple_indirect_cluster) (put_triple io)
        (free_level 1 (λ n. n.double_indirect_cluster) (put_double io)
          (free_level 0 (λ n. n.single_indirect_cluster) (put_single io)
            (free_direct direct_pointers 0
              (record w { inode = record w.inode { size = 0; cluster_count = 0 } }))))

  -- fs_alloc_truncate_file
  unfoldable pub truncate_file : Exec (Work io) (Unit {0})
  unfolding clear_file on_index
  truncate_file w = let cleared = clear_file w in on_index io (write_inode cleared.inode) cleared
