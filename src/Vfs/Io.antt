-- ===== src/Vfs/Io.antt =====
-- src/vfs/io.c: reading and writing an open file through its cache.
use simple_file_system.Base.{
  ℕ, zero, suc, ◌+◌, ◌-◌, ◌/◌, ◌%◌, ◌^◌, true, false, not, ◌&&◌, none, some, Bytes, copy, ok, err,
  Exec, pure, lift_result, ◌>>=◌, ◌>>◌, ltb, leb, ◌==◌, if◌then◌else◌,
}
use simple_file_system.Base.Integer.{ℤ}
use simple_file_system.Config.{cluster_size}
use simple_file_system.Platform.{Stdio}
use simple_file_system.Index.{read_inode}
use simple_file_system.Vfs.{Context, FileDescriptor, Session, set_at, on_file, cache_cluster_count}
use simple_file_system.Vfs.Cache.{
  find_slot, store_inode, read_buffer, filled, set_dirty, touched, flush_slot, load_cluster,
}
use simple_file_system.Vfs.Files.{on_descriptor}

abbrev add_slot : FileDescriptor → FileDescriptor
add_slot file = record file { cache_valid_count = file.cache_valid_count + 1 }

-- How many bytes a round moves.
abbrev pub round_size : (position left : ℕ) → ℕ
round_size position left =
    let in_cluster = cluster_size - position % cluster_size in
    if ltb left in_cluster then left else in_cluster

abbrev advance : ℕ → FileDescriptor → FileDescriptor
advance n file = record file { current_position = (file.current_position + n) % 2 ^ 32 }

-- The bytes of a round of fs_vfs_write go into the slot, which is dirty then.
abbrev pub put_in_cache :
    (slot : ℕ) (source : Bytes) (total n : ℕ) → FileDescriptor → FileDescriptor
put_in_cache slot source total n file =
    let buffer =
      copy (file.cached_buffers slot) (file.current_position % cluster_size) source total n in
    advance n (
      set_dirty slot true (record file { cached_buffers = set_at file.cached_buffers slot buffer }))

module _ (io : Stdio) where
  -- vfs_sync_inode_size of io.c, which writes the inode only if its size changes.
  unfoldable pub sync_size : (inode_id new_size : ℕ) → Exec (Session io) (Unit {0})
  unfolding store_inode read_inode
  sync_size inode_id new_size s = elim (read_inode s.index inode_id) [
    | err e ↦ (err e, s)
    | ok inode ↦
        if not (inode.size == new_size)
        then store_inode io (record inode { size = new_size }) s
        else (ok tt, s)
  ]

  -- The part of vfs_prefetch_next_cluster after its early returns: the slot behind the valid ones is
  -- filled, and counted only when it holds its cluster.
  unfoldable pub prefetch_into : (free_slot next_cluster : ℕ) → Exec (Session io) (Unit {0})
  unfolding read_buffer on_file
  prefetch_into free_slot next_cluster s =
      (do
        inode ← lift_result (read_inode s.index s.file.inode_id)
        bytes_read ← read_buffer io free_slot next_cluster inode
        on_file io (filled free_slot next_cluster bytes_read)
        on_file io (set_dirty free_slot false)
        on_file io (touched free_slot)
        on_file io add_slot)
        s

  -- vfs_prefetch_next_cluster, which reports nothing.
  unfoldable pub prefetch : (current_logical_cluster_index : ℕ) → Exec (Session io) (Unit {0})
  unfolding find_slot prefetch_into
  prefetch current s =
      let next_cluster = (current + 1) % 2 ^ 32 in
      let count = s.file.cache_valid_count in
      if leb cache_cluster_count count then (ok tt, s) else elim (find_slot s.file next_cluster) [
        | some k ↦ (ok tt, s)
        | none ↦ (ok tt, (prefetch_into count next_cluster s).1)
      ]

  -- The part of a round of fs_vfs_read after its cluster is loaded: the state has the caller's buffer.
  unfoldable pub take_from_cache :
      (slot cluster total n : ℕ) → Session io × Bytes → Session io × Bytes
  unfolding copy prefetch on_file
  take_from_cache slot cluster total n (s, buffer) =
      let source = s.file.cached_buffers slot in
      let buffer = copy buffer total source (s.file.current_position % cluster_size) n in
      let s = (on_file io (advance n) s).1 in
      let prefetched = (prefetch cluster s).1 in
      (
        if ltb 0 n && ltb s.file.cache_valid_count cache_cluster_count then prefetched else s,
        buffer,
      )

  -- The loop of fs_vfs_read, with at most `fuel` rounds left: a cluster that cannot be loaded ends it.
  unfoldable pub read_rounds :
      (bytes_to_copy fuel total : ℕ) → Session io × Bytes → ℕ × (Session io × Bytes)
  unfolding load_cluster take_from_cache
  read_rounds bytes_to_copy zero total st = (total, st)
  read_rounds bytes_to_copy (suc fuel) total (s, buffer) =
      let cluster = s.file.current_position / cluster_size in
      let n = round_size s.file.current_position (bytes_to_copy - total) in
      let (loaded, s') = load_cluster io cluster s in
      let rest : ℕ → ℕ × (Session io × Bytes) = λ slot.
        read_rounds bytes_to_copy fuel (total + n)
          (take_from_cache slot cluster total n (s', buffer)) in
      if not (ltb total bytes_to_copy)
      then (total, (s, buffer))
      else elim loaded [ ok slot ↦ rest slot | err e ↦ (total, (s', buffer)) ]

  -- fs_vfs_read, after its guards: how many bytes were read, and the caller's buffer.
  unfoldable pub read_file :
      (bytes_to_read : ℕ) (destination : Bytes) → Exec (Session io) (ℕ × Bytes)
  unfolding read_rounds
  read_file bytes_to_read destination s =
      let available = s.file.cached_file_size - s.file.current_position in
      let bytes_to_copy = if ltb available bytes_to_read then available else bytes_to_read in
      let (total, (s', buffer)) = read_rounds bytes_to_copy bytes_to_copy 0 (s, destination) in
      (ok (total, buffer), s')

  -- fs_vfs_read
  unfoldable pub read :
      ℤ → (bytes_to_read : ℕ) (destination : Bytes) → Exec (Context io) (ℕ × Bytes)
  unfolding on_descriptor read_file
  read file_descriptor bytes_to_read destination =
      on_descriptor io (λ file. file.is_open && file.allow_read) file_descriptor
        (read_file bytes_to_read destination)

  -- `if (current_position > cached_file_size)` the size grows, in the inode too.
  unfoldable pub extend_size : Exec (Session io) (Unit {0})
  unfolding sync_size on_file
  extend_size s =
      let size = s.file.current_position in
      let grown = (on_file io (λ file. record file { cached_file_size = size }) s).1 in
      if ltb s.file.cached_file_size size then sync_size s.file.inode_id size grown else (ok tt, s)

  -- `if (current_position % FS_CLUSTER_SIZE == 0)` the slot is written out.
  unfoldable pub flush_at_end : (slot : ℕ) → Exec (Session io) (Unit {0})
  unfolding flush_slot
  flush_at_end slot s =
      let flushed = flush_slot io slot s in
      if s.file.current_position % cluster_size == 0 then flushed else (ok tt, s)

  -- A round of fs_vfs_write, for `left` bytes from `total` on; the number is how many it moves.
  unfoldable pub write_round : (source : Bytes) (total left : ℕ) → Exec (Session io) ℕ
  unfolding load_cluster copy on_file extend_size flush_at_end
  write_round source total left s =
      let n = round_size s.file.current_position left in
      (do
        slot ← load_cluster io (s.file.current_position / cluster_size)
        on_file io (put_in_cache slot source total n)
        extend_size
        flush_at_end slot
        pure n)
        s

  -- The loop of fs_vfs_write, with at most `fuel` rounds left.
  unfoldable pub write_rounds :
      (source : Bytes) (bytes_to_write fuel total : ℕ) → Exec (Session io) ℕ
  unfolding write_round
  write_rounds source bytes_to_write zero total = pure total
  write_rounds source bytes_to_write (suc fuel) total =
      if not (ltb total bytes_to_write)
      then pure total
      else (write_round source total (bytes_to_write - total) >>= λ n.
          write_rounds source bytes_to_write fuel (total + n))

  -- fs_vfs_write, after its guards
  unfoldable pub write_file : (source : Bytes) (bytes_to_write : ℕ) → Exec (Session io) ℕ
  unfolding write_rounds
  write_file source bytes_to_write = write_rounds source bytes_to_write bytes_to_write 0

  -- fs_vfs_write
  unfoldable pub write : ℤ → (source : Bytes) (bytes_to_write : ℕ) → Exec (Context io) ℕ
  unfolding on_descriptor write_file
  write file_descriptor source bytes_to_write =
      on_descriptor io (λ file. file.is_open && file.allow_write) file_descriptor
        (write_file source bytes_to_write)
