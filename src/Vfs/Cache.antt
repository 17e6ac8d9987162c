-- ===== src/Vfs/Cache.antt =====
-- src/vfs/cache.c: the clusters of an open file that are kept in memory.
pub mod Slots
pub mod Load
use simple_file_system.Base.{
  ℕ, zero, suc, ◌+◌, ◌-◌, ◌*◌, ◌%◌, ◌^◌, Bool, true, false, not, ◌||◌, Option, none, some, Bytes,
  Result, ok, err, Exec, pure, fail, lift_result, ◌>>=◌, ◌>>◌, ltb, leb, ◌==◌, if◌then◌else◌,
  out_of_bounds,
}
use simple_file_system.Config.{cluster_size}
use simple_file_system.Platform.{Stdio}
use simple_file_system.Index.{Inode, read_inode, write_inode}
use simple_file_system.Alloc.{Work}
use simple_file_system.Alloc.Files.{read_data, write_data}
use simple_file_system.Vfs.{cache_cluster_count, FileDescriptor, set_at, Session, on_inode, on_file}

-- The loop of vfs_cache_find_slot, with `rounds` slots left; -1 is `none`.
unfoldable pub find_from : FileDescriptor → (target rounds cache_index : ℕ) → Option ℕ
find_from file target zero cache_index = none
find_from file target (suc rounds) cache_index =
    let rest = find_from file target rounds (cache_index + 1) in
    if file.cached_logical_indices cache_index == target then some cache_index else rest

-- vfs_cache_find_slot
unfoldable pub find_slot : FileDescriptor → ℕ → Option ℕ
unfolding find_from
find_slot file target_logical_cluster_index =
    find_from file target_logical_cluster_index file.cache_valid_count 0

-- The loop of vfs_cache_find_least_recently_used_slot.
unfoldable pub oldest_from :
    FileDescriptor → (rounds cache_index oldest_timestamp : ℕ) → Option ℕ → Option ℕ
oldest_from file zero cache_index oldest_timestamp least_recently_used = least_recently_used
oldest_from file (suc rounds) cache_index oldest_timestamp least_recently_used =
    let timestamp = file.cache_access_timestamp cache_index in
    let older = ltb timestamp oldest_timestamp in
    oldest_from file rounds (cache_index + 1) (if older then timestamp else oldest_timestamp)
      (if older then some cache_index else least_recently_used)

-- vfs_cache_find_least_recently_used_slot
unfoldable pub find_least_recently_used_slot : FileDescriptor → Option ℕ
unfolding oldest_from
find_least_recently_used_slot file = oldest_from file file.cache_valid_count 0 (2 ^ 32 - 1) none

-- `cache_timestamp_counter++` and the slot's time is the new count.
abbrev pub touched : ℕ → FileDescriptor → FileDescriptor
touched k file =
    let now = (file.cache_timestamp_counter + 1) % 2 ^ 32 in
    record file {
      cache_timestamp_counter = now;
      cache_access_timestamp = set_at file.cache_access_timestamp k now;
    }

abbrev pub set_dirty : ℕ → Bool → FileDescriptor → FileDescriptor
set_dirty k b file = record file { cache_slot_dirty = set_at file.cache_slot_dirty k b }

-- What a slot holds after the cluster is read: `bytes_read` bytes of it, then zeros.
abbrev pub filled : (k target bytes_read : ℕ) → FileDescriptor → FileDescriptor
filled k target bytes_read file =
    let buffer = file.cached_buffers k in
    record file {
      cached_buffers = set_at file.cached_buffers k (λ i. if ltb i bytes_read then buffer i else 0);
      cached_logical_indices = set_at file.cached_logical_indices k target;
    }

module _ (io : Stdio) where
  -- fs_index_write_inode
  unfoldable pub store_inode : Inode → Exec (Session io) (Unit {0})
  store_inode inode s = let (r, x) = write_inode inode s.index in (r, record s { index = x })

  -- The part of vfs_cache_flush_slot after its early return.
  unfoldable pub write_slot : ℕ → Exec (Session io) (Unit {0})
  unfolding on_inode on_file store_inode
  write_slot k s =
      (do
        inode ← lift_result (read_inode s.index s.file.inode_id)
        (n, written) ← on_inode io inode (
            write_data io (s.file.cached_logical_indices k * cluster_size) (s.file.cached_buffers k)
              cluster_size)
        on_file io (set_dirty k false)
        store_inode (record written { size = s.file.cached_file_size }))
        s

  -- vfs_cache_flush_slot
  unfoldable pub flush_slot : ℕ → Exec (Session io) (Unit {0})
  unfolding write_slot
  flush_slot k s =
      if leb s.file.cache_valid_count k || not (s.file.cache_slot_dirty k)
      then (ok tt, s)
      else write_slot k s

  -- The loop of vfs_cache_flush_all, with `rounds` slots left.
  unfoldable pub flush_from : (rounds cache_index : ℕ) → Exec (Session io) (Unit {0})
  unfolding flush_slot
  flush_from zero cache_index = pure tt
  flush_from (suc rounds) cache_index =
      flush_slot cache_index >> flush_from rounds (cache_index + 1)

  -- vfs_cache_flush_all: a flush leaves the number of slots.
  unfoldable pub flush_all : Exec (Session io) (Unit {0})
  unfolding flush_from
  flush_all s = flush_from s.file.cache_valid_count 0 s

  -- fs_alloc_read_data into the buffer of a slot, which keeps what was read before an error.
  unfoldable pub read_buffer : (k target : ℕ) → Inode → Exec (Session io) ℕ
  read_buffer k target inode s =
      let (r, (w, buffer)) = read_data io (target * cluster_size) cluster_size (
        record { disk = s.disk; bitmap = s.bitmap; index = s.index; inode = inode },
        s.file.cached_buffers k,
      ) in
      (
        r,
        record {
          disk = w.disk;
          bitmap = w.bitmap;
          index = w.index;
          file = record s.file { cached_buffers = set_at s.file.cached_buffers k buffer };
        },
      )

  -- The two reads of vfs_cache_load_cluster.
  unfoldable pub read_slot : (k target : ℕ) → Exec (Session io) ℕ
  unfolding read_buffer
  read_slot k target s =
      (lift_result (read_inode s.index s.file.inode_id) >>= read_buffer k target) s

  -- The part of vfs_cache_load_cluster after a slot is chosen.
  unfoldable pub fill_slot : (k target : ℕ) → Exec (Session io) ℕ
  unfolding read_slot on_file
  fill_slot k target = do
    bytes_read ← read_slot k target
    on_file io (filled k target bytes_read)
    on_file io (set_dirty k false)
    on_file io (touched k)
    pure k

  -- A slot of a full cache is written out before it is used again.
  unfoldable pub evict : Option ℕ → Exec (Session io) ℕ
  unfolding flush_slot
  evict none = fail out_of_bounds
  evict (some k) = flush_slot k >> pure k

  -- The slot for a cluster that is not in the cache.
  unfoldable pub choose_slot : Exec (Session io) ℕ
  unfolding evict find_least_recently_used_slot
  choose_slot s =
      let count = s.file.cache_valid_count in
      if ltb count cache_cluster_count
      then (ok count, record s { file = record s.file { cache_valid_count = count + 1 } })
      else evict (find_least_recently_used_slot s.file) s

  -- vfs_cache_load_cluster, after vfs_cache_find_slot
  unfoldable pub load_at : (target : ℕ) → Option ℕ → Exec (Session io) ℕ
  unfolding choose_slot fill_slot on_file
  load_at target none = choose_slot >>= λ k. fill_slot k target
  load_at target (some k) = on_file io (touched k) >> pure k

  -- vfs_cache_load_cluster
  unfoldable pub load_cluster : ℕ → Exec (Session io) ℕ
  unfolding find_slot load_at
  load_cluster target s = load_at target (find_slot s.file target) s

  -- vfs_flush_and_invalidate_cache
  unfoldable pub flush_and_invalidate : Exec (Session io) (Unit {0})
  unfolding flush_all on_file
  flush_and_invalidate = do flush_all; on_file io (λ file. record file { cache_valid_count = 0 })
