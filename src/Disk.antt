-- ===== src/Disk.antt =====
-- src/storage/disk.c: a file of clusters.
pub mod Laws
pub mod Chunks
use simple_file_system.Base.{
  ℕ, ◌+◌, ◌-◌, ◌*◌, ◌<◌, ◌≡◌, Bool, true, false, not, ◌||◌, Option, none, some, Bytes, zeros,
  Status, file_access, invalid_argument, out_of_bounds, memory_allocation, read_only, Result, ok,
  err, Exec, if◌then◌else◌, ltb, leb, ◌==◌,
}
use simple_file_system.Config.{cluster_size}
use simple_file_system.Platform.{Stdio}

module _ (io : Stdio) where
  open io use {Stream, seek_set, fread, fwrite, flush, sync}

  -- struct fs_disk
  pub record Disk : Type 0 where
    pub file_stream : Stream
    pub total_cluster_count : ℕ
    pub is_read_only : Bool

  -- The new file is made as long as the disk by a byte at its end.
  pub extend : Stream → ℕ → Result Stream
  extend s total_cluster_count =
      let (sought, s) = seek_set s (total_cluster_count * cluster_size - 1) in
      if not sought
      then err file_access
      else let (count, s) = fwrite s zeros 1 in
        if not (count == 1)
        then err file_access
        else let (flushed, s) = flush s in if not flushed then err file_access else ok s

  new_disk : Result Stream → ℕ → Bool → Result Disk
  new_disk (ok s) total ro =
      ok (record { file_stream = s; total_cluster_count = total; is_read_only = ro })
  new_disk (err e) total ro = err e

  -- `existing` is what `fopen` returns for "rb" or "r+b", `created` what it returns for "w+b".
  open_stream : Option Stream → Option Stream → ℕ → Bool → Result Stream
  unfolding extend
  open_stream (some s) created total ro = ok s
  open_stream none created total true = err file_access
  open_stream none none total false = err file_access
  open_stream none (some s) total false =
      if ltb 0 (total * cluster_size) then extend s total else ok s

  -- fs_disk_create_or_open; `allocated` tells whether `calloc` returned memory.
  pub create_or_open :
      (allocated : Bool) (existing created : Option Stream) → ℕ → Bool → Result Disk
  unfolding new_disk open_stream
  create_or_open allocated existing created total_cluster_count is_read_only =
      if total_cluster_count == 0
      then err invalid_argument
      else if not allocated
      then err memory_allocation
      else new_disk (open_stream existing created total_cluster_count is_read_only)
          total_cluster_count is_read_only

  -- fs_disk_read_cluster
  unfoldable pub read_cluster : ℕ → Exec Disk Bytes
  read_cluster cluster_index d =
      if leb d.total_cluster_count cluster_index
      then (err out_of_bounds, d)
      else let (sought, s) = seek_set d.file_stream (cluster_index * cluster_size) in
        if not sought
        then (err file_access, record d { file_stream = s })
        else let (buffer, bytes_read, s') = fread s cluster_size in
          if not (bytes_read == cluster_size)
          then (err file_access, record d { file_stream = s' })
          else (ok buffer, record d { file_stream = s' })

  -- fs_disk_write_cluster
  unfoldable pub write_cluster : ℕ → Bytes → Exec Disk (Unit {0})
  write_cluster cluster_index source_buffer d =
      if d.is_read_only
      then (err read_only, d)
      else if leb d.total_cluster_count cluster_index
      then (err out_of_bounds, d)
      else let (sought, s) = seek_set d.file_stream (cluster_index * cluster_size) in
        if not sought
        then (err file_access, record d { file_stream = s })
        else let (bytes_written, s') = fwrite s source_buffer cluster_size in
          if not (bytes_written == cluster_size)
          then (err file_access, record d { file_stream = s' })
          else (ok tt, record d { file_stream = s' })

  -- fs_disk_flush
  unfoldable pub flush_disk : Exec Disk (Unit {0})
  flush_disk d =
      let (done, s) = sync d.file_stream in
      if done
      then (ok tt, record d { file_stream = s })
      else (err file_access, record d { file_stream = s })
