-- ===== src/Disk/Chunks.antt =====
-- The loop that moves a buffer to or from consecutive clusters. It stands in src/alloc/bitmap.c and
-- in src/metadata/index.c, each time to write and to read. bitmap.c divides the offset for the cluster
-- and index.c counts the cluster up: every round but the last moves one cluster, so they agree.
pub mod Write
pub mod Read
use simple_file_system.Base.{
  ℕ, zero, suc, ◌+◌, ◌-◌, ◌*◌, ◌/◌, ◌%◌, ◌^◌, ◌<◌, ◌≤◌, ◌≡◌, ◌≢◌, ◌⊎◌, refl, sym, ap, ◌∙◌, fun_ext,
  inl, inr, Bool, true, false, not, ◌&&◌, ◌||◌, Option, none, some, List, [], ◌∷◌, ◌++◌, arith,
  Bytes, zeros, copy, store, AreBytes, u32_at, set_u32, byte_of_u32, Status, file_access,
  invalid_argument, out_of_bounds, memory_allocation, read_only, no_space, Result, ok, err, Exec,
  pure, fail, reject_if, continue, ◌>>=◌, ◌>>◌, bind-ok, ltb, leb, ◌==◌, if◌then◌else◌, Bool-cases,
  ltb→lt, lt→ltb, le→ltb, le→leb, lt→leb, ==→eq, ==-ne, ==-refl, ne→==, lt_or_le, min, max,
}
use simple_file_system.Config.{cluster_size}
use simple_file_system.Platform.{Stdio, IsFile, IsReliable}
use simple_file_system.Disk.{Disk, read_cluster, write_cluster}

-- How many bytes the round at offset `off` moves, of a buffer of `len` bytes.
abbrev pub chunk : ℕ → ℕ → ℕ
chunk len off = if ltb cluster_size (len - off) then cluster_size else len - off

module _ (io : Stdio) where
  -- At most `fuel` rounds of the writing loop, from offset `off` of the `len` bytes `buf`.
  unfoldable pub write_chunks :
      (start : ℕ) (buf : Bytes) (len fuel off : ℕ) → Exec (Disk io) (Unit {0})
  unfolding copy
  write_chunks start buf len zero off = pure tt
  write_chunks start buf len (suc fuel) off = if not (ltb off len) then pure tt else do
    write_cluster io (start + off / cluster_size) (copy zeros 0 buf off (chunk len off))
    write_chunks start buf len fuel (off + chunk len off)

  -- At most `fuel` rounds of the reading loop. The state is the buffer and the disk: what was read
  -- before an error stays in the buffer.
  unfoldable pub read_chunks : (start len fuel off : ℕ) → Exec (Bytes × Disk io) (Unit {0})
  unfolding copy
  read_chunks start len zero off (buf, d) = (ok tt, (buf, d))
  read_chunks start len (suc fuel) off (buf, d) =
      if not (ltb off len)
      then (ok tt, (buf, d))
      else let (r, d') = read_cluster io (start + off / cluster_size) d in
        elim r [
          | err e ↦ (err e, (buf, d'))
          | ok b ↦
              read_chunks start len fuel (off + chunk len off)
                (copy buf off b 0 (chunk len off), d')
        ]
