-- ===== src/Disk/Chunks/Read.antt =====
-- The reading loop returns the buffer that stands on the disk.
use simple_file_system.Base.{
  ℕ, zero, suc, ◌+◌, ◌-◌, ◌/◌, ◌%◌, ◌<◌, ◌≤◌, ◌≡◌, refl, ap, inl, inr, arith, Bytes, copy, ok,
  lt→ltb, le→ltb, lt_or_le,
}
use simple_file_system.Config.{cluster_size}
use simple_file_system.Platform.{Stdio, IsFile, IsReliable}
use simple_file_system.Disk.{Disk, read_cluster}
use simple_file_system.Disk.Laws.{
  cluster-read_cluster, read_cluster-ok, read_cluster-SameShape, read_cluster-total,
}
use simple_file_system.Disk.Chunks.{chunk, read_chunks}
use simple_file_system.Disk.Chunks.Write.{IsAligned, OnDisk, HasRoom, HasRoom-same}

-- Two buffers agree below an offset.
abbrev pub AgreeBelow : Bytes → Bytes → ℕ → Type 0
AgreeBelow b got off = (j : ℕ) → j < off → got j ≡ b j

module _ (io : Stdio) (file : IsFile io) (start : ℕ) (buf : Bytes) (len : ℕ) where
  module _ (reliable : IsReliable io) where
    read_chunks-step :
        (fuel off : ℕ) (got : Bytes) (d : Disk io) {b : Bytes}
        → off < len
        → (read_cluster io (start + off / cluster_size) d).0 ≡ ok b
        → read_chunks io start len (suc fuel) off (got, d)
          ≡ read_chunks io start len fuel
              (off + chunk len off)
              (copy got off b 0 (chunk len off), (read_cluster io (start + off / cluster_size) d).1)
    unfolding read_chunks
    read_chunks-step fuel off got d h e = rw (lt→ltb _ _ h, e)

    read_chunks-end :
        (fuel off : ℕ) (got : Bytes) (d : Disk io)
        → len ≤ off
        → read_chunks io start len fuel off (got, d) ≡ (ok tt, (got, d))
    unfolding read_chunks
    read_chunks-end zero off got d h = refl
    read_chunks-end (suc fuel) off got d h = rw (le→ltb _ _ h)

    AgreeBelow-copy :
        (off : ℕ) (got : Bytes) (d : Disk io) {b : Bytes}
        → off < len
        → off % cluster_size ≡ 0
        → OnDisk io file start buf len d len
        → AgreeBelow buf got off
        → (read_cluster io (start + off / cluster_size) d).0 ≡ ok b
        → AgreeBelow buf (copy got off b 0 (chunk len off)) (off + chunk len off)
    unfolding copy
    AgreeBelow-copy off got d {b} inside aligned on_disk agrees e j lt = elim (lt_or_le j off) [
      | inl before ↦ ground (arith, agrees j before)
      | inr here ↦
          let q : off / cluster_size ≡ j / cluster_size = ground arith in
          let r : j - off ≡ j % cluster_size = ground arith in
          let c = start + j / cluster_size in
          let at = read_cluster-ok io file d c (j % cluster_size) (rw q at e) (omega arith) in
          ground (arith, on_disk j (ground arith), at, ap b r)
    ]

    -- The loop succeeds, and the buffer that it fills agrees with the one on the disk.
    pub read_chunks-AgreeBelow :
        (fuel off : ℕ) (got : Bytes) (d : Disk io)
        → len ≤ off + fuel
        → IsAligned len off
        → HasRoom io start len d
        → OnDisk io file start buf len d len
        → AgreeBelow buf got off
        → let (r, (out, _)) = read_chunks io start len fuel off (got, d) in
          (r ≡ ok tt) × AgreeBelow buf out len
    read_chunks-AgreeBelow zero off got d enough aligned room on_disk agrees =
        rw (read_chunks-end 0 off got d (omega arith)) (refl, λ j lt. agrees j (omega arith))
    read_chunks-AgreeBelow (suc fuel) off got d enough aligned room on_disk agrees =
        elim (lt_or_le off len) [
          | inl inside ↦
              let c = start + off / cluster_size in
              let (b, read) = read_cluster-total io reliable d c (omega (arith, room.room)) in
              let d' = (read_cluster io c d).1 in
              let same = cluster-read_cluster io file d c in
              rw (read_chunks-step fuel off got d inside read) (
                read_chunks-AgreeBelow fuel (off + chunk len off) (copy got off b 0 (chunk len off))
                  d' (ground arith) (ground arith)
                  (HasRoom-same io start len (read_cluster-SameShape io d c) room) (rw same on_disk)
                  (AgreeBelow-copy off got d inside (omega arith) on_disk agrees read))
          | inr outside ↦
              rw (read_chunks-end (suc fuel) off got d outside)
                (refl, λ j lt. agrees j (omega arith))
        ]
