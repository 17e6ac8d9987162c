-- ===== src/Disk/Chunks/Write.antt =====
-- After the writing loop the buffer stands on the disk.
use simple_file_system.Base.{
  ℕ, zero, suc, ◌+◌, ◌-◌, ◌/◌, ◌%◌, ◌<◌, ◌≤◌, ◌≡◌, ◌⊎◌, refl, ap, ◌∙◌, inl, inr, false, arith,
  Bytes, zeros, copy, ok, ◌>>◌, bind-ok, lt→ltb, le→ltb, lt_or_le,
}
use simple_file_system.Config.{cluster_size}
use simple_file_system.Platform.{Stdio, IsFile, IsReliable}
use simple_file_system.Disk.{Disk, write_cluster}
use simple_file_system.Disk.Laws.{
  cluster, write_cluster-ok, write_cluster-other, SameShape, write_cluster-SameShape,
  write_cluster-total,
}
use simple_file_system.Disk.Chunks.{chunk, write_chunks}

-- An offset at which a round starts.
abbrev pub IsAligned : ℕ → ℕ → Type 0
IsAligned len off = (off % cluster_size ≡ 0) ⊎ (len ≤ off)

module _ (io : Stdio) (start len : ℕ) where
  -- A writable disk with the clusters that the buffer takes.
  pub record HasRoom (d : Disk io) : Type 0 where
    pub writable : d.is_read_only ≡ false
    pub room : start + len / cluster_size < d.total_cluster_count

  pub HasRoom-same : {d e : Disk io} → SameShape io d e → HasRoom d → HasRoom e
  HasRoom-same s r = record { writable = s.same_mode ∙ r.writable; room = rw s.same_count r.room }

module _ (io : Stdio) (file : IsFile io) (start : ℕ) (buf : Bytes) (len : ℕ) where
  -- The first `n` bytes of the buffer stand on the disk.
  abbrev pub OnDisk : Disk io → ℕ → Type 0
  OnDisk d n =
      (i : ℕ) → i < n → cluster io file d (start + i / cluster_size) (i % cluster_size) ≡ buf i

  OnDisk-write :
      (d : Disk io) (off : ℕ)
      → off < len
      → off % cluster_size ≡ 0
      → OnDisk d off
      → let c = start + off / cluster_size in
        let b = copy zeros 0 buf off (chunk len off) in
        (write_cluster io c b d).0 ≡ ok tt → OnDisk (write_cluster io c b d).1 (off + chunk len off)
  unfolding copy
  OnDisk-write d off inside aligned old wrote i lt =
      let c = start + off / cluster_size in
      let b = copy zeros 0 buf off (chunk len off) in
      elim (lt_or_le i off) [
        | inl before ↦
            write_cluster-other io file d c (start + i / cluster_size) (i % cluster_size) b
              (omega arith) (omega arith)
            ∙ old i before
        | inr here ↦
            let q : start + i / cluster_size ≡ c = ground arith in
            let r : off + (i % cluster_size - 0) ≡ i = ground arith in
            rw q (
              write_cluster-ok io file d c (i % cluster_size) b wrote (omega arith)
              ∙ ground (arith, ap buf r))
      ]

  write_chunks-step :
      (fuel off : ℕ) (d : Disk io)
      → off < len
      → write_chunks io start buf len (suc fuel) off d
        ≡ (write_cluster io (start + off / cluster_size) (copy zeros 0 buf off (chunk len off))
              >> write_chunks io start buf len fuel (off + chunk len off))
            d
  unfolding write_chunks
  write_chunks-step fuel off d h = rw (lt→ltb _ _ h)

  write_chunks-end :
      (fuel off : ℕ) (d : Disk io)
      → len ≤ off
      → write_chunks io start buf len fuel off d ≡ (ok tt, d)
  unfolding write_chunks
  write_chunks-end zero off d h = refl
  write_chunks-end (suc fuel) off d h = rw (le→ltb _ _ h)

  write_chunks-zero : (off : ℕ) (d : Disk io) → write_chunks io start buf len 0 off d ≡ (ok tt, d)
  unfolding write_chunks
  write_chunks-zero off d = refl

  pub write_chunks-OnDisk :
      (fuel off : ℕ) (d : Disk io)
      → len ≤ off + fuel
      → IsAligned len off
      → OnDisk d off
      → (write_chunks io start buf len fuel off d).0 ≡ ok tt
      → OnDisk (write_chunks io start buf len fuel off d).1 len
  write_chunks-OnDisk zero off d enough aligned old e =
      rw (write_chunks-end zero off d (omega arith)) (λ i lt. old i (omega arith))
  write_chunks-OnDisk (suc fuel) off d enough aligned old e = elim (lt_or_le off len) [
    | inl inside ↦
        let write =
          write_cluster io (start + off / cluster_size) (copy zeros 0 buf off (chunk len off)) in
        let step = write_chunks-step fuel off d inside in
        let (_, wrote, next) =
          bind-ok write (λ _. write_chunks io start buf len fuel (off + chunk len off)) d
            (rw step at e) in
        let on_disk = OnDisk-write d off inside (omega arith) old wrote in
        rw (step, next)
          (write_chunks-OnDisk fuel (off + chunk len off) (write d).1 (ground arith) (ground arith)
            on_disk (rw (step, next) at e))
    | inr outside ↦ rw (write_chunks-end (suc fuel) off d outside) (λ i lt. old i (omega arith))
  ]

  module _ (reliable : IsReliable io) where
    pub write_chunks-total :
        (fuel off : ℕ) (d : Disk io)
        → HasRoom io start len d
        → ((write_chunks io start buf len fuel off d).0 ≡ ok tt)
          × HasRoom io start len (write_chunks io start buf len fuel off d).1
    write_chunks-total zero off d r = rw (write_chunks-zero off d) (refl, r)
    write_chunks-total (suc fuel) off d r = elim (lt_or_le off len) [
      | inl inside ↦
          let c = start + off / cluster_size in
          let b = copy zeros 0 buf off (chunk len off) in
          let wrote = write_cluster-total io reliable d c b r.writable (omega (arith, r.room)) in
          rw (write_chunks-step fuel off d inside, wrote)
            (write_chunks-total fuel (off + chunk len off) (write_cluster io c b d).1
              (HasRoom-same io start len (write_cluster-SameShape io d c b) r))
      | inr outside ↦ rw (write_chunks-end (suc fuel) off d outside) (refl, r)
    ]
