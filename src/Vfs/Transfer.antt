-- ===== src/Vfs/Transfer.antt =====
-- src/vfs/io.c: how much is read and written.
use simple_file_system.Base.{
  ℕ, zero, suc, ◌+◌, ◌-◌, ◌/◌, ◌%◌, ◌<◌, ◌≤◌, ◌≡◌, ◌⊎◌, refl, sym, ap, ◌∙◌, inl, inr, arith, Bytes,
  copy, Status, Result, ok, err, Exec, pure, ◌>>=◌, ◌>>◌, bind-ok, by_result, ltb, if◌then◌else◌,
  lt→ltb, le→ltb, lt_or_le, min,
}
use simple_file_system.Base.Gives.{Gives, Gives-rest, Gives-pure}
use simple_file_system.Config.{cluster_size}
use simple_file_system.Platform.{Stdio}
use simple_file_system.Vfs.{Session, on_file}
use simple_file_system.Vfs.Cache.{load_cluster}
use simple_file_system.Vfs.Io.{
  round_size, take_from_cache, read_rounds, read_file, put_in_cache, extend_size, flush_at_end,
  write_round, write_rounds, write_file,
}

-- A round moves at least a byte, and no more than are left.
round_size-bounds :
    (position left : ℕ)
    → 0 < left
    → (0 < round_size position left) × (round_size position left ≤ left)
round_size-bounds position left h =
    let below : position % cluster_size < cluster_size = omega arith in
    elim (lt_or_le left (cluster_size - position % cluster_size)) [
      | inl b ↦ rw (lt→ltb left (cluster_size - position % cluster_size) b) (h, omega arith)
      | inr b ↦ rw (le→ltb left (cluster_size - position % cluster_size) b) (omega arith, b)
    ]

-- What can be read is the least of what there is and what is asked for.
least :
    (available n : ℕ)
    → let wanted = if ltb available n then available else n in
      (wanted ≤ n) × (wanted ≤ available) × ((wanted ≡ n) ⊎ (wanted ≡ available))
least available n = elim (lt_or_le available n) [
  | inl b ↦ rw (lt→ltb available n b) (omega arith, omega arith, inr refl)
  | inr b ↦ rw (le→ltb available n b) (omega arith, b, inl refl)
]

least-min : (available n : ℕ) → (if ltb available n then available else n) ≡ min n available
least-min available n = ground arith

module _ (io : Stdio) where
  -- A round tells how many bytes it has moved, which is decided before it.
  rest_of_round-size :
      (source : Bytes) (total m cluster : ℕ)
      → Gives
          (λ (s : Session io). Unit {0})
          (load_cluster io cluster >>= λ slot.
            on_file io (put_in_cache slot source total m)
            >> (extend_size io >> (flush_at_end io slot >> pure m)))
          (λ n _. m ≡ n)
  rest_of_round-size source total m cluster = Gives-rest (load_cluster io cluster) (λ slot.
      Gives-rest (on_file io (put_in_cache slot source total m)) (λ _.
        Gives-rest (extend_size io)
          (λ _. Gives-rest (flush_at_end io slot) (λ _. Gives-pure m (λ s h. refl)))))

  write_round-size :
      (source : Bytes) (total left : ℕ) (s : Session io) (n : ℕ)
      → (write_round io source total left s).0 ≡ ok n
      → round_size s.file.current_position left ≡ n
  unfolding write_round
  write_round-size source total left s n e =
      (rest_of_round-size source total (round_size s.file.current_position left)
          (s.file.current_position / cluster_size)).at
        s tt n e

  -- As many rounds as there are bytes left are enough.
  write_rounds-all :
      (source : Bytes) (bytes_to_write fuel total : ℕ) (s : Session io) (k : ℕ)
      → total ≤ bytes_to_write
      → bytes_to_write ≤ total + fuel
      → (write_rounds io source bytes_to_write fuel total s).0 ≡ ok k
      → k ≡ bytes_to_write
  unfolding write_rounds
  write_rounds-all source n zero total s k h g e = let q : total ≡ k = cc in omega arith
  write_rounds-all source n (suc fuel) total s k h g e = elim (lt_or_le total n) [
    | inl below ↦
        let w = write_round io source total (n - total) in
        let next : ℕ → Exec (Session io) ℕ = λ m. write_rounds io source n fuel (total + m) in
        let e' : ((w >>= next) s).0 ≡ ok k = sym (rw (lt→ltb total n below) refl) ∙ e in
        let (m, b, c) = bind-ok w next s e' in
        let size = write_round-size source total (n - total) s m b in
        let (p, q) = round_size-bounds s.file.current_position (n - total) (omega arith) in
        write_rounds-all source n fuel (total + m) (w s).1 k (omega arith) (omega arith)
          (ap (λ r. r.0) (sym c) ∙ e')
    | inr done ↦
        let e' : ok total ≡ ok k = sym (rw (le→ltb total n done) refl) ∙ e in
        let q : total ≡ k = cc in omega arith
  ]

  write_file-all :
      (source : Bytes) (n : ℕ) (s : Session io) (k : ℕ)
      → (write_file io source n s).0 ≡ ok k
      → k ≡ n
  unfolding write_file
  write_file-all source n s k e = write_rounds-all source n n 0 s k (omega arith) (omega arith) e

  -- fs_vfs_write, after its guards, writes all of the bytes or fails with a status: it never returns with
  -- fewer.
  pub write_file-completes :
      (source : Bytes) (n : ℕ) (s : Session io)
      → ((write_file io source n s).0 ≡ ok n)
        ⊎ ((e : Status) × ((write_file io source n s).0 ≡ err e))
  write_file-completes source n s = go (write_file io source n s).0 refl
    where
      go :
          (r : Result ℕ)
          → (write_file io source n s).0 ≡ r
          → ((write_file io source n s).0 ≡ ok n)
            ⊎ ((e : Status) × ((write_file io source n s).0 ≡ err e))
      go (ok k) q = inl (q ∙ ap ok (write_file-all source n s k q))
      go (err e) q = inr (e, q)

  -- The rounds of a loop of reading up to `n` bytes, from `total` on up to `k`: what is loaded in each is
  -- copied and the position moves on. The last is where they lead to.
  pub data Rounds (n : ℕ) : (total : ℕ) → Session io × Bytes → (k : ℕ) → Session io → Type 0 where
    no_round : (total : ℕ) (s : Session io) (buffer : Bytes) → Rounds n total (s, buffer) total s
    round :
        (total slot k : ℕ) (s t : Session io) (buffer : Bytes)
        → total < n
        → (load_cluster io (s.file.current_position / cluster_size) s).0 ≡ ok slot
        → Rounds n
            (total + round_size s.file.current_position (n - total))
            (take_from_cache io slot
              (s.file.current_position / cluster_size)
              total
              (round_size s.file.current_position (n - total))
              ((load_cluster io (s.file.current_position / cluster_size) s).1, buffer))
            k
            t
        → Rounds n total (s, buffer) k t

  -- After the rounds from `start` on that copy the bytes up to `k`, fewer than `n`, the cluster of the
  -- position that they lead to cannot be loaded.
  pub record LoadFails (n total : ℕ) (start : Session io × Bytes) (k : ℕ) : Type 0 where
    pub session : Session io
    pub reached : Rounds n total start k session
    pub too_few : k < n
    pub status : Status
    pub fails :
        (load_cluster io (session.file.current_position / cluster_size) session).0 ≡ err status

  -- How a loop of reading from `total` on ends: what was asked for, or less after a load that fails; the
  -- rest of the buffer is as it was.
  abbrev pub Reads :
      (bytes_to_copy total : ℕ) → Session io × Bytes → ℕ × (Session io × Bytes) → Type 0
  Reads n total start (k, (s, after)) =
      (total ≤ k)
      × (k ≤ n)
      × ((k ≡ n) ⊎ LoadFails n total start k)
      × ((i : ℕ) → after (k + i) ≡ start.1 (k + i))

  copy-above :
      (b : Bytes) (at : ℕ) (source : Bytes) (from count i : ℕ)
      → at + count ≤ i
      → copy b at source from count i ≡ b i
  unfolding copy
  copy-above b at source from count i h = ground arith

  -- What is read after a round is read by the loop, and leaves the bytes behind alone if the round does.
  further :
      (n total slot : ℕ) (s : Session io) (buffer : Bytes) (r : ℕ × (Session io × Bytes))
      → total < n
      → (load_cluster io (s.file.current_position / cluster_size) s).0 ≡ ok slot
      → let m = round_size s.file.current_position (n - total) in
        let cluster = s.file.current_position / cluster_size in
        Reads n
          (total + m)
          (take_from_cache io slot cluster total m ((load_cluster io cluster s).1, buffer))
          r
        → Reads n total (s, buffer) r
  unfolding take_from_cache
  further n total slot s buffer (k, (t, after)) below loads (a, b, c, d) =
      let m = round_size s.file.current_position (n - total) in
      let cluster = s.file.current_position / cluster_size in
      let s' = (load_cluster io cluster s).1 in
      (
        omega arith,
        b,
        elim c [
          | inl q ↦ inl q
          | inr f ↦ inr (record {
            session = f.session;
            reached = round total slot k s f.session buffer below loads f.reached;
            too_few = f.too_few;
            status = f.status;
            fails = f.fails;
          })
        ],
        λ i.
            d i
            ∙ copy-above buffer total (s'.file.cached_buffers slot)
                (s'.file.current_position % cluster_size) m (k + i) (omega arith),
      )

  read_rounds-Reads :
      (n fuel total : ℕ) (s : Session io) (buffer : Bytes)
      → total ≤ n
      → n ≤ total + fuel
      → Reads n total (s, buffer) (read_rounds io n fuel total (s, buffer))
  unfolding read_rounds
  read_rounds-Reads n zero total s buffer h g = (omega arith, h, inl (omega arith), λ i. refl)
  read_rounds-Reads n (suc fuel) total s buffer h g = elim (lt_or_le total n) [
    | inl below ↦
        let cluster = s.file.current_position / cluster_size in
        let m = round_size s.file.current_position (n - total) in
        let s' = (load_cluster io cluster s).1 in
        let (p, q) = round_size-bounds s.file.current_position (n - total) (omega arith) in
        let stop : ℕ × (Session io × Bytes) = (total, (s', buffer)) in
        rw (lt→ltb total n below) (
          by_result (Reads n total (s, buffer)) (load_cluster io cluster s).0
            (λ slot.
              read_rounds io n fuel (total + m)
                (take_from_cache io slot cluster total m (s', buffer)))
            (λ e. stop)
            (λ slot f.
              let st = take_from_cache io slot cluster total m (s', buffer) in
              further n total slot s buffer (read_rounds io n fuel (total + m) st) below f
                (read_rounds-Reads n fuel (total + m) st.0 st.1 (omega arith) (omega arith)))
            (λ e f. (
              omega arith,
              h,
              inr (record {
                session = s;
                reached = no_round total s buffer;
                too_few = below;
                status = e;
                fails = f;
              }),
              λ i. refl,
            )))
    | inr done ↦ rw (le→ltb total n done) (omega arith, h, inl (omega arith), λ i. refl)
  ]

  -- fs_vfs_read, after its guards, succeeds: it reads no more than was asked for and than the file has
  -- behind the position, and less than both only when, after the rounds from the given state on that copy
  -- just the bytes read, the cluster of the position then cannot be loaded. The rest of the caller's buffer
  -- is as it was.
  pub read_file-reads :
      (n : ℕ) (destination : Bytes) (s : Session io)
      → (k : ℕ) × (buffer : Bytes) × ((read_file io n destination s).0 ≡ ok (k, buffer))
        × (k ≤ n)
        × (k ≤ s.file.cached_file_size - s.file.current_position)
        × (((k ≡ n) ⊎ (k ≡ s.file.cached_file_size - s.file.current_position))
            ⊎ LoadFails
                (min n (s.file.cached_file_size - s.file.current_position))
                0
                (s, destination)
                k)
        × ((i : ℕ) → buffer (k + i) ≡ destination (k + i))
  unfolding read_file
  read_file-reads n destination s =
      let available = s.file.cached_file_size - s.file.current_position in
      let wanted = if ltb available n then available else n in
      let r = read_rounds io wanted wanted 0 (s, destination) in
      let (a, b, c, d) =
        read_rounds-Reads wanted wanted 0 s destination (omega arith) (omega arith) in
      let (x, y, z) = least available n in
      (
        r.0,
        r.1.1,
        refl,
        omega (arith, b, x),
        omega (arith, b, y),
        elim c [
          | inl q ↦ inl (elim z [ inl u ↦ inl (q ∙ u) | inr u ↦ inr (q ∙ u) ])
          | inr f ↦ inr (rw (sym (least-min available n)) f)
        ],
        d,
      )
