-- ===== src/Alloc/Transfer.antt =====
-- How much fs_alloc_read_data and fs_alloc_write_data of src/alloc/alloc.c move.
use simple_file_system.Base.{
  ℕ, zero, suc, ◌+◌, ◌-◌, ◌*◌, ◌/◌, ◌%◌, ◌^◌, ◌<◌, ◌≤◌, ◌≡◌, refl, inl, inr, true, not, arith,
  Bytes, copy, Result, ok, err, pure, ◌>>◌, bind-ok, ltb, leb, if◌then◌else◌, Bool-cases, lt→ltb,
  le→ltb, lt_or_le, min, max,
}
use simple_file_system.Config.{cluster_size}
use simple_file_system.Platform.{Stdio, IsFile}
use simple_file_system.Disk.{write_cluster}
use simple_file_system.Bitmap.{IsValid}
use simple_file_system.Alloc.{Work}
use simple_file_system.Base.Keeps.{Keeps, Keeps-pure, Keeps-if, Keeps-bind}
use simple_file_system.Alloc.Files.{
  piece, fetch, read_piece, read_loop, read_data, grow_to, set_cluster_count, write_piece,
  write_loop, clusters_of_size, write_data,
}
use simple_file_system.Alloc.Grow.{Grows, resolve-Grows, old_bytes-Grows, on_disk-Grows}
use simple_file_system.Alloc.Resolve.{SameFile, lookup-SameFile, read-SameFile}
use simple_file_system.Base.Gives.{Gives, Gives-bind, Gives-keeps, Gives-pure}

-- A piece is not empty, not more than is left, and stays in its cluster.
pub piece_bounds :
    (at left : ℕ)
    → 0 < left
    → (0 < piece at left)
      × (piece at left ≤ left)
      × (at % cluster_size + piece at left ≤ cluster_size)
piece_bounds at left h = ground arith

module _ (io : Stdio) (file : IsFile io) (w₀ : Work io) where
  -- Nothing has been freed, and the inode's size is `size`.
  abbrev SizeIs : ℕ → Work io → Type 0
  SizeIs size = Grows io file w₀ (λ s. s ≡ size)

  abbrev grow : ℕ → ℕ → ℕ
  grow size at = if ltb size at then at % 2 ^ 32 else size

  grow_to-SizeIs : (size at : ℕ) → Gives (SizeIs size) (grow_to io at) (λ _. SizeIs (grow size at))
  unfolding grow_to
  grow_to-SizeIs size at = record {
    at = λ w h a e. record {
      valid = h.valid;
      same_total = h.same_total;
      still_used = h.still_used;
      same_index = h.same_index;
      same_id = ground (arith, h.same_id);
      same_type = ground (arith, h.same_type);
      same_links = ground (arith, h.same_links);
      size_in = ground (arith, h.size_in);
    };
  }

  piece-SizeIs :
      (off : ℕ) (src : Bytes) (total k size : ℕ)
      → Gives
          (SizeIs size)
          (write_piece io off src total k)
          (λ _. SizeIs (grow size (off + total + k)))
  unfolding write_piece
  piece-SizeIs off src total k size =
      let R : ℕ → Type 0 = λ s. s ≡ size in
      Gives-bind
        (Gives-keeps (resolve-Grows io file w₀ R ((off + total) / cluster_size % 2 ^ 32) true))
        (λ p. Gives-bind (Gives-keeps (old_bytes-Grows io file w₀ R k p)) (λ b.
          Gives-bind
            (Gives-keeps (
              on_disk-Grows io file w₀ R
                (write_cluster io p (copy b ((off + total) % cluster_size) src total k))))
            (λ _. grow_to-SizeIs size (off + total + k))))

  -- The size after the bytes from `total` up to `n` are written too.
  abbrev final_size : ℕ → ℕ → ℕ → ℕ → ℕ
  final_size size off total n = if ltb total n then max size (off + n) else size

  loop-SizeIs :
      (off : ℕ) (src : Bytes) (n fuel total size : ℕ)
      → total ≤ n
      → n ≤ total + fuel
      → off + n < 2 ^ 32
      → Gives
          (SizeIs size)
          (write_loop io off src n fuel total)
          (λ r w. (r ≡ n) × SizeIs (final_size size off total n) w)
  unfolding write_loop
  loop-SizeIs off src n zero total size below enough small =
      Gives-pure total (λ w h. (omega arith, rw (le→ltb total n (omega arith)) h))
  loop-SizeIs off src n (suc fuel) total size below enough small = elim (lt_or_le total n) [
    | inr done ↦ rw (le→ltb total n done) (Gives-pure total (λ w h. (omega arith, h)))
    | inl more ↦
        let k = piece (off + total) (n - total) in
        let (some_bytes, fits, _) = piece_bounds (off + total) (n - total) (omega arith) in
        let size' = grow size (off + total + k) in
        let e : final_size size' off (total + k) n ≡ max size (off + n) = ground arith in
        rw (lt→ltb total n more, ← e)
          (Gives-bind (piece-SizeIs off src total k size)
            (λ _. loop-SizeIs off src n fuel (total + k) size' (omega arith) (omega arith) small))
  ]

  -- fs_alloc_read_data: a lookup that reads.
  abbrev Reads : Work io × Bytes → Type 0
  Reads (w, b) = SameFile io file w₀ w

  fetch-SameFile : (at : ℕ) → Keeps (SameFile io file w₀) (fetch io at)
  unfolding fetch
  fetch-SameFile at =
      Keeps-bind _ _ (lookup-SameFile io file w₀ (at / cluster_size % 2 ^ 32))
        (λ p. read-SameFile io file w₀ p)

  read_piece-Reads : (off total k : ℕ) → Keeps Reads (read_piece io off total k)
  unfolding read_piece
  read_piece-Reads off total k = record {
    at = λ (w, b) h.
        after b (fetch io (off + total) w).0 (fetch io (off + total) w).1
          ((fetch-SameFile (off + total)).at w h);
  }
    where
      after :
          (b : Bytes) (r : Result Bytes) (w' : Work io)
          → SameFile io file w₀ w'
          → Reads
              (elim r as (λ _. Result (Unit {0}) × (Work io × Bytes)) [
                | ok c ↦ (ok tt, (w', copy b total c ((off + total) % cluster_size) k))
                | err e ↦ (err e, (w', b))
              ]).1
      after b (ok c) w' h = h
      after b (err e) w' h = h

  read_loop-Reads : (off n fuel total : ℕ) → Keeps Reads (read_loop io off n fuel total)
  unfolding read_loop
  read_loop-Reads off n zero total = Keeps-pure total
  read_loop-Reads off n (suc fuel) total =
      let k = piece (off + total) (n - total) in
      Keeps-if (not (ltb total n)) _ _ (Keeps-pure total) (
        Keeps-bind _ _ (read_piece-Reads off total k) (λ _. read_loop-Reads off n fuel (total + k)))

  loop-Reads :
      (off n fuel total : ℕ)
      → total ≤ n
      → n ≤ total + fuel
      → Gives Reads (read_loop io off n fuel total) (λ r s. (r ≡ n) × Reads s)
  unfolding read_loop
  loop-Reads off n zero total below enough = Gives-pure total (λ s h. (omega arith, h))
  loop-Reads off n (suc fuel) total below enough = elim (lt_or_le total n) [
    | inr done ↦ rw (le→ltb total n done) (Gives-pure total (λ s h. (omega arith, h)))
    | inl more ↦
        let k = piece (off + total) (n - total) in
        let (some_bytes, fits, _) = piece_bounds (off + total) (n - total) (omega arith) in
        rw (lt→ltb total n more) (
          Gives-bind (Gives-keeps (read_piece-Reads off total k))
            (λ _. loop-Reads off n fuel (total + k) (omega arith) (omega arith)))
  ]

module _ (io : Stdio) (file : IsFile io) where
  clusters_of_size-covers :
      (size : ℕ) → size ≤ 2 ^ 32 - cluster_size → size ≤ clusters_of_size io size * cluster_size
  clusters_of_size-covers size h = omega (arith, h)

  clusters_of_size-IsLeast :
      (size : ℕ)
      → size ≤ 2 ^ 32 - cluster_size
      → clusters_of_size io size * cluster_size < size + cluster_size
  clusters_of_size-IsLeast size h = omega (arith, h)

  -- From a valid bitmap, a write that succeeds, where the old size and the end of the write leave room
  -- for a cluster below byte 2 ^ 32, reports that all its bytes are written, and the size of the inode
  -- is the larger of the old size and the end of what was written; an empty write leaves it. The count
  -- of clusters is the least that has room for the new size, and the inode's id, type and link count are as before.
  pub write_data-ok :
      (w : Work io) (off : ℕ) (src : Bytes) (n k : ℕ)
      → IsValid w.bitmap
      → off + n ≤ 2 ^ 32 - cluster_size
      → w.inode.size ≤ 2 ^ 32 - cluster_size
      → (write_data io off src n w).0 ≡ ok k
      → let inode = (write_data io off src n w).1.inode in
        (k ≡ n)
        × (inode.size ≡ (if ltb 0 n then max w.inode.size (off + n) else w.inode.size))
        × (inode.size ≤ inode.cluster_count * cluster_size)
        × (inode.cluster_count * cluster_size < inode.size + cluster_size)
        × (inode.id ≡ w.inode.id)
        × (inode.type ≡ w.inode.type)
        × (inode.link_count ≡ w.inode.link_count)
  unfolding write_data set_cluster_count
  write_data-ok w off src n k v small old e =
      let start : Grows io file w (λ s. s ≡ w.inode.size) w = record {
        valid = v;
        same_total = refl;
        still_used = λ j used. used;
        same_index = refl;
        same_id = refl;
        same_type = refl;
        same_links = refl;
        size_in = refl;
      } in
      let loop = write_loop io off src n n 0 in
      let (total, done, rest) = bind-ok loop (λ t. set_cluster_count io >> pure t) w e in
      let w' = (loop w).1 in
      let (all, g) =
        (loop-SizeIs io file w off src n n 0 w.inode.size (omega arith) (omega arith)
            (omega arith)).at
          w start total done in
      let bound : w'.inode.size ≤ 2 ^ 32 - cluster_size = ground (arith, g.size_in) in
      rw rest (
        (cc),
        g.size_in,
        clusters_of_size-covers w'.inode.size bound,
        clusters_of_size-IsLeast w'.inode.size bound,
        g.same_id,
        g.same_type,
        g.same_links,
      )

  -- A read, whatever it returns, leaves the clusters' bytes, the bitmap, the index, the inode and the
  -- disk's size and mode as they were.
  pub read_data-SameFile :
      (w : Work io) (b : Bytes) (off n : ℕ) → SameFile io file w (read_data io off n (w, b)).1.0
  unfolding read_data
  read_data-SameFile w b off n =
      let start : SameFile io file w w = record {
        same_clusters = refl;
        same_shape = record { same_count = refl; same_mode = refl };
        same_bitmap = refl;
        same_index = refl;
        same_inode = refl;
      } in
      elim (Bool-cases (leb w.inode.size off)) [
        | inl past ↦ rw past start
        | inr within ↦
            let m = if ltb (w.inode.size - off) n then w.inode.size - off else n in
            rw within ((read_loop-Reads io file w off m m 0).at (w, b) start)
      ]

  -- A read that succeeds reports as many bytes as were asked for, or as the file has from there
  -- on if those are fewer.
  pub read_data-ok :
      (w : Work io) (b : Bytes) (off n k : ℕ)
      → (read_data io off n (w, b)).0 ≡ ok k
      → k ≡ min n (w.inode.size - off)
  unfolding read_data
  read_data-ok w b off n k e = elim (Bool-cases (leb w.inode.size off)) [
    | inl past ↦ let e' = (rw past at e) in ground (arith)
    | inr within ↦
        let m = if ltb (w.inode.size - off) n then w.inode.size - off else n in
        let start : SameFile io file w w = record {
          same_clusters = refl;
          same_shape = record { same_count = refl; same_mode = refl };
          same_bitmap = refl;
          same_index = refl;
          same_inode = refl;
        } in
        let e' = (rw within at e) in
        let all =
          ((loop-Reads io file w off m m 0 (omega arith) (omega arith)).at (w, b) start k e').0 in
        ground arith
  ]
