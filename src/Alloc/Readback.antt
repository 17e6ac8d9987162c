-- ===== src/Alloc/Readback.antt =====
-- src/alloc/alloc.c: what is written to the first cluster of a file is read again.
use simple_file_system.Base.{
  ℕ, zero, suc, ◌+◌, ◌-◌, ◌/◌, ◌%◌, ◌^◌, ◌<◌, ◌≤◌, ◌≡◌, ◌≢◌, refl, sym, ap, ◌∙◌, true, false, arith,
  Bytes, copy, Result, ok, err, pure, ◌>>=◌, bind-ok, by_result, ltb, leb, lt→ltb, le→ltb, lt→leb,
}
use simple_file_system.Config.{cluster_size}
use simple_file_system.Platform.{Stdio, IsFile}
use simple_file_system.Disk.{read_cluster}
use simple_file_system.Disk.Laws.{cluster, read_cluster-ok}
use simple_file_system.Index.{Inode}
use simple_file_system.Alloc.{Work, on_disk}
use simple_file_system.Alloc.Files.{
  piece, fetch, read_piece, read_loop, read_data, grown, write_data,
}
use simple_file_system.Alloc.Contents.{resolve-first, copy-part, write_data-at}

-- What is read from the first cluster of a file.
module _ (io : Stdio) (file : IsFile io) (inode : Inode) (c : ℕ)
    (first : inode.direct_clusters 0 ≡ c) (held : c ≢ 0) (off : ℕ) where
  fetch-first :
      (w : Work io) (b : Bytes) (i : ℕ)
      → w.inode ≡ inode
      → off < cluster_size
      → (fetch io (off + 0) w).0 ≡ ok b
      → i < cluster_size
      → b i ≡ cluster io file w.disk c i
  unfolding fetch on_disk
  fetch-first w b i h small e l =
      let z : off + 0 ≡ off = omega arith in
      let in_first : off / cluster_size % 2 ^ 32 ≡ 0 = omega arith in
      let q : fetch io (off + 0) w ≡ on_disk io (read_cluster io c) w =
        rw (z, in_first, resolve-first io file inode c first held off false w h) refl in
      read_cluster-ok io file w.disk c i (ap (λ r. r.0) (sym q) ∙ e) l

  read_loop-done : (n fuel : ℕ) → read_loop io off n fuel n ≡ pure n
  unfolding read_loop
  read_loop-done n zero = refl
  read_loop-done n (suc fuel) = rw (le→ltb n n (omega arith)) refl

  read_loop-once :
      (k : ℕ)
      → off + suc k ≤ cluster_size
      → read_loop io off (suc k) (suc k) 0 ≡ (read_piece io off 0 (suc k) >>= λ _. pure (suc k))
  unfolding read_loop
  read_loop-once k l =
      let n = suc k in
      let whole : piece (off + 0) (n - 0) ≡ n = ground arith in
      let positive : ltb 0 n ≡ true = lt→ltb 0 n (omega arith) in
      let sum : 0 + n ≡ n = omega arith in
      let done : read_loop io off n k (0 + n) ≡ pure n =
        ap (read_loop io off n k) sum ∙ read_loop-done n k in
      rw (positive, whole) (ap (λ m. read_piece io off 0 n >>= λ _. m) done)

  read_data-once :
      (k : ℕ) (w : Work io) (destination : Bytes)
      → off + suc k ≤ cluster_size
      → off + suc k ≤ w.inode.size
      → read_data io off (suc k) (w, destination)
        ≡ (read_piece io off 0 (suc k) >>= λ _. pure (suc k)) (w, destination)
  unfolding read_data
  read_data-once k w destination l s =
      let some_size : leb w.inode.size off ≡ false = lt→leb w.inode.size off (omega arith) in
      let enough : ltb (w.inode.size - off) (suc k) ≡ false =
        le→ltb (w.inode.size - off) (suc k) (omega arith) in
      rw (some_size, enough) (ap (λ m. m (w, destination)) (read_loop-once k l))

  read_piece-first :
      (n : ℕ) (w : Work io) (destination : Bytes) (i : ℕ)
      → off + n ≤ cluster_size
      → w.inode ≡ inode
      → i < n
      → (read_piece io off 0 n (w, destination)).0 ≡ ok tt
      → (read_piece io off 0 n (w, destination)).1.1 i ≡ cluster io file w.disk c (off + i)
  unfolding read_piece
  read_piece-first n w destination i l h b =
      let v = cluster io file w.disk c (off + i) in
      let inside : (off + 0) % cluster_size ≡ off = omega arith in
      by_result (λ (x : Result (Unit {0}) × (Work io × Bytes)). x.0 ≡ ok tt → x.1.1 i ≡ v)
        (fetch io (off + 0) w).0
        (λ buffer. (
          ok tt,
          ((fetch io (off + 0) w).1, copy destination 0 buffer ((off + 0) % cluster_size) n),
        ))
        (λ e. (err e, ((fetch io (off + 0) w).1, destination)))
        (λ buffer q e.
          copy-part destination buffer ((off + 0) % cluster_size) n i b
          ∙ ap (λ (j : ℕ). buffer (j + i)) inside
          ∙ fetch-first w buffer (off + i) h (omega arith) q (omega arith))
        (λ x q e. cc)

  -- A read within the first cluster of a file gives its bytes.
  pub read_data-at :
      (n : ℕ) (w : Work io) (destination : Bytes) (k i : ℕ)
      → 0 < n
      → off + n ≤ cluster_size
      → off + n ≤ inode.size
      → w.inode ≡ inode
      → (read_data io off n (w, destination)).0 ≡ ok k
      → i < n
      → (read_data io off n (w, destination)).1.1 i ≡ cluster io file w.disk c (off + i)
  read_data-at zero w destination k i p l s h e b = absurd (omega arith)
  read_data-at (suc m) w destination k i p l s h e b =
      let s' : off + suc m ≤ w.inode.size = rw (h) s in
      let once = read_data-once m w destination l s' in
      let start = read_piece io off 0 (suc m) in
      let (u, done, q) =
        bind-ok start (λ _. pure (suc m)) (w, destination) (ap (λ r. r.0) (sym once) ∙ e) in
      ap (λ r. r.1.1 i) (once ∙ q) ∙ read_piece-first (suc m) w destination i l h b done

-- A read of at most a cluster from the start of a file gives the bytes of its first cluster.
pub read_data-first :
    (io : Stdio) (file : IsFile io) (inode : Inode) (c : ℕ)
    → inode.direct_clusters 0 ≡ c
    → c ≢ 0
    → (n : ℕ) (w : Work io) (destination : Bytes) (k i : ℕ) → 0 < n
    → n ≤ cluster_size
    → n ≤ inode.size
    → w.inode ≡ inode
    → (read_data io 0 n (w, destination)).0 ≡ ok k
    → i < n
    → (read_data io 0 n (w, destination)).1.1 i ≡ cluster io file w.disk c i
read_data-first io file inode c first held n w destination k i p l s h e b =
    let at_i : 0 + i ≡ i = omega arith in
    read_data-at io file inode c first held 0 n w destination k i p (omega arith) (omega arith) h e
      b
    ∙ ap (λ (j : ℕ). cluster io file w.disk c j) at_i

module _ (io : Stdio) (file : IsFile io) where
  grown-room : (n : ℕ) (inode : Inode) → n ≤ cluster_size → n ≤ (grown io n inode).size
  grown-room n inode l = ground arith

  -- The bytes that fs_alloc_write_data writes from an offset on, within the first cluster of a file, which
  -- is allocated, when it succeeds, are those that fs_alloc_read_data reads from there, when it
  -- succeeds.
  pub read_data-write_data :
      (w : Work io) (off : ℕ) (source destination : Bytes) (n k k' i : ℕ)
      → w.inode.direct_clusters 0 ≢ 0
      → off + n ≤ cluster_size
      → (write_data io off source n w).0 ≡ ok k
      → (read_data io off n ((write_data io off source n w).1, destination)).0 ≡ ok k'
      → i < n
      → (read_data io off n ((write_data io off source n w).1, destination)).1.1 i ≡ source i
  read_data-write_data w off source destination n k k' i held l e e' b =
      let c = w.inode.direct_clusters 0 in
      let w' = (write_data io off source n w).1 in
      let (x, a, s, bytes) =
        (write_data-at io file w.inode c refl held off source n (omega arith) l).at w refl k e in
      let room : off + n ≤ w'.inode.size = rw (s) (grown-room (off + n) w.inode l) in
      read_data-at io file w'.inode c a held off n w' destination k' i (omega arith) l room refl e'
        b
      ∙ bytes i b
