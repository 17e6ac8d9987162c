-- ===== src/Alloc/Contents.antt =====
-- src/alloc/alloc.c: a write to the first cluster of a file.
use simple_file_system.Base.{
  ℕ, zero, suc, ◌+◌, ◌-◌, ◌/◌, ◌%◌, ◌^◌, ◌<◌, ◌≤◌, ◌≡◌, ◌≢◌, refl, sym, ap, ◌∙◌, Bool, true, false,
  arith, Bytes, zeros, copy, ok, Exec, pure, ◌>>=◌, ◌>>◌, ltb, ◌==◌, lt→ltb, le→ltb, ne→==,
}
use simple_file_system.Config.{cluster_size}
use simple_file_system.Platform.{Stdio, IsFile}
use simple_file_system.Disk.{write_cluster}
use simple_file_system.Disk.Laws.{cluster, write_cluster-ok}
use simple_file_system.Index.{Inode}
use simple_file_system.Alloc.{
  Work, on_disk, inode_slot, resolve_direct, resolve_pointer, resolve_cluster,
}
use simple_file_system.Alloc.Files.{
  piece, grown, grow_to, old_bytes, write_piece, write_loop, set_cluster_count, write_data,
}
use simple_file_system.Base.Keeps.{Keeps, Keeps-pure, Keeps-if}
use simple_file_system.Base.Gives.{Gives, Gives-bind, Gives-keeps, Gives-pure}

-- A copy into a buffer.
pub copy-inside :
    (buffer : Bytes) (off : ℕ) (source : Bytes) (n i : ℕ)
    → i < n
    → copy buffer off source 0 n (off + i) ≡ source i
unfolding copy
copy-inside buffer off source n i b = ground arith

-- A copy from the middle of a buffer.
pub copy-part :
    (buffer source : Bytes) (off n i : ℕ) → i < n → copy buffer 0 source off n i ≡ source (off + i)
unfolding copy
copy-part buffer source off n i b = ground arith

module _ (io : Stdio) (file : IsFile io) (inode : Inode) (c : ℕ)
    (first : inode.direct_clusters 0 ≡ c) (held : c ≢ 0) (off : ℕ) where
  abbrev InodeIs : Inode → Work io → Type 0
  InodeIs n w = w.inode ≡ n

  pub resolve-first :
      (alloc : Bool) (w : Work io) → InodeIs inode w → resolve_cluster io 0 alloc w ≡ (ok c, w)
  unfolding resolve_cluster resolve_pointer resolve_direct inode_slot
  resolve-first alloc w h =
      let q : w.inode.direct_clusters 0 ≡ c = ap (λ (n : Inode). n.direct_clusters 0) h ∙ first in
      let f : (c == 0) ≡ false = ne→== c 0 held in rw (q, f, f) refl

  -- The bytes of the cluster from the offset on.
  abbrev BytesAre : Bytes → ℕ → Work io → Type 0
  BytesAre source n w = (i : ℕ) → i < n → cluster io file w.disk c (off + i) ≡ source i

  old_bytes-InodeIs : (n : ℕ) → Keeps (InodeIs inode) (old_bytes io n c)
  unfolding old_bytes on_disk
  old_bytes-InodeIs n =
      Keeps-if (ltb n cluster_size) _ _ (record { at = λ w h. h }) (Keeps-pure zeros)

  write-Gives :
      (source buffer : Bytes) (n : ℕ)
      → off + n ≤ cluster_size
      → Gives
          (InodeIs inode)
          (on_disk io (write_cluster io c (copy buffer off source 0 n)))
          (λ _ w. InodeIs inode w × BytesAre source n w)
  unfolding on_disk
  write-Gives source buffer n l = record {
    at = λ w h a e. (
      h,
      λ i b.
          write_cluster-ok io file w.disk c (off + i) (copy buffer off source 0 n) e (omega arith)
          ∙ copy-inside buffer off source n i b,
    );
  }

  -- A round that writes to the first cluster, behind the search for it.
  abbrev rest_of_write : Bytes → ℕ → Exec (Work io) (Unit {0})
  rest_of_write source n = old_bytes io n c >>= λ buffer.
      on_disk io (write_cluster io c (copy buffer off source 0 n)) >> grow_to io (off + n)

  rest_of_write-Gives :
      (source : Bytes) (n : ℕ)
      → off + n ≤ cluster_size
      → Gives
          (InodeIs inode)
          (rest_of_write source n)
          (λ _ w. InodeIs (grown io (off + n) inode) w × BytesAre source n w)
  unfolding grow_to
  rest_of_write-Gives source n l = Gives-bind (Gives-keeps (old_bytes-InodeIs n)) (λ buffer.
      Gives-bind (write-Gives source buffer n l)
        (λ _. record { at = λ w h a e. (ap (λ m. grown io (off + n) m) h.0, h.1) }))

  write_piece-Gives :
      (source : Bytes) (n : ℕ)
      → off + n ≤ cluster_size
      → 0 < n
      → Gives
          (InodeIs inode)
          (write_piece io off source 0 n)
          (λ _ w. InodeIs (grown io (off + n) inode) w × BytesAre source n w)
  unfolding write_piece
  write_piece-Gives source n l p = record {
    at = λ w h a e.
        let q : write_piece io off source 0 n w ≡ rest_of_write source n w =
          let z : off + 0 ≡ off = omega arith in
          let in_first : off / cluster_size % 2 ^ 32 ≡ 0 = omega arith in
          let inside : off % cluster_size ≡ off = omega arith in
          rw (z, in_first, inside, resolve-first true w h) refl in
        rw (q) ((rest_of_write-Gives source n l).at w h a (ap (λ r. r.0) (sym q) ∙ e));
  }

  -- The loop has nothing left to do.
  write_loop-done : (source : Bytes) (n fuel : ℕ) → write_loop io off source n fuel n ≡ pure n
  unfolding write_loop
  write_loop-done source n zero = refl
  write_loop-done source n (suc fuel) = rw (le→ltb n n (omega arith)) refl

  write_loop-once :
      (source : Bytes) (k : ℕ)
      → off + suc k ≤ cluster_size
      → write_loop io off source (suc k) (suc k) 0
        ≡ (write_piece io off source 0 (suc k) >>= λ _. pure (suc k))
  unfolding write_loop
  write_loop-once source k l =
      let n = suc k in
      let whole : piece (off + 0) (n - 0) ≡ n = ground arith in
      let positive : ltb 0 n ≡ true = lt→ltb 0 n (omega arith) in
      let sum : 0 + n ≡ n = omega arith in
      let done : write_loop io off source n k (0 + n) ≡ pure n =
        ap (write_loop io off source n k) sum ∙ write_loop-done source n k in
      rw (positive, whole) (ap (λ m. write_piece io off source 0 n >>= λ _. m) done)

  write_loop-Gives :
      (source : Bytes) (k : ℕ)
      → off + suc k ≤ cluster_size
      → Gives
          (InodeIs inode)
          (write_loop io off source (suc k) (suc k) 0)
          (λ _ w. InodeIs (grown io (off + suc k) inode) w × BytesAre source (suc k) w)
  write_loop-Gives source k l = rw (write_loop-once source k l) (
      Gives-bind (write_piece-Gives source (suc k) l (omega arith))
        (λ _. Gives-pure (suc k) (λ w h. h)))

  same_id_of : (at : ℕ) → (grown io at inode).id ≡ inode.id
  same_id_of at = ground arith

  same_first : (at : ℕ) → (grown io at inode).direct_clusters 0 ≡ c
  same_first at = ground (arith, first)

  -- A write within the first cluster of the file.
  pub write_data-at :
      (source : Bytes) (n : ℕ)
      → 0 < n
      → off + n ≤ cluster_size
      → Gives (InodeIs inode) (write_data io off source n) (λ _ w.
        (w.inode.id ≡ inode.id)
        × (w.inode.direct_clusters 0 ≡ c)
        × (w.inode.size ≡ (grown io (off + n) inode).size)
        × BytesAre source n w)
  unfolding write_data set_cluster_count
  write_data-at source zero p l = absurd (omega arith)
  write_data-at source (suc k) p l = Gives-bind (write_loop-Gives source k l) (λ total. record {
    at = λ w h a e.
        let fields = h.0 in
        (
          ap (λ (m : Inode). m.id) fields ∙ same_id_of (off + suc k),
          ap (λ (m : Inode). m.direct_clusters 0) fields ∙ same_first (off + suc k),
          ap (λ (m : Inode). m.size) fields,
          h.1,
        );
  })

-- A write of at most a cluster at the start of the file.
pub write_data-Gives :
    (io : Stdio) (file : IsFile io) (inode : Inode) (c : ℕ)
    → inode.direct_clusters 0 ≡ c
    → c ≢ 0
    → (source : Bytes) (n : ℕ) → 0 < n
    → n ≤ cluster_size
    → Gives
        (λ w. w.inode ≡ inode)
        (write_data io 0 source n)
        (λ _ w.
          (w.inode.id ≡ inode.id)
          × (w.inode.direct_clusters 0 ≡ c)
          × (w.inode.size ≡ (grown io n inode).size)
          × ((i : ℕ) → i < n → cluster io file w.disk c i ≡ source i))
write_data-Gives io file inode c first held source n p l = record {
  at = λ w h a e.
      let (same_id, same_c, size, bytes) =
        (write_data-at io file inode c first held 0 source n p (omega arith)).at w h a e in
      let sum : 0 + n ≡ n = omega arith in
      (
        same_id,
        same_c,
        size ∙ ap (λ (m : ℕ). (grown io m inode).size) sum,
        λ i b.
            let at_i : 0 + i ≡ i = omega arith in
            sym (ap (λ (j : ℕ). cluster io file (write_data io 0 source n w).1.disk c j) at_i)
            ∙ bytes i b,
      );
}
