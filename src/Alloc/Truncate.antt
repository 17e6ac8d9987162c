-- ===== src/Alloc/Truncate.antt =====
-- fs_alloc_truncate_file of src/alloc/alloc.c.
use simple_file_system.Base.{
  ℕ, zero, suc, ◌+◌, ◌<◌, ◌≤◌, ◌≡◌, ◌≢◌, refl, sym, ap, ◌∙◌, fun_ext, inl, inr, true, ◌&&◌, arith,
  ltb, leb, ◌==◌, if◌then◌else◌, Bool-cases, ==→eq, lt_or_le,
}
use simple_file_system.Config.{direct_pointers}
use simple_file_system.Platform.{Stdio, IsFile}
use simple_file_system.Bitmap.{IsValid, is_cluster_free}
use simple_file_system.Bitmap.Marks.{
  mark_cluster_free-IsValid, is_cluster_free-mark_cluster_free, total-mark_cluster_free,
}
use simple_file_system.Index.{Inode, write_inode}
use simple_file_system.Alloc.{
  Work, on_index, on_bitmap, release, put_direct, put_single, put_double, put_triple,
}
use simple_file_system.Alloc.Files.{free_direct, free_level, clear_file, truncate_file}
use simple_file_system.Alloc.Allocate.{clusters}
use simple_file_system.Alloc.Shrinks.{
  Shrinks, indirect-Shrinks, release-Shrinks, Shrinks-refl, Shrinks-inode,
}

-- The inode of an empty file, with the rest of what it says of itself.
pub emptied : Inode → Inode
emptied n = record n {
  size = 0;
  cluster_count = 0;
  direct_clusters = λ j. if ltb j direct_pointers then 0 else n.direct_clusters j;
  single_indirect_cluster = 0;
  double_indirect_cluster = 0;
  triple_indirect_cluster = 0;
}

module _ (io : Stdio) (file : IsFile io) where
  -- The inode after the loop over the direct pointers from `i`.
  abbrev zeroed : (rounds i : ℕ) → Inode → Inode
  zeroed rounds i n = record n {
    direct_clusters = λ j. if leb i j && ltb j (i + rounds) then 0 else n.direct_clusters j;
  }

  zeroed-zero : (i : ℕ) (n : Inode) → zeroed 0 i n ≡ n
  zeroed-zero i n = ap (λ d. record n { direct_clusters = d }) (fun_ext (λ j. ground arith))

  zeroed-skip :
      (rounds i : ℕ) (n : Inode)
      → n.direct_clusters i ≡ 0
      → zeroed rounds (i + 1) n ≡ zeroed (suc rounds) i n
  zeroed-skip rounds i n e =
      ap (λ d. record n { direct_clusters = d }) (fun_ext (λ j. ground arith))

  zeroed-put :
      (rounds i : ℕ) (n : Inode)
      → zeroed rounds (i + 1) (put_direct io i 0 n) ≡ zeroed (suc rounds) i n
  zeroed-put rounds i n = ap (λ d. record n { direct_clusters = d }) (fun_ext (λ j. ground arith))

  direct-Shrinks :
      (w₀ : Work io) (rounds i : ℕ) (w : Work io)
      → Shrinks io file w₀ w.inode w
      → Shrinks io file w₀ (zeroed rounds i w.inode) (free_direct io rounds i w)
  unfolding free_direct release on_bitmap
  direct-Shrinks w₀ zero i w h = rw (zeroed-zero i w.inode) h
  direct-Shrinks w₀ (suc rounds) i w h = elim (Bool-cases (w.inode.direct_clusters i == 0)) [
    | inl none_here ↦
        rw (none_here, ← zeroed-skip rounds i w.inode (==→eq _ _ none_here))
          (direct-Shrinks w₀ rounds (i + 1) w h)
    | inr here ↦
        let p = w.inode.direct_clusters i in
        let freed = release io p w in
        rw (here, ← zeroed-put rounds i w.inode)
          (direct-Shrinks w₀ rounds (i + 1) (record freed { inode = put_direct io i 0 freed.inode })
            (Shrinks-inode io file w₀ freed _ _ _ refl (release-Shrinks io file w₀ w.inode p w h)))
  ]

  -- The direct pointers from `i` on are free after the loop.
  direct-Freed :
      (rounds i j p : ℕ) (w : Work io)
      → IsValid w.bitmap
      → i ≤ j
      → j < i + rounds
      → w.inode.direct_clusters j ≡ p
      → p ≢ 0
      → p < w.bitmap.total_cluster_count
      → is_cluster_free (free_direct io rounds i w).bitmap p ≡ true
  unfolding free_direct release on_bitmap
  direct-Freed zero i j p w v a b e present in_range = absurd (omega arith)
  direct-Freed (suc rounds) i j p w v a b e present in_range =
      elim (Bool-cases (w.inode.direct_clusters i == 0)) [
        | inl none_here ↦
            rw (none_here, free_direct)
              (elim (lt_or_le i j) [
                | inl past ↦
                    direct-Freed rounds (i + 1) j p w v (omega arith) (omega arith) e present
                      in_range
                | inr at ↦
                    let q : j ≡ i = omega arith in
                    absurd (present (sym e ∙ ap (w.inode.direct_clusters) q ∙ ==→eq _ _ none_here))
              ])
        | inr here ↦
            let c = w.inode.direct_clusters i in
            let freed = release io c w in
            let next = record freed { inode = put_direct io i 0 freed.inode } in
            let v' = mark_cluster_free-IsValid c v in
            rw (here, free_direct)
              (elim (lt_or_le i j) [
                | inl past ↦
                    direct-Freed rounds (i + 1) j p next v' (omega arith) (omega arith)
                      (ground arith) present (ground (arith, total-mark_cluster_free w.bitmap c))
                | inr at ↦
                    let q : j ≡ i = omega arith in
                    let c_is : c ≡ p = ap (w.inode.direct_clusters) (sym q) ∙ e in
                    (direct-Shrinks next rounds (i + 1) next
                        (Shrinks-refl io file next v')).still_free
                      p (ground (arith, is_cluster_free-mark_cluster_free c p v))
              ])
      ]

  level-Shrinks :
      (deeper : ℕ) (get : Inode → ℕ) (put : ℕ → Inode → Inode)
      → ((n : Inode) → put (get n) n ≡ n)
      → (w₀ : Work io) (n : Inode) (w : Work io) → Shrinks io file w₀ n w
      → Shrinks io file w₀ (put 0 n) (free_level io deeper get put w)
  unfolding free_level
  level-Shrinks deeper get put same w₀ n w h = elim (Bool-cases (get w.inode == 0)) [
    | inl none_here ↦
        let zero_here : get n ≡ 0 = sym (ap get h.same_inode) ∙ ==→eq _ _ none_here in
        let unchanged : put 0 n ≡ n = sym (ap (λ c. put c n) zero_here) ∙ same n in
        rw (none_here, unchanged) h
    | inr here ↦
        let freed = indirect-Shrinks io file w₀ n deeper (get w.inode) w h in
        rw here (Shrinks-inode io file w₀ _ n (put 0 n) _ (ap (put 0) freed.same_inode) freed)
  ]

  emptied-zeroed :
      (n : Inode)
      → put_triple io 0 (
          put_double io 0
            (put_single io 0 (zeroed direct_pointers 0 (record n { size = 0; cluster_count = 0 }))))
        ≡ emptied n
  unfolding emptied
  emptied-zeroed n =
      ap
        (λ d. record n {
          size = 0;
          cluster_count = 0;
          direct_clusters = d;
          single_indirect_cluster = 0;
          double_indirect_cluster = 0;
          triple_indirect_cluster = 0;
        })
        (fun_ext (λ j. ground arith))

  levels : Work io → Work io
  levels w =
      free_level io 2 (λ n. n.triple_indirect_cluster) (put_triple io)
        (free_level io 1 (λ n. n.double_indirect_cluster) (put_double io)
          (free_level io 0 (λ n. n.single_indirect_cluster) (put_single io) w))

  levels-Shrinks :
      (w₀ : Work io) (n : Inode) (w : Work io)
      → Shrinks io file w₀ n w
      → Shrinks io file w₀ (put_triple io 0 (put_double io 0 (put_single io 0 n))) (levels w)
  unfolding levels
  levels-Shrinks w₀ n w h =
      level-Shrinks 2 (λ n. n.triple_indirect_cluster) (put_triple io) (λ n. refl) w₀ _ _
        (level-Shrinks 1 (λ n. n.double_indirect_cluster) (put_double io) (λ n. refl) w₀ _ _
          (level-Shrinks 0 (λ n. n.single_indirect_cluster) (put_single io) (λ n. refl) w₀ _ _ h))

  clear_file-Shrinks :
      (w : Work io) → IsValid w.bitmap → Shrinks io file w (emptied w.inode) (clear_file io w)
  unfolding clear_file levels
  clear_file-Shrinks w v =
      let n = record w.inode { size = 0; cluster_count = 0 } in
      let start = Shrinks-inode io file w w _ n n refl (Shrinks-refl io file w v) in
      rw (← emptied-zeroed w.inode)
        (levels-Shrinks w _ _ (direct-Shrinks w direct_pointers 0 (record w { inode = n }) start))

  clear_file-Freed :
      (j p : ℕ) (w : Work io)
      → IsValid w.bitmap
      → j < direct_pointers
      → w.inode.direct_clusters j ≡ p
      → p ≢ 0
      → p < w.bitmap.total_cluster_count
      → is_cluster_free (clear_file io w).bitmap p ≡ true
  unfolding clear_file levels
  clear_file-Freed j p w v b e present in_range =
      let n = record w.inode { size = 0; cluster_count = 0 } in
      let w₁ = record w { inode = n } in
      let w₂ = free_direct io direct_pointers 0 w₁ in
      let d = direct-Shrinks w₁ direct_pointers 0 w₁ (Shrinks-refl io file w₁ v) in
      (levels-Shrinks w₂ _ w₂ (Shrinks-refl io file w₂ d.valid)).still_free p
        (direct-Freed direct_pointers 0 j p w₁ v (omega arith) (omega arith) e present in_range)

  -- From a valid bitmap, a truncation leaves an inode of size 0 without clusters and puts it in the inode's place in the
  -- index, or reports that the index has no such place. Whatever the disk does, no byte of a cluster
  -- changes, no free cluster becomes used, and each cluster of the disk that a direct pointer named is
  -- free.
  pub truncate_file-Empties :
      (w : Work io)
      → IsValid w.bitmap
      → let w' = (truncate_file io w).1 in
        (w'.inode ≡ emptied w.inode)
        × ((truncate_file io w).0 ≡ (write_inode (emptied w.inode) w.index).0)
        × (w'.index ≡ (write_inode (emptied w.inode) w.index).1)
        × IsValid w'.bitmap
        × (clusters io file w' ≡ clusters io file w)
        × ((j : ℕ) → is_cluster_free w.bitmap j ≡ true → is_cluster_free w'.bitmap j ≡ true)
        × ((j : ℕ)
            → j < direct_pointers
            → w.inode.direct_clusters j ≢ 0
            → w.inode.direct_clusters j < w.bitmap.total_cluster_count
            → is_cluster_free w'.bitmap (w.inode.direct_clusters j) ≡ true)
  unfolding truncate_file on_index
  truncate_file-Empties w v =
      let c = clear_file-Shrinks w v in
      rw (c.same_inode, c.same_index)
        (
          refl,
          refl,
          refl,
          c.valid,
          c.same_clusters,
          c.still_free,
          λ j b present in_range. clear_file-Freed j _ w v b refl present in_range,
        )
