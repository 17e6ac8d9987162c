-- ===== src/Bitmap/Count.antt =====
-- The number of used clusters, src/alloc/bitmap.c.
use simple_file_system.Base.{
  ℕ, zero, suc, ◌+◌, ◌/◌, ◌%◌, ◌<◌, ◌≡◌, refl, ap, ◌∙◌, inl, inr, Bool, not, arith, ◌==◌,
  Bool-cases,
}
use simple_file_system.Base.Counting.{
  one_if, count_below, count_loop, count_loop-eq-count_below, count_below-same, count_below-change,
}
use simple_file_system.Base.Bits.{bit_at}
use simple_file_system.Bitmap.{
  Bitmap, IsValid, count_used_from, count_used_clusters, is_cluster_free, mark_cluster_used,
  mark_cluster_free,
}
use simple_file_system.Bitmap.Marks.{
  is_cluster_free-mark_cluster_used, is_cluster_free-mark_cluster_free, total-mark_cluster_used,
  total-mark_cluster_free,
}

-- Whether a cluster is in use.
abbrev pub is_used : Bitmap → ℕ → Bool
is_used m c = not (is_cluster_free m c)

bit_is_set : Bitmap → ℕ → Bool
bit_is_set m i = not (bit_at (m.bitmap_buffer (i / 8)) (i % 8) == 0)

count_used_from-count_loop :
    (m : Bitmap) (rounds i acc : ℕ)
    → count_used_from m rounds i acc ≡ count_loop (bit_is_set m) rounds i acc
unfolding count_used_from count_loop bit_is_set
count_used_from-count_loop m zero i acc = refl
count_used_from-count_loop m (suc rounds) i acc =
    elim (Bool-cases (bit_at (m.bitmap_buffer (i / 8)) (i % 8) == 0)) [
      | inl clear ↦ rw clear (count_used_from-count_loop m rounds (i + 1) acc)
      | inr full ↦ rw full (count_used_from-count_loop m rounds (i + 1) (acc + 1))
    ]

-- The function counts the clusters of the disk that are in use.
pub count_used_clusters-eq-count_below :
    (m : Bitmap) → count_used_clusters m ≡ count_below (is_used m) m.total_cluster_count
unfolding count_used_clusters bit_is_set is_cluster_free
count_used_clusters-eq-count_below m =
    count_used_from-count_loop m m.total_cluster_count 0 0
    ∙ count_loop-eq-count_below (bit_is_set m) m.total_cluster_count
    ∙ count_below-same (is_used m) (bit_is_set m) m.total_cluster_count (λ j h. ground arith)

module _ {m : Bitmap} (c : ℕ) (v : IsValid m) (inside : c < m.total_cluster_count) where
  -- On a valid bitmap, marking a cluster of the disk used adds one to the count if the cluster was free, and nothing otherwise.
  pub count-mark_cluster_used :
      count_used_clusters (mark_cluster_used c m).1
      ≡ count_used_clusters m + one_if (is_cluster_free m c)
  count-mark_cluster_used =
      let m' = (mark_cluster_used c m).1 in
      ground (
        arith,
        count_used_clusters-eq-count_below m,
        count_used_clusters-eq-count_below m',
        ap (count_below (is_used m')) (total-mark_cluster_used m c),
        is_cluster_free-mark_cluster_used c c v,
        count_below-change (is_used m) (is_used m') c m.total_cluster_count
            (λ j ne. ground (arith, is_cluster_free-mark_cluster_used c j v)),
      )

  -- On a valid bitmap, marking a cluster of the disk free takes one off the count if the cluster was used, and nothing otherwise.
  pub count-mark_cluster_free :
      count_used_clusters (mark_cluster_free c m).1 + one_if (is_used m c) ≡ count_used_clusters m
  count-mark_cluster_free =
      let m' = (mark_cluster_free c m).1 in
      ground (
        arith,
        count_used_clusters-eq-count_below m,
        count_used_clusters-eq-count_below m',
        ap (count_below (is_used m')) (total-mark_cluster_free m c),
        is_cluster_free-mark_cluster_free c c v,
        count_below-change (is_used m) (is_used m') c m.total_cluster_count
            (λ j ne. ground (arith, is_cluster_free-mark_cluster_free c j v)),
      )
