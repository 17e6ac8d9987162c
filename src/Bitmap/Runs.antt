-- ===== src/Bitmap/Runs.antt =====
-- The search of src/alloc/bitmap.c for consecutive free clusters.
use simple_file_system.Base.{
  ℕ, zero, suc, ◌+◌, ◌-◌, ◌<◌, ◌≤◌, ◌≡◌, ◌≢◌, refl, true, false, no_space, Result, ok, err,
  if◌then◌else◌, ◌==◌, arith, Bool-cases, inl, inr, lt_or_le, ==→eq, ==-ne, ne→==,
}
use simple_file_system.Bitmap.{Bitmap, scan_run, find_contiguous_free, is_cluster_free}

-- The `n` clusters from `t` on are free.
abbrev pub IsRun : Bitmap → ℕ → ℕ → Type 0
IsRun m t n = (j : ℕ) → t ≤ j → j < t + n → is_cluster_free m j ≡ true

-- The first run of `n` free clusters, or `no_space` if there is none.
abbrev pub IsFirstRun : Bitmap → ℕ → Result ℕ → Type 0
IsFirstRun m n (ok s) =
    IsRun m s n × (s + n ≤ m.total_cluster_count) × ((t : ℕ) → t < s → ¬ IsRun m t n)
IsFirstRun m n (err e) = (e ≡ no_space) × ((t : ℕ) → ¬ IsRun m t n)

-- The state of the loop before cluster `i`: the clusters just below `i` that are counted are free,
-- the one below those is not, and no run has ended yet.
record Counted (m : Bitmap) (n i consecutive_count start_index : ℕ) : Type 0 where
  short : consecutive_count < n
  started : 0 < consecutive_count → start_index + consecutive_count ≡ i
  free : (j : ℕ) → i ≤ j + consecutive_count → j < i → is_cluster_free m j ≡ true
  edge : (j : ℕ) → j + consecutive_count + 1 ≡ i → is_cluster_free m j ≡ false
  no_run : (t : ℕ) → t + n ≤ i → ¬ IsRun m t n

used_past_total : (m : Bitmap) (j : ℕ) → m.total_cluster_count ≤ j → is_cluster_free m j ≡ false
unfolding is_cluster_free
used_past_total m j h = ground arith

in_range_of_free : (m : Bitmap) (j : ℕ) → is_cluster_free m j ≡ true → j < m.total_cluster_count
unfolding is_cluster_free
in_range_of_free m j h = ground arith

module _ (m : Bitmap) (n i k s : ℕ) (c : Counted m n i k s) where
  open c use {short, started, free, edge, no_run}

  Counted-used : is_cluster_free m i ≡ false → Counted m n (i + 1) 0 s
  Counted-used used = record {
    short = omega arith;
    started = λ h. absurd (omega arith);
    free = λ j a b. absurd (omega arith);
    edge = λ j e. let q : j ≡ i = omega arith in rw (q, used);
    no_run = λ t h run. elim (lt_or_le i (t + n)) [
      | inl ends ↦ cc (run i (omega arith) ends, used)
      | inr before ↦ no_run t before run
    ];
  }

  Counted-free :
      is_cluster_free m i ≡ true → k + 1 ≢ n → Counted m n (i + 1) (k + 1) (if k == 0 then i else s)
  Counted-free free_i more = record {
    short = omega arith;
    started = λ h. ground (arith, started);
    free = λ j a b. elim (lt_or_le j i) [
      | inl lt ↦ free j (omega arith) lt
      | inr ge ↦ let q : j ≡ i = omega arith in rw (q, free_i)
    ];
    edge = λ j e. edge j (omega arith);
    no_run = λ t h run. elim (lt_or_le i (t + n)) [
      | inl ends ↦ cc (run (i - k - 1) (omega arith) (omega arith), edge (i - k - 1) (omega arith))
      | inr before ↦ no_run t before run
    ];
  }

  first_run : is_cluster_free m i ≡ true → k + 1 ≡ n → IsFirstRun m n (ok (if k == 0 then i else s))
  first_run free_i done =
      let at : (if k == 0 then i else s) + n ≡ i + 1 = ground (arith, started) in
      (
        λ j a b. elim (lt_or_le j i) [
          | inl lt ↦ free j (omega arith) lt
          | inr ge ↦ let q : j ≡ i = omega arith in rw (q, free_i)
        ],
        omega (arith, in_range_of_free m i free_i),
        λ t h. no_run t (omega arith),
      )

scan_run-IsFirstRun :
    (m : Bitmap) (n rounds i k s : ℕ)
    → rounds + i ≡ m.total_cluster_count
    → Counted m n i k s
    → IsFirstRun m n (scan_run m n rounds i k s)
unfolding scan_run
scan_run-IsFirstRun m n zero i k s e c = (
  refl,
  λ t run. elim (lt_or_le i (t + n)) [
    | inl past ↦ cc (
      run (t + n - 1) (omega (arith, c.short)) (omega arith),
      used_past_total m (t + n - 1) (omega arith),
    )
    | inr before ↦ c.no_run t before run
  ],
)
scan_run-IsFirstRun m n (suc rounds) i k s e c = elim (Bool-cases (is_cluster_free m i)) [
  | inr used ↦
      rw used
        (scan_run-IsFirstRun m n rounds (i + 1) 0 s (omega arith) (Counted-used m n i k s c used))
  | inl free ↦ elim (Bool-cases (k + 1 == n)) [
    | inl done ↦ rw (free, done) (first_run m n i k s c free (==→eq _ _ done))
    | inr more ↦
        rw (free, more)
          (scan_run-IsFirstRun m n rounds (i + 1) (k + 1) (if k == 0 then i else s) (omega arith)
            (Counted-free m n i k s c free (==-ne _ _ more)))
  ]
]

-- For a positive count the search returns the start of the first run of that many free clusters,
-- which lies inside the disk, and fails, with `no_space`, exactly when there is no such run.
pub find_contiguous_free-IsFirstRun :
    (m : Bitmap) (n : ℕ) → 0 < n → IsFirstRun m n (find_contiguous_free m n)
unfolding find_contiguous_free
find_contiguous_free-IsFirstRun m n h = rw (ne→== n 0 (omega arith)) (
    scan_run-IsFirstRun m n m.total_cluster_count 0 0 0 (omega arith) (record {
      short = h;
      started = λ p. absurd (omega arith);
      free = λ j a b. absurd (omega arith);
      edge = λ j e. absurd (omega arith);
      no_run = λ t p. absurd (omega arith);
    }))
