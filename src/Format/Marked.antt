-- ===== src/Format/Marked.antt =====
-- src/storage/format.c: the clusters that formatting marks as used.
use simple_file_system.Base.{
  ℕ, zero, suc, ◌+◌, ◌/◌, ◌^◌, ◌<◌, ◌≡◌, refl, sym, ap, ◌∙◌, inl, inr, Bool, true, false, not, ◌&&◌,
  ◌||◌, arith, Result, ok, err, Exec, ◌>>◌, bind-ok, ltb, leb, ◌==◌, if◌then◌else◌, lt→ltb, le→ltb,
  le→leb, lt_or_le,
}
use simple_file_system.Config.{superblock_cluster_index, bitmap_start_cluster_index}
use simple_file_system.Bitmap.{Bitmap, IsValid, mark_cluster_used, is_cluster_free}
use simple_file_system.Bitmap
use simple_file_system.Bitmap.Marks.{
  create-IsValid, mark_cluster_used-IsValid, is_cluster_free-mark_cluster_used,
  total-mark_cluster_used,
}
use simple_file_system.Superblock.{Superblock}
use simple_file_system.Format.{
  Memory, mark_range, mark_system, marked_or, mark_created, bitmap_cluster_count, new_bitmap,
}

-- Whether a cluster is one of `count` clusters from a place on.
unfoldable pub is_within : (from count cluster_index : ℕ) → Bool
is_within from count j = leb from j && ltb j (from + count)

-- What marking some clusters makes of a bitmap.
pub record Marks (m : Bitmap) (taken : ℕ → Bool) (m' : Bitmap) : Type 0 where
  pub valid : IsValid m'
  pub same_total : m'.total_cluster_count ≡ m.total_cluster_count
  pub free : (j : ℕ) → is_cluster_free m' j ≡ (if taken j then false else is_cluster_free m j)

mark_cluster_used-Marks :
    (c : ℕ) (m : Bitmap) → IsValid m → Marks m (λ j. j == c) (mark_cluster_used c m).1
mark_cluster_used-Marks c m v = record {
  valid = mark_cluster_used-IsValid c v;
  same_total = total-mark_cluster_used m c;
  free = λ j. is_cluster_free-mark_cluster_used c j v;
}

taken_twice :
    (t s u before between : Bool)
    → (t || s) ≡ u
    → between ≡ (if s then false else before)
    → (if t then false else between) ≡ (if u then false else before)
taken_twice true s u x y q e = rw (← q) refl
taken_twice false s u x y q e = rw (← q) e

-- Marking some clusters and then others.
Marks-trans :
    (m n p : Bitmap) (s t u : ℕ → Bool)
    → Marks m s n
    → Marks n t p
    → ((j : ℕ) → (t j || s j) ≡ u j)
    → Marks m u p
Marks-trans m n p s t u a b q = record {
  valid = b.valid;
  same_total = b.same_total ∙ a.same_total;
  free = λ j.
      b.free j
      ∙ taken_twice (t j) (s j) (u j) (is_cluster_free m j) (is_cluster_free n j) (q j) (a.free j);
}

is_within-none : (i j : ℕ) → is_within i 0 j ≡ false
unfolding is_within
is_within-none i j = grind arith

is_within-step :
    (i rounds j : ℕ) → (is_within (i + 1) rounds j || j == i) ≡ is_within i (suc rounds) j
unfolding is_within
is_within-step i rounds j = grind arith

mark_range-Marks :
    (rounds i : ℕ) (m : Bitmap)
    → IsValid m
    → (mark_range rounds i m).0 ≡ ok tt
    → Marks m (is_within i rounds) (mark_range rounds i m).1
unfolding mark_range
mark_range-Marks zero i m v e =
    let nothing : (j : ℕ) → is_within i 0 j ≡ false = λ j. is_within-none i j in
    record { valid = v; same_total = refl; free = λ j. rw (nothing j) refl }
mark_range-Marks (suc rounds) i m v e =
    let (u, a, c) = bind-ok (mark_cluster_used i) (λ _. mark_range rounds (i + 1)) m e in
    let n = (mark_cluster_used i m).1 in
    let first = mark_cluster_used-Marks i m v in
    let rest = mark_range-Marks rounds (i + 1) n first.valid (ap (λ r. r.0) (sym c) ∙ e) in
    rw (c) (
      Marks-trans m n (mark_range rounds (i + 1) n).1 (λ j. j == i) (is_within (i + 1) rounds)
        (is_within i (suc rounds)) first rest (is_within-step i rounds))

-- The clusters of the file system itself.
abbrev pub is_system : (bitmap_clusters : ℕ) → Superblock → ℕ → Bool
is_system bitmap_clusters superblock j =
    is_within superblock.inode_table_start_cluster superblock.inode_table_size_clusters j
    || (is_within bitmap_start_cluster_index bitmap_clusters j || j == superblock_cluster_index)

mark_system-Marks :
    (superblock : Superblock) (m : Bitmap)
    → IsValid m
    → (mark_system superblock m).0 ≡ ok tt
    → Marks m (is_system (bitmap_cluster_count m) superblock) (mark_system superblock m).1
unfolding mark_system
mark_system-Marks superblock m v e =
    let k = bitmap_cluster_count m in
    let start = superblock.inode_table_start_cluster in
    let size = superblock.inode_table_size_clusters in
    let tail : Exec Bitmap (Unit {0}) = mark_range size start in
    let middle : Exec Bitmap (Unit {0}) = mark_range k bitmap_start_cluster_index >> tail in
    let (u, a, c) = bind-ok (mark_cluster_used superblock_cluster_index) (λ _. middle) m e in
    let n = (mark_cluster_used superblock_cluster_index m).1 in
    let first = mark_cluster_used-Marks superblock_cluster_index m v in
    let e' : (middle n).0 ≡ ok tt = ap (λ r. r.0) (sym c) ∙ e in
    let (u', a', c') = bind-ok (mark_range k bitmap_start_cluster_index) (λ _. tail) n e' in
    let p = (mark_range k bitmap_start_cluster_index n).1 in
    let second = mark_range-Marks k bitmap_start_cluster_index n first.valid a' in
    let third = mark_range-Marks size start p second.valid (ap (λ r. r.0) (sym c') ∙ e') in
    rw (c, c')
      (Marks-trans m p (tail p).1
        (λ j. is_within bitmap_start_cluster_index k j || j == superblock_cluster_index)
        (is_within start size) (is_system k superblock)
        (Marks-trans m n p (λ j. j == superblock_cluster_index)
          (is_within bitmap_start_cluster_index k)
          (λ j. is_within bitmap_start_cluster_index k j || j == superblock_cluster_index) first
          second (λ j. refl))
        third (λ j. refl))

-- How many clusters the bits of the clusters of a disk take.
abbrev pub clusters_of_bits : (total_cluster_count : ℕ) → ℕ
clusters_of_bits total = ((total + 7) / 8 + 4095) / 4096

marked_or-ok : (r : Result (Unit {0})) (b m : Bitmap) → marked_or r b ≡ ok m → (r ≡ ok tt) × (b ≡ m)
marked_or-ok (ok u) b m q = (refl, cc)
marked_or-ok (err x) b m q = cc

-- What a disk's bitmap is to be: just the clusters that are not those of the system are free.
pub record IsFresh (total : ℕ) (superblock : Superblock) (m : Bitmap) : Type 0 where
  pub valid : IsValid m
  pub has_total : m.total_cluster_count ≡ total
  pub free :
      (j : ℕ)
      → is_cluster_free m j ≡ (ltb j total && not (is_system (clusters_of_bits total) superblock j))

-- No cluster beyond the disk is free, and in a new bitmap all others are.
create-free :
    (a b : Bool) (total : ℕ) (m : Bitmap)
    → total + 7 < 2 ^ 32
    → Bitmap.create a b total ≡ ok m
    → (j : ℕ) → is_cluster_free m j ≡ ltb j total
unfolding is_cluster_free
create-free a b total m fits c j =
    let (v, t, f) = create-IsValid a b total fits c in
    elim (lt_or_le j total) [
      | inl below ↦ f j below ∙ sym (lt→ltb j total below)
      | inr above ↦ rw (t, le→leb total j above, le→ltb j total above) refl
    ]

unless : (x y : Bool) → (if x then false else y) ≡ (y && not x)
unless true true = refl
unless true false = refl
unless false true = refl
unless false false = refl

created-IsFresh :
    (memory : Memory) (total : ℕ) (superblock : Superblock) (b m : Bitmap)
    → total + 7 < 2 ^ 32
    → Bitmap.create memory.got_bitmap memory.got_bitmap_buffer total ≡ ok b
    → mark_created superblock (ok b) ≡ ok m
    → IsFresh total superblock m
unfolding mark_created
created-IsFresh memory total superblock b m fits c q =
    let (v, t, f) = create-IsValid memory.got_bitmap memory.got_bitmap_buffer total fits c in
    let (done, same) = marked_or-ok (mark_system superblock b).0 (mark_system superblock b).1 m q in
    let w = mark_system-Marks superblock b v done in
    let k : bitmap_cluster_count b ≡ clusters_of_bits total =
      omega (arith, v.byte_length, v.fits) in
    rw (← same) (record {
      valid = w.valid;
      has_total = w.same_total ∙ t;
      free = λ j.
          w.free j
          ∙ rw (k, create-free memory.got_bitmap memory.got_bitmap_buffer total b fits c j)
              (unless (is_system (clusters_of_bits total) superblock j) (ltb j total));
    })

-- The bitmap that fs_format_initialize_disk begins with, when it gets it, for a number of clusters that
-- leaves room below 2 ^ 32, is valid, and the clusters that are free in it are those of the disk that hold neither the superblock, nor the bitmap, nor the inode table.
pub new_bitmap-IsFresh :
    (memory : Memory) (total : ℕ) (superblock : Superblock) (m : Bitmap)
    → total + 7 < 2 ^ 32
    → new_bitmap memory total superblock ≡ ok m
    → IsFresh total superblock m
unfolding new_bitmap mark_created
new_bitmap-IsFresh memory total superblock m fits e =
    go (Bitmap.create memory.got_bitmap memory.got_bitmap_buffer total) refl e
  where
    go :
        (r : Result Bitmap)
        → Bitmap.create memory.got_bitmap memory.got_bitmap_buffer total ≡ r
        → mark_created superblock r ≡ ok m
        → IsFresh total superblock m
    go (err x) c q = cc
    go (ok b) c q = created-IsFresh memory total superblock b m fits c q
