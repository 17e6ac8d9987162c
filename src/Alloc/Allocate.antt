-- ===== src/Alloc/Allocate.antt =====
-- fs_alloc_allocate_and_zero_cluster of src/alloc/alloc.c.
use simple_file_system.Base.{
  ℕ, ◌<◌, ◌≡◌, refl, ap, ◌∙◌, false, arith, Bytes, zeros, Result, ok, err, ◌==◌, if◌then◌else◌,
  lt→ltb, ==→eq,
}
use simple_file_system.Config.{cluster_size}
use simple_file_system.Platform.{Stdio, IsFile}
use simple_file_system.Disk.{write_cluster}
use simple_file_system.Disk.Laws.{
  cluster, write_cluster-ok, write_cluster-other, SameShape, write_cluster-SameShape,
}
use simple_file_system.Bitmap.{
  Bitmap, IsValid, find_free_cluster, mark_cluster_used, is_cluster_free,
}
use simple_file_system.Bitmap.Marks.{
  mark_cluster_used-IsValid, mark_cluster_free-IsValid, is_cluster_free-mark_cluster_used,
  is_cluster_free-mark_cluster_free, total-mark_cluster_used, total-mark_cluster_free,
  mark_cluster_used-result,
}
use simple_file_system.Bitmap.Search.{IsFirstFree, find_free_cluster-IsFirstFree}
use simple_file_system.Alloc.{
  true, Work, on_disk, on_bitmap, release, zero_cluster, allocate_and_zero_cluster,
}

mark_of_eq : (m : Bitmap) (j c : ℕ) → (j == c) ≡ true → is_cluster_free m j ≡ is_cluster_free m c
mark_of_eq m j c h = ap (is_cluster_free m) (==→eq j c h)

module _ (io : Stdio) (file : IsFile io) where
  abbrev pub clusters : Work io → ℕ → Bytes
  clusters w = cluster io file w.disk

  -- The marks after a call: one more cluster is used if it succeeds, none has changed if it fails.
  abbrev pub Taken : Work io → Result ℕ → Work io → Type 0
  Taken w (ok c) w' =
      IsFirstFree w.bitmap (ok c)
      × ((j : ℕ)
          → is_cluster_free w'.bitmap j ≡ (if j == c then false else is_cluster_free w.bitmap j))
      × ((i : ℕ) → i < cluster_size → clusters w' c i ≡ 0)
  Taken w (err e) w' = (j : ℕ) → is_cluster_free w'.bitmap j ≡ is_cluster_free w.bitmap j

  -- What the call does: it takes the lowest free cluster and fills it with zeros, and it leaves every
  -- cluster in use, the index and the inode alone.
  pub record Outcome (w : Work io) (r : Result ℕ) (w' : Work io) : Type 0 where
    pub valid : IsValid w'.bitmap
    pub same_total : w'.bitmap.total_cluster_count ≡ w.bitmap.total_cluster_count
    pub same_shape : SameShape io w.disk w'.disk
    pub same_index : w'.index ≡ w.index
    pub same_inode : w'.inode ≡ w.inode
    pub kept :
        (k i : ℕ)
        → is_cluster_free w.bitmap k ≡ false
        → i < cluster_size
        → clusters w' k i ≡ clusters w k i
    pub taken : Taken w r w'

  module _ (w : Work io) (v : IsValid w.bitmap) (c : ℕ) (first : IsFirstFree w.bitmap (ok c)) where
    marked : Work io
    marked = record w { bitmap = (mark_cluster_used c w.bitmap).1 }

    others_kept :
        (k i : ℕ)
        → is_cluster_free w.bitmap k ≡ false
        → i < cluster_size
        → cluster io file (write_cluster io c zeros w.disk).1 k i ≡ clusters w k i
    others_kept k i used lt =
        write_cluster-other io file w.disk c k i zeros
          (λ e.
            let used_c : is_cluster_free w.bitmap c ≡ false = rw (← e) used in cc (first.1, used_c))
          lt

    zero_cluster-Outcome :
        (r : Result (Unit {0}))
        → (write_cluster io c zeros w.disk).0 ≡ r
        → Outcome w (zero_cluster io c marked).0 (zero_cluster io c marked).1
    unfolding zero_cluster on_disk release on_bitmap marked
    zero_cluster-Outcome (ok _) e =
        rw (e, zero_cluster)
          (record {
            valid = mark_cluster_used-IsValid c v;
            same_total = total-mark_cluster_used w.bitmap c;
            same_shape = write_cluster-SameShape io w.disk c zeros;
            same_index = refl;
            same_inode = refl;
            kept = others_kept;
            taken = (
              first,
              λ j. is_cluster_free-mark_cluster_used c j v,
              λ i lt. write_cluster-ok io file w.disk c i zeros e lt,
            );
          })
    zero_cluster-Outcome (err x) e =
        rw (e, zero_cluster)
          (record {
            valid = mark_cluster_free-IsValid c (mark_cluster_used-IsValid c v);
            same_total =
                total-mark_cluster_free (mark_cluster_used c w.bitmap).1 c
                ∙ total-mark_cluster_used w.bitmap c;
            same_shape = write_cluster-SameShape io w.disk c zeros;
            same_index = refl;
            same_inode = refl;
            kept = others_kept;
            taken = λ j. ground (
              arith,
              is_cluster_free-mark_cluster_free c j (mark_cluster_used-IsValid c v),
              is_cluster_free-mark_cluster_used c j v,
              total-mark_cluster_used w.bitmap c,
              mark_of_eq w.bitmap j c,
              first,
            );
          })

  module _ (w : Work io) (v : IsValid w.bitmap) where
    allocate-Outcome_cases :
        (r : Result ℕ)
        → find_free_cluster w.bitmap ≡ r
        → IsFirstFree w.bitmap r
        → let (s, w') = allocate_and_zero_cluster io w in Outcome w s w'
    unfolding allocate_and_zero_cluster on_bitmap marked
    allocate-Outcome_cases (ok c) e first =
        rw (e, mark_cluster_used-result, lt→ltb _ _ first.0)
          (zero_cluster-Outcome w v c first (write_cluster io c zeros w.disk).0 refl)
    allocate-Outcome_cases (err x) e first = rw e (record {
      valid = v;
      same_total = refl;
      same_shape = record { same_count = refl; same_mode = refl };
      same_index = refl;
      same_inode = refl;
      kept = λ k i used lt. refl;
      taken = λ j. refl;
    })

    -- On a valid bitmap, an allocation that succeeds returns the lowest free cluster, which is
    -- then in use and holds zeros, and leaves every other mark; one that fails leaves every mark.
    -- In both cases the bitmap stays valid and of its size, the bytes of every cluster in use
    -- stay, and the index, the inode and the disk's size and mode are as before.
    pub allocate-Outcome : let (r, w') = allocate_and_zero_cluster io w in Outcome w r w'
    allocate-Outcome =
        allocate-Outcome_cases (find_free_cluster w.bitmap) refl
          (find_free_cluster-IsFirstFree w.bitmap v)
