-- ===== src/Alloc/Shrinks.antt =====
-- Freeing clusters in src/alloc/alloc.c: free_indirect_blocks takes no cluster and writes no byte.
use simple_file_system.Base.{
  ℕ, zero, suc, ◌+◌, ◌<◌, ◌≡◌, refl, ◌∙◌, inl, inr, true, arith, Bytes, u32_at, Result, ok, err,
  ◌==◌, Bool-cases,
}
use simple_file_system.Platform.{Stdio, IsFile}
use simple_file_system.Disk.{read_cluster}
use simple_file_system.Disk.Laws.{cluster-read_cluster, SameShape, read_cluster-SameShape}
use simple_file_system.Bitmap.{Bitmap, IsValid, is_cluster_free}
use simple_file_system.Bitmap.Marks.{
  mark_cluster_free-IsValid, is_cluster_free-mark_cluster_free, total-mark_cluster_free,
}
use simple_file_system.Index.{Inode}
use simple_file_system.Alloc.{Work, on_disk, on_bitmap, release, pointers_per_cluster}
use simple_file_system.Alloc.Files.{each_pointer, free_block, free_indirect_blocks}
use simple_file_system.Alloc.Allocate.{clusters}

module _ (io : Stdio) (file : IsFile io) (w₀ : Work io) (n : Inode) where
  -- No cluster has been taken, no byte has been written, the index is as it was, and the
  -- inode is `n`.
  pub record Shrinks (w : Work io) : Type 0 where
    pub valid : IsValid w.bitmap
    pub same_total : w.bitmap.total_cluster_count ≡ w₀.bitmap.total_cluster_count
    pub still_free :
        (j : ℕ) → is_cluster_free w₀.bitmap j ≡ true → is_cluster_free w.bitmap j ≡ true
    pub same_clusters : clusters io file w ≡ clusters io file w₀
    pub same_shape : SameShape io w₀.disk w.disk
    pub same_index : w.index ≡ w₀.index
    pub same_inode : w.inode ≡ n

  abbrev KeepsShrinks : (Work io → Work io) → Type 0
  KeepsShrinks f = (w : Work io) → Shrinks w → Shrinks (f w)

  in_range_of_free : (m : Bitmap) (j : ℕ) → is_cluster_free m j ≡ true → j < m.total_cluster_count
  unfolding is_cluster_free
  in_range_of_free m j h = ground arith

  pub release-Shrinks : (c : ℕ) → KeepsShrinks (release io c)
  unfolding release on_bitmap
  release-Shrinks c w h = record {
    valid = mark_cluster_free-IsValid c h.valid;
    same_total = total-mark_cluster_free w.bitmap c ∙ h.same_total;
    still_free = λ j free.
        let was = h.still_free j free in
        let q = in_range_of_free w.bitmap j was in
        ground (arith, is_cluster_free-mark_cluster_free c j h.valid);
    same_clusters = h.same_clusters;
    same_shape = h.same_shape;
    same_index = h.same_index;
    same_inode = h.same_inode;
  }

  read-Shrinks : (c : ℕ) → KeepsShrinks (λ w. (on_disk io (read_cluster io c) w).1)
  unfolding on_disk
  read-Shrinks c w h = record {
    valid = h.valid;
    same_total = h.same_total;
    still_free = h.still_free;
    same_clusters = cluster-read_cluster io file w.disk c ∙ h.same_clusters;
    same_shape = record {
      same_count = (read_cluster-SameShape io w.disk c).same_count ∙ h.same_shape.same_count;
      same_mode = (read_cluster-SameShape io w.disk c).same_mode ∙ h.same_shape.same_mode;
    };
    same_index = h.same_index;
    same_inode = h.same_inode;
  }

  each-Shrinks :
      (f : ℕ → Work io → Work io)
      → ((c : ℕ) → KeepsShrinks (f c))
      → (b : Bytes) (rounds i : ℕ) → KeepsShrinks (each_pointer io f b rounds i)
  unfolding each_pointer
  each-Shrinks f keeps b zero i w h = h
  each-Shrinks f keeps b (suc rounds) i w h = elim (Bool-cases (u32_at b i == 0)) [
    | inl none_here ↦ rw none_here (each-Shrinks f keeps b rounds (i + 1) w h)
    | inr here ↦
        rw here (each-Shrinks f keeps b rounds (i + 1) (f (u32_at b i) w) (keeps (u32_at b i) w h))
  ]

  block-Shrinks :
      (f : ℕ → Work io → Work io)
      → ((c : ℕ) → KeepsShrinks (f c))
      → (c : ℕ) → KeepsShrinks (free_block io f c)
  unfolding free_block
  block-Shrinks f keeps c w h = elim (Bool-cases (c == 0)) [
    | inl none_here ↦ rw none_here h
    | inr here ↦ rw here (
        after (on_disk io (read_cluster io c) w).0 (on_disk io (read_cluster io c) w).1
          (read-Shrinks c w h))
  ]
    where
      after :
          (r : Result Bytes) (w' : Work io)
          → Shrinks w'
          → Shrinks (elim r [
            | err _ ↦ w'
            | ok b ↦ release io c (each_pointer io f b (pointers_per_cluster io) 0 w')
          ])
      after (ok b) w' h' =
          release-Shrinks c _ (each-Shrinks f keeps b (pointers_per_cluster io) 0 w' h')
      after (err e) w' h' = h'

  pub indirect-Shrinks : (deeper c : ℕ) → KeepsShrinks (free_indirect_blocks io deeper c)
  unfolding free_indirect_blocks
  indirect-Shrinks zero c = block-Shrinks (release io) release-Shrinks c
  indirect-Shrinks (suc deeper) c =
      block-Shrinks (free_indirect_blocks io deeper) (indirect-Shrinks deeper) c

module _ (io : Stdio) (file : IsFile io) where
  pub Shrinks-refl : (w : Work io) → IsValid w.bitmap → Shrinks io file w w.inode w
  Shrinks-refl w v = record {
    valid = v;
    same_total = refl;
    still_free = λ j free. free;
    same_clusters = refl;
    same_shape = record { same_count = refl; same_mode = refl };
    same_index = refl;
    same_inode = refl;
  }

  -- Only the inode differs.
  pub Shrinks-inode :
      (w₀ w : Work io) (m n n' : Inode)
      → n' ≡ n
      → Shrinks io file w₀ m w
      → Shrinks io file w₀ n (record w { inode = n' })
  Shrinks-inode w₀ w m n n' e h = record {
    valid = h.valid;
    same_total = h.same_total;
    still_free = h.still_free;
    same_clusters = h.same_clusters;
    same_shape = h.same_shape;
    same_index = h.same_index;
    same_inode = e;
  }
