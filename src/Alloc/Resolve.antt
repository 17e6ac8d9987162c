-- ===== src/Alloc/Resolve.antt =====
-- Resolving a cluster of src/alloc/alloc.c: what a lookup leaves alone.
use simple_file_system.Base.{ℕ, ◌≡◌, ◌∙◌, Bool, false, ◌&&◌, arith, u32_at, ◌==◌}
use simple_file_system.Platform.{Stdio, IsFile}
use simple_file_system.Disk.{read_cluster}
use simple_file_system.Disk.Laws.{cluster, cluster-read_cluster, SameShape, read_cluster-SameShape}
use simple_file_system.Index.{Inode}
use simple_file_system.Alloc.{
  Work, on_disk, inode_slot, entry, resolve_direct, resolve_single, resolve_double, resolve_triple,
  resolve_pointer, resolve_cluster,
}
use simple_file_system.Base.Keeps.{Keeps, Keeps-pure, Keeps-bind, keeps_rules}

module _ (io : Stdio) (file : IsFile io) (w₀ : Work io) where
  -- Nothing but the position in the disk's file has changed.
  pub record SameFile (w : Work io) : Type 0 where
    pub same_clusters : cluster io file w.disk ≡ cluster io file w₀.disk
    pub same_shape : SameShape io w₀.disk w.disk
    pub same_bitmap : w.bitmap ≡ w₀.bitmap
    pub same_index : w.index ≡ w₀.index
    pub same_inode : w.inode ≡ w₀.inode

  pub read-SameFile : (c : ℕ) → Keeps SameFile (on_disk io (read_cluster io c))
  unfolding on_disk
  read-SameFile c = record {
    at = λ w h. record {
      same_clusters = cluster-read_cluster io file w.disk c ∙ h.same_clusters;
      same_shape = record {
        same_count = (read_cluster-SameShape io w.disk c).same_count ∙ h.same_shape.same_count;
        same_mode = (read_cluster-SameShape io w.disk c).same_mode ∙ h.same_shape.same_mode;
      };
      same_bitmap = h.same_bitmap;
      same_index = h.same_index;
      same_inode = h.same_inode;
    };
  }

  and_false : (b : Bool) → (b && false) ≡ false
  and_false b = ground arith

  slot-SameFile :
      (get : Inode → ℕ) (put : ℕ → Inode → Inode) → Keeps SameFile (inode_slot io get put false)
  unfolding inode_slot
  slot-SameFile get put = record { at = λ w h. rw (and_false (get w.inode == 0)) h }

  entry-SameFile : (c o : ℕ) → Keeps SameFile (entry io c o false)
  unfolding entry
  entry-SameFile c o =
      Keeps-bind _ _ (read-SameFile c) (λ b. rw (and_false (u32_at b o == 0)) (Keeps-pure _))

  ruleset lookup_rules = (keeps_rules, slot-SameFile, entry-SameFile)

  pub lookup-SameFile : (l : ℕ) → Keeps SameFile (resolve_cluster io l false)
  unfolding resolve_cluster resolve_pointer resolve_direct resolve_single resolve_double
      resolve_triple
  lookup-SameFile l = search lookup_rules depth 12
