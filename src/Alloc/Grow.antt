-- ===== src/Alloc/Grow.antt =====
-- Resolving and writing in src/alloc/alloc.c only ever adds clusters to those in use.
use simple_file_system.Base.{
  ℕ, zero, suc, ◌≡◌, refl, ap, ◌∙◌, inl, inr, Bool, false, ◌&&◌, arith, Bytes, Result, ok, err,
  Exec, ◌==◌, Bool-cases,
}
use simple_file_system.Platform.{Stdio, IsFile}
use simple_file_system.Disk.{Disk}
use simple_file_system.Bitmap.{IsValid, is_cluster_free}
use simple_file_system.Index.{Inode}
use simple_file_system.Alloc.{
  Work, on_disk, allocate_and_zero_cluster, inode_slot, fill_entry, entry, put_direct, put_single,
  put_double, put_triple, resolve_direct, resolve_single, resolve_double, resolve_triple,
  resolve_pointer, resolve_cluster,
}
use simple_file_system.Base.Keeps.{Keeps, Keeps-pure, Keeps-if, Keeps-bind, keeps_rules}
use simple_file_system.Alloc.Files.{
  grown, grow_to, set_cluster_count, old_bytes, write_piece, write_loop, clusters_of_size,
  write_data,
}
use simple_file_system.Alloc.Allocate.{Taken, allocate-Outcome}

module _ (io : Stdio) (file : IsFile io) (w₀ : Work io) (R : ℕ → Type 0) where
  -- The bitmap is valid and of the same size, every cluster that was in use still is, and the index
  -- and what the inode says of itself are unchanged. `R` is what is asked of the inode's size.
  pub record Grows (w : Work io) : Type 0 where
    pub valid : IsValid w.bitmap
    pub same_total : w.bitmap.total_cluster_count ≡ w₀.bitmap.total_cluster_count
    pub still_used :
        (j : ℕ) → is_cluster_free w₀.bitmap j ≡ false → is_cluster_free w.bitmap j ≡ false
    pub same_index : w.index ≡ w₀.index
    pub same_id : w.inode.id ≡ w₀.inode.id
    pub same_type : w.inode.type ≡ w₀.inode.type
    pub same_links : w.inode.link_count ≡ w₀.inode.link_count
    pub size_in : R w.inode.size

  Taken-used :
      (w : Work io) (r : Result ℕ) (w' : Work io) (j : ℕ)
      → Taken io file w r w'
      → is_cluster_free w.bitmap j ≡ false
      → is_cluster_free w'.bitmap j ≡ false
  Taken-used w (ok c) w' j taken used = ground (arith, taken.1 j)
  Taken-used w (err e) w' j marks used = marks j ∙ used

  allocate-Grows : Keeps Grows (allocate_and_zero_cluster io)
  allocate-Grows = record {
    at = λ w h.
        let o = allocate-Outcome io file w h.valid in
        record {
          valid = o.valid;
          same_total = o.same_total ∙ h.same_total;
          still_used = λ j used. Taken-used w _ _ j o.taken (h.still_used j used);
          same_index = o.same_index ∙ h.same_index;
          same_id = ap (λ (n : Inode). n.id) o.same_inode ∙ h.same_id;
          same_type = ap (λ (n : Inode). n.type) o.same_inode ∙ h.same_type;
          same_links = ap (λ (n : Inode). n.link_count) o.same_inode ∙ h.same_links;
          size_in = rw o.same_inode h.size_in;
        };
  }

  pub on_disk-Grows : {A : Type 0} (m : Exec (Disk io) A) → Keeps Grows (on_disk io m)
  unfolding on_disk
  on_disk-Grows m = record {
    at = λ w h. record {
      valid = h.valid;
      same_total = h.same_total;
      still_used = h.still_used;
      same_index = h.same_index;
      same_id = h.same_id;
      same_type = h.same_type;
      same_links = h.same_links;
      size_in = h.size_in;
    };
  }

  -- A change of the inode that leaves what it says of itself.
  pub record IsPointerUpdate (f : Inode → Inode) : Type 0 where
    pub keeps_id : (n : Inode) → (f n).id ≡ n.id
    pub keeps_type : (n : Inode) → (f n).type ≡ n.type
    pub keeps_links : (n : Inode) → (f n).link_count ≡ n.link_count
    pub keeps_size : (n : Inode) → R n.size → R (f n).size

  update-Grows :
      {A : Type 0} (a : A) (f : Inode → Inode)
      → IsPointerUpdate f
      → Keeps Grows (λ w. (ok a, record w { inode = f w.inode }))
  update-Grows a f u = record {
    at = λ w h. record {
      valid = h.valid;
      same_total = h.same_total;
      still_used = h.still_used;
      same_index = h.same_index;
      same_id = u.keeps_id w.inode ∙ h.same_id;
      same_type = u.keeps_type w.inode ∙ h.same_type;
      same_links = u.keeps_links w.inode ∙ h.same_links;
      size_in = u.keeps_size w.inode h.size_in;
    };
  }

  slot-Grows :
      (get : Inode → ℕ) (put : ℕ → Inode → Inode) (b : Bool)
      → ((c : ℕ) → IsPointerUpdate (put c))
      → Keeps Grows (inode_slot io get put b)
  unfolding inode_slot
  slot-Grows get put b u = record {
    at = λ w h. elim (Bool-cases (get w.inode == 0 && b)) [
      | inl missing ↦
          rw missing ((Keeps-bind _ _ allocate-Grows (λ c. update-Grows c (put c) (u c))).at w h)
      | inr present ↦ rw present h
    ];
  }

  put_direct-IsPointerUpdate : (k c : ℕ) → IsPointerUpdate (put_direct io k c)
  put_direct-IsPointerUpdate k c = record {
    keeps_id = λ n. refl;
    keeps_type = λ n. refl;
    keeps_links = λ n. refl;
    keeps_size = λ n h. h;
  }

  put_single-IsPointerUpdate : (c : ℕ) → IsPointerUpdate (put_single io c)
  put_single-IsPointerUpdate c = record {
    keeps_id = λ n. refl;
    keeps_type = λ n. refl;
    keeps_links = λ n. refl;
    keeps_size = λ n h. h;
  }

  put_double-IsPointerUpdate : (c : ℕ) → IsPointerUpdate (put_double io c)
  put_double-IsPointerUpdate c = record {
    keeps_id = λ n. refl;
    keeps_type = λ n. refl;
    keeps_links = λ n. refl;
    keeps_size = λ n h. h;
  }

  put_triple-IsPointerUpdate : (c : ℕ) → IsPointerUpdate (put_triple io c)
  put_triple-IsPointerUpdate c = record {
    keeps_id = λ n. refl;
    keeps_type = λ n. refl;
    keeps_links = λ n. refl;
    keeps_size = λ n h. h;
  }

  fill_entry-Grows : (c o : ℕ) (b : Bytes) → Keeps Grows (fill_entry io c o b)
  unfolding fill_entry
  fill_entry-Grows c o b = search (keeps_rules, allocate-Grows, on_disk-Grows)

  entry-Grows : (c o : ℕ) (b : Bool) → Keeps Grows (entry io c o b)
  unfolding entry
  entry-Grows c o b = search (keeps_rules, fill_entry-Grows, on_disk-Grows)

  ruleset grow_rules = (
    keeps_rules, slot-Grows, entry-Grows, put_direct-IsPointerUpdate, put_single-IsPointerUpdate,
    put_double-IsPointerUpdate, put_triple-IsPointerUpdate,
  )

  direct-Grows : (l : ℕ) (b : Bool) → Keeps Grows (resolve_direct io l b)
  unfolding resolve_direct
  direct-Grows l b = search grow_rules

  single-Grows : (l : ℕ) (b : Bool) → Keeps Grows (resolve_single io l b)
  unfolding resolve_single
  single-Grows l b = search grow_rules depth 7

  double-Grows : (l : ℕ) (b : Bool) → Keeps Grows (resolve_double io l b)
  unfolding resolve_double
  double-Grows l b = search grow_rules depth 9

  triple-Grows : (l : ℕ) (b : Bool) → Keeps Grows (resolve_triple io l b)
  unfolding resolve_triple
  triple-Grows l b = search grow_rules depth 11

  -- Whatever cluster is asked for, and whether or not the call succeeds, no cluster in use is given
  -- out or freed.
  pub resolve-Grows : (l : ℕ) (b : Bool) → Keeps Grows (resolve_cluster io l b)
  unfolding resolve_cluster resolve_pointer
  resolve-Grows l b =
      search (keeps_rules, direct-Grows, single-Grows, double-Grows, triple-Grows) depth 8

  pub old_bytes-Grows : (k p : ℕ) → Keeps Grows (old_bytes io k p)
  unfolding old_bytes
  old_bytes-Grows k p = search (keeps_rules, on_disk-Grows)

  module _ (free : (size : ℕ) → R size) where
    grow_to-Grows : (at : ℕ) → Keeps Grows (grow_to io at)
    unfolding grow_to
    grow_to-Grows at = update-Grows tt (grown io at) (record {
      keeps_id = λ n. ground arith;
      keeps_type = λ n. ground arith;
      keeps_links = λ n. ground arith;
      keeps_size = λ n h. free _;
    })

    count-Grows : Keeps Grows (set_cluster_count io)
    unfolding set_cluster_count
    count-Grows =
        update-Grows tt (λ m. record m { cluster_count = clusters_of_size io m.size })
          (record {
            keeps_id = λ m. refl;
            keeps_type = λ m. refl;
            keeps_links = λ m. refl;
            keeps_size = λ m h. h;
          })

    piece-Grows :
        (off : ℕ) (src : Bytes) (total k : ℕ) → Keeps Grows (write_piece io off src total k)
    unfolding write_piece
    piece-Grows off src total k =
        search (keeps_rules, resolve-Grows, old_bytes-Grows, on_disk-Grows, grow_to-Grows) depth 9

    loop-Grows :
        (off : ℕ) (src : Bytes) (n fuel total : ℕ)
        → Keeps Grows (write_loop io off src n fuel total)
    unfolding write_loop
    loop-Grows off src n zero total = Keeps-pure _
    loop-Grows off src n (suc fuel) total =
        Keeps-if _ _ _ (Keeps-pure _)
          (Keeps-bind _ _ (piece-Grows off src total _) (λ _. loop-Grows off src n fuel _))

    -- A write, also one that fails half way, frees no cluster and takes none that was in use.
    pub write_data-Grows : (off : ℕ) (src : Bytes) (n : ℕ) → Keeps Grows (write_data io off src n)
    unfolding write_data
    write_data-Grows off src n = search (keeps_rules, loop-Grows, count-Grows)
