-- ===== src/Vfs/Cache/Load.antt =====
-- vfs_cache_load_cluster of src/vfs/cache.c: the slots hold different clusters.
use simple_file_system.Base.{
  ℕ, ◌+◌, ◌*◌, ◌<◌, ◌≤◌, ◌≡◌, ◌≢◌, refl, sym, ap, ◌∙◌, inl, inr, false, not, ◌||◌, Option, none,
  some, arith, Result, ok, Exec, bind-ok, ltb, leb, Bool-cases,
}
use simple_file_system.Platform.{Stdio}
use simple_file_system.Base.Keeps.{Keeps, Keeps-lift_result, Keeps-bind}
use simple_file_system.Base.Gives.{Gives, Gives-bind, Gives-keeps, Gives-pure}
use simple_file_system.Index.{Inode, read_inode}
use simple_file_system.Alloc.{Work}
use simple_file_system.Alloc.Files.{write_data}
use simple_file_system.Config.{cluster_size}
use simple_file_system.Vfs.{cache_cluster_count, FileDescriptor, Session, set_at, on_file, on_inode}
use simple_file_system.Vfs.Cache.{
  find_slot, write_slot, flush_slot, store_inode, read_buffer, set_dirty, read_slot, fill_slot,
  evict, choose_slot, load_at, load_cluster,
}
use simple_file_system.Vfs.Cache.Slots.{
  IsSlotOf, find_slot-IsSlotOf, IsOldest, find_least_recently_used_slot-IsOldest,
}

-- The valid slots hold different clusters, and there are not too many.
pub record IsCoherent (file : FileDescriptor) : Type 0 where
  pub fits : file.cache_valid_count ≤ cache_cluster_count
  pub distinct :
      (i j : ℕ)
      → i < file.cache_valid_count
      → j < file.cache_valid_count
      → file.cached_logical_indices i ≡ file.cached_logical_indices j
      → i ≡ j

-- Slot `k` holds the cluster.
pub record Holds (target k : ℕ) (file : FileDescriptor) : Type 0 where
  pub coherent : IsCoherent file
  pub valid : k < file.cache_valid_count
  pub is_target : file.cached_logical_indices k ≡ target

module _ (io : Stdio) where
  -- The slots hold these clusters.
  record SlotsAre (count : ℕ) (clusters : ℕ → ℕ) (s : Session io) : Type 0 where
    same_count : s.file.cache_valid_count ≡ count
    same_clusters : s.file.cached_logical_indices ≡ clusters

  on_inode-SlotsAre :
      (count : ℕ) (clusters : ℕ → ℕ) {A : Type 0} (n : Inode) (m : Exec (Work io) A)
      → Keeps (SlotsAre count clusters) (on_inode io n m)
  unfolding on_inode
  on_inode-SlotsAre count clusters n m = record {
    at = λ s h. record { same_count = h.same_count; same_clusters = h.same_clusters };
  }

  on_file-SlotsAre :
      (count : ℕ) (clusters : ℕ → ℕ) (change : FileDescriptor → FileDescriptor)
      → ((f : FileDescriptor) → (change f).cache_valid_count ≡ f.cache_valid_count)
      → ((f : FileDescriptor) → (change f).cached_logical_indices ≡ f.cached_logical_indices)
      → Keeps (SlotsAre count clusters) (on_file io change)
  unfolding on_file
  on_file-SlotsAre count clusters change same_n same_c = record {
    at = λ s h. record {
      same_count = same_n s.file ∙ h.same_count;
      same_clusters = same_c s.file ∙ h.same_clusters;
    };
  }

  store_inode-SlotsAre :
      (count : ℕ) (clusters : ℕ → ℕ) (n : Inode)
      → Keeps (SlotsAre count clusters) (store_inode io n)
  unfolding store_inode
  store_inode-SlotsAre count clusters n = record {
    at = λ s h. record { same_count = h.same_count; same_clusters = h.same_clusters };
  }

  write_slot-SlotsAre :
      (count : ℕ) (clusters : ℕ → ℕ) (k : ℕ) → Keeps (SlotsAre count clusters) (write_slot io k)
  unfolding write_slot
  write_slot-SlotsAre count clusters k = record {
    at = λ s h.
        (Keeps-bind _ _ (Keeps-lift_result (read_inode s.index s.file.inode_id)) (λ inode.
            Keeps-bind _ _
              (on_inode-SlotsAre count clusters inode (
                write_data io (s.file.cached_logical_indices k * cluster_size)
                  (s.file.cached_buffers k) cluster_size))
              (λ p.
                Keeps-bind _ _
                  (on_file-SlotsAre count clusters (set_dirty k false) (λ f. refl) (λ f. refl))
                  (λ u.
                    store_inode-SlotsAre count clusters
                      (record p.1 { size = s.file.cached_file_size }))))).at
          s h;
  }

  flush_slot-SlotsAre :
      (count : ℕ) (clusters : ℕ → ℕ) (k : ℕ) → Keeps (SlotsAre count clusters) (flush_slot io k)
  unfolding flush_slot
  flush_slot-SlotsAre count clusters k = record {
    at = λ s h.
        elim (Bool-cases (leb s.file.cache_valid_count k || not (s.file.cache_slot_dirty k))) [
          | inl clean ↦ rw clean h
          | inr dirty ↦ rw dirty ((write_slot-SlotsAre count clusters k).at s h)
        ];
  }

  read_buffer-SlotsAre :
      (count : ℕ) (clusters : ℕ → ℕ) (k target : ℕ) (n : Inode)
      → Keeps (SlotsAre count clusters) (read_buffer io k target n)
  unfolding read_buffer
  read_buffer-SlotsAre count clusters k target n = record {
    at = λ s h. record { same_count = h.same_count; same_clusters = h.same_clusters };
  }

  read_slot-SlotsAre :
      (count : ℕ) (clusters : ℕ → ℕ) (k target : ℕ)
      → Keeps (SlotsAre count clusters) (read_slot io k target)
  unfolding read_slot
  read_slot-SlotsAre count clusters k target = record {
    at = λ s h.
        (Keeps-bind _ _ (Keeps-lift_result (read_inode s.index s.file.inode_id))
            (λ inode. read_buffer-SlotsAre count clusters k target inode)).at
          s h;
  }

  -- A slot that has been filled holds its cluster, and the others are as they were.
  fill_slot-SlotsAre :
      (count : ℕ) (clusters : ℕ → ℕ) (k target : ℕ)
      → Gives
          (SlotsAre count clusters)
          (fill_slot io k target)
          (λ r s. (r ≡ k) × SlotsAre count (set_at clusters k target) s)
  unfolding fill_slot on_file
  fill_slot-SlotsAre count clusters k target =
      Gives-bind (Gives-keeps (read_slot-SlotsAre count clusters k target)) (λ n. record {
        at = λ s h a e. (
          cc,
          record {
            same_count = h.same_count;
            same_clusters = ap (λ c. set_at c k target) h.same_clusters;
          },
        );
      })

  evict-SlotsAre :
      (n : ℕ) (clusters : ℕ → ℕ) (file : FileDescriptor) (best : Option ℕ)
      → IsOldest file n best
      → Gives (SlotsAre n clusters) (evict io best) (λ k s. (k < n) × SlotsAre n clusters s)
  unfolding evict IsOldest
  evict-SlotsAre n clusters file none h = record { at = λ s p k e. cc }
  evict-SlotsAre n clusters file (some k) (below, least) =
      Gives-bind (Gives-keeps (flush_slot-SlotsAre n clusters k))
        (λ u. Gives-pure k (λ s h. (below, h)))

  -- A slot is chosen below the new count, and the others that are valid were valid before.
  choose_slot-SlotsAre :
      (s : Session io) (k : ℕ)
      → IsCoherent s.file
      → (choose_slot io s).0 ≡ ok k
      → (n : ℕ) × (k < n)
        × (n ≤ cache_cluster_count)
        × ((j : ℕ) → j < n → j ≢ k → j < s.file.cache_valid_count)
        × SlotsAre n s.file.cached_logical_indices (choose_slot io s).1
  unfolding choose_slot
  choose_slot-SlotsAre s k c e =
      let count = s.file.cache_valid_count in
      elim (Bool-cases (ltb count cache_cluster_count)) [
        | inl room ↦
            let same : count ≡ k =
              (let e' : Path (Result ℕ) (ok count) (ok k) = (rw (room, choose_slot) at e) in cc) in
            rw (room, choose_slot)
              (
                count + 1,
                omega arith,
                ground arith,
                λ j b other. omega arith,
                record { same_count = refl; same_clusters = refl },
              )
        | inr full ↦
            let g =
              (evict-SlotsAre count s.file.cached_logical_indices s.file _
                  (find_least_recently_used_slot-IsOldest s.file)).at
                s (record { same_count = refl; same_clusters = refl }) k
                (rw (full, choose_slot) at e) in
            rw (full, choose_slot) (count, g.0, c.fits, λ j b other. b, g.1)
      ]

  -- The slot of a cluster that was in no slot.
  Holds-new :
      (old new : FileDescriptor) (target k n : ℕ)
      → IsCoherent old
      → ((j : ℕ) → j < old.cache_valid_count → old.cached_logical_indices j ≢ target)
      → k < n
      → n ≤ cache_cluster_count
      → ((j : ℕ) → j < n → j ≢ k → j < old.cache_valid_count)
      → new.cache_valid_count ≡ n
      → new.cached_logical_indices ≡ set_at old.cached_logical_indices k target
      → Holds target k new
  Holds-new old new target k n c absent below few others count clusters =
      let at : (j : ℕ)
          → new.cached_logical_indices j ≡ set_at old.cached_logical_indices k target j =
        λ j. ap (λ f. f j) clusters in
      record {
        coherent = record {
          fits = rw count few;
          distinct = λ i j hi hj e.
              ground (arith, at i, at j, c.distinct i j, absent i, absent j, others i, others j);
        };
        valid = rw count below;
        is_target = ground (arith, at k);
      }

  load_at-Holds :
      (s : Session io) (target k : ℕ) (slot : Option ℕ)
      → IsCoherent s.file
      → IsSlotOf s.file target s.file.cache_valid_count slot
      → (load_at io target slot s).0 ≡ ok k
      → Holds target k (load_at io target slot s).1.file
  unfolding load_at IsSlotOf on_file
  load_at-Holds s target k none c absent e =
      let (slot, chosen, rest) = bind-ok (choose_slot io) (λ k. fill_slot io k target) s e in
      let (n, below, few, others, are) = choose_slot-SlotsAre s slot c chosen in
      let (same, after) =
        (fill_slot-SlotsAre n s.file.cached_logical_indices slot target).at (choose_slot io s).1 are
          k (sym (ap (λ p. p.0) rest) ∙ e) in
      rw (rest, same)
        (Holds-new s.file _ target slot n c absent below few others after.same_count
          after.same_clusters)
  load_at-Holds s target k (some slot) c (below, here, first) e =
      let same : slot ≡ k = cc in
      rw (← same) (record {
        coherent = record { fits = c.fits; distinct = c.distinct };
        valid = below;
        is_target = here;
      })

  Holds-find_slot :
      (file : FileDescriptor) (target k : ℕ) (slot : Option ℕ)
      → Holds target k file
      → IsSlotOf file target file.cache_valid_count slot
      → slot ≡ some k
  unfolding IsSlotOf
  Holds-find_slot file target k none h absent = absurd (absent k h.valid h.is_target)
  Holds-find_slot file target k (some slot) h (below, here, first) =
      ap some (h.coherent.distinct slot k below h.valid (here ∙ sym h.is_target))

  -- If the valid slots hold different clusters and vfs_cache_load_cluster succeeds, the valid slots still hold different clusters, there are not more
  -- than FS_CACHE_CLUSTER_COUNT, and vfs_cache_find_slot finds the wanted cluster at the slot returned.
  pub load_cluster-finds :
      (s : Session io) (target k : ℕ)
      → IsCoherent s.file
      → (load_cluster io target s).0 ≡ ok k
      → let file = (load_cluster io target s).1.file in
        IsCoherent file × (find_slot file target ≡ some k)
  unfolding load_cluster
  load_cluster-finds s target k c e =
      let h = load_at-Holds s target k _ c (find_slot-IsSlotOf s.file target) e in
      (h.coherent, Holds-find_slot _ target k _ h (find_slot-IsSlotOf _ target))
