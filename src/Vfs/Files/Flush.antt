-- ===== src/Vfs/Files/Flush.antt =====
-- Writing out the cache of src/vfs/cache.c: what it leaves of the descriptor.
use simple_file_system.Base.{
  ℕ, zero, suc, ◌+◌, ◌*◌, ◌≡◌, ap, inl, inr, Bool, false, not, ◌||◌, Exec, leb, Bool-cases,
}
use simple_file_system.Config.{cluster_size}
use simple_file_system.Platform.{Stdio}
use simple_file_system.Base.Keeps.{Keeps, Keeps-pure, Keeps-lift_result, Keeps-bind}
use simple_file_system.Index.{Inode, read_inode}
use simple_file_system.Alloc.{Work}
use simple_file_system.Alloc.Files.{write_data}
use simple_file_system.Vfs.{FileDescriptor, Session, on_file, on_inode}
use simple_file_system.Vfs.Cache.{
  set_dirty, store_inode, write_slot, flush_slot, flush_from, flush_all,
}

module _ (io : Stdio) (file : FileDescriptor) where
  -- The descriptor is `file`, but for which slots are dirty.
  pub record SameDescriptor (s : Session io) : Type 0 where
    pub same : s.file ≡ record file { cache_slot_dirty = s.file.cache_slot_dirty }

  on_inode-SameDescriptor :
      {A : Type 0} (n : Inode) (m : Exec (Work io) A) → Keeps SameDescriptor (on_inode io n m)
  unfolding on_inode
  on_inode-SameDescriptor n m = record { at = λ s h. record { same = h.same } }

  pub store_inode-SameDescriptor : (n : Inode) → Keeps SameDescriptor (store_inode io n)
  unfolding store_inode
  store_inode-SameDescriptor n = record { at = λ s h. record { same = h.same } }

  set_dirty-SameDescriptor : (k : ℕ) (b : Bool) → Keeps SameDescriptor (on_file io (set_dirty k b))
  unfolding on_file
  set_dirty-SameDescriptor k b = record { at = λ s h. record { same = ap (set_dirty k b) h.same } }

  write_slot-SameDescriptor : (k : ℕ) → Keeps SameDescriptor (write_slot io k)
  unfolding write_slot
  write_slot-SameDescriptor k = record {
    at = λ s h.
        (Keeps-bind _ _ (Keeps-lift_result (read_inode s.index s.file.inode_id)) (λ inode.
            Keeps-bind _ _
              (on_inode-SameDescriptor inode (
                write_data io (s.file.cached_logical_indices k * cluster_size)
                  (s.file.cached_buffers k) cluster_size))
              (λ p. Keeps-bind _ _ (set_dirty-SameDescriptor k false) (λ u.
                store_inode-SameDescriptor (record p.1 { size = s.file.cached_file_size }))))).at
          s h;
  }

  pub flush_slot-SameDescriptor : (k : ℕ) → Keeps SameDescriptor (flush_slot io k)
  unfolding flush_slot
  flush_slot-SameDescriptor k = record {
    at = λ s h.
        elim (Bool-cases (leb s.file.cache_valid_count k || not (s.file.cache_slot_dirty k))) [
          | inl clean ↦ rw clean h
          | inr dirty ↦ rw dirty ((write_slot-SameDescriptor k).at s h)
        ];
  }

  flush_from-SameDescriptor : (rounds i : ℕ) → Keeps SameDescriptor (flush_from io rounds i)
  unfolding flush_from
  flush_from-SameDescriptor zero i = Keeps-pure tt
  flush_from-SameDescriptor (suc rounds) i =
      Keeps-bind _ _ (flush_slot-SameDescriptor i) (λ u. flush_from-SameDescriptor rounds (i + 1))

  pub flush_all-SameDescriptor : Keeps SameDescriptor (flush_all io)
  unfolding flush_all
  flush_all-SameDescriptor = record {
    at = λ s h. (flush_from-SameDescriptor s.file.cache_valid_count 0).at s h;
  }
