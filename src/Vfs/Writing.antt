-- ===== src/Vfs/Writing.antt =====
-- fs_vfs_write of src/vfs/io.c: where the bytes of a write within one cluster are afterwards.
use simple_file_system.Base.{
  ℕ, zero, suc, ◌+◌, ◌-◌, ◌/◌, ◌%◌, ◌^◌, ◌<◌, ◌≤◌, ◌≡◌, ◌⊎◌, refl, sym, ap, ◌∙◌, inl, inr, Bool,
  not, Option, none, some, arith, Bytes, copy, Status, Result, ok, err, Exec, pure, ◌>>=◌, ◌>>◌,
  ltb, ◌==◌, if◌then◌else◌, Bool-cases, lt→ltb, le→ltb, ==-refl, by_result, lt_or_le, max,
}
use simple_file_system.Config.{cluster_size}
use simple_file_system.Platform.{Stdio}
use simple_file_system.Base.Keeps.{Keeps, Keeps-pure, Keeps-lift_result, Keeps-bind}
use simple_file_system.Base.Gives.{Gives, Gives-bind, Gives-keeps, Gives-pure}
use simple_file_system.Index.{Inode, read_inode}
use simple_file_system.Vfs.{FileDescriptor, Session, on_file}
use simple_file_system.Vfs.Files.Flush.{flush_slot-SameDescriptor}
use simple_file_system.Vfs.Cache.{
  find_slot, flush_slot, store_inode, read_slot, read_buffer, fill_slot, evict, choose_slot,
  load_at, load_cluster, find_least_recently_used_slot,
}
use simple_file_system.Vfs.Cache.Load.{IsCoherent, load_cluster-finds}
use simple_file_system.Vfs.Io.{
  round_size, put_in_cache, sync_size, extend_size, flush_at_end, write_round, write_rounds,
  write_file,
}
use simple_file_system.Vfs.Transfer.{write_file-completes}

-- A copy into a buffer.
copy-inside :
    (buffer : Bytes) (at : ℕ) (source : Bytes) (n i : ℕ)
    → i < n
    → copy buffer at source 0 n (at + i) ≡ source i
unfolding copy
copy-inside buffer at source n i h = ground arith

module _ (io : Stdio) (position size : ℕ) where
  -- Where the descriptor is, and how large its file is.
  record IsAt (s : Session io) : Type 0 where
    same_position : s.file.current_position ≡ position
    same_size : s.file.cached_file_size ≡ size

  flush_slot-IsAt : (k : ℕ) → Keeps IsAt (flush_slot io k)
  flush_slot-IsAt k = record {
    at = λ s h.
        let same = ((flush_slot-SameDescriptor io s.file k).at s (record { same = refl })).same in
        record {
          same_position = ap (λ (f : FileDescriptor). f.current_position) same ∙ h.same_position;
          same_size = ap (λ (f : FileDescriptor). f.cached_file_size) same ∙ h.same_size;
        };
  }

  read_buffer-IsAt : (k target : ℕ) (n : Inode) → Keeps IsAt (read_buffer io k target n)
  unfolding read_buffer
  read_buffer-IsAt k target n = record {
    at = λ s h. record { same_position = h.same_position; same_size = h.same_size };
  }

  read_slot-IsAt : (k target : ℕ) → Keeps IsAt (read_slot io k target)
  unfolding read_slot
  read_slot-IsAt k target = record {
    at = λ s h.
        (Keeps-bind _ _ (Keeps-lift_result (read_inode s.index s.file.inode_id))
            (λ n. read_buffer-IsAt k target n)).at
          s h;
  }

  fill_slot-IsAt : (k target : ℕ) → Keeps IsAt (fill_slot io k target)
  unfolding fill_slot on_file
  fill_slot-IsAt k target = Keeps-bind _ _ (read_slot-IsAt k target) (λ n. record {
    at = λ s h. record { same_position = h.same_position; same_size = h.same_size };
  })

  evict-IsAt : (best : Option ℕ) → Keeps IsAt (evict io best)
  unfolding evict
  evict-IsAt none = record { at = λ s h. h }
  evict-IsAt (some k) = Keeps-bind _ _ (flush_slot-IsAt k) (λ u. Keeps-pure k)

  choose_slot-IsAt : Keeps IsAt (choose_slot io)
  unfolding choose_slot
  choose_slot-IsAt = record {
    at = λ s h. elim (Bool-cases (ltb s.file.cache_valid_count 4)) [
      | inl room ↦ rw room (record { same_position = h.same_position; same_size = h.same_size })
      | inr full ↦ rw full ((evict-IsAt (find_least_recently_used_slot s.file)).at s h)
    ];
  }

  load_at-IsAt : (target : ℕ) (slot : Option ℕ) → Keeps IsAt (load_at io target slot)
  unfolding load_at on_file
  load_at-IsAt target none = Keeps-bind _ _ choose_slot-IsAt (λ k. fill_slot-IsAt k target)
  load_at-IsAt target (some k) = record {
    at = λ s h. record { same_position = h.same_position; same_size = h.same_size };
  }

  load_cluster-IsAt : (target : ℕ) → Keeps IsAt (load_cluster io target)
  unfolding load_cluster
  load_cluster-IsAt target = record {
    at = λ s h. (load_at-IsAt target (find_slot s.file target)).at s h;
  }

-- The slot of the cluster holds `n` bytes of the source from the offset on, and the descriptor has the
-- position and the size.
pub record Caches (cluster offset : ℕ) (source : Bytes) (n slot position size : ℕ)
    (file : FileDescriptor) : Type 0 where
  pub found : find_slot file cluster ≡ some slot
  pub bytes : (i : ℕ) → i < n → file.cached_buffers slot (offset + i) ≡ source i
  pub moved : file.current_position ≡ position
  pub has_size : file.cached_file_size ≡ size

module _ (io : Stdio) (cluster offset : ℕ) (source : Bytes) (n slot position : ℕ) where
  abbrev HasBytes : ℕ → Session io → Type 0
  HasBytes size s = Caches cluster offset source n slot position size s.file

  dirty-Caches :
      (file : FileDescriptor) (dirty : ℕ → Bool) (size : ℕ)
      → Caches cluster offset source n slot position size file
      → Caches cluster offset source n slot position size (record file { cache_slot_dirty = dirty })
  unfolding find_slot
  dirty-Caches file dirty size h = record {
    found = h.found;
    bytes = h.bytes;
    moved = h.moved;
    has_size = h.has_size;
  }

  flush_slot-HasBytes : (size k : ℕ) → Keeps (HasBytes size) (flush_slot io k)
  flush_slot-HasBytes size k = record {
    at = λ s h.
        let after = (flush_slot io k s).1.file in
        let same = ((flush_slot-SameDescriptor io s.file k).at s (record { same = refl })).same in
        rw (same) (dirty-Caches s.file after.cache_slot_dirty size h);
  }

  flush_at_end-HasBytes : (size k : ℕ) → Keeps (HasBytes size) (flush_at_end io k)
  unfolding flush_at_end
  flush_at_end-HasBytes size k = record {
    at = λ s h. elim (Bool-cases (s.file.current_position % cluster_size == 0)) [
      | inl ends ↦ rw ends ((flush_slot-HasBytes size k).at s h)
      | inr inside ↦ rw inside h
    ];
  }

  sync_size-HasBytes : (size id new_size : ℕ) → Keeps (HasBytes size) (sync_size io id new_size)
  unfolding sync_size store_inode
  sync_size-HasBytes size id new_size = record {
    at = λ s h.
        by_result (λ (x : Result (Unit {0}) × Session io). HasBytes size x.1)
          (read_inode s.index id)
          (λ inode.
            if not (inode.size == new_size)
            then store_inode io (record inode { size = new_size }) s
            else (ok tt, s))
          (λ e. (err e, s))
          (λ inode q. elim (Bool-cases (not (inode.size == new_size))) [
            | inl other ↦ rw other h
            | inr same ↦ rw same h
          ])
          (λ e q. h);
  }

  extend_size-HasBytes :
      (size : ℕ) → Gives (HasBytes size) (extend_size io) (λ _. HasBytes (max size position))
  unfolding extend_size on_file find_slot
  extend_size-HasBytes size = record {
    at = λ s h a e.
        let p = s.file.current_position in
        elim (lt_or_le s.file.cached_file_size p) [
          | inl grows ↦ rw (lt→ltb s.file.cached_file_size p grows) (
              (sync_size-HasBytes (max size position) s.file.inode_id p).at
                (record s { file = record s.file { cached_file_size = p } })
                (record {
                  found = h.found;
                  bytes = h.bytes;
                  moved = h.moved;
                  has_size = ground (arith, h.moved, h.has_size);
                }))
          | inr stays ↦ rw (le→ltb s.file.cached_file_size p stays) (record {
            found = h.found;
            bytes = h.bytes;
            moved = h.moved;
            has_size = ground (arith, h.moved, h.has_size);
          })
        ];
  }

-- What loading a cluster has done, for a write at a position.
record IsLoaded (cluster slot position size : ℕ) (file : FileDescriptor) : Type 0 where
  found : find_slot file cluster ≡ some slot
  same_position : file.current_position ≡ position
  same_size : file.cached_file_size ≡ size

put_in_cache-Caches :
    (file : FileDescriptor) (cluster slot position size n : ℕ) (source : Bytes)
    → position + n < 2 ^ 32
    → IsLoaded cluster slot position size file
    → Caches cluster
        (position % cluster_size)
        source
        n
        slot
        (position + n)
        size
        (put_in_cache slot source 0 n file)
unfolding find_slot
put_in_cache-Caches file cluster slot position size n source small h = record {
  found = h.found;
  bytes = λ i b.
      rw (==-refl slot, h.same_position)
        (copy-inside (file.cached_buffers slot) (position % cluster_size) source n i b);
  moved = rw h.same_position (omega arith);
  has_size = h.same_size;
}

round_size-whole :
    (position n : ℕ) → position % cluster_size + n ≤ cluster_size → round_size position n ≡ n
round_size-whole position n h = ground arith

-- What a write of `n` bytes from the state on leaves of the descriptor.
abbrev pub Written : {io : Stdio} → Session io → (source : Bytes) (n : ℕ) → FileDescriptor → Type 0
Written s source n file =
    (slot : ℕ) × Caches (s.file.current_position / cluster_size)
      (s.file.current_position % cluster_size) source n slot (s.file.current_position + n)
      (max s.file.cached_file_size (s.file.current_position + n)) file

module _ (io : Stdio) (s : Session io) (source : Bytes) (n : ℕ) (coherent : IsCoherent s.file)
    (inside : s.file.current_position % cluster_size + n ≤ cluster_size)
    (small : s.file.current_position + n < 2 ^ 32) where
  load_cluster-IsLoaded :
      Gives
        (λ t. t ≡ s)
        (load_cluster io (s.file.current_position / cluster_size))
        (λ slot t.
          IsLoaded
            (s.file.current_position / cluster_size)
            slot
            s.file.current_position
            s.file.cached_file_size
            t.file)
  load_cluster-IsLoaded = record {
    at = λ t q slot e.
        let position = s.file.current_position in
        let cluster = position / cluster_size in
        let e' : (load_cluster io cluster s).0 ≡ ok slot =
          ap (λ u. (load_cluster io cluster u).0) (sym q) ∙ e in
        let found = (load_cluster-finds io s cluster slot coherent e').1 in
        let kept =
          (load_cluster-IsAt io position s.file.cached_file_size cluster).at s
            (record { same_position = refl; same_size = refl }) in
        rw q (record {
          found = found;
          same_position = kept.same_position;
          same_size = kept.same_size;
        });
  }

  -- A round of fs_vfs_write that moves all of the bytes.
  abbrev whole_round : Exec (Session io) ℕ
  whole_round = load_cluster io (s.file.current_position / cluster_size) >>= λ slot.
      on_file io (put_in_cache slot source 0 n)
      >> (extend_size io >> (flush_at_end io slot >> pure n))

  whole_round-Written : Gives (λ t. t ≡ s) whole_round (λ r t. (r ≡ n) × Written s source n t.file)
  unfolding on_file
  whole_round-Written =
      let position = s.file.current_position in
      let cluster = position / cluster_size in
      let offset = position % cluster_size in
      let size = s.file.cached_file_size in
      Gives-bind load_cluster-IsLoaded (λ slot.
        Gives-bind {m = on_file io (put_in_cache slot source 0 n)}
          {Q = λ _ u. HasBytes io cluster offset source n slot (position + n) size u}
          (record {
            at = λ u h a f. put_in_cache-Caches u.file cluster slot position size n source small h;
          })
          (λ _.
            Gives-bind (extend_size-HasBytes io cluster offset source n slot (position + n) size)
              (λ _.
                Gives-bind
                  (Gives-keeps (
                    flush_at_end-HasBytes io cluster offset source n slot (position + n)
                      (max size (position + n)) slot))
                  (λ _. Gives-pure n (λ u h. (refl, (slot, h)))))))

  write_round-Written :
      Gives (λ t. t ≡ s) (write_round io source 0 n) (λ r t. (r ≡ n) × Written s source n t.file)
  unfolding write_round on_file
  write_round-Written = record {
    at = λ t q r e.
        let whole : write_round io source 0 n s ≡ whole_round s =
          rw (round_size-whole s.file.current_position n inside) refl in
        let same : write_round io source 0 n t ≡ whole_round t = rw q whole in
        rw same (whole_round-Written.at t q r (ap (λ x. x.0) (sym same) ∙ e));
  }

module _ (io : Stdio) (source : Bytes) where
  write_rounds-done :
      (n fuel total : ℕ) → n ≤ total → write_rounds io source n fuel total ≡ pure total
  unfolding write_rounds
  write_rounds-done n zero total h = refl
  write_rounds-done n (suc fuel) total h = rw (le→ltb total n h) refl

  write_file-Written :
      (s : Session io) (m : ℕ) (coherent : IsCoherent s.file)
      (inside : s.file.current_position % cluster_size + suc m ≤ cluster_size)
      (small : s.file.current_position + suc m < 2 ^ 32)
      → Gives (λ t. t ≡ s) (write_file io source (suc m)) (λ r t. Written s source (suc m) t.file)
  unfolding write_file write_rounds
  write_file-Written s m coherent inside small =
      let all : suc m - 0 ≡ suc m = omega arith in
      rw (lt→ltb 0 (suc m) (omega arith), all)
        (Gives-bind (write_round-Written io s source (suc m) coherent inside small) (λ r. record {
          at = λ t (q, w) a e. rw (write_rounds-done (suc m) m (0 + r) (omega (arith, q))) w;
        }))

  -- A write of fs_vfs_write, after its guards, of at least a byte, from the descriptor's position on and
  -- within its cluster, below byte 2 ^ 32, by a descriptor whose valid slots are not more than
  -- FS_CACHE_CLUSTER_COUNT and hold different clusters, fails with a status or writes all of the
  -- bytes. Then vfs_cache_find_slot finds the cluster, its slot holds the bytes from the position on, the
  -- position is behind them, and the size that the descriptor has is the larger of the old size and
  -- the new position.
  pub write_file-caches :
      (s : Session io) (n : ℕ)
      → IsCoherent s.file
      → 0 < n
      → s.file.current_position % cluster_size + n ≤ cluster_size
      → s.file.current_position + n < 2 ^ 32
      → (((write_file io source n s).0 ≡ ok n)
          × Written s source n (write_file io source n s).1.file)
        ⊎ ((e : Status) × ((write_file io source n s).0 ≡ err e))
  write_file-caches s zero coherent some_bytes inside small = absurd (omega arith)
  write_file-caches s (suc m) coherent some_bytes inside small =
      elim (write_file-completes io source (suc m) s) [
        | inl done ↦
            inl (done, (write_file-Written s m coherent inside small).at s refl (suc m) done)
        | inr fails ↦ inr fails
      ]
