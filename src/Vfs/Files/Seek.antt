-- ===== src/Vfs/Files/Seek.antt =====
-- fs_vfs_seek and fs_vfs_close of src/vfs/context.c.
use simple_file_system.Base.{
  ℕ, ◌/◌, ◌%◌, ◌^◌, ◌<◌, ◌≡◌, refl, sym, ap, ◌∙◌, inl, inr, Bool, true, false, Result, ok, err,
  Exec, ◌>>◌, ◌==◌, if◌then◌else◌, Bool-cases, le→leb, lt→leb, ==-refl, lt_or_le,
}
use simple_file_system.Base.Integer.{ℤ, pos, negsuc, ◌+ℤ◌}
use simple_file_system.Config.{cluster_size}
use simple_file_system.Platform.{Stdio}
use simple_file_system.Base.Gives.{Gives, Gives-bind, Gives-keeps}
use simple_file_system.Base.Keeps.{Keeps, Keeps-lift_result, Keeps-bind}
use simple_file_system.Index.{read_inode}
use simple_file_system.Vfs.{Context, FileDescriptor, Session, on_file}
use simple_file_system.Vfs.Cache.{flush_and_invalidate}
use simple_file_system.Vfs.Files.{
  max_open_files, Origin, from_start, from_current, from_end, other_origin, new_position,
  at_descriptor, on_open_file, sync_inode_size, close_file, close, move_to, seek_to, seek_file,
  seek,
}
use simple_file_system.Vfs.Files.Flush.{
  SameDescriptor, store_inode-SameDescriptor, flush_all-SameDescriptor,
}

-- What a move to a position leaves of a descriptor: the slots are given up if the cluster changes.
abbrev pub moved : (position : ℕ) → (dirty : ℕ → Bool) → FileDescriptor → FileDescriptor
moved position dirty file =
    let target = position % 2 ^ 32 in
    record file {
      current_position = target;
      cache_slot_dirty = dirty;
      cache_valid_count =
          if file.current_position / cluster_size == target / cluster_size
          then file.cache_valid_count
          else 0;
    }

-- The position that an offset means: from the start, from where the descriptor is, or from the end.
abbrev pub IsAimedAt : FileDescriptor → (offset : ℤ) → Origin → (position : ℤ) → Type 0
IsAimedAt file offset from_start position = position ≡ offset
IsAimedAt file offset from_current position = position ≡ pos file.current_position +ℤ offset
IsAimedAt file offset from_end position = position ≡ pos file.cached_file_size +ℤ offset
IsAimedAt file offset other_origin position = ⊥

new_position-IsAimedAt :
    (file : FileDescriptor) (offset : ℤ) (origin : Origin) (position : ℤ)
    → new_position file offset origin ≡ ok position
    → IsAimedAt file offset origin position
unfolding new_position
new_position-IsAimedAt file offset from_start position e = cc
new_position-IsAimedAt file offset from_current position e = cc
new_position-IsAimedAt file offset from_end position e = cc
new_position-IsAimedAt file offset other_origin position e = cc

module _ (io : Stdio) where
  leave-moved :
      (file : FileDescriptor) (target : ℕ)
      → Gives
          (SameDescriptor io file)
          (flush_and_invalidate io >> on_file io (λ f. record f { current_position = target }))
          (λ _ s. s.file ≡ record file {
            current_position = target;
            cache_slot_dirty = s.file.cache_slot_dirty;
            cache_valid_count = 0;
          })
  unfolding flush_and_invalidate on_file
  leave-moved file target =
      Gives-bind
        (Gives-bind {Q = λ _. SameDescriptor io file}
          {R = λ _ s.
            s.file
            ≡ record file { cache_slot_dirty = s.file.cache_slot_dirty; cache_valid_count = 0 }}
          (Gives-keeps (flush_all-SameDescriptor io file))
          (λ _. record {
            at = λ s h a e. ap (λ (f : FileDescriptor). record f { cache_valid_count = 0 }) h.same;
          }))
        (λ _. record {
          at = λ s h a e. ap (λ (f : FileDescriptor). record f { current_position = target }) h;
        })

  move_to-moved :
      (s : Session io) (position : ℕ)
      → (move_to io position s).0 ≡ ok tt
      → let s' = (move_to io position s).1 in
        s'.file ≡ moved position s'.file.cache_slot_dirty s.file
  unfolding move_to on_file
  move_to-moved s position e =
      let target = position % 2 ^ 32 in
      elim (Bool-cases (s.file.current_position / cluster_size == target / cluster_size)) [
        | inl stays ↦ rw (stays, move_to) refl
        | inr leaves ↦
            let e' = (rw (leaves, move_to) at e) in
            rw (leaves, move_to) ((leave-moved s.file target).at s (record { same = refl }) tt e')
      ]

  seek_to-moved :
      (s : Session io) (r : Result ℤ)
      → (seek_to io r s).0 ≡ ok tt
      → (position : ℕ) × (r ≡ ok (pos position))
        × (let s' = (seek_to io r s).1 in s'.file ≡ moved position s'.file.cache_slot_dirty s.file)
  unfolding seek_to
  seek_to-moved s (err x) e = cc
  seek_to-moved s (ok (negsuc n)) e = cc
  seek_to-moved s (ok (pos position)) e = (position, refl, move_to-moved s position e)

  -- A call on a descriptor that succeeds was on one that is open, and leaves the others alone.
  on_open_file-ok :
      (m : Exec (Session io) (Unit {0})) (fd : ℤ) (v : Context io)
      → (on_open_file io fd m v).0 ≡ ok tt
      → (k : ℕ) × (fd ≡ pos k)
        × (k < max_open_files)
        × ((v.open_files k).is_open ≡ true)
        × (on_open_file io fd m v ≡ at_descriptor io k m v)
  unfolding on_open_file
  on_open_file-ok m (negsuc n) v e = cc
  on_open_file-ok m (pos k) v e = elim (lt_or_le k max_open_files) [
    | inr outside ↦ let e' = (rw (le→leb _ _ outside, on_open_file) at e) in cc
    | inl inside ↦ elim (Bool-cases ((v.open_files k).is_open)) [
      | inl is_open ↦ (k, refl, inside, is_open, rw (lt→leb _ _ inside, is_open) refl)
      | inr is_closed ↦ let e' = (rw (lt→leb _ _ inside, is_closed, on_open_file) at e) in cc
    ]
  ]

  -- A seek that succeeds was on an open descriptor and to a position that is not negative, which is the
  -- offset from the start of the file, from the position, or from the size that the descriptor has, as
  -- the origin says; it sets the position to that, cut to a `uint32_t`, and gives up the slots if the
  -- cluster changes. But for which slots are dirty, nothing else of the table changes.
  pub seek-moves :
      (v : Context io) (fd offset : ℤ) (origin : Origin)
      → (seek io fd offset origin v).0 ≡ ok tt
      → let v' = (seek io fd offset origin v).1 in
        (k : ℕ) × (fd ≡ pos k)
        × (k < max_open_files)
        × ((v.open_files k).is_open ≡ true)
        × (position : ℕ) × IsAimedAt (v.open_files k) offset origin (pos position)
        × ((j : ℕ)
            → v'.open_files j ≡ (
                if j == k
                then moved position (v'.open_files k).cache_slot_dirty (v.open_files k)
                else v.open_files j))
  unfolding seek at_descriptor seek_file
  seek-moves v fd offset origin e =
      let (k, is_k, inside, is_open, same) = on_open_file-ok (seek_file io offset origin) fd v e in
      let s : Session io = record {
        disk = v.disk;
        bitmap = v.bitmap;
        index = v.index;
        file = v.open_files k;
      } in
      let (position, at, after) =
        seek_to-moved s (new_position s.file offset origin) (sym (ap (λ p. p.0) same) ∙ e) in
      (
        k,
        is_k,
        inside,
        is_open,
        position,
        new_position-IsAimedAt (v.open_files k) offset origin (pos position) at,
        λ j.
            rw (same, ==-refl k)
              (elim (Bool-cases (j == k)) [ inl here ↦ rw here after | inr other ↦ rw other refl ]),
      )

  sync_inode_size-SameDescriptor :
      (file : FileDescriptor) → Keeps (SameDescriptor io file) (sync_inode_size io)
  unfolding sync_inode_size
  sync_inode_size-SameDescriptor file = record {
    at = λ s h.
        (Keeps-bind _ _ (Keeps-lift_result (read_inode s.index s.file.inode_id)) (λ n.
            store_inode-SameDescriptor io file (record n { size = s.file.cached_file_size }))).at
          s h;
  }

  close_file-closed :
      (file : FileDescriptor)
      → Gives (SameDescriptor io file) (close_file io) (λ _ s.
        s.file ≡ record file { is_open = false; cache_slot_dirty = s.file.cache_slot_dirty })
  unfolding close_file on_file
  close_file-closed file = Gives-bind (Gives-keeps (flush_all-SameDescriptor io file)) (λ _.
      Gives-bind (Gives-keeps (sync_inode_size-SameDescriptor file)) (λ _. record {
        at = λ s h a e. ap (λ (f : FileDescriptor). record f { is_open = false }) h.same;
      }))

  -- A close that succeeds was on an open descriptor and closes it. But for which slots are dirty,
  -- nothing else of the table changes.
  pub close-closes :
      (v : Context io) (fd : ℤ)
      → (close io fd v).0 ≡ ok tt
      → let v' = (close io fd v).1 in
        (k : ℕ) × (fd ≡ pos k)
        × (k < max_open_files)
        × ((v.open_files k).is_open ≡ true)
        × ((j : ℕ)
            → v'.open_files j ≡ (
                if j == k
                then record (v.open_files k) {
                  is_open = false;
                  cache_slot_dirty = (v'.open_files k).cache_slot_dirty;
                }
                else v.open_files j))
  unfolding close at_descriptor
  close-closes v fd e =
      let (k, is_k, inside, is_open, same) = on_open_file-ok (close_file io) fd v e in
      let s : Session io = record {
        disk = v.disk;
        bitmap = v.bitmap;
        index = v.index;
        file = v.open_files k;
      } in
      let after =
        (close_file-closed s.file).at s (record { same = refl }) tt
          (sym (ap (λ p. p.0) same) ∙ e) in
      (
        k,
        is_k,
        inside,
        is_open,
        λ j.
            rw (same, ==-refl k)
              (elim (Bool-cases (j == k)) [ inl here ↦ rw here after | inr other ↦ rw other refl ]),
      )
