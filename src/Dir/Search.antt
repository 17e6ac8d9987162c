-- ===== src/Dir/Search.antt =====
-- src/logical/dir.c: the binary search for an entry, on the sorted entries that are read.
use simple_file_system.Base.{
  ℕ, ◌≡◌, refl, sym, ap, ◌∙◌, inl, inr, not, ◌&&◌, Option, none, some, List, [], file_access,
  out_of_bounds, memory_allocation, Result, ok, err, reject_if, bind-ok, ltb, ◌==◌, Bool-cases,
}
use simple_file_system.Base.Gives.{Gives, Gives-pure, Gives-rest}
use simple_file_system.Base.Text.{Text, length}
use simple_file_system.Platform.{Stdio}
use simple_file_system.Alloc.{Work}
use simple_file_system.Dir.{
  Dentry, find_name, parse_entries, Stdlib, IsStdlib, directory_buffer, entry_array, parsed_entry,
  IsSorted, IsMatch,
}
use simple_file_system.Dir.Names.{IsDistinct, find_name-hit, find_name-perm, Names, Represents}
use simple_file_system.Dir.Table.{
  found_id, read_directory, read_from_start, load_bytes, load_entries, open_entries, find_entry,
  need,
}

-- What a search from the front gives, as a status.
abbrev pub lookup : Option ℕ → Result ℕ
lookup none = err out_of_bounds
lookup (some id) = ok id

-- A match is the entry that a search from the front finds, if no two entries have one name.
found_id-match :
    (name : Text) (es : List Dentry) (r : Option Dentry)
    → IsDistinct es
    → IsMatch name es r
    → found_id r ≡ lookup (find_name name es)
found_id-match name es none d m = rw (m) refl
found_id-match name es (some e) d (q, l, p) =
    rw (← find_name-perm name p d, find_name-hit name e l q) refl

module _ (io : Stdio) (lib : Stdlib) (std : IsStdlib lib) where
  load_bytes-IsSorted :
      (size : ℕ) → Gives (λ (w : Work io). Unit {0}) (load_bytes io lib size) (λ es w. IsSorted es)
  unfolding load_bytes
  load_bytes-IsSorted size = Gives-rest (need io lib directory_buffer) (λ _.
      Gives-rest (read_from_start io lib size) (λ (buffer, n).
        Gives-rest (reject_if (not (n == size)) file_access) (λ _.
          Gives-rest (need io lib entry_array) (λ _.
            Gives-rest
              (reject_if
                (ltb 0 (length (parse_entries size buffer)) && not (lib.has_memory parsed_entry))
                memory_allocation)
              (λ _.
                Gives-pure (lib.qsort (parse_entries size buffer))
                  (λ w h. std.qsort-IsSorted (parse_entries size buffer)))))))

  load_entries-IsSorted :
      (w : Work io) (es : List Dentry) → (load_entries io lib w).0 ≡ ok es → IsSorted es
  unfolding load_entries
  load_entries-IsSorted w es h = elim (Bool-cases (w.inode.size == 0)) [
    | inl t ↦
        let e : (load_entries io lib w).0 ≡ ok [] = rw (t) refl in
        let q : [] ≡ es = cc in rw (← q) tt
    | inr f ↦
        let e : (load_entries io lib w).0 ≡ (load_bytes io lib w.inode.size w).0 = rw (f) refl in
        (load_bytes-IsSorted w.inode.size).at w tt es (sym e ∙ h)
  ]

  -- The entries that are read stand in the order of their names.
  pub open_entries-IsSorted :
      (d : ℕ) (w : Work io) (es : List Dentry) → (open_entries io lib d w).0 ≡ ok es → IsSorted es
  unfolding open_entries
  open_entries-IsSorted d w es h =
      let (a, b, c) = bind-ok (read_directory io lib d) (λ _. load_entries io lib) w h in
      load_entries-IsSorted (read_directory io lib d w).1 es (ap (λ r. r.0) (sym c) ∙ h)

  -- fs_dir_find_entry, with a `qsort` that sorts and a `bsearch` that searches sorted entries, on a
  -- directory whose entries can be read, returns what the map that they stand for has under the name, and
  -- out of bounds if it has nothing.
  pub find_entry-finds :
      (d : ℕ) (name : Text) (names : Names) (es : List Dentry) (w at : Work io)
      → open_entries io lib d w ≡ (ok es, at)
      → Represents es names
      → find_entry io lib d name w ≡ (lookup (names name), at)
  unfolding find_entry
  find_entry-finds d name names es w at o (x, h) =
      let sorted = open_entries-IsSorted d w es (ap (λ r. r.0) o) in
      let found =
        found_id-match name es (lib.bsearch name es) x (std.bsearch-IsMatch name es sorted) in
      rw (o, found, h name) refl
