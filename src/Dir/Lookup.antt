-- ===== src/Dir/Lookup.antt =====
-- src/logical/dir.c: a name that has been inserted into a directory is found there, with all the others.
use simple_file_system.Base.{
  Bool-cases, inl, inr, false, ℕ, ◌+◌, ◌^◌, ◌<◌, ◌≤◌, ◌≡◌, ◌≢◌, refl, sym, ap, ◌∙◌, Bool, true,
  false, not, none, some, List, [], ◌∷◌, ◌++◌, arith, Status, memory_allocation, Result, ok, err,
  ◌==◌, if◌then◌else◌,
}
use mathlib.Core.List.{Permᴰ}
use simple_file_system.Config.{cluster_size}
use simple_file_system.Platform.{Stdio, IsFile}
use simple_file_system.Index.{type_directory}
use simple_file_system.Alloc.{Work}
use simple_file_system.Base.Text.{Text}
use simple_file_system.Dir.{
  remove_first, named, Dentry, dentry_create, validate_name, total_size, Stdlib, IsStdlib,
  longer_array, new_entry,
}
use simple_file_system.Dir.Names.{Names, assign}
use simple_file_system.Dir.Roundtrip.{AreCharacters, record_length-room}
use simple_file_system.Dir.Tables.{
  remove-IsTable, IsTable, validate_name-bound, dentry_create-IsEntry, insert-IsTable,
}
use simple_file_system.Dir.Table.{
  is_fixed, remove_entry, read_directory, load_entries, open_entries, save_entries, insert_entry,
  find_entry,
}
use simple_file_system.Dir.Runs.{remove_entry-writes, inserted, insert_entry-writes}
use simple_file_system.Dir.Search.{lookup, find_entry-finds}
use simple_file_system.Dir.Stored.{open_entries-save_entries}

-- The size of the entries does not depend on their order.
total_size-perm : {es fs : List Dentry} → Permᴰ es fs → total_size fs ≡ total_size es
unfolding total_size
total_size-perm Permᴰ.nil = refl
total_size-perm (Permᴰ.cons q p) = rw (q, total_size-perm p) refl
total_size-perm (Permᴰ.swap q r) = rw (q, r) (omega arith)
total_size-perm (Permᴰ.trans p q) = total_size-perm q ∙ total_size-perm p

total_size-append :
    (es : List Dentry) (f : Dentry) → total_size (es ++ (f ∷ [])) ≡ total_size es + f.record_length
unfolding total_size
total_size-append [] f = omega arith
total_size-append (e ∷ es) f = rw (total_size-append es f) (omega arith)

past_guards :
    {S A : Type 0} (a b : Bool) (x y : Status) (s : S) (r : Result A × S) (v : A) (s' : S)
    → (if a then (err x, s) else if b then (err y, s) else r) ≡ (ok v, s')
    → r ≡ (ok v, s')
past_guards true b x y s r v s' h = let e : err x ≡ ok v = ap (λ p. p.0) h in cc
past_guards false true x y s r v s' h = let e : err y ≡ ok v = ap (λ p. p.0) h in cc
past_guards false false x y s r v s' h = h

total_size-remove :
    (name : Text) (es : List Dentry) → total_size (remove_first name es) ≤ total_size es
unfolding total_size remove_first
total_size-remove name [] = omega arith
total_size-remove name (e ∷ es) = elim (Bool-cases (named name e)) [
  | inl t ↦ rw (t) (omega arith)
  | inr u ↦ rw (u) (omega (arith, total_size-remove name es))
]

module _ (io : Stdio) (file : IsFile io) (lib : Stdlib) (std : IsStdlib lib) where
  -- When fs_dir_insert_entry has added a valid new name, with an inode id below 2 ^ 32, to a directory that
  -- takes no more than its first cluster with it, fs_dir_find_entry finds the id under the name and
  -- finds every other name as before. The directory is one whose entries can be read, before and after.
  pub find_entry-insert_entry :
      (d : ℕ) (name other : Text) (id : ℕ) (names : Names) (es r : List Dentry)
      (w w1 loaded w' at : Work io)
      → read_directory io lib d w ≡ (ok tt, w1)
      → (w1.inode.type == type_directory) ≡ true
      → load_entries io lib w1 ≡ (ok es, loaded)
      → loaded.inode.id ≡ d
      → loaded.inode.direct_clusters 0 ≢ 0
      → IsTable es names
      → total_size es + (dentry_create id name).record_length ≤ cluster_size
      → validate_name name ≡ ok tt
      → AreCharacters name
      → names name ≡ none
      → id < 2 ^ 32
      → insert_entry io lib d name id w ≡ (ok tt, w')
      → open_entries io lib d w' ≡ (ok r, at)
      → find_entry io lib d other w' ≡ (lookup (assign name (some id) names other), at)
  find_entry-insert_entry d name other id names es r w w1 loaded w' at rd ty ld own held t room v c
        n b ins o =
      let new = inserted io lib es name id in
      let f = dentry_create id name in
      let (x, h) = t.represents in
      let short = validate_name-bound name v in
      let (rl, ru) = record_length-room f (dentry_create-IsEntry id name (c, short) b) in
      let size : total_size new ≡ total_size es + f.record_length =
        total_size-perm (std.qsort-perm (es ++ (f ∷ []))) ∙ total_size-append es f in
      let table : IsTable new (assign name (some id) names) =
        insert-IsTable lib es names name id std t n (c, short) b in
      let run = insert_entry-writes io lib d name id es w w1 loaded rd ty ld v (h name ∙ n) in
      let saved : save_entries io lib new loaded ≡ (ok tt, w') =
        past_guards (not (lib.has_memory longer_array)) (not (lib.has_memory new_entry))
          memory_allocation memory_allocation loaded (save_entries io lib new loaded) tt w'
          (sym run ∙ ins) in
      let after : (save_entries io lib new loaded).1 ≡ w' = ap (λ x. x.1) saved in
      let o' : open_entries io lib loaded.inode.id (save_entries io lib new loaded).1 ≡ (ok r, at) =
        rw (after, own) o in
      let represents =
        open_entries-save_entries io file lib std new (assign name (some id) names) loaded at r
          table held (omega arith) (omega arith) (ap (λ x. x.0) saved) o' in
      find_entry-finds io lib std d other (assign name (some id) names) r w' at o represents

  -- When fs_dir_remove_entry has taken a name, not a fixed one, from a directory that takes no more than its
  -- first cluster and keeps another entry, fs_dir_find_entry finds nothing under the name and finds every
  -- other name as before. The directory is one whose entries can be read, before and after.
  pub find_entry-remove_entry :
      (d : ℕ) (name other : Text) (id : ℕ) (names : Names) (es r : List Dentry)
      (w loaded w' at : Work io)
      → open_entries io lib d w ≡ (ok es, loaded)
      → loaded.inode.id ≡ d
      → loaded.inode.direct_clusters 0 ≢ 0
      → IsTable es names
      → total_size es ≤ cluster_size
      → 0 < total_size (remove_first name es)
      → is_fixed name ≡ false
      → names name ≡ some id
      → remove_entry io lib d name w ≡ (ok tt, w')
      → open_entries io lib d w' ≡ (ok r, at)
      → find_entry io lib d other w' ≡ (lookup (assign name none names other), at)
  find_entry-remove_entry d name other id names es r w loaded w' at before own held t room some_left
        f n rem o =
      let new = remove_first name es in
      let (x, h) = t.represents in
      let table : IsTable new (assign name none names) = remove-IsTable es names name t in
      let saved : save_entries io lib new loaded ≡ (ok tt, w') =
        sym (remove_entry-writes io lib d name id es w loaded before f (h name ∙ n)) ∙ rem in
      let after : (save_entries io lib new loaded).1 ≡ w' = ap (λ x. x.1) saved in
      let o' : open_entries io lib loaded.inode.id (save_entries io lib new loaded).1 ≡ (ok r, at) =
        rw (after, own) o in
      let represents =
        open_entries-save_entries io file lib std new (assign name none names) loaded at r table
          held some_left (omega (arith, total_size-remove name es)) (ap (λ x. x.0) saved) o' in
      find_entry-finds io lib std d other (assign name none names) r w' at o represents
