-- ===== src/Dir/Runs.antt =====
-- src/logical/dir.c: the operations on a directory, by what they do to the map that it stands for.
use simple_file_system.Base.{
  ℕ, ◌^◌, ◌<◌, ◌≡◌, refl, inl, inr, true, false, not, none, some, List, [], ◌∷◌, ◌++◌,
  invalid_argument, out_of_bounds, memory_allocation, ok, err, ◌==◌, if◌then◌else◌, Bool-cases,
}
use simple_file_system.Base.Text.{Text}
use simple_file_system.Platform.{Stdio}
use simple_file_system.Alloc.{Work}
use mathlib.Core.Path.{◌∙◌}
use simple_file_system.Dir.{
  find_name, Dentry, dentry_create, update_first, remove_first, rename_first, validate_name, Stdlib,
  IsStdlib, longer_array, new_entry,
}
use simple_file_system.Dir.Names.{Names, assign}
use simple_file_system.Dir.Roundtrip.{AreCharacters}
use simple_file_system.Dir.Tables.{
  validate_name-bound, IsTable, insert-IsTable, update-IsTable, remove-IsTable, rename-IsTable,
}
use simple_file_system.Dir.Table.{
  is_found, is_fixed, read_directory, load_entries, save_entries, require_directory, open_entries,
  insert_entry, update_entry_inode, remove_entry, rename_entry,
}
use simple_file_system.Index.{type_directory}

module _ (io : Stdio) (lib : Stdlib) where
  -- fs_dir_remove_entry, on a directory whose entries can be read, refuses the names that every directory
  -- has and a name that is missing; any other name it takes away, and writes entries that stand for the
  -- map without it.
  pub remove_entry-removes :
      (d : ℕ) (name : Text) (names : Names) (es : List Dentry) (w at : Work io)
      → open_entries io lib d w ≡ (ok es, at)
      → IsTable es names
      → (new : List Dentry) × IsTable new (assign name none names)
        × (remove_entry io lib d name w ≡ (
            if is_fixed name
            then (err invalid_argument, w)
            else if not (is_found (names name))
            then (err out_of_bounds, at)
            else save_entries io lib new at))
  unfolding remove_entry
  remove_entry-removes d name names es w at o r =
      let (x, h) = r.represents in
      (
        remove_first name es,
        remove-IsTable es names name r,
        elim (Bool-cases (is_fixed name)) [
          | inl t ↦ rw (t) refl
          | inr f ↦ elim (Bool-cases (is_found (names name))) [
            | inl t ↦ rw (f, o, h name, t) refl
            | inr u ↦ rw (f, o, h name, u) refl
          ]
        ],
      )

  -- fs_dir_update_entry_inode, on a directory whose entries can be read and have the name, writes entries
  -- that stand for the map with the name set anew.
  pub update_entry_inode-updates :
      (d : ℕ) (name : Text) (id old : ℕ) (names : Names) (es : List Dentry) (w at : Work io)
      → open_entries io lib d w ≡ (ok es, at)
      → IsTable es names
      → names name ≡ some old
      → id < 2 ^ 32
      → (new : List Dentry) × IsTable new (assign name (some id) names)
        × (update_entry_inode io lib d name id w ≡ save_entries io lib new at)
  unfolding update_entry_inode
  update_entry_inode-updates d name id old names es w at o r n b =
      let (x, h) = r.represents in
      (update_first name id es, update-IsTable es names name id old r n b, rw (o, h name, n) refl)

  -- The entries that fs_dir_insert_entry makes of those that it has read.
  abbrev pub inserted : List Dentry → Text → ℕ → List Dentry
  inserted es name id = lib.qsort (es ++ (dentry_create id name ∷ []))

  pub insert_entry-writes :
      (d : ℕ) (name : Text) (id : ℕ) (es : List Dentry) (w w1 at : Work io)
      → read_directory io lib d w ≡ (ok tt, w1)
      → (w1.inode.type == type_directory) ≡ true
      → load_entries io lib w1 ≡ (ok es, at)
      → validate_name name ≡ ok tt
      → find_name name es ≡ none
      → insert_entry io lib d name id w ≡ (
          if not (lib.has_memory longer_array)
          then (err memory_allocation, at)
          else if not (lib.has_memory new_entry)
          then (err memory_allocation, at)
          else save_entries io lib (inserted es name id) at)
  unfolding insert_entry require_directory
  insert_entry-writes d name id es w w1 at o ty l v n =
      elim (Bool-cases (lib.has_memory longer_array)) [
        | inr f ↦ rw (v, o, ty, l, n, f) refl
        | inl t ↦ elim (Bool-cases (lib.has_memory new_entry)) [
          | inr f ↦ rw (v, o, ty, l, n, t, f) refl
          | inl s ↦ rw (v, o, ty, l, n, t, s) refl
        ]
      ]

  -- fs_dir_insert_entry, with a `qsort` that sorts, on a directory whose entries can be read and do not have
  -- the valid new name: unless memory is missing, it writes entries that stand for the map with the name
  -- set to an inode id below 2 ^ 32, that have no name twice, and that can be read again.
  pub insert_entry-inserts :
      (d : ℕ) (name : Text) (id : ℕ) (names : Names) (es : List Dentry) (w w1 at : Work io)
      → IsStdlib lib
      → read_directory io lib d w ≡ (ok tt, w1)
      → (w1.inode.type == type_directory) ≡ true
      → load_entries io lib w1 ≡ (ok es, at)
      → IsTable es names
      → validate_name name ≡ ok tt
      → AreCharacters name
      → names name ≡ none
      → id < 2 ^ 32
      → (new : List Dentry) × IsTable new (assign name (some id) names)
        × (insert_entry io lib d name id w ≡ (
            if not (lib.has_memory longer_array)
            then (err memory_allocation, at)
            else if not (lib.has_memory new_entry)
            then (err memory_allocation, at)
            else save_entries io lib new at))
  insert_entry-inserts d name id names es w w1 at std o ty l r v c n b =
      let (x, h) = r.represents in
      (
        inserted es name id,
        insert-IsTable lib es names name id std r n (c, validate_name-bound name v) b,
        insert_entry-writes d name id es w w1 at o ty l v (h name ∙ n),
      )

  -- fs_dir_rename_entry, on a directory whose entries can be read and have the old name, not a fixed one,
  -- but not the valid new one: unless memory is missing, it writes entries that stand for the map in
  -- which the old name is taken away and the new one has its inode id.
  pub rename_entry-renames :
      (d : ℕ) (old_name new_name : Text) (id : ℕ) (names : Names) (es : List Dentry)
      (w at : Work io)
      → IsStdlib lib
      → open_entries io lib d w ≡ (ok es, at)
      → IsTable es names
      → is_fixed old_name ≡ false
      → validate_name new_name ≡ ok tt
      → AreCharacters new_name
      → names old_name ≡ some id
      → names new_name ≡ none
      → (new : List Dentry) × IsTable new (assign new_name (some id) (assign old_name none names))
        × (rename_entry io lib d old_name new_name w ≡ (
            if not (lib.has_memory new_entry)
            then (err memory_allocation, at)
            else save_entries io lib new at))
  unfolding rename_entry
  rename_entry-renames d old_name new_name id names es w at std o r fx v c n m =
      let (x, h) = r.represents in
      (
        lib.qsort (rename_first old_name new_name es),
        rename-IsTable lib es names old_name new_name id std r n m
            (c, validate_name-bound new_name v),
        elim (Bool-cases (lib.has_memory new_entry)) [
          | inr f ↦ rw (fx, v, o, h old_name, n, h new_name, m, f) refl
          | inl s ↦ rw (fx, v, o, h old_name, n, h new_name, m, s) refl
        ],
      )

  -- The run of fs_dir_remove_entry on a name that can be removed.
  pub remove_entry-writes :
      (d : ℕ) (name : Text) (id : ℕ) (es : List Dentry) (w at : Work io)
      → open_entries io lib d w ≡ (ok es, at)
      → is_fixed name ≡ false
      → find_name name es ≡ some id
      → remove_entry io lib d name w ≡ save_entries io lib (remove_first name es) at
  unfolding remove_entry
  remove_entry-writes d name id es w at o f n = rw (f, o, n) refl
