-- ===== src/Dir/Represents.antt =====
-- src/logical/dir.c: what the operations make of the list of entries, as changes of a map from names to
-- inodes.
use simple_file_system.Base.{ℕ, ◌^◌, ◌<◌, ◌≡◌, refl, ◌∙◌, none, some, List, [], ◌∷◌, ◌++◌}
use simple_file_system.Base.Text.{Text, length}
use simple_file_system.Dir.{
  Dentry, dentry_create, find_name, update_first, remove_first, rename_first, Stdlib, IsStdlib,
}
use simple_file_system.Dir.Names.{IsDistinct-perm, find_name-perm, Names, assign, Represents}
use simple_file_system.Dir.Changes.{
  dentry_create-name, IsDistinct-append, IsDistinct-update, IsDistinct-remove, IsDistinct-rename,
  find_name-append, find_name-update, find_name-remove, find_name-rename,
}

-- Sorting does not change the map.
pub sorted-Represents :
    (lib : Stdlib) (es : List Dentry) (names : Names)
    → IsStdlib lib
    → Represents es names
    → Represents (lib.qsort es) names
sorted-Represents lib es names std (d, h) =
    let p = std.qsort-perm es in (IsDistinct-perm p d, λ m. find_name-perm m p d ∙ h m)

-- A sorted list with a new entry stands for the map with the new name set.
pub insert-Represents :
    (lib : Stdlib) (es : List Dentry) (names : Names) (name : Text) (id : ℕ)
    → IsStdlib lib
    → Represents es names
    → names name ≡ none
    → length name < 2 ^ 16
    → Represents (lib.qsort (es ++ (dentry_create id name ∷ []))) (assign name (some id) names)
unfolding assign dentry_create
insert-Represents lib es names name id std (d, h) n l =
    let f = dentry_create id name in
    let w = dentry_create-name id name l in
    let free : find_name f.name es ≡ none = rw (w) (h name ∙ n) in
    sorted-Represents lib (es ++ (f ∷ [])) (assign name (some id) names) std
      (IsDistinct-append es f d free, λ m. rw (find_name-append m es f free, w, h m) refl)

-- The list in which an inode id is replaced stands for the map with the name set anew.
pub update-Represents :
    (es : List Dentry) (names : Names) (name : Text) (id old : ℕ)
    → Represents es names
    → names name ≡ some old
    → Represents (update_first name id es) (assign name (some id) names)
unfolding assign
update-Represents es names name id old (d, h) n = (
  IsDistinct-update name id es d,
  λ m. rw (← h m) (find_name-update m name id old es (h name ∙ n)),
)

-- The list without an entry stands for the map without its name.
pub remove-Represents :
    (es : List Dentry) (names : Names) (name : Text)
    → Represents es names
    → Represents (remove_first name es) (assign name none names)
unfolding assign
remove-Represents es names name (d, h) =
    (IsDistinct-remove name es d, λ m. rw (← h m) (find_name-remove m name es d))

-- The sorted list with an entry renamed stands for the map in which the old name is taken away and its
-- inode id stands under the new one.
pub rename-Represents :
    (lib : Stdlib) (es : List Dentry) (names : Names) (old_name new_name : Text) (id : ℕ)
    → IsStdlib lib
    → Represents es names
    → names old_name ≡ some id
    → names new_name ≡ none
    → length new_name < 2 ^ 16
    → Represents
        (lib.qsort (rename_first old_name new_name es))
        (assign new_name (some id) (assign old_name none names))
unfolding assign
rename-Represents lib es names old_name new_name id std (d, h) o n l =
    let free = h new_name ∙ n in
    sorted-Represents lib (rename_first old_name new_name es)
      (assign new_name (some id) (assign old_name none names)) std
      (
        IsDistinct-rename old_name new_name es l free d,
        λ m. rw (find_name-rename m old_name new_name id es l (h old_name ∙ o) free d, h m) refl,
      )
