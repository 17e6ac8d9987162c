-- ===== src/Dir/Tables.antt =====
-- src/logical/dir.c: the lists of entries that can be written and read again, and the maps that they stand
-- for.
use simple_file_system.Base.{
  ℕ, ◌^◌, ◌<◌, ◌≡◌, sym, ap, inl, inr, none, some, List, [], ◌∷◌, ◌++◌, arith, ok, Bool-cases,
}
use mathlib.Core.List.{Permᴰ}
use simple_file_system.Base.Text.{Text, length}
use simple_file_system.Dir.{
  Dentry, dentry_create, named, update_first, remove_first, rename_first, validate_name, Stdlib,
  IsStdlib,
}
use simple_file_system.Dir.Names.{Names, assign, Represents}
use simple_file_system.Dir.Changes.{dentry_create-name}
use simple_file_system.Dir.Roundtrip.{AreCharacters, IsEntry, AreEntries}
use simple_file_system.Dir.Represents.{
  insert-Represents, update-Represents, remove-Represents, rename-Represents,
}

-- A name that fs_dir_validate_name accepts is short.
pub validate_name-bound : (name : Text) → validate_name name ≡ ok tt → length name < 256
unfolding validate_name
validate_name-bound name h = ground arith

-- A name that can be given to an entry.
abbrev pub IsName : Text → Type 0
IsName name = AreCharacters name × (length name < 256)

pub dentry_create-IsEntry :
    (id : ℕ) (name : Text) → IsName name → id < 2 ^ 32 → IsEntry (dentry_create id name)
unfolding dentry_create
dentry_create-IsEntry id name (c, l) b =
    let w = dentry_create-name id name (omega arith) in
    record {
      id_bound = b;
      characters = rw (w) c;
      name_bound = rw (w) l;
      created = sym (ap (dentry_create id) w);
    }

-- A list of entries that stands for a map, and that is read again as it is written.
pub record IsTable (es : List Dentry) (names : Names) : Type 0 where
  pub represents : Represents es names
  pub are_entries : AreEntries es

AreEntries-perm : {es fs : List Dentry} → Permᴰ es fs → AreEntries es → AreEntries fs
AreEntries-perm Permᴰ.nil w = tt
AreEntries-perm (Permᴰ.cons q p) (v, w) = (rw (← q) v, AreEntries-perm p w)
AreEntries-perm (Permᴰ.swap q r) (v, (u, w)) = (rw (← r) u, (rw (← q) v, w))
AreEntries-perm (Permᴰ.trans p q) w = AreEntries-perm q (AreEntries-perm p w)

AreEntries-append :
    (es : List Dentry) (f : Dentry) → AreEntries es → IsEntry f → AreEntries (es ++ (f ∷ []))
AreEntries-append [] f w h = (h, tt)
AreEntries-append (e ∷ es) f (v, w) h = (v, AreEntries-append es f w h)

-- An entry with another inode id.
retarget-IsEntry :
    (e : Dentry) (id : ℕ) → IsEntry e → id < 2 ^ 32 → IsEntry (record e { inode_id = id })
unfolding dentry_create
retarget-IsEntry e id w b = record {
  id_bound = b;
  characters = w.characters;
  name_bound = w.name_bound;
  created = ap (λ (d : Dentry). record d { inode_id = id }) w.created;
}

AreEntries-update :
    (name : Text) (id : ℕ) (es : List Dentry)
    → id < 2 ^ 32
    → AreEntries es
    → AreEntries (update_first name id es)
unfolding update_first
AreEntries-update name id [] b w = tt
AreEntries-update name id (e ∷ es) b (v, w) = elim (Bool-cases (named name e)) [
  | inl t ↦ rw (t) (retarget-IsEntry e id v b, w)
  | inr u ↦ rw (u) (v, AreEntries-update name id es b w)
]

AreEntries-remove :
    (name : Text) (es : List Dentry) → AreEntries es → AreEntries (remove_first name es)
unfolding remove_first
AreEntries-remove name [] w = tt
AreEntries-remove name (e ∷ es) (v, w) = elim (Bool-cases (named name e)) [
  | inl t ↦ rw (t) w
  | inr u ↦ rw (u) (v, AreEntries-remove name es w)
]

AreEntries-rename :
    (old_name new_name : Text) (es : List Dentry)
    → IsName new_name
    → AreEntries es
    → AreEntries (rename_first old_name new_name es)
unfolding rename_first
AreEntries-rename old_name new_name [] n w = tt
AreEntries-rename old_name new_name (e ∷ es) n (v, w) = elim (Bool-cases (named old_name e)) [
  | inl t ↦ rw (t) (dentry_create-IsEntry e.inode_id new_name n v.id_bound, w)
  | inr u ↦ rw (u) (v, AreEntries-rename old_name new_name es n w)
]

-- The entries that fs_dir_insert_entry writes.
pub insert-IsTable :
    (lib : Stdlib) (es : List Dentry) (names : Names) (name : Text) (id : ℕ)
    → IsStdlib lib
    → IsTable es names
    → names name ≡ none
    → IsName name
    → id < 2 ^ 32
    → IsTable (lib.qsort (es ++ (dentry_create id name ∷ []))) (assign name (some id) names)
insert-IsTable lib es names name id std t n w b = record {
  represents = insert-Represents lib es names name id std t.represents n (omega (arith, w.1));
  are_entries = AreEntries-perm (std.qsort-perm (es ++ (dentry_create id name ∷ []))) (
      AreEntries-append es (dentry_create id name) t.are_entries
        (dentry_create-IsEntry id name w b));
}

-- The entries that fs_dir_update_entry_inode writes.
pub update-IsTable :
    (es : List Dentry) (names : Names) (name : Text) (id old : ℕ)
    → IsTable es names
    → names name ≡ some old
    → id < 2 ^ 32
    → IsTable (update_first name id es) (assign name (some id) names)
update-IsTable es names name id old t n b = record {
  represents = update-Represents es names name id old t.represents n;
  are_entries = AreEntries-update name id es b t.are_entries;
}

-- The entries that fs_dir_remove_entry writes.
pub remove-IsTable :
    (es : List Dentry) (names : Names) (name : Text)
    → IsTable es names
    → IsTable (remove_first name es) (assign name none names)
remove-IsTable es names name t = record {
  represents = remove-Represents es names name t.represents;
  are_entries = AreEntries-remove name es t.are_entries;
}

-- The entries that fs_dir_rename_entry writes.
pub rename-IsTable :
    (lib : Stdlib) (es : List Dentry) (names : Names) (old_name new_name : Text) (id : ℕ)
    → IsStdlib lib
    → IsTable es names
    → names old_name ≡ some id
    → names new_name ≡ none
    → IsName new_name
    → IsTable
        (lib.qsort (rename_first old_name new_name es))
        (assign new_name (some id) (assign old_name none names))
rename-IsTable lib es names old_name new_name id std t o n w = record {
  represents =
      rename-Represents lib es names old_name new_name id std t.represents o n (omega (arith, w.1));
  are_entries =
      AreEntries-perm (std.qsort-perm (rename_first old_name new_name es))
        (AreEntries-rename old_name new_name es w t.are_entries);
}
