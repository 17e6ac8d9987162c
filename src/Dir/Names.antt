-- ===== src/Dir/Names.antt =====
-- src/logical/dir.c: the entries of a directory as a map from names to inodes, which the lists that the
-- operations build agree with.
use simple_file_system.Base.{
  ℕ, ◌≡◌, refl, sym, ◌∙◌, inl, inr, true, false, Option, none, some, List, [], ◌∷◌, if◌then◌else◌,
  Bool-cases,
}
use mathlib.Core.List.{Permᴰ}
use simple_file_system.Base.Text.{Text, same, same-eq, same_refl}
use simple_file_system.Dir.{Dentry, named, find_name}

-- No two entries have one name.
unfoldable pub IsDistinct : List Dentry → Type 0
unfolding find_name
IsDistinct [] = Unit {0}
IsDistinct (e ∷ es) = (find_name e.name es ≡ none) × IsDistinct es

-- A name that is not at the head is looked for behind it.
pub find_name-skip :
    (name : Text) (e : Dentry) (es : List Dentry)
    → named name e ≡ false
    → find_name name (e ∷ es) ≡ find_name name es
unfolding find_name
find_name-skip name e es h = rw (h)

pub find_name-hit :
    (name : Text) (e : Dentry) (es : List Dentry)
    → named name e ≡ true
    → find_name name (e ∷ es) ≡ some e.inode_id
unfolding find_name
find_name-hit name e es h = rw (h)

-- Where a name is missing, it is neither at the head nor behind it.
pub find_name-none :
    (name : Text) (e : Dentry) (es : List Dentry)
    → find_name name (e ∷ es) ≡ none
    → (named name e ≡ false) × (find_name name es ≡ none)
unfolding find_name
find_name-none name e es h = elim (Bool-cases (named name e)) [
  | inl t ↦ cc
  | inr f ↦ (f, sym (find_name-skip name e es f) ∙ h)
]

-- A name that is neither at the head nor behind it is missing.
pub find_name-absent :
    (name : Text) (e : Dentry) (es : List Dentry)
    → named name e ≡ false
    → find_name name es ≡ none
    → find_name name (e ∷ es) ≡ none
find_name-absent name e es f h = find_name-skip name e es f ∙ h

-- Another order has the same names.
none-perm :
    {es fs : List Dentry} (name : Text)
    → Permᴰ es fs
    → find_name name es ≡ none
    → find_name name fs ≡ none
none-perm name Permᴰ.nil h = h
none-perm {es = a ∷ l} {fs = b ∷ k} name (Permᴰ.cons q p) h =
    let (f, g) = find_name-none name a l h in
    let f' : named name b ≡ false = rw (← q) f in find_name-absent name b k f' (none-perm name p g)
none-perm {es = a ∷ b ∷ l} {fs = x ∷ y ∷ k} name (Permᴰ.swap q r) h =
    let (f, g) = find_name-none name a (b ∷ l) h in
    let (f2, g2) = find_name-none name b l g in
    rw (← q, ← r) (find_name-absent name b (a ∷ l) f2 (find_name-absent name a l f g2))
none-perm name (Permᴰ.trans p q) h = none-perm name q (none-perm name p h)

-- Whether a name belongs to two entries, they have one name.
pub named-eq : (name : Text) (e : Dentry) → named name e ≡ true → e.name ≡ name
named-eq name e h = same-eq e.name name h

-- The head has a name that is not behind it.
pub not_again :
    (name : Text) (e f : Dentry) (es : List Dentry)
    → find_name e.name (f ∷ es) ≡ none
    → named name e ≡ true
    → named name f ≡ false
not_again name e f es h t = rw (← named-eq name e t) (find_name-none e.name f es h).0

-- Two entries that begin a list can change places.
IsDistinct-swap : (a b : Dentry) (l : List Dentry) → IsDistinct (a ∷ b ∷ l) → IsDistinct (b ∷ a ∷ l)
unfolding IsDistinct
IsDistinct-swap a b l (h, (g, d)) =
    let (f, g') = find_name-none a.name b l h in
    let other : named b.name a ≡ false = elim (Bool-cases (named b.name a)) [
      | inl t ↦ let e = named-eq b.name a t in let s = same_refl b.name in cc
      | inr f ↦ f
    ] in
    (find_name-absent b.name a l other g, (g', d))

-- The entries behind the first can be put in another order.
IsDistinct-cons :
    (a : Dentry) {l k : List Dentry}
    → Permᴰ l k
    → IsDistinct (a ∷ l)
    → (IsDistinct l → IsDistinct k)
    → IsDistinct (a ∷ k)
unfolding IsDistinct
IsDistinct-cons a p (h, d) f = (none-perm a.name p h, f d)

-- Another order of the entries has no name twice either.
pub IsDistinct-perm : {es fs : List Dentry} → Permᴰ es fs → IsDistinct es → IsDistinct fs
IsDistinct-perm Permᴰ.nil d = d
IsDistinct-perm {es = a ∷ l} {fs = b ∷ k} (Permᴰ.cons q p) d =
    rw (← q) (IsDistinct-cons a p d (IsDistinct-perm p))
IsDistinct-perm {es = a ∷ b ∷ l} {fs = x ∷ y ∷ k} (Permᴰ.swap q r) d =
    rw (← q, ← r) (IsDistinct-swap a b l d)
IsDistinct-perm (Permᴰ.trans p q) d = IsDistinct-perm q (IsDistinct-perm p d)

-- Another order of the entries is the same map.
pub find_name-perm :
    {es fs : List Dentry} (name : Text)
    → Permᴰ es fs
    → IsDistinct es
    → find_name name fs ≡ find_name name es
unfolding IsDistinct find_name
find_name-perm name Permᴰ.nil d = refl
find_name-perm {es = a ∷ l} {fs = b ∷ k} name (Permᴰ.cons q p) (h, d) =
    rw (← q, find_name-perm name p d)
find_name-perm {es = a ∷ b ∷ l} {fs = x ∷ y ∷ k} name (Permᴰ.swap q r) (h, (g, d)) =
    rw (← q, ← r)
      (elim (Bool-cases (named name a)) [
        | inl t ↦ rw (t, not_again name a b l h t) refl
        | inr f ↦ rw (f) refl
      ])
find_name-perm name (Permᴰ.trans p q) d =
    find_name-perm name q (IsDistinct-perm p d) ∙ find_name-perm name p d

-- What a directory is for its user: an inode id for some names.
abbrev pub Names : Type 0
Names = Text → Option ℕ

-- The map with a name set, or taken away.
unfoldable pub assign : Text → Option ℕ → Names → Names
unfolding same
assign name value names m = if same name m then value else names m

-- A list of entries stands for a map.
abbrev pub Represents : List Dentry → Names → Type 0
Represents es names = IsDistinct es × ((name : Text) → find_name name es ≡ names name)
