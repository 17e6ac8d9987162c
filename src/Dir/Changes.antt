-- ===== src/Dir/Changes.antt =====
-- src/logical/dir.c: what is found in the lists of entries that the operations make.
use simple_file_system.Base.{
  ℕ, ◌%◌, ◌^◌, ◌<◌, ◌≡◌, refl, sym, ap, ◌∙◌, inl, inr, true, false, none, some, List, [], ◌∷◌, ◌++◌,
  arith, if◌then◌else◌, Bool-cases,
}
use simple_file_system.Base.Text.{Text, length, same, take, same-eq, same_refl, same-false_comm}
use simple_file_system.Dir.{
  Dentry, dentry_create, named, find_name, update_first, remove_first, rename_first,
}
use simple_file_system.Dir.Names.{
  IsDistinct, find_name-skip, find_name-hit, find_name-none, find_name-absent, named-eq,
}

-- A name that is short enough is kept whole.
pub take-length : (s : Text) → take (length s) s ≡ s
unfolding take length
take-length [] = refl
take-length (c ∷ s) = ap (λ t. c ∷ t) (take-length s)

pub dentry_create-name :
    (id : ℕ) (name : Text) → length name < 2 ^ 16 → (dentry_create id name).name ≡ name
unfolding dentry_create
dentry_create-name id name h =
    let e : length name % 2 ^ 16 ≡ length name = omega arith in rw (e) (take-length name)

-- An entry with a new name at the end of a list is found there, and hides no other.
pub find_name-append :
    (m : Text) (es : List Dentry) (f : Dentry)
    → find_name f.name es ≡ none
    → find_name m (es ++ (f ∷ [])) ≡ (if named m f then some f.inode_id else find_name m es)
unfolding find_name
find_name-append m [] f h = refl
find_name-append m (e ∷ es) f h =
    let (g, h') = find_name-none f.name e es h in
    let ih = find_name-append m es f h' in
    elim (Bool-cases (named m e)) [
      | inl t ↦
          let n = same_refl f.name in
          elim (Bool-cases (named m f)) [
            | inl u ↦ let q = named-eq m e t in let r = named-eq m f u in cc
            | inr u ↦ rw (t, u) refl
          ]
      | inr u ↦ rw (u) ih
    ]

-- Taking an entry away hides no other name.
none-append :
    (m : Text) (es : List Dentry) (f : Dentry)
    → find_name m es ≡ none
    → named m f ≡ false
    → find_name m (es ++ (f ∷ [])) ≡ none
unfolding find_name
none-append m [] f h n = rw (n) refl
none-append m (e ∷ es) f h n =
    let (g, h') = find_name-none m e es h in
    find_name-absent m e (es ++ (f ∷ [])) g (none-append m es f h' n)

-- A name that no entry has can be added.
pub IsDistinct-append :
    (es : List Dentry) (f : Dentry)
    → IsDistinct es
    → find_name f.name es ≡ none
    → IsDistinct (es ++ (f ∷ []))
unfolding IsDistinct find_name
IsDistinct-append [] f d h = (refl, tt)
IsDistinct-append (e ∷ es) f (g, d) h =
    let (n, h') = find_name-none f.name e es h in
    let other : named e.name f ≡ false = elim (Bool-cases (named e.name f)) [
      | inl t ↦ let q = named-eq e.name f t in let r = same_refl e.name in cc
      | inr u ↦ u
    ] in
    (none-append e.name es f g other, IsDistinct-append es f d h')

none-update :
    (m name : Text) (id : ℕ) (es : List Dentry)
    → find_name m es ≡ none
    → find_name m (update_first name id es) ≡ none
unfolding find_name update_first
none-update m name id [] h = refl
none-update m name id (e ∷ es) h =
    let (f, g) = find_name-none m e es h in
    elim (Bool-cases (named name e)) [
      | inl t ↦ rw (t, f) g
      | inr u ↦ rw (u, f) (none-update m name id es g)
    ]

pub IsDistinct-update :
    (name : Text) (id : ℕ) (es : List Dentry) → IsDistinct es → IsDistinct (update_first name id es)
unfolding IsDistinct update_first
IsDistinct-update name id [] d = tt
IsDistinct-update name id (e ∷ es) (h, d) = elim (Bool-cases (named name e)) [
  | inl t ↦ rw (t) (h, d)
  | inr u ↦ rw (u) (none-update e.name name id es h, IsDistinct-update name id es d)
]

-- Two names that one entry cannot both have.
apart : (m name : Text) (e : Dentry) → named name e ≡ false → same name m ≡ true → named m e ≡ false
apart m name e f h = let q = same-eq name m h in rw (← q) f

-- Whether the name that is asked for is that of the entry.
named-same : (m name : Text) (e : Dentry) → named name e ≡ true → named m e ≡ same name m
named-same m name e h = rw (named-eq name e h) refl

pub find_name-update :
    (m name : Text) (id old : ℕ) (es : List Dentry)
    → find_name name es ≡ some old
    → find_name m (update_first name id es) ≡ (if same name m then some id else find_name m es)
unfolding find_name update_first
find_name-update m name id old [] h = cc
find_name-update m name id old (e ∷ es) h = elim (Bool-cases (named name e)) [
  | inl t ↦
      let q = named-same m name e t in
      elim (Bool-cases (same name m)) [
        | inl u ↦ rw (t, u, q, u) refl
        | inr u ↦ rw (t, u, q, u) refl
      ]
  | inr f ↦
      let ih = find_name-update m name id old es (sym (find_name-skip name e es f) ∙ h) in
      elim (Bool-cases (same name m)) [
        | inl u ↦ rw (f, apart m name e f u, ih, u) refl
        | inr u ↦ rw (f, ih, u) refl
      ]
]

none-remove :
    (m name : Text) (es : List Dentry)
    → find_name m es ≡ none
    → find_name m (remove_first name es) ≡ none
unfolding find_name remove_first
none-remove m name [] h = refl
none-remove m name (e ∷ es) h =
    let (f, g) = find_name-none m e es h in
    elim (Bool-cases (named name e)) [
      | inl t ↦ rw (t) g
      | inr u ↦ rw (u, f) (none-remove m name es g)
    ]

pub IsDistinct-remove :
    (name : Text) (es : List Dentry) → IsDistinct es → IsDistinct (remove_first name es)
unfolding IsDistinct remove_first
IsDistinct-remove name [] d = tt
IsDistinct-remove name (e ∷ es) (h, d) = elim (Bool-cases (named name e)) [
  | inl t ↦ rw (t) d
  | inr u ↦ rw (u) (none-remove e.name name es h, IsDistinct-remove name es d)
]

pub find_name-remove :
    (m name : Text) (es : List Dentry)
    → IsDistinct es
    → find_name m (remove_first name es) ≡ (if same name m then none else find_name m es)
unfolding find_name remove_first IsDistinct
find_name-remove m name [] d = elim (Bool-cases (same name m)) [
  | inl u ↦ rw (u) refl
  | inr u ↦ rw (u) refl
]
find_name-remove m name (e ∷ es) (h, d) = elim (Bool-cases (named name e)) [
  | inl t ↦
      let q = named-same m name e t in
      elim (Bool-cases (same name m)) [
        | inl u ↦ rw (t, u) (rw (← named-eq m e (q ∙ u)) h)
        | inr u ↦ rw (t, u, q, u) refl
      ]
  | inr f ↦
      let ih = find_name-remove m name es d in
      elim (Bool-cases (same name m)) [
        | inl u ↦ rw (f, apart m name e f u, ih, u) refl
        | inr u ↦ rw (f, ih, u) refl
      ]
]

none-rename :
    (m old_name new_name : Text) (es : List Dentry)
    → length new_name < 2 ^ 16
    → same new_name m ≡ false
    → find_name m es ≡ none
    → find_name m (rename_first old_name new_name es) ≡ none
unfolding find_name rename_first
none-rename m old_name new_name [] l n h = refl
none-rename m old_name new_name (e ∷ es) l n h =
    let (f, g) = find_name-none m e es h in
    elim (Bool-cases (named old_name e)) [
      | inl t ↦ rw (t, dentry_create-name e.inode_id new_name l, n) g
      | inr u ↦ rw (u, f) (none-rename m old_name new_name es l n g)
    ]

pub IsDistinct-rename :
    (old_name new_name : Text) (es : List Dentry)
    → length new_name < 2 ^ 16
    → find_name new_name es ≡ none
    → IsDistinct es
    → IsDistinct (rename_first old_name new_name es)
unfolding IsDistinct rename_first
IsDistinct-rename old_name new_name [] l n d = tt
IsDistinct-rename old_name new_name (e ∷ es) l n (h, d) =
    let (f, g) = find_name-none new_name e es n in
    elim (Bool-cases (named old_name e)) [
      | inl t ↦ rw (t, dentry_create-name e.inode_id new_name l) (g, d)
      | inr u ↦ rw (u) (
        none-rename e.name old_name new_name es l (same-false_comm e.name new_name f) h,
        IsDistinct-rename old_name new_name es l g d,
      )
    ]

pub find_name-rename :
    (m old_name new_name : Text) (id : ℕ) (es : List Dentry)
    → length new_name < 2 ^ 16
    → find_name old_name es ≡ some id
    → find_name new_name es ≡ none
    → IsDistinct es
    → find_name m (rename_first old_name new_name es)
      ≡ (if same new_name m then some id else if same old_name m then none else find_name m es)
unfolding IsDistinct find_name rename_first dentry_create
find_name-rename m old_name new_name id [] l h n d = cc
find_name-rename m old_name new_name id (e ∷ es) l h n (g, d) =
    let (nf, n') = find_name-none new_name e es n in
    elim (Bool-cases (named old_name e)) [
      | inl t ↦
          let hit = sym (find_name-hit old_name e es t) ∙ h in
          let q = named-same m old_name e t in
          let w = dentry_create-name e.inode_id new_name l in
          elim (Bool-cases (same new_name m)) [
            | inl u ↦ rw (t, w, u) hit
            | inr u ↦ elim (Bool-cases (same old_name m)) [
              | inl v ↦ rw (t, w, u, v) (ap (λ x. find_name x es) (sym (named-eq m e (q ∙ v))) ∙ g)
              | inr v ↦ rw (t, w, u, v, q, v) refl
            ]
          ]
      | inr f ↦
          let back = sym (find_name-skip old_name e es f) ∙ h in
          let ih = find_name-rename m old_name new_name id es l back n' d in
          elim (Bool-cases (same new_name m)) [
            | inl u ↦ rw (f, apart m new_name e nf u, ih, u) refl
            | inr u ↦ elim (Bool-cases (same old_name m)) [
              | inl v ↦ rw (f, apart m old_name e f v, ih, u, v) refl
              | inr v ↦ rw (f, ih, u, v) refl
            ]
          ]
    ]
