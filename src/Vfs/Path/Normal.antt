-- ===== src/Vfs/Path/Normal.antt =====
-- src/vfs/path.c: the paths that vfs_normalize_path_component makes.
use simple_file_system.Base.{
  ℕ, ◌≡◌, ◌⊎◌, refl, sym, ap, ◌∙◌, inl, inr, Bool, true, false, ◌&&◌, ◌||◌, List, [], ◌∷◌, ◌==◌,
  if◌then◌else◌, Bool-cases, ==→eq,
}
use simple_file_system.Base.Text.{Text}
use simple_file_system.Vfs.Path.{slash, collapse, without_slash, trim, normalize_path}

-- Whether a slash stands behind a slash, in front of which stands `previous`.
unfoldable pub has_double : (previous : Bool) → Text → Bool
has_double previous [] = false
has_double previous (c ∷ s) = (c == slash && previous) || has_double (c == slash) s

-- Whether the last character is a slash; of no characters, `previous`.
unfoldable pub ends_with_slash : (previous : Bool) → Text → Bool
ends_with_slash previous [] = previous
ends_with_slash previous (c ∷ s) = ends_with_slash (c == slash) s

collapse-single : (p : Bool) (s : Text) → has_double p (collapse p s) ≡ false
unfolding has_double collapse
collapse-single p [] = refl
collapse-single true (c ∷ s) = elim (Bool-cases (c == slash)) [
  | inl t ↦ rw (t) (collapse-single true s)
  | inr f ↦ rw (f, f) (collapse-single false s)
]
collapse-single false (c ∷ s) = elim (Bool-cases (c == slash)) [
  | inl t ↦ rw (t) (collapse-single true s)
  | inr f ↦ rw (f, f) (collapse-single false s)
]

or-false : (a b : Bool) → (a || b) ≡ false → (a ≡ false) × (b ≡ false)
or-false true b h = cc
or-false false b h = (refl, h)

-- Behind the first character.
single-tail :
    (p b : Bool) (c : ℕ) (s : Text)
    → (c == slash) ≡ b
    → has_double p (c ∷ s) ≡ false
    → ((b && p) ≡ false) × (has_double b s ≡ false)
unfolding has_double
single-tail p b c s q h = rw (← q) (or-false ((c == slash) && p) (has_double (c == slash) s) h)

collapse-same : (p : Bool) (s : Text) → has_double p s ≡ false → collapse p s ≡ s
unfolding collapse
collapse-same p [] h = refl
collapse-same true (c ∷ s) h = elim (Bool-cases (c == slash)) [
  | inl t ↦ let (x, y) = single-tail true true c s t h in cc
  | inr f ↦
      let (x, y) = single-tail true false c s f h in
      rw (f) (ap (λ r. c ∷ r) (collapse-same false s y))
]
collapse-same false (c ∷ s) h = elim (Bool-cases (c == slash)) [
  | inl t ↦
      let (x, y) = single-tail false true c s t h in
      let e : slash ≡ c = sym (==→eq c slash t) in rw (t) (rw (e, collapse-same true s y) refl)
  | inr f ↦
      let (x, y) = single-tail false false c s f h in
      rw (f) (ap (λ r. c ∷ r) (collapse-same false s y))
]

single-cons :
    (p b : Bool) (c : ℕ) (s : Text)
    → (c == slash) ≡ b
    → (b && p) ≡ false
    → has_double b s ≡ false
    → has_double p (c ∷ s) ≡ false
unfolding has_double
single-cons p b c s q x y = rw (q, x) y

without_slash-single :
    (p : Bool) (s : Text) → has_double p s ≡ false → has_double p (without_slash s) ≡ false
unfolding without_slash has_double
without_slash-single p [] h = h
without_slash-single p (c ∷ []) h = elim (Bool-cases (c == slash)) [
  | inl t ↦ rw (t) refl
  | inr f ↦ rw (f) h
]
without_slash-single p (c ∷ d ∷ s) h =
    let (x, y) = single-tail p (c == slash) c (d ∷ s) refl h in
    single-cons p (c == slash) c (without_slash (d ∷ s)) refl x
      (without_slash-single (c == slash) (d ∷ s) y)

without_slash-ends :
    (p : Bool) (c : ℕ) (s : Text)
    → has_double p (c ∷ s) ≡ false
    → ends_with_slash p (without_slash (c ∷ s)) ≡ false
unfolding without_slash ends_with_slash
without_slash-ends p c [] h = elim (Bool-cases (c == slash)) [
  | inl t ↦ let (x, y) = single-tail p true c [] t h in rw (t) x
  | inr f ↦ rw (f, f) refl
]
without_slash-ends p c (d ∷ s) h =
    let (x, y) = single-tail p (c == slash) c (d ∷ s) refl h in
    without_slash-ends (c == slash) d s y

without_slash-same : (p : Bool) (s : Text) → ends_with_slash p s ≡ false → without_slash s ≡ s
unfolding without_slash ends_with_slash
without_slash-same p [] h = refl
without_slash-same p (c ∷ []) h = rw (h) refl
without_slash-same p (c ∷ d ∷ s) h = ap (λ r. c ∷ r) (without_slash-same (c == slash) (d ∷ s) h)

-- No slash stands behind a slash, and none at the end of a path that is more than a slash.
abbrev pub IsNormal : Text → Type 0
IsNormal path =
    (has_double false path ≡ false) × (ends_with_slash false path ≡ false) ⊎ (path ≡ slash ∷ [])

trim-IsNormal : (s : Text) → has_double false s ≡ false → IsNormal (trim s)
unfolding trim ends_with_slash
trim-IsNormal [] h = inl (h, refl)
trim-IsNormal (c ∷ []) h = elim (Bool-cases (c == slash)) [
  | inl t ↦ inr (ap (λ x. x ∷ []) (==→eq c slash t))
  | inr f ↦ inl (h, f)
]
trim-IsNormal (c ∷ d ∷ s) h =
    inl (without_slash-single false (c ∷ d ∷ s) h, without_slash-ends false c (d ∷ s) h)

trim-same : (s : Text) → ends_with_slash false s ≡ false → trim s ≡ s
unfolding trim
trim-same [] h = refl
trim-same (c ∷ []) h = refl
trim-same (c ∷ d ∷ s) h = without_slash-same false (c ∷ d ∷ s) h

-- A normal path is left as it is.
normal-same : (path : Text) → IsNormal path → normalize_path path ≡ path
unfolding normalize_path collapse trim
normal-same path (inl (h, e)) = rw (collapse-same false path h) (trim-same path e)
normal-same path (inr q) = rw (q) refl

-- The characters before the first slash, and the parts that stand between the slashes behind it.
unfoldable pub first_part : Text → Text
first_part [] = []
first_part (c ∷ s) = if c == slash then [] else c ∷ first_part s

unfoldable pub other_parts : Text → List Text
unfolding first_part
other_parts [] = []
other_parts (c ∷ s) = if c == slash then first_part s ∷ other_parts s else other_parts s

-- The parts that are not empty.
unfoldable pub nonempty : List Text → List Text
nonempty [] = []
nonempty ([] ∷ ws) = nonempty ws
nonempty ((c ∷ w) ∷ ws) = (c ∷ w) ∷ nonempty ws

-- The names that a path is made of.
unfoldable pub components : Text → List Text
unfolding first_part other_parts nonempty
components path = nonempty (first_part path ∷ other_parts path)

nonempty-cons :
    (w : Text) (us vs : List Text)
    → nonempty us ≡ nonempty vs
    → nonempty (w ∷ us) ≡ nonempty (w ∷ vs)
unfolding nonempty
nonempty-cons [] us vs h = h
nonempty-cons (c ∷ w) us vs h = ap (λ ws. (c ∷ w) ∷ ws) h

-- Two texts of the same names, of which the first is the same.
abbrev AlikeParts : Text → Text → Type 0
AlikeParts s t =
    (first_part s ≡ first_part t) × (nonempty (other_parts s) ≡ nonempty (other_parts t))

components-alike : (s t : Text) → AlikeParts s t → components s ≡ components t
unfolding components
components-alike s t (h, g) =
    rw (h) (nonempty-cons (first_part t) (other_parts s) (other_parts t) g)

collapse-parts :
    (s : Text) → AlikeParts (collapse false s) s × (components (collapse true s) ≡ components s)
unfolding collapse first_part other_parts components nonempty
collapse-parts [] = ((refl, refl), refl)
collapse-parts (c ∷ s) =
    let ((a, b), d) = collapse-parts s in
    elim (Bool-cases (c == slash)) [
      | inl t ↦ rw (t) ((refl, d), d)
      | inr f ↦ rw (f, f) ((ap (λ w. c ∷ w) a, b), rw (a, b) refl)
    ]

without_slash-parts : (s : Text) → AlikeParts (without_slash s) s
unfolding without_slash first_part other_parts nonempty components
without_slash-parts [] = (refl, refl)
without_slash-parts (c ∷ []) = elim (Bool-cases (c == slash)) [
  | inl t ↦ rw (t) (refl, refl)
  | inr f ↦ rw (f, f) (refl, refl)
]
without_slash-parts (c ∷ d ∷ s) =
    let (a, b) = without_slash-parts (d ∷ s) in
    elim (Bool-cases (c == slash)) [
      | inl t ↦ rw (t) (refl, components-alike (without_slash (d ∷ s)) (d ∷ s) (a, b))
      | inr f ↦ rw (f) (ap (λ w. c ∷ w) a, b)
    ]

trim-parts : (s : Text) → AlikeParts (trim s) s
unfolding trim
trim-parts [] = (refl, refl)
trim-parts (c ∷ []) = (refl, refl)
trim-parts (c ∷ d ∷ s) = without_slash-parts (c ∷ d ∷ s)

-- What vfs_normalize_path_component makes of a path is normal, is left as it is when it is made normal
-- again, and consists of the same names.
pub normalize_path-normalizes :
    (path : Text)
    → IsNormal (normalize_path path)
      × (normalize_path (normalize_path path) ≡ normalize_path path)
      × (components (normalize_path path) ≡ components path)
unfolding normalize_path
normalize_path-normalizes path =
    let s = collapse false path in
    let normal = trim-IsNormal s (collapse-single false path) in
    (
      normal,
      normal-same (normalize_path path) normal,
      components-alike (trim s) s (trim-parts s) ∙ components-alike s path (collapse-parts path).0,
    )
