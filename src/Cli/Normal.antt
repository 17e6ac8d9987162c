-- ===== src/Cli/Normal.antt =====
-- Normal paths of cli/src/utils.c: what cli_utils_normalize_fs_path makes of its own results.
use simple_file_system.Base.{
  ℕ, zero, suc, ◌+◌, ◌<◌, ◌≤◌, ◌≡◌, ◌⊎◌, refl, inl, inr, false, List, [], ◌∷◌, ◌++◌, arith, ltb,
  leb, ◌==◌, if◌then◌else◌, Bool-cases,
}
use simple_file_system.Base.Text.{Text, length, same, take, contains}
use simple_file_system.Config.{max_filename_length}
use simple_file_system.Dir.{dot, dot_dot}
use simple_file_system.Vfs.Path.{slash}
use simple_file_system.Cli.Paths.{
  max_depth, skip_slashes, split_component, drop_last, add_name, component_at, collect,
}

-- A component of a normal path.
pub record IsName (name : Text) : Type 0 where
  pub some_characters : 0 < length name
  pub is_short : length name ≤ max_filename_length
  pub no_slash : contains slash name ≡ false
  pub not_dot : same name dot ≡ false
  pub not_dot_dot : same name dot_dot ≡ false

unfoldable pub AreNames : List Text → Type 0
AreNames [] = Unit {0}
AreNames (name ∷ names) = IsName name × AreNames names

pub length-append : {A : Type 0} (s t : List A) → length (s ++ t) ≡ length s + length t
unfolding length
length-append [] t = omega arith
length-append (a ∷ s) t = omega (arith, length-append s t)

pub take_whole : (n : ℕ) (s : Text) → length s ≤ n → take n s ≡ s
unfolding take length
take_whole zero [] h = refl
take_whole (suc n) [] h = refl
take_whole zero (c ∷ s) h = absurd (omega arith)
take_whole (suc n) (c ∷ s) h = rw (take_whole n s (omega arith))

pub length-take :
    (n : ℕ) (s : Text) → length (take n s) ≡ (if leb (length s) n then length s else n)
unfolding take length
length-take zero [] = refl
length-take (suc n) [] = ground arith
length-take zero (c ∷ s) = ground arith
length-take (suc n) (c ∷ s) = ground (arith, length-take n s)

length-take-le : (n : ℕ) (s : Text) → length (take n s) ≤ n
length-take-le n s = ground (arith, length-take n s)

contains-take : (n : ℕ) (s : Text) → contains slash s ≡ false → contains slash (take n s) ≡ false
unfolding take contains
contains-take zero s h = refl
contains-take (suc n) [] h = refl
contains-take (suc n) (c ∷ s) h = ground (arith, contains-take n s)

-- The component at the front of a path that does not begin with a slash.
split_component-free : (s : Text) → contains slash (split_component s).0 ≡ false
unfolding split_component contains
split_component-free [] = refl
split_component-free (c ∷ s) = elim (Bool-cases (c == slash)) [
  | inl here ↦ rw here
  | inr other ↦ rw (other, other) (split_component-free s)
]

skip_slashes-head :
    (s : Text)
    → (skip_slashes s ≡ [])
      ⊎ ((c : ℕ) × (t : Text) × (skip_slashes s ≡ c ∷ t) × ((c == slash) ≡ false))
unfolding skip_slashes
skip_slashes-head [] = inl refl
skip_slashes-head (c ∷ s) = elim (Bool-cases (c == slash)) [
  | inl here ↦ rw here (skip_slashes-head s)
  | inr other ↦ rw other (inr (c, s, refl, other))
]

add_name-AreNames :
    (name : Text) (names : List Text)
    → 0 < length name
    → length name ≤ max_filename_length
    → contains slash name ≡ false
    → AreNames names
    → AreNames (add_name name names)
unfolding add_name AreNames
add_name-AreNames name names a b c h = elim (Bool-cases (same name dot)) [
  | inl one ↦ rw one h
  | inr not_one ↦ elim (Bool-cases (same name dot_dot)) [
    | inl two ↦ rw (not_one, two) (shorter names h)
    | inr not_two ↦ elim (Bool-cases (ltb (length names) max_depth)) [
      | inl room ↦
          rw (not_one, not_two, room)
            (
              record {
                some_characters = a;
                is_short = b;
                no_slash = c;
                not_dot = not_one;
                not_dot_dot = not_two;
              },
              h,
            )
      | inr full ↦ rw (not_one, not_two, full) h
    ]
  ]
]
  where
    shorter : (l : List Text) → AreNames l → AreNames (drop_last l)
    shorter [] k = tt
    shorter (n ∷ l) (k, ks) = ks

split_some :
    (c : ℕ) (s : Text)
    → (c == slash) ≡ false
    → 0 < length (take max_filename_length (split_component (c ∷ s)).0)
unfolding split_component take length
split_some c s h = rw h (omega arith)

component-AreNames :
    (c : ℕ) (s : Text) (names : List Text)
    → (c == slash) ≡ false
    → AreNames names
    → AreNames (add_name (take max_filename_length (split_component (c ∷ s)).0) names)
component-AreNames c s names h are =
    let t : Text = (split_component (c ∷ s)).0 in
    let some_length : 0 < length (take max_filename_length t) = split_some c s h in
    add_name-AreNames (take max_filename_length t) names some_length
      (length-take-le max_filename_length t)
      (contains-take max_filename_length t (split_component-free (c ∷ s))) are

pub collect-AreNames :
    (rounds : ℕ) (path : Text) (names : List Text)
    → AreNames names
    → AreNames (collect rounds path names)
unfolding collect component_at
collect-AreNames zero path names h = h
collect-AreNames (suc rounds) path names h = elim (skip_slashes-head path) [
  | inl none_left ↦ rw none_left h
  | inr (c, s, e, head) ↦
      rw e (
        collect-AreNames rounds (split_component (c ∷ s)).1 _ (component-AreNames c s names head h))
]

add_name-le :
    (name : Text) (names : List Text) → length names ≤ 64 → length (add_name name names) ≤ 64
unfolding add_name length
add_name-le name [] h = ground arith
add_name-le name (n ∷ names) h = ground arith

pub collect-le :
    (rounds : ℕ) (path : Text) (names : List Text)
    → length names ≤ 64
    → length (collect rounds path names) ≤ 64
unfolding collect component_at
collect-le zero path names h = h
collect-le (suc rounds) path names h = elim (skip_slashes-head path) [
  | inl none_left ↦ rw none_left h
  | inr (c, s, e, head) ↦ rw e (
      collect-le rounds (split_component (c ∷ s)).1 _
        (add_name-le (take max_filename_length (split_component (c ∷ s)).0) names h))
]
