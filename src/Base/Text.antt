-- ===== src/Base/Text.antt =====
-- Strings of C, as the list of their characters without the end mark, and the calls of <string.h>.
use Prim.Native.Nat.{ℕ, zero, suc}
use mathlib.Core.Path.{◌≡◌, refl}
use mathlib.Core.Bool.{Bool, true, false, ◌&&◌, ◌||◌}
use mathlib.Core.List.{List, [], ◌∷◌}
use native.Mathlib.Omega.{arith}
use mathlib.Core.Logic.{inl, inr}
use simple_file_system.Base.Logic.{◌==◌, ltb, Bool-cases}

abbrev pub Text : Type 0
Text = List ℕ

-- `strlen`
unfoldable pub length : {A : Type 0} → List A → ℕ
length [] = 0
length (x ∷ s) = suc (length s)

-- `strcmp(s, t) == 0`
unfoldable pub same : Text → Text → Bool
same [] [] = true
same [] (b ∷ t) = false
same (a ∷ s) [] = false
same (a ∷ s) (b ∷ t) = a == b && same s t

-- `strcmp(s, t) <= 0`
unfoldable pub before : Text → Text → Bool
before [] t = true
before (a ∷ s) [] = false
before (a ∷ s) (b ∷ t) = ltb a b || (a == b && before s t)

-- The characters before a place, and from there on.
unfoldable pub take : {A : Type 0} → ℕ → List A → List A
take zero s = []
take (suc n) [] = []
take (suc n) (a ∷ s) = a ∷ take n s

unfoldable pub drop : {A : Type 0} → ℕ → List A → List A
drop zero s = s
drop (suc n) [] = []
drop (suc n) (a ∷ s) = drop n s

-- The character at a place, which is the end mark from the end on.
unfoldable pub char_at : Text → ℕ → ℕ
char_at [] i = 0
char_at (a ∷ s) zero = a
char_at (a ∷ s) (suc i) = char_at s i

unfoldable pub contains : ℕ → Text → Bool
contains c [] = false
contains c (a ∷ s) = a == c || contains c s

pub same-eq : (s t : Text) → same s t ≡ true → s ≡ t
unfolding same
same-eq [] [] h = refl
same-eq [] (b ∷ t) h = cc
same-eq (a ∷ s) [] h = cc
same-eq (a ∷ s) (b ∷ t) h = ground (arith, same-eq s t)

pub same_refl : (s : Text) → same s s ≡ true
unfolding same
same_refl [] = refl
same_refl (a ∷ s) = ground (arith, same_refl s)

pub same-false_comm : (s t : Text) → same s t ≡ false → same t s ≡ false
same-false_comm s t h = elim (Bool-cases (same t s)) [
  | inl u ↦ let q = same-eq t s u in let r = same_refl s in cc
  | inr f ↦ f
]
