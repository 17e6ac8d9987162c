-- ===== src/Base/Sum.antt =====
-- Sums of a function below a bound.
use Prim.Native.Nat.{ℕ, zero, suc, ◌+◌, ◌<◌, ◌≤◌}
use mathlib.Core.Path.{◌≡◌, refl, ap}
use mathlib.Core.Logic.{inl, inr, ◌≢◌}
use native.Mathlib.Omega.{arith}
use simple_file_system.Base.Logic.{ltb, ◌==◌, if◌then◌else◌, Bool-cases, ==→eq, ==-ne}
use simple_file_system.Base.Buffer.{Bytes, store}

unfoldable pub sum_below : (ℕ → ℕ) → ℕ → ℕ
sum_below f zero = 0
sum_below f (suc n) = sum_below f n + f n

pub sum_below-le : (f g : ℕ → ℕ) (n : ℕ) → ((j : ℕ) → f j ≤ g j) → sum_below f n ≤ sum_below g n
unfolding sum_below
sum_below-le f g zero below = omega arith
sum_below-le f g (suc n) below = omega (arith, below n, sum_below-le f g n below)

pub sum_below-zero : (f : ℕ → ℕ) (n : ℕ) → ((j : ℕ) → f j ≡ 0) → sum_below f n ≡ 0
unfolding sum_below
sum_below-zero f zero none = refl
sum_below-zero f (suc n) none = omega (arith, none n, sum_below-zero f n none)

pub sum_below-same :
    (f g : ℕ → ℕ) (n : ℕ) → ((j : ℕ) → j < n → g j ≡ f j) → sum_below g n ≡ sum_below f n
unfolding sum_below
sum_below-same f g zero same = refl
sum_below-same f g (suc n) same =
    omega (arith, same n (omega arith), sum_below-same f g n (λ j h. same j (omega arith)))

-- Functions that differ at `c` alone have sums that differ by what they give there.
pub sum_below-change :
    (f g : ℕ → ℕ) (c n : ℕ)
    → ((j : ℕ) → j ≢ c → g j ≡ f j)
    → sum_below g n + (if ltb c n then f c else 0) ≡ sum_below f n + (if ltb c n then g c else 0)
unfolding sum_below
sum_below-change f g c zero same = ground arith
sum_below-change f g c (suc n) same = elim (Bool-cases (n == c)) [
  | inl hit ↦
      let e : n ≡ c = ==→eq _ _ hit in ground (arith, ap f e, ap g e, sum_below-change f g c n same)
  | inr miss ↦ ground (arith, same n (==-ne _ _ miss), sum_below-change f g c n same)
]

-- A store adds at most the value of what it writes.
pub sum_below-store :
    (w : ℕ → ℕ) (table : Bytes) (at v n : ℕ)
    → sum_below (λ i. w (store table at v i)) n ≤ sum_below (λ i. w (table i)) n + w v
unfolding store
sum_below-store w table at v n = ground (
  arith,
  sum_below-change (λ i. w (table i)) (λ i. w (store table at v i)) at n (λ j ne. ground arith),
)
