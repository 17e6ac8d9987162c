-- ===== src/Base/Counting.antt =====
-- How many of the numbers below a bound pass a test, and what one change does to it.
use Prim.Native.Nat.{ℕ, zero, suc, ◌+◌, ◌≤◌, ◌<◌}
use Prim.Native.Nat.add
use native.Mathlib.Nat.{add-zero}
use mathlib.Core.Path.{◌≡◌, refl, ap}
use mathlib.Core.Logic.{◌≢◌, inl, inr}
use mathlib.Core.Bool.{Bool}
use native.Mathlib.Omega.{arith}
use simple_file_system.Base.Logic.{ltb, ◌==◌, if◌then◌else◌, Bool-cases, ==→eq, ==-ne}

abbrev pub one_if : Bool → ℕ
one_if b = if b then 1 else 0

unfoldable pub count_below : (ℕ → Bool) → ℕ → ℕ
count_below p zero = 0
count_below p (suc n) = count_below p n + one_if (p n)

-- The loop of a program that counts, from `i` on, `rounds` numbers.
unfoldable pub count_loop : (ℕ → Bool) → (rounds i acc : ℕ) → ℕ
count_loop p zero i acc = acc
count_loop p (suc rounds) i acc = count_loop p rounds (i + 1) (if p i then acc + 1 else acc)

count_below-suc : (p : ℕ → Bool) (n : ℕ) → count_below p (n + 1) ≡ count_below p n + one_if (p n)
unfolding count_below
count_below-suc p n = let e : n + 1 ≡ suc n = omega arith in rw e

count_loop-count_below :
    (p : ℕ → Bool) (rounds i acc : ℕ)
    → count_loop p rounds i acc + count_below p i ≡ acc + count_below p (rounds + i)
unfolding count_loop
count_loop-count_below p zero i acc = omega (arith, ap (count_below p) (add.zero i))
count_loop-count_below p (suc rounds) i acc =
    let e : suc rounds + i ≡ rounds + (i + 1) = omega arith in
    rw e (
      ground (
        arith,
        count_below-suc p i,
        count_loop-count_below p rounds (i + 1) acc,
        count_loop-count_below p rounds (i + 1) (acc + 1),
      ))

pub count_loop-eq-count_below : (p : ℕ → Bool) (n : ℕ) → count_loop p n 0 0 ≡ count_below p n
count_loop-eq-count_below p n =
    omega (arith, count_loop-count_below p n 0 0, zero_below, ap (count_below p) (add-zero n))
  where
    zero_below : count_below p 0 ≡ 0
    zero_below = unfold count_below in refl

pub count_below-le : (p : ℕ → Bool) (n : ℕ) → count_below p n ≤ n
unfolding count_below
count_below-le p zero = omega arith
count_below-le p (suc n) = ground (arith, count_below-le p n)

-- Two tests that agree below the bound count alike.
pub count_below-same :
    (p q : ℕ → Bool) (n : ℕ) → ((j : ℕ) → j < n → q j ≡ p j) → count_below q n ≡ count_below p n
unfolding count_below
count_below-same p q zero same = refl
count_below-same p q (suc n) same =
    ground (arith, same n (omega arith), count_below-same p q n (λ j h. same j (omega arith)))

-- Tests that differ at `c` alone have counts that differ by what they say of `c`.
pub count_below-change :
    (p q : ℕ → Bool) (c n : ℕ)
    → ((j : ℕ) → j ≢ c → q j ≡ p j)
    → count_below q n + (if ltb c n then one_if (p c) else 0)
      ≡ count_below p n + (if ltb c n then one_if (q c) else 0)
unfolding count_below
count_below-change p q c zero same = ground arith
count_below-change p q c (suc n) same = elim (Bool-cases (n == c)) [
  | inl hit ↦
      let e : n ≡ c = ==→eq _ _ hit in
      ground (arith, ap p e, ap q e, count_below-change p q c n same)
  | inr miss ↦ ground (arith, same n (==-ne _ _ miss), count_below-change p q c n same)
]
