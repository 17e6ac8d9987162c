-- ===== src/Base/Effect.antt =====
-- include/fs/storage/disk.h, fs_status_t; and functions that return a status while they change what
-- their pointer arguments point at: the changes made before an error stay.
use mathlib.Core.Path.{◌≡◌, refl}
use mathlib.Core.Bool.{Bool, true, false}

-- The values of fs_status_t other than FS_STATUS_OK, which is the constructor `ok` of `Result`.
pub data Status : Type 0 where
  file_access invalid_argument out_of_bounds memory_allocation read_only no_space : Status

pub data Result {ℓ} (A : Type ℓ) : Type ℓ where
  ok : A → Result A
  err : Status → Result A

abbrev pub Exec : Type 0 → Type 0 → Type 0
Exec S A = S → Result A × S

abbrev pub pure : {S A : Type 0} → A → Exec S A
pure a s = (ok a, s)

abbrev pub fail : {S A : Type 0} → Status → Exec S A
fail e s = (err e, s)

-- A call that changes nothing, and the status that it returns.
abbrev pub lift_result : {S A : Type 0} → Result A → Exec S A
lift_result r s = (r, s)

-- `if (b) return e;`
abbrev pub reject_if : {S : Type 0} → Bool → Status → Exec S (Unit {0})
reject_if true e s = (err e, s)
reject_if false e s = (ok tt, s)

module _ {S A B : Type 0} where
  abbrev pub continue : Result A → (A → Exec S B) → Exec S B
  continue (ok a) k s = k a s
  continue (err e) k s = (err e, s)

  infixl 5 ◌>>=◌ ◌>>◌
  abbrev pub ◌>>=◌ : Exec S A → (A → Exec S B) → Exec S B
  ◌>>=◌ m k s = let (r, s') = m s in continue r k s'

  abbrev pub ◌>>◌ : Exec S A → Exec S B → Exec S B
  m >> n = m >>= λ _. n

  -- A block that succeeds has run its first step with success, and then the rest.
  pub bind-ok :
      (m : Exec S A) (k : A → Exec S B) (s : S) {b : B}
      → ((m >>= k) s).0 ≡ ok b
      → (a : A) × ((m s).0 ≡ ok a) × ((m >>= k) s ≡ k a (m s).1)
  bind-ok m k s e = let (r, s') = m s in go r s' e
    where
      go :
          (r : Result A) (s' : S) {b : B}
          → (continue r k s').0 ≡ ok b
          → (a : A) × (r ≡ ok a) × (continue r k s' ≡ k a s')
      go (ok a) s' e = (a, refl, refl)
      go (err x) s' e = cc

-- A guard that has been passed.
pub reject_if-steps :
    {S B : Type 0} (b : Bool) (e : Status) (k : Unit {0} → Exec S B) (s : S) {a : B}
    → ((reject_if b e >>= k) s).0 ≡ ok a
    → (b ≡ false) × ((reject_if b e >>= k) s ≡ k tt s)
reject_if-steps true e k s h = cc
reject_if-steps false e k s h = (refl, refl)

-- What holds in both cases of a result.
pub by_result :
    {A X : Type 0} (P : X → Type 0) (r : Result A) (f : A → X) (g : Status → X)
    → ((a : A) → r ≡ ok a → P (f a))
    → ((e : Status) → r ≡ err e → P (g e))
    → P (elim r [ ok a ↦ f a | err e ↦ g e ])
by_result P (ok a) f g p q = p a refl
by_result P (err e) f g p q = q e refl
