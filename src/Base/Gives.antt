-- ===== src/Base/Gives.antt =====
-- What holds after an operation that succeeds.
use mathlib.Core.Path.{◌≡◌, refl}
use simple_file_system.Base.Effect.{Result, ok, err, Exec, pure, continue, ◌>>=◌}
use simple_file_system.Base.Keeps.{Keeps}

-- From a state with `P`, if `m` returns `ok a`, the new state has `Q a`.
pub record Gives {S A : Type 0} (P : S → Type 0) (m : Exec S A) (Q : A → S → Type 0) : Type 0 where
  pub at : (s : S) → P s → (a : A) → (m s).0 ≡ ok a → Q a (m s).1

module _ {S A : Type 0} {P : S → Type 0} where
  pub Gives-keeps : {m : Exec S A} → Keeps P m → Gives P m (λ _. P)
  Gives-keeps k = record { at = λ s h a e. k.at s h }

  pub Gives-pure : {Q : A → S → Type 0} (a : A) → ((s : S) → P s → Q a s) → Gives P (pure a) Q
  Gives-pure {Q} a q = record { at = λ s h b e. let same : a ≡ b = cc in rw (← same) (q s h) }

  pub Gives-bind :
      {B : Type 0} {m : Exec S A} {k : A → Exec S B} {Q : A → S → Type 0} {R : B → S → Type 0}
      → Gives P m Q
      → ((a : A) → Gives (Q a) (k a) R)
      → Gives P (m >>= k) R
  Gives-bind {B} {m} {k} {Q} {R} gm gk = record {
    at = λ s h b e. let (r, s') = m s in go r s' (gm.at s h) b e;
  }
    where
      go :
          (r : Result A) (s' : S)
          → ((a : A) → r ≡ ok a → Q a s')
          → (b : B) → (continue r k s').0 ≡ ok b
          → R b (continue r k s').1
      go (ok a) s' q b e = (gk a).at s' (q a refl) b e
      go (err x) s' q b e = cc

  -- Whatever the first step does, the rest gives the result.
  pub Gives-rest :
      {B : Type 0} (m : Exec S A) {k : A → Exec S B} {R : B → S → Type 0}
      → ((a : A) → Gives (λ _. Unit {0}) (k a) R)
      → Gives P (m >>= k) R
  Gives-rest m gk = Gives-bind {m = m} (record { at = λ s h a e. tt }) gk
