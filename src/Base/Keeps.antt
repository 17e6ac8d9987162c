-- ===== src/Base/Keeps.antt =====
-- Properties of the state that an operation keeps, whatever status it returns.
use mathlib.Core.Bool.{Bool, true, false}
use simple_file_system.Base.Logic.{if◌then◌else◌}
use simple_file_system.Base.Effect.{
  Status, Result, ok, err, Exec, pure, reject_if, lift_result, continue, ◌>>=◌,
}

pub record Keeps {S A : Type 0} (P : S → Type 0) (m : Exec S A) : Type 0 where
  pub at : (s : S) → P s → P (m s).1

module _ {S : Type 0} {P : S → Type 0} where
  pub Keeps-pure : {A : Type 0} (a : A) → Keeps P (pure a)
  Keeps-pure a = record { at = λ s h. h }

  pub Keeps-lift_result : {A : Type 0} (r : Result A) → Keeps P (lift_result r)
  Keeps-lift_result r = record { at = λ s h. h }

  pub Keeps-reject_if : (b : Bool) (e : Status) → Keeps P (reject_if b e)
  Keeps-reject_if true e = record { at = λ s h. h }
  Keeps-reject_if false e = record { at = λ s h. h }

  pub Keeps-if :
      {A : Type 0} (b : Bool) (m n : Exec S A)
      → Keeps P m
      → Keeps P n
      → Keeps P (if b then m else n)
  Keeps-if true m n km kn = km
  Keeps-if false m n km kn = kn

  pub Keeps-bind :
      {A B : Type 0} (m : Exec S A) (k : A → Exec S B)
      → Keeps P m
      → ((a : A) → Keeps P (k a))
      → Keeps P (m >>= k)
  Keeps-bind {A} m k km kk = record { at = λ s h. let (r, s') = m s in go r s' (km.at s h) }
    where
      go : (r : Result A) (s' : S) → P s' → P (continue r k s').1
      go (ok a) s' h = (kk a).at s' h
      go (err e) s' h = h

pub ruleset keeps_rules = (Keeps-pure, Keeps-lift_result, Keeps-reject_if, Keeps-if, Keeps-bind)
