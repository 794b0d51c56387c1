-- ===== src/Base/Keeps.antt =====
-- A predicate of the state that a method leaves true, whether it returns or throws.
use mathlib.Core.Bool.{Bool, true, false}
use mathlib.Core.Option.{Option, none, some}
use yeti_vm.Base.Tests.{if◌then◌else◌}
use yeti_vm.Base.Exec.{
  Exec, Result, ok, err, Error, continue, pure, gets, throw, lift_option, ◌>>=◌,
}

module _ {S : Type 0} (P : S → Type 0) where
  pub record Keeps {A : Type 0} (m : Exec S A) : Type 0 where
    pub at : (s : S) → P s → P (m s).1

  module _ {A B : Type 0} where
    continue-Keeps :
        (r : Result A × S) (f : A → Exec S B) → P r.1 → ((a : A) → Keeps (f a)) → P (continue r f).1
    continue-Keeps (ok a, s) f p k = (k a).at s p
    continue-Keeps (err e, s) f p k = p

    pub bind-Keeps :
        (m : Exec S A) (f : A → Exec S B) → Keeps m → ((a : A) → Keeps (f a)) → Keeps (m >>= f)
    bind-Keeps m f k l = record { at = λ s p. continue-Keeps (m s) f (k.at s p) l }

  pub if-Keeps :
      {A : Type 0} (c : Bool) (m n : Exec S A) → Keeps m → Keeps n → Keeps (if c then m else n)
  if-Keeps true m n k l = k
  if-Keeps false m n k l = l

  pub lift_option-Keeps : {A : Type 0} (e : Error) (o : Option A) → Keeps (lift_option e o)
  lift_option-Keeps e none = record { at = λ s p. p }
  lift_option-Keeps e (some a) = record { at = λ s p. p }

  pub pure-Keeps : {A : Type 0} (a : A) → Keeps (pure a)
  pure-Keeps a = record { at = λ s p. p }

  pub gets-Keeps : {A : Type 0} (f : S → A) → Keeps (gets f)
  gets-Keeps f = record { at = λ s p. p }

  pub throw-Keeps : {A : Type 0} (e : Error) → Keeps (throw {A = A} e)
  throw-Keeps e = record { at = λ s p. p }
