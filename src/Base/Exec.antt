-- ===== src/Base/Exec.antt =====
-- Methods that change a state and may throw. What was written before the throw stays written, so
-- the state comes back beside the exception too.
use mathlib.Core.Option.{Option, none, some}

-- The exceptions of `basic_vm`, the `domain_error` of `ensure`, and what C++ leaves undefined.
pub data Error : Type 0 where
  unknown_instruction unknown_syscall code_access_error data_access_error : Error
  control_access_error domain_error undefined_behaviour : Error

pub data Result {ℓ} (A : Type ℓ) : Type ℓ where
  ok : A → Result A
  err : Error → Result A

abbrev pub Exec : Type 0 → Type 0 → Type 0
Exec S A = S → Result A × S

module _ {S A : Type 0} where
  abbrev pub pure : A → Exec S A
  pure a s = (ok a, s)

  abbrev pub throw : Error → Exec S A
  throw e s = (err e, s)

  abbrev pub gets : (S → A) → Exec S A
  gets f s = (ok (f s), s)

  abbrev pub lift_option : Error → Option A → Exec S A
  lift_option e none s = (err e, s)
  lift_option e (some a) s = (ok a, s)

module _ {S A B : Type 0} where
  abbrev pub continue : Result A × S → (A → Exec S B) → Result B × S
  continue (ok a, s) f = f a s
  continue (err e, s) f = (err e, s)

  infixl 5 ◌>>=◌ ◌>>◌
  abbrev pub ◌>>=◌ : Exec S A → (A → Exec S B) → Exec S B
  ◌>>=◌ m f s = continue (m s) f

  abbrev pub ◌>>◌ : Exec S A → Exec S B → Exec S B
  m >> n = m >>= λ _. n

abbrev pub modify : {S : Type 0} → (S → S) → Exec S (Unit {0})
modify f s = (ok tt, f s)
