-- ===== src/Base/Fallible.antt =====
-- Go's `(value, error)` results, and operations that change a state and may fail.
use mathlib.Core.Path.{◌≡◌, refl}
use mathlib.Core.Logic.{◌⊎◌, inl, inr}
use mathlib.Core.Bool.{Bool, true, false}
use mathlib.Core.List.{List}
use vmdockerv.Base.Tests.{Text}
use vmdockerv.Base.Messages.{Message}

-- `errorf m` is `fmt.Errorf` with the format `m`, whose arguments are left out; `listf m ts` keeps
-- them; `wrapf m e` puts `m` round the cause `e`; `external t` comes from code outside the
-- repository, with its text.
pub data Error : Type 0 where
  errorf : Message → Error
  listf : Message → List Text → Error
  wrapf : Message → Error → Error
  external : Text → Error

pub data Result {ℓ} (A : Type ℓ) : Type ℓ where
  ok : A → Result A
  err : Error → Result A

-- The value of a call that returns only an error.
abbrev pub Done : Type 0
Done = Unit {0}

-- An error leaves the state as the failing operation left it.
abbrev pub Op : Type 0 → Type 0 → Type 0
Op S A = S → Result A × S

abbrev pub pure : {S A : Type 0} → A → Op S A
pure a s = (ok a, s)

abbrev pub throw : {S A : Type 0} → Error → Op S A
throw e s = (err e, s)

infixl 5 ◌>>=◌ ◌>>◌
abbrev pub ◌>>=◌ : {S A B : Type 0} → Op S A → (A → Op S B) → Op S B
◌>>=◌ m f s = elim (m s).0 [ ok a ↦ f a (m s).1 | err e ↦ (err e, (m s).1) ]

abbrev pub ◌>>◌ : {S A B : Type 0} → Op S A → Op S B → Op S B
m >> k = m >>= λ _. k

-- `if err := m; err != nil { return fmt.Errorf("...: %w", err) }`
abbrev pub wrapping : {S A : Type 0} → Message → Op S A → Op S A
wrapping t m s = elim (m s).0 [ ok a ↦ (ok a, (m s).1) | err e ↦ (err (wrapf t e), (m s).1) ]

-- `cleanup(); return err` on the error path of `m`.
abbrev pub on_error : {S A : Type 0} → (S → S) → Op S A → Op S A
on_error undo m s = elim (m s).0 [ ok a ↦ (ok a, (m s).1) | err e ↦ (err e, undo (m s).1) ]

-- `defer cleanup()` before `m`.
abbrev pub deferring : {S A : Type 0} → (S → S) → Op S A → Op S A
deferring cleanup m s = ((m s).0, cleanup (m s).1)

abbrev pub require : {S : Type 0} → Bool → Message → Op S Done
require true m s = (ok tt, s)
require false m s = (err (errorf m), s)

abbrev pub is_ok {ℓ} : {A : Type ℓ} → Result A → Bool
is_ok (ok a) = true
is_ok (err e) = false

pub Result-cases {ℓ} :
    {A : Type ℓ} (r : Result A) → ((a : A) × (r ≡ ok a)) ⊎ ((e : Error) × (r ≡ err e))
Result-cases (ok a) = inl (a, refl)
Result-cases (err e) = inr (e, refl)

-- A chain that succeeds, taken apart at its first step's outcome.
pub bind_inv :
    {S A B : Type 0} (r : Result A × S) (f : A → Op S B) (b : B)
    → (elim r.0 as (λ x. Result B × S) [ ok a ↦ f a r.1 | err e ↦ (err e, r.1) ]).0 ≡ ok b
    → (a : A) × (r.0 ≡ ok a) × ((f a r.1).0 ≡ ok b)
bind_inv (ok a, s) f b h = (a, refl, h)
bind_inv (err e, s) f b h = cc
