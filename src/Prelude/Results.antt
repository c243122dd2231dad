-- ===== src/Prelude/Results.antt =====
-- Exceptions as values, and methods that change a state and may throw.
use Prim.Native.String.{String}
use mathlib.Core.Path.{◌≡◌, refl}
use mathlib.Core.Logic.{◌⊎◌, inl, inr}
use mathlib.Core.Bool.{Bool}
use mathlib.Core.Option.{Option, none, some}
use oragami.Prelude.Tests.{if◌then◌else◌}

-- The exceptions of `@nestjs/common` by their classes; `thrown` is any other error.
pub data Error : Type 0 where
  bad_request not_found conflict unauthorized thrown : String → Error

pub data Result {ℓ} (A : Type ℓ) : Type ℓ where
  ok : A → Result A
  err : Error → Result A

-- A method: what was written before a throw stays written.
abbrev pub Action : Type 0 → Type 0 → Type 0
Action S A = S → Result A × S

infixl 5 ◌>>=◌ ◌>>◌
abbrev pub ◌>>=◌ : {S A B : Type 0} → Action S A → (A → Action S B) → Action S B
◌>>=◌ m f s = let (r, s') = m s in elim r [ ok a ↦ f a s' | err e ↦ (err e, s') ]

abbrev pub ◌>>◌ : {S A B : Type 0} → Action S A → Action S B → Action S B
m >> k = m >>= λ _. k

module _ {S A : Type 0} where
  abbrev pub pure : A → Action S A
  pure a s = (ok a, s)

  abbrev pub throw : Error → Action S A
  throw e s = (err e, s)

  abbrev pub gets : (S → A) → Action S A
  gets f s = (ok (f s), s)

  -- A call that answers with a value or throws, `none` standing for the throw.
  abbrev pub or_throw : Error → Option A → Action S A
  or_throw e none = throw e
  or_throw e (some a) = pure a

  -- `try { m } catch { k }`: the handler sees what `m` has written.
  abbrev pub catching : Action S A → Action S A → Action S A
  catching m k s = let (r, s') = m s in elim r [ ok a ↦ (ok a, s') | err e ↦ k s' ]

module _ {S : Type 0} where
  abbrev pub throw_if : Bool → Error → Action S (Unit {0})
  throw_if c e s = (if c then err e else ok tt, s)

  abbrev pub modify : (S → S) → Action S (Unit {0})
  modify f s = (ok tt, f s)

pub Result-cases {ℓ} :
    {A : Type ℓ} (r : Result A) → ((a : A) × (r ≡ ok a)) ⊎ ((e : Error) × (r ≡ err e))
Result-cases (ok a) = inl (a, refl)
Result-cases (err e) = inr (e, refl)
