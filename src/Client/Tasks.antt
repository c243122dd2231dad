-- ===== src/Client/Tasks.antt =====
-- Asynchronous functions of the web client: what they answer or throw, and what they have handed to
-- the wallet and to the backend on the way, in order.
use oragami.Prelude.{◌≡◌, refl, ◌⊎◌, inl, inr, String, Option, List, [], ◌∷◌, ◌++◌}

-- `raised` carries the `message` of an `Error`, and nothing for any other value that is thrown.
pub data Outcome (A : Type 0) : Type 0 where
  returned : A → Outcome A
  raised : Option String → Outcome A

abbrev pub Task : Type 0 → Type 0 → Type 0
Task L A = List L → Outcome A × List L

infixl 5 ◌>>=◌ ◌>>◌
abbrev pub ◌>>=◌ : {L A B : Type 0} → Task L A → (A → Task L B) → Task L B
◌>>=◌ m f l = let (o, l') = m l in elim o [ returned a ↦ f a l' | raised e ↦ (raised e, l') ]

abbrev pub ◌>>◌ : {L A B : Type 0} → Task L A → Task L B → Task L B
m >> k = m >>= λ _. k

module _ {L A : Type 0} where
  abbrev pub pure : A → Task L A
  pure a l = (returned a, l)

  abbrev pub await : Outcome A → Task L A
  await o l = (o, l)

  -- `catch (error)`: the handler is given the message, if the error has one.
  abbrev pub catching : Task L A → (Option String → Task L A) → Task L A
  catching m k l = let (o, l') = m l in elim o [ returned a ↦ (returned a, l') | raised e ↦ k e l' ]

  -- A call that leaves a trace, whatever it answers.
  abbrev pub record_call : L → Outcome A → Task L A
  record_call call o l = (o, l ++ (call ∷ []))

pub Outcome-cases :
    {A : Type 0} (o : Outcome A)
    → ((a : A) × (o ≡ returned a)) ⊎ ((e : Option String) × (o ≡ raised e))
Outcome-cases (returned a) = inl (a, refl)
Outcome-cases (raised e) = inr (e, refl)
