-- ===== src/Client/Debounce.antt =====
-- Fields of the web client that ask the backend some time after the last change: the receiver in
-- oragami-frontend/app/app/vaults/page.tsx and the amount in oragami-frontend/features/vault/VaultPanel.tsx.
-- A request that is under way is not cancelled by a change, only the timer is.
use oragami.Prelude.{
  ℕ, String, Bool, true, false, not, ◌&&◌, ltb, Option, none, some, List, [], ◌∷◌, ◌++◌,
  if◌then◌else◌, ◌==◌, string_eq,
}
use oragami.Client.Tasks.{Outcome, returned, raised}

-- `pending` are the texts whose requests are under way.
pub record Field (A : Type 0) : Type 0 where
  pub text : String
  pub shown : Option A
  pub checking : Bool
  pub is_armed : Bool
  pub pending : List String

-- The receiver is asked for from 32 characters on; `length` is that of JavaScript.
abbrev pub asks_receiver : (String → ℕ) → String → Bool
asks_receiver length receiver = not (receiver == "") && not (ltb (length receiver) 32)

-- The amount is asked for with a wallet, and if it is worth one unit; `is_positive` is `rawUsdc > 0`.
abbrev pub asks_amount : Option String → (String → Bool) → String → Bool
asks_amount none is_positive amount = false
asks_amount (some key) is_positive amount = not (key == "") && is_positive amount

abbrev pub value : {A : Type 0} → Outcome A → Option A
value (returned a) = some a
value (raised e) = none

module _ {A : Type 0} (asks : String → Bool) where
  abbrev pub empty_field : Field A
  empty_field = record { text = ""; shown = none; checking = false; is_armed = false; pending = [] }

  -- The effect of a change, with the clean-up of the one before; the same text is no change.
  unfoldable pub typed : String → Field A → Field A
  typed text f =
      if text == f.text
      then f
      else if asks text
      then record f { text = text; is_armed = true }
      else record f { text = text; shown = none; is_armed = false }

  -- The timer, where it is set.
  unfoldable pub fires : Field A → Field A
  fires f =
      if f.is_armed
      then record f { is_armed = false; checking = true; pending = f.pending ++ (f.text ∷ []) }
      else f

  -- The answer to a request, after which these are under way.
  unfoldable pub settles : List String → Outcome A → Field A → Field A
  settles rest answer f = record f { shown = value answer; checking = false; pending = rest }
