-- ===== src/Anchor/Service.antt =====
-- oragami-backend/src/solana/anchor.service.ts: the key of the authority, and how a transaction is
-- confirmed. Messages of errors are those of the source; a value that is thrown has its text.
use oragami.Prelude.{ℕ, zero, suc, String, Option, none, some, List}
use oragami.Prelude.Results.{Result, ok, err, thrown}
use oragami.Js.Json.{Json, Items, arr}

-- The secret key of `VAULT_AUTHORITY_KEYPAIR`, from what `JSON.parse` gives, `none` where it throws.
-- `uint8_array` is `Uint8Array.from` of the members.
unfoldable pub secret_key : {F : Type 0} → (Items F → List ℕ) → Option (Json F) → Result (List ℕ)
secret_key uint8_array (some (arr items)) = ok (uint8_array items)
secret_key uint8_array (some other) = err (thrown "Keypair must be JSON array")
secret_key uint8_array none = err (thrown "Failed to parse VAULT_AUTHORITY_KEYPAIR")

-- What `confirmTransaction` answers: confirmed, confirmed as failed, or nothing, by a throw.
pub data Confirmation : Type 0 where
  confirmed : Confirmation
  failed : (error : String) → Confirmation
  threw : (message : String) → Confirmation

-- The end of `confirmTx`, with the number of the pauses of two seconds that it made.
pub data Confirmed : Type 0 where
  returned : (pauses : ℕ) → Confirmed
  raised : (message : String) → (pauses : ℕ) → Confirmed

-- The error of a round: `Transaction failed: …` or that of the call.
abbrev pub error_of : (String → String) → Confirmation → Option String
error_of failure confirmed = none
error_of failure (failed e) = some (failure e)
error_of failure (threw message) = some message

module _ (failure : String → String) (answers : ℕ → Confirmation) where
  -- The rounds from `i` on, of which `n` are left.
  unfoldable pub rounds : ℕ → ℕ → Confirmed
  rounds i zero = returned i
  rounds i (suc zero) = elim (error_of failure (answers i)) [
    | none ↦ returned i
    | some e ↦ raised e i
  ]
  rounds i (suc (suc n)) =
      let rest = rounds (suc i) (suc n) in
      elim (error_of failure (answers i)) [ none ↦ returned i | some e ↦ rest ]

  unfoldable pub confirm_tx : ℕ → Confirmed
  unfolding rounds
  confirm_tx max_retries = rounds 0 max_retries
