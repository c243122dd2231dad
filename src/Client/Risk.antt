-- ===== src/Client/Risk.antt =====
-- oragami-frontend/services/risk-check.ts, its types, and the compliance check of
-- oragami-frontend/services/vault-operations.ts.
use oragami.Prelude.{String, Bool, true, false, Option, none, some, if◌then◌else◌, ◌otherwise◌}
use oragami.Js.Floats.{Floats}
use oragami.Six.Service.{truthy}
use oragami.Client.Tasks.{Outcome, returned, raised}

pub record AnalyzedResponse (F : Type 0) : Type 0 where
  pub address : String
  -- none where the JSON has no number there
  pub risk_score : Option F
  pub risk_level : String
  pub reasoning : String
  pub has_sanctioned_assets : Bool
  pub helius_assets_checked : Bool
  pub from_cache : Bool
  pub checked_at : String

pub record BlockedResponse : Type 0 where
  pub address : String
  pub reason : String

pub data RiskCheckResponse (F : Type 0) : Type 0 where
  blocked : BlockedResponse → RiskCheckResponse F
  analyzed : AnalyzedResponse F → RiskCheckResponse F
  -- the JSON is not checked: an object with any other status
  unknown : String → RiskCheckResponse F

-- The body of an answer that is not `ok`: no JSON, JSON without a property `error` that has
-- properties, or the `message` in it.
pub data ErrorBody : Type 0 where
  unparsable no_error : ErrorBody
  message : String → ErrorBody

-- What `fetch` answers: `none` from `body` where `response.json()` throws.
pub data Fetched (A : Type 0) : Type 0 where
  unreachable : Option String → Fetched A
  is_ok : Outcome A → Fetched A
  not_ok : ErrorBody → Fetched A

-- Reading `error.error.message` of nothing throws a TypeError, with the text of the engine.
abbrev error_message : String → ErrorBody → String
error_message type_error unparsable = "Risk check failed"
error_message type_error no_error = type_error
error_message type_error (message text) = text

pub record ComplianceAnswer : Type 0 where
  pub compliant : Bool
  pub reason : Option String

abbrev refused : String → ComplianceAnswer
refused reason = record { compliant = false; reason = some reason }

abbrev pub is_blocked_response : {F : Type 0} → RiskCheckResponse F → Bool
is_blocked_response (blocked r) = true
is_blocked_response (analyzed r) = false
is_blocked_response (unknown status) = false

abbrev pub is_analyzed_response : {F : Type 0} → RiskCheckResponse F → Bool
is_analyzed_response (blocked r) = false
is_analyzed_response (analyzed r) = true
is_analyzed_response (unknown status) = false

-- `fetched` is the answer of the relayer to a POST of /risk-check for an address, `type_error` the
-- text of the TypeError, and `high` the reason with the score in it.
pub record RiskApi (F : Type 0) : Type 0 where
  pub fetched : String → Fetched (RiskCheckResponse F)
  pub type_error : String
  pub high : F → String

module _ (fl : Floats) where
  open fl use {Float, of_nat, gt}

  unfoldable pub check_wallet_risk : RiskApi Float → String → Outcome (RiskCheckResponse Float)
  check_wallet_risk api address = elim (api.fetched address) [
    | unreachable e ↦ raised e
    | not_ok body ↦ raised (some (error_message api.type_error body))
    | is_ok answer ↦ answer
  ]

  unfoldable pub assessed : RiskApi Float → RiskCheckResponse Float → ComplianceAnswer
  assessed api (blocked r) =
      refused (truthy (some r.reason) otherwise "Wallet failed compliance check")
  assessed api (analyzed r) = elim r.risk_score [
    | none ↦ record { compliant = true; reason = none }
    | some score ↦
        if gt score (of_nat 70)
        then refused (api.high score)
        else record { compliant = true; reason = none }
  ]
  assessed api (unknown status) = record { compliant = true; reason = none }

  unfoldable pub check_vault_compliance : RiskApi Float → String → ComplianceAnswer
  unfolding check_wallet_risk assessed
  check_vault_compliance api address = elim (check_wallet_risk api address) [
    | raised e ↦ refused (e otherwise "Unknown error")
    | returned answer ↦ assessed api answer
  ]
