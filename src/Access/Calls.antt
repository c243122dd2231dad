-- ===== src/Access/Calls.antt =====
-- oragami-frontend/shared/api/index.ts: the requests of the web client, without their bodies, and what
-- `apiFetch` makes of the answers.
use oragami.Prelude.{String, Option, none, some, List, [], ◌∷◌, ◌<|>◌}
use oragami.Six.Service.{truthy}
use oragami.Access.Guard.{Header, absent, one}
use oragami.Access.Routes.{
  Method, get, post, put, Handler, health, cranks, issue, list_credentials, verify, revoke,
  preflight, index_deposit, list_deposits, list_for_wallet, submit_travel_rule, get_travel_rule,
  vault_state, nav_current, nav_history, yield_history, stats, asset_vaults, faucet,
  asset_preflight, asset_credential,
}

-- The functions that the module exports, with what goes into the path and the admin key.
pub data Endpoint : Type 0 where
  get_nav_current get_nav_history get_yield_history get_vault_stats get_vault_state : Endpoint
  verify_credential : String → Endpoint
  issue_credential : String → Endpoint
  revoke_credential : String → String → Endpoint
  get_all_credentials : String → Endpoint
  preflight_deposit index_deposit_ : Endpoint
  get_deposits_for_wallet : String → Endpoint
  get_all_deposits : String → Endpoint
  submit_travel_rule_ : Endpoint
  get_travel_rule_ : String → Endpoint
  get_health get_crank_health : Endpoint
  get_multi_vaults : Endpoint
  verify_multi_vault_credential : String → Endpoint
  multi_vault_faucet preflight_multi_vault_deposit : String → Endpoint

pub record ClientRequest : Type 0 where
  pub method : Method
  pub path : List String
  pub admin_key : Option String

abbrev plain : Method → List String → ClientRequest
plain m path = record { method = m; path = path; admin_key = none }

abbrev with_key : String → Method → List String → ClientRequest
with_key key m path = record { method = m; path = path; admin_key = some key }

unfoldable pub request_of : Endpoint → ClientRequest
request_of get_nav_current = plain get ("api" ∷ "vault" ∷ "nav" ∷ "current" ∷ [])
request_of get_nav_history = plain get ("api" ∷ "vault" ∷ "nav" ∷ "history" ∷ [])
request_of get_yield_history = plain get ("api" ∷ "vault" ∷ "yield" ∷ "history" ∷ [])
request_of get_vault_stats = plain get ("api" ∷ "vault" ∷ "stats" ∷ [])
request_of get_vault_state = plain get ("api" ∷ "vault" ∷ "state" ∷ [])
request_of (verify_credential w) = plain get ("api" ∷ "credentials" ∷ w ∷ "verify" ∷ [])
request_of (issue_credential key) = with_key key post ("api" ∷ "credentials" ∷ [])
request_of (revoke_credential w key) = with_key key put ("api" ∷ "credentials" ∷ w ∷ "revoke" ∷ [])
request_of (get_all_credentials key) = with_key key get ("api" ∷ "credentials" ∷ [])
request_of preflight_deposit = plain post ("api" ∷ "deposits" ∷ "preflight" ∷ [])
request_of index_deposit_ = plain post ("api" ∷ "deposits" ∷ "index" ∷ [])
request_of (get_deposits_for_wallet w) = plain get ("api" ∷ "deposits" ∷ "institution" ∷ w ∷ [])
request_of (get_all_deposits key) = with_key key get ("api" ∷ "deposits" ∷ [])
request_of submit_travel_rule_ = plain post ("api" ∷ "travel-rule" ∷ [])
request_of (get_travel_rule_ h) = plain get ("api" ∷ "travel-rule" ∷ h ∷ [])
request_of get_health = plain get ("health" ∷ [])
request_of get_crank_health = plain get ("health" ∷ "cranks" ∷ [])
request_of get_multi_vaults = plain get ("api" ∷ "multi-vault" ∷ "vaults" ∷ [])
request_of (verify_multi_vault_credential w) =
    plain get ("api" ∷ "multi-vault" ∷ "credentials" ∷ w ∷ [])
request_of (multi_vault_faucet m) =
    plain post ("api" ∷ "multi-vault" ∷ "vaults" ∷ m ∷ "faucet" ∷ [])
request_of (preflight_multi_vault_deposit m) =
    plain post ("api" ∷ "multi-vault" ∷ "vaults" ∷ m ∷ "preflight" ∷ [])

-- The header is set for a key that is not empty.
abbrev header_of : Option String → Header
header_of key = elim key [
  | none ↦ absent
  | some k ↦ elim (truthy (some k)) [ none ↦ absent | some given ↦ one given ]
]

unfoldable pub header : Endpoint → Header
unfolding request_of
header e = header_of (request_of e).admin_key

-- `message`: a text or a list of texts of the body, which is joined; else the status.
pub data Message : Type 0 where
  words : String → Message
  list_of : List String → Message

-- The body of a refusal: `none` where it is no JSON.
pub record Refusal : Type 0 where
  pub message : Option Message
  pub error : Option Message

-- An empty text does not count.
abbrev given_message : Option Message → Option Message
given_message none = none
given_message (some (words text)) = elim (truthy (some text)) [
  | none ↦ none
  | some t ↦ some (words t)
]
given_message (some (list_of texts)) = some (list_of texts)

abbrev message_text : (List String → String) → Message → String
message_text join (words text) = text
message_text join (list_of texts) = join texts

-- The `message` of the ApiError; `join` is with "; ", and `status_text` is `API error …`.
pub api_error : (List String → String) → String → Option Refusal → String
api_error join status_text none = status_text
api_error join status_text (some body) =
    elim (given_message body.message <|> given_message body.error) [
      | none ↦ status_text
      | some m ↦ message_text join m
    ]

-- The method of the backend that each function is meant to reach.
abbrev pub target : Endpoint → Handler
target get_nav_current = nav_current
target get_nav_history = nav_history
target get_yield_history = yield_history
target get_vault_stats = stats
target get_vault_state = vault_state
target (verify_credential w) = verify w
target (issue_credential key) = issue
target (revoke_credential w key) = revoke w
target (get_all_credentials key) = list_credentials
target preflight_deposit = preflight
target index_deposit_ = index_deposit
target (get_deposits_for_wallet w) = list_for_wallet w
target (get_all_deposits key) = list_deposits
target submit_travel_rule_ = submit_travel_rule
target (get_travel_rule_ h) = get_travel_rule h
target get_health = health
target get_crank_health = cranks
target get_multi_vaults = asset_vaults
target (verify_multi_vault_credential w) = asset_credential w
target (multi_vault_faucet m) = faucet m
target (preflight_multi_vault_deposit m) = asset_preflight m
