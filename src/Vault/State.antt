-- ===== src/Vault/State.antt =====
-- oragami-backend/src/vault/vault.service.ts: `getState`, over the services that it asks in turn.
-- Numbers that the answer carries as decimal texts are numbers here.
use oragami.Prelude.{ℕ, String, Bool, Option, none, some, is_some, leb, ◌otherwise◌, if◌then◌else◌}
use oragami.Prelude.Clock.{to_millis}
use oragami.Prelude.Results.{ok, err, thrown, Result}
use oragami.Js.Floats.{Floats}
use oragami.Six.Service.{SixEnv, SixState, ping_token, is_connected, truthy, resolve_data_cert_dir}
use oragami.Solstice.Nav.{SolsticeEnv, SolsticeState, get_eusx_nav}
use oragami.Crank.Service.{VaultAccount}

-- `new Date(ms).toISOString()` throws beyond this instant.
abbrev pub max_date_ms : ℕ
max_date_ms = 8640000000000000

pub record SixStatus : Type 0 where
  pub connected : Bool
  pub last_success_at : Option ℕ
  pub mtls_configured : Bool

pub record VaultStateView (F : Type 0) : Type 0 where
  pub total_deposits : ℕ
  pub total_supply : ℕ
  pub nav_price_bps : ℕ
  pub pending_yield : ℕ
  pub apy_bps : ℕ
  pub usx_allocation_bps : ℕ
  pub paused : Bool
  pub last_yield_claim : ℕ
  pub eusx_price : F
  pub six_status : SixStatus
  pub vault_usx_balance : ℕ
  pub vault_eusx_balance : ℕ

-- The token accounts of the settings, and what `getAccount` reads: `none` where it throws.
pub record VaultReads : Type 0 where
  pub account : Option VaultAccount
  pub usx_account : Option String
  pub eusx_account : Option String
  pub balance : String → Option ℕ

unfoldable pub token_balance : (String → Option ℕ) → Option String → ℕ
token_balance balance key = elim (truthy key) [ none ↦ 0 | some k ↦ balance k otherwise 0 ]

-- The state of the two services that are asked.
pub record Sources (F : Type 0) : Type 0 where
  pub six : SixState F
  pub solstice : SolsticeState F

module _ (fl : Floats) (six_env : SixEnv fl.Float) (solstice_env : SolsticeEnv fl.Float)
    (reads : VaultReads) where
  abbrev view : VaultAccount → ℕ → fl.Float → SixState fl.Float → VaultStateView fl.Float
  view vs claim price six = record {
    total_deposits = vs.total_deposits otherwise 0;
    total_supply = vs.total_supply otherwise 0;
    nav_price_bps = vs.nav_price_bps otherwise 0;
    pending_yield = vs.pending_yield otherwise 0;
    apy_bps = vs.apy_bps otherwise 0;
    usx_allocation_bps = vs.usx_allocation_bps otherwise 0;
    paused = vs.paused;
    last_yield_claim = claim;
    eusx_price = price;
    six_status = record {
      connected = is_connected fl six_env six;
      last_success_at = six.last_success_at;
      mtls_configured = is_some (resolve_data_cert_dir fl six_env);
    };
    vault_usx_balance = token_balance reads.balance reads.usx_account;
    vault_eusx_balance = token_balance reads.balance reads.eusx_account;
  }

  pub get_state : Sources fl.Float → Result (VaultStateView fl.Float) × Sources fl.Float
  unfolding token_balance
  get_state s = elim reads.account [
    | none ↦ (err (thrown "Account does not exist"), s)
    | some vs ↦
        let (price, solstice) = get_eusx_nav fl solstice_env s.solstice in
        let six = ping_token fl six_env s.six in
        let claim = to_millis (vs.last_yield_claim otherwise 0) in
        let s' : Sources fl.Float = record { six = six; solstice = solstice } in
        if leb claim max_date_ms
        then (ok (view vs claim price six), s')
        else (err (thrown "RangeError"), s')
  ]
