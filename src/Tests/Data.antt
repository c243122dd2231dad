-- ===== src/Tests/Data.antt =====
-- Concrete environments and states for the tests: SIX answers with a price, the vault account is
-- there, and every transaction is taken. Numbers are fractions.
use oragami.Prelude.{ℕ, true, false, none, some, []}
use oragami.Js.Fractions.{Fraction, fractions, whole}
use oragami.Js.Json.{Json, Fields, Items}
use oragami.Database.Tables.{empty_db}
use oragami.Six.Service.{SixEnv, SixState}
use oragami.Solstice.Nav.{SolsticeEnv}
use oragami.Health.CrankState.{no_runs}
use oragami.Crank.Nav.{new_memory}
use oragami.Crank.Service.{Backend, CrankEnv, VaultAccount}
use oragami.Crank.ServiceLaws.{BackendIsValid}

-- { "quotes": [null, { "last": price }] }
abbrev pub snapshot : ℕ → Json Fraction
snapshot price = Json.obj (
    Fields.field "quotes"
      (Json.arr (
        Items.cons Json.null (
          Items.cons (Json.obj (Fields.field "last" (Json.num (whole price)) Fields.end))
            Items.nil)))
      Fields.end)

abbrev token_response : Json Fraction
token_response = Json.obj (Fields.field "access_token" (Json.str "secret") Fields.end)

abbrev pub six_env : ℕ → SixEnv Fraction
six_env price = record {
  config = λ key. some "set";
  cwd_folders = [];
  join = λ dir file. file;
  resolve = λ dir. dir;
  exists = λ file. false;
  read_file = λ file. none;
  trim = λ text. text;
  includes = λ text part. false;
  parse_int = λ text. none;
  axios_post = λ agent. some (200, token_response);
  axios_get = λ request. some (200, snapshot price);
  now = 1000000;
  token_at = 1000001;
  data_at = 1000002;
}

abbrev pub six_state : SixState Fraction
six_state = record { last_success_at = none; token_cache = none; mtls_agent = none }

abbrev pub solstice_env : SolsticeEnv Fraction
solstice_env = record {
  now = 1000003;
  nav_override = none;
  reserve_account = some "reserve";
  to_number = λ text. whole 1;
  reserve_read = some (105, 100);
}

abbrev pub vault_account : VaultAccount
vault_account = record {
  nav_price_bps = some 10000;
  usx_allocation_bps = some 7000;
  total_deposits = some 5000000;
  total_supply = some 5000000;
  pending_yield = some 3;
  apy_bps = some 500;
  last_yield_claim = some 1;
  paused = false;
}

abbrev pub crank_env : ℕ → CrankEnv Fraction
crank_env now = record {
  six_gold = six_env 2400;
  six_chf = six_env 1;
  solstice = solstice_env;
  vault_before = some vault_account;
  vault_after = some vault_account;
  set_nav_tx = λ nav. some "set";
  link_hash = none;
  attestation_tx = λ gold nav. none;
  process_yield_ok = true;
  snapshot_saved = true;
  yield_event_saved = true;
  audit_saved = true;
  now = now;
  set_at = now;
  tick_at = now;
  finished_at = now;
}

abbrev pub new_backend : Backend Fraction
new_backend = record {
  memory = new_memory;
  six = six_state;
  solstice = record { cached_eusx_nav = none };
  runs = no_runs;
  db = empty_db;
  chain = [];
}

pub new_backend-valid : BackendIsValid fractions new_backend
new_backend-valid = record {
  memory_valid = record { last_gold = tt; last_chf = tt; baseline_gold = tt; baseline_chf = tt };
  cache_valid = tt;
}
