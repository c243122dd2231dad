-- ===== src/Tests/BackendTests.antt =====
-- The theorems on the feeds, the encodings, the multi-asset vault and the toasts at small inputs.
use oragami.Prelude.{ℕ, ◌≡◌, refl, true, false, some, none, [], ◌∷◌, arith}
use oragami.Prelude.Int.{pos}
use oragami.Prelude.Results.{ok}
use oragami.Js.Fractions.{fractions, Fraction}
use oragami.Six.Service.{SixState, MarketRequest, fetch_intraday_snapshot, is_connected}
use oragami.Six.Laws.{Answers, fetch_intraday_snapshot-Answers}
use oragami.Solstice.Nav.{SolsticeState}
use oragami.Encoding.Bytes.{str_to_bytes, ticker_from_bytes}
use oragami.Encoding.Codes.{codes, utf8}
use oragami.Encoding.Laws.{ticker_from_bytes-str_to_bytes}
use oragami.MultiAsset.Service.{
  AssetChain, AssetPreflight, RawCredential, RawVault, active, credential_is, preflight_deposit,
  format_vault,
}
use oragami.Frontend.Toasts.{step, no_toasts, shown, dispatched, dismiss_toast, timed_out}
use oragami.Frontend.ToastLaws.{run}
use oragami.Tests.Data.{six_env, six_state, snapshot}

fetch_intraday_snapshot-Answers_example :
    (request : MarketRequest) × (status : ℕ) × (Answers fractions
        (six_env 2400)
        "VALOR_BC"
        "274702"
        "148"
        (snapshot 2400)
        request
        status
      × (is_connected fractions
            (six_env 2400)
            (fetch_intraday_snapshot fractions (six_env 2400) "VALOR_BC" "274702" "148" six_state).1
          ≡ true))
unfolding fetch_intraday_snapshot
fetch_intraday_snapshot-Answers_example =
    fetch_intraday_snapshot-Answers fractions (six_env 2400) "VALOR_BC" "274702" "148" six_state
      (fetch_intraday_snapshot fractions (six_env 2400) "VALOR_BC" "274702" "148" six_state).1
      (snapshot 2400) refl

abbrev settled : SixState Fraction
settled = record { last_success_at = some 5; token_cache = none; mtls_agent = some none }

abbrev uncached : SolsticeState Fraction
uncached = record { cached_eusx_nav = none }

ticker_from_bytes-str_to_bytes_example :
    ticker_from_bytes codes (str_to_bytes codes "XAU" 8) ≡ "XAU"
unfolding utf8
ticker_from_bytes-str_to_bytes_example =
    ticker_from_bytes-str_to_bytes codes "XAU" 8
      (λ e. ground arith, (λ e. ground arith, (λ e. ground arith, tt))) (omega arith)

abbrev credential : RawCredential
credential = record {
  status = some 1;
  tier = some 2;
  kyc_level = some 1;
  aml_coverage = some 80;
  jurisdiction = none;
  issued_at = some 100;
  expires_at = some 5000;
}

abbrev gold_vault : RawVault
gold_vault = record {
  asset_mint = "XAU";
  share_mint = "sXAU";
  vault_token_account = "tXAU";
  ticker = none;
  nav_price_bps = some 12000;
  total_deposits = some 0;
  total_supply = some 0;
  min_deposit = some 10;
  max_deposit = some 2000000000;
  travel_rule_required = true;
  paused = false;
}

abbrev chain : AssetChain
chain = record {
  texts = codes;
  is_public_key = λ text. true;
  credential_pda = λ wallet. "pda";
  factory_pda = "factory";
  nav_to_display = λ nav. "$1.2000";
  pad_end = λ text. text;
  big_int = λ text. some (pos 1200);
  date_time = λ text. none;
  fetch_factory = none;
  fetch_vault = λ mint. some gold_vault;
  fetch_credential = λ wallet. some credential;
  set_nav_tx = λ mint nav. none;
  issue_tx = λ wallet arguments. none;
  token_account = λ wallet mint. none;
  mint_tx = λ mint account amount. none;
}

abbrev answer : AssetPreflight
answer = record {
  can_deposit = true;
  reason = none;
  requires_travel_rule = false;
  credential_status = active;
  ticker = ticker_from_bytes codes [];
  nav_price_bps = 12000;
  nav_display = "$1.2000";
  paused = false;
  travel_rule_required = true;
  estimated_shares = pos 1000;
}

-- 4 000 s: the credential runs for another 1 000 s.
chain-answer : preflight_deposit chain 4000000 "wallet" "XAU" "1200" ≡ ok answer
unfolding preflight_deposit format_vault
chain-answer = refl

chain-refusal :
    preflight_deposit chain 5000000 "wallet" "XAU" "1200"
    ≡ ok (record answer { can_deposit = false; reason = some (credential_is active) })
unfolding preflight_deposit format_vault
chain-refusal = refl

-- A toast that is dismissed twice has one timer, and is gone after it.
toasts-gone :
    (run
      (λ n. "1")
      (shown (some "Sent") none
        ∷ dispatched (dismiss_toast (some "1"))
        ∷ dispatched (dismiss_toast none)
        ∷ timed_out "1"
        ∷ [])
      no_toasts).toasts
    ≡ []
unfolding run step
toasts-gone = refl
