-- ===== src/Tests/ModalTests.antt =====
-- The theorem on the dialog of an asset vault, for a wallet that deposits two tokens.
use oragami.Prelude.{◌≡◌, refl, true, false, none, some, [], ◌∷◌, string_eq}
use oragami.Prelude.Int.{pos}
use oragami.Js.Fractions.{Fraction, fractions, whole}
use oragami.Client.Tasks.{returned, raised}
use oragami.Client.Modal.{
  Modal, ModalEnv, ModalPreflight, asks_preflight, asks_faucet, not_ok, run_preflight,
  handle_issue_credential, handle_faucet, handle_deposit, submitted,
}
use oragami.Client.ModalLaws.{ClickRun, handle_deposit-ClickRun}

abbrev pub gold : ModalEnv Fraction
gold = record {
  asset_mint = "XAU";
  admin_key = some "key";
  has_phantom = true;
  program = returned tt;
  parse_key = λ text. returned tt;
  pda = λ seeds. "pda";
  token_account = λ mint owner. returned "account";
  token_program = "token";
  blockhash = returned tt;
  signed = returned tt;
  sent = returned "setup";
  bn = λ text. returned (pos 2000000);
  rpc = λ i. returned "tx";
  parse_float = λ text. some (whole 2);
  show = λ n. "2000000";
}

abbrev go_ahead : ModalPreflight
go_ahead = record {
  estimated_shares = "2000000";
  can_deposit = true;
  reason = none;
  credential_status = "active";
}

abbrev modal : Modal
modal = record {
  public_key = some "bank";
  amount = "2";
  preflight = some go_ahead;
  checking = false;
  submitting = false;
  issuing_cred = false;
  cred_issued = false;
  fauceting = false;
  tx_sig = none;
  error = none;
}

handle_deposit-ClickRun_example :
    ClickRun fractions gold modal (handle_deposit fractions gold modal [])
handle_deposit-ClickRun_example = handle_deposit-ClickRun fractions gold modal

deposit-answered : (handle_deposit fractions gold modal []).0.tx_sig ≡ some "tx"
unfolding handle_deposit submitted
deposit-answered = refl

-- The go-ahead was given for another amount; the click sends the new one.
amount_after_preflight :
    (handle_deposit fractions gold (record modal { amount = "9" }) []).0.tx_sig ≡ some "tx"
unfolding handle_deposit submitted
amount_after_preflight = refl

faucet-fills :
    (handle_faucet fractions gold (returned tt) (returned go_ahead) modal []).1
    ≡ asks_faucet "XAU" "bank" ∷ asks_preflight "XAU" "bank" "2000000" ∷ []
unfolding handle_faucet run_preflight
faucet-fills = refl

credential-refused :
    (handle_issue_credential fractions gold (not_ok none "HTTP 409") (raised none) modal []).0.error
    ≡ some "HTTP 409"
unfolding handle_issue_credential run_preflight
credential-refused = refl
