-- ===== src/Tests/CredentialTests.antt =====
-- The theorems on credentials for one bank, from its issue to its revocation.
use oragami.Access.Gate.{next, redirect, middleware, backend}
use oragami.Access.GateLaws.{gate, MayEnter, gate-MayEnter}
use oragami.Access.Routes.{dispatch}
use oragami.Client.Tasks.{returned}
use oragami.Client.Wallet.{initial_wallet, connect}
use oragami.Onboard.Connect.{Page, Phantom, handle_connect}
use oragami.Prelude.{
  ◌≢◌, ◌⊎◌, String, false, none, eq_iff, string_eq, ◌≡◌, ◌≤◌, ◌↔◌, refl, true, some, List, [], ◌∷◌,
  arith,
}
use oragami.Prelude.Int.{pos}
use oragami.Prelude.Clock.{to_millis}
use oragami.Prelude.Results.{ok}
use oragami.Database.Tables.{empty_db}
use oragami.Encoding.Codes.{codes}
use oragami.Program.Credential.{ComplianceCredential, issue_credential, revoke_credential}
use oragami.Credentials.Service.{
  Services, Store, IssueCredentialDto, Issued, answered, issue, issue_params, revoke, verify,
  active, revoked, status_of,
}
use oragami.Credentials.Agreement.{AgreeFor}
use oragami.Credentials.Lifecycle.{issuing, revoking, run, run_agrees}
use oragami.Credentials.Verification.{verify-eq-active_iff, verify-revoke}

-- Every date is the instant 9 000 s.
abbrev services : Services
services = record {
  texts = codes;
  is_public_key = λ text. true;
  credential_pda = λ wallet. "pda";
  authority = "authority";
  digest = λ json. [];
  to_hex = λ bytes. "00";
  date_time = λ text. some (pos 9000000);
}

abbrev dto : IssueCredentialDto
dto = record {
  wallet = "bank";
  institution_name = "Bank";
  jurisdiction = "CH";
  tier = 2;
  kyc_level = 1;
  aml_score = 80;
  expires_at = "1970-01-01T02:30:00Z";
}

abbrev nothing : Store
nothing = record { db = empty_db; accounts = [] }

abbrev bank : ComplianceCredential
bank = record {
  wallet = "bank";
  institution_name = [];
  jurisdiction = [];
  tier = 2;
  kyc_level = 1;
  aml_coverage = 80;
  attestation_hash = [];
  issued_at = 1000;
  expires_at = 9000;
  status = 1;
}

-- The account is on the chain, and its row was lost.
abbrev listed : Store
listed = record { db = empty_db; accounts = bank ∷ [] }

run_agrees_example : AgreeFor "bank" (
    run services
      (issuing 1000000 true (answered "tx") "id" dto ∷ revoking (answered "tx2") "bank" ∷ [])
      nothing)
run_agrees_example =
    run_agrees services
      (issuing 1000000 true (answered "tx") "id" dto ∷ revoking (answered "tx2") "bank" ∷ []) "bank"

verify-eq-active_iff_example : (status_of (verify 2000000 true "bank" listed) ≡ some active) ↔ (
    (c : ComplianceCredential) × (some bank ≡ some c)
    × (c.status ≡ 1)
    × (2000000 ≤ to_millis c.expires_at)
    × (c.expires_at ≤ 8640000000000))
verify-eq-active_iff_example = verify-eq-active_iff 2000000 "bank" listed

revoke-bank : (revoke services (answered "tx") "bank" listed).0 ≡ ok "tx"
unfolding revoke revoke_credential
revoke-bank = refl

verify-revoke_example :
    status_of (verify 99000000 true "bank" (revoke services (answered "tx") "bank" listed).1)
    ≡ some revoked
verify-revoke_example =
    verify-revoke services (answered "tx") "bank" "tx" listed 99000000 bank refl (omega arith)
      revoke-bank

abbrev issued : Issued
issued = record { credential_pda = "pda"; tx_signature = "tx" }

issue-bank : (issue services 1000000 true (answered "tx") "id" dto nothing).0 ≡ ok issued
unfolding issue issue_credential issue_params
issue-bank = refl

bank_named : ◌≢◌ {A = String} "bank" ""
bank_named = ground (arith, eq_iff "bank" "")

-- The path of a name without a character that a URL treats on its own.
abbrev requested : String → List String
requested name = "api" ∷ "credentials" ∷ name ∷ "verify" ∷ []

gate-MayEnter_example :
    ((gate services requested none 2000000 "bank" listed ≡ next)
      × MayEnter services requested none 2000000 "bank" listed)
    ⊎ ((gate services requested none 2000000 "bank" listed ≡ redirect "/onboard/connect")
        × ¬ MayEnter services requested none 2000000 "bank" listed)
gate-MayEnter_example = gate-MayEnter services requested none 2000000 "bank" listed bank_named refl

bank-enters : gate services requested none 2000000 "bank" listed ≡ next
unfolding middleware backend dispatch verify
bank-enters = refl

abbrev visit : Page
visit = record {
  checking = false;
  revoked = false;
  error = none;
  replaced = none;
  opened = false;
  wallet = connect "bank" (λ text. returned text) initial_wallet;
  cookie = none;
}

abbrev phantom : Phantom
phantom = record { is_phantom = true; connected = returned "bank"; sign = λ text. returned text }

connected_by_phantom : (handle_connect (some phantom) visit).cookie ≡ some "bank"
unfolding handle_connect
connected_by_phantom = refl

without_phantom : (handle_connect none visit).opened ≡ true
unfolding handle_connect
without_phantom = refl
