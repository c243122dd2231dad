-- ===== src/Credentials/Service.antt =====
-- oragami-backend/src/credentials/credentials.service.ts, over the database and the credential
-- accounts of the chain. `Services` holds what other packages compute; a `Call` says what becomes
-- of one transaction or read.
use oragami.Prelude.{
  ℕ, ◌/◌, String, Bool, true, false, not, Option, none, some, List, ◌∷◌, ltb, leb, min, max,
  is_some, if◌then◌else◌, ◌==◌, string_eq, nat_eq,
}
use oragami.Prelude.Int.{ℤ, pos, negsuc}
use oragami.Prelude.Clock.{to_seconds, to_millis}
use oragami.Prelude.Results.{
  ok, err, Action, bad_request, not_found, conflict, thrown, pure, throw_if, gets, or_throw, modify,
  ◌>>=◌, ◌>>◌,
}
use oragami.Js.Json.{Json, Fields}
use oragami.Database.{Db, Institution, AuditEvent, find_by_wallet, upsert, update_many}
use oragami.Encoding.Bytes.{Texts, str_to_bytes64, jurisdiction_to_bytes}
use oragami.Program.Credential.{
  ComplianceCredential, account_of, issue_credential, revoke_credential,
}

pub record Services : Type 0 where
  pub texts : Texts
  -- `new PublicKey(s)` does not throw
  pub is_public_key : String → Bool
  -- `deriveCredentialPda`, in base58
  pub credential_pda : String → String
  -- `getAuthority().publicKey.toBase58()`
  pub authority : String
  -- SHA-256 of `JSON.stringify`, and bytes as hexadecimal text
  pub digest : Json ℕ → List ℕ
  pub to_hex : List ℕ → String
  -- `new Date(s).getTime()`, `none` for NaN
  pub date_time : String → Option ℤ

-- A transaction is taken and answered with a signature, taken while the answer is lost, or not
-- taken for a reason outside the program.
pub data Call : Type 0 where
  answered : String → Call
  answer_lost : Call
  not_sent : Call

pub record IssueCredentialDto : Type 0 where
  pub wallet : String
  pub institution_name : String
  pub jurisdiction : String
  pub tier : ℕ
  pub kyc_level : ℕ
  pub aml_score : ℕ
  pub expires_at : String

pub record Issued : Type 0 where
  pub credential_pda : String
  pub tx_signature : String

-- The database, and the credential accounts.
pub record Store : Type 0 where
  pub db : Db ℕ
  pub accounts : List ComplianceCredential

-- Tier 1 always requires it; above that, an amount from the threshold on.
abbrev pub travel_rule_threshold_usdc : ℕ
travel_rule_threshold_usdc = 1000000000

unfoldable pub requires_travel_rule : ℕ → Option ℕ → Bool
requires_travel_rule tier amount =
    if leb tier 1
    then true
    else elim amount [ none ↦ false | some a ↦ leb travel_rule_threshold_usdc a ]

-- `Math.floor(ms / 1000)`
abbrev pub floor_seconds : ℤ → ℤ
floor_seconds (pos n) = pos (n / 1000)
floor_seconds (negsuc n) = negsuc (n / 1000)

-- The expiry in seconds, if it is a date after `issued_at`.
abbrev pub later_than : ℕ → Option ℤ → Option ℕ
later_than issued_at none = none
later_than issued_at (some ms) = elim (floor_seconds ms) [
  | pos s ↦ if leb s issued_at then none else some s
  | negsuc s ↦ none
]

-- An instruction that is sent: the accounts change if it was taken, and only an answer returns.
abbrev pub send :
    (List ComplianceCredential → Option (List ComplianceCredential)) → Call → Action Store String
send instruction (answered tx) s = elim (instruction s.accounts) [
  | none ↦ (err (thrown "transaction failed"), s)
  | some accounts ↦ (ok tx, record s { accounts = accounts })
]
send instruction answer_lost s = elim (instruction s.accounts) [
  | none ↦ (err (thrown "transaction failed"), s)
  | some accounts ↦ (err (thrown "no answer"), record s { accounts = accounts })
]
send instruction not_sent s = (err (thrown "not sent"), s)

-- `readCredential`, which throws where there is no account or no connection.
abbrev pub read_credential : Bool → String → Store → Option ComplianceCredential
read_credential connected wallet s = if connected then account_of wallet s.accounts else none

abbrev write_db : (Db ℕ → Db ℕ) → Action Store (Unit {0})
write_db f = modify (λ s. record s { db = f s.db })

abbrev add_audit : AuditEvent → Db ℕ → Db ℕ
add_audit e db = record db { audit_events = e ∷ db.audit_events }

module _ (services : Services) where
  open services use {texts, is_public_key, credential_pda, authority, digest, to_hex, date_time}

  -- `attestationHashFromDto`
  unfoldable pub attestation_hash : IssueCredentialDto → List ℕ
  attestation_hash dto = digest (
      Json.obj (
        Fields.field "wallet" (Json.str dto.wallet) (
          Fields.field "institutionName" (Json.str dto.institution_name) (
            Fields.field "jurisdiction" (Json.str dto.jurisdiction) (
              Fields.field "tier" (Json.num dto.tier) (
                Fields.field "kycLevel" (Json.num dto.kyc_level) (
                  Fields.field "amlScore" (Json.num dto.aml_score)
                    (Fields.field "expiresAt" (Json.str dto.expires_at) Fields.end))))))))

  unfoldable pub issue_params : IssueCredentialDto → ℕ → ℕ → ComplianceCredential
  issue_params dto issued_at expires_at = record {
    wallet = dto.wallet;
    institution_name = str_to_bytes64 texts dto.institution_name;
    jurisdiction = jurisdiction_to_bytes texts dto.jurisdiction;
    tier = dto.tier;
    kyc_level = dto.kyc_level;
    aml_coverage = min 255 (max 0 dto.aml_score);
    attestation_hash = attestation_hash dto;
    issued_at = issued_at;
    expires_at = expires_at;
    status = 0;
  }

  -- The `update` of the upsert; with an id, its `create`.
  unfoldable pub updated_row : IssueCredentialDto → ℕ → ℕ → Institution → Institution
  updated_row dto issued_at expires_at row = record row {
    name = dto.institution_name;
    jurisdiction = texts.slice dto.jurisdiction 2;
    tier = dto.tier;
    kyc_level = dto.kyc_level;
    aml_score = dto.aml_score;
    credential_pda = some (credential_pda dto.wallet);
    credential_status = "active";
    credential_issued_at = some (to_millis issued_at);
    credential_expires_at = some (to_millis expires_at);
    attestation_hash = some (to_hex (attestation_hash dto));
  }

  unfoldable pub created_row : String → IssueCredentialDto → ℕ → ℕ → Institution
  unfolding updated_row
  created_row id dto issued_at expires_at = updated_row dto issued_at expires_at (record {
    id = id;
    wallet_address = dto.wallet;
    name = "";
    jurisdiction = "";
    tier = 0;
    kyc_level = 0;
    aml_score = 0;
    credential_pda = none;
    credential_status = "";
    credential_issued_at = none;
    credential_expires_at = none;
    attestation_hash = none;
  })

  abbrev audit : String → String → AuditEvent
  audit action tx = record {
    institution_id = none;
    actor = authority;
    role = "admin";
    action = action;
    result = "success";
    tx_signature = some tx;
  }

  unfoldable pub issue : ℕ → Bool → Call → String → IssueCredentialDto → Action Store Issued
  issue now_ms connected call id dto = do
    throw_if (not (is_public_key dto.wallet)) (thrown "Invalid public key input")
    let issued_at = to_seconds now_ms
    expires_at ←
        or_throw (bad_request "expiresAt must be a future ISO datetime")
          (later_than issued_at (date_time dto.expires_at))
    known ← gets (read_credential connected dto.wallet)
    throw_if (is_some known)
        (conflict "A credential already exists for this wallet. Revoke it before re-issuing.")
    tx ← send (issue_credential (issue_params dto issued_at expires_at)) call
    write_db (λ db. record db {
      institutions =
          upsert dto.wallet (updated_row dto issued_at expires_at)
            (created_row id dto issued_at expires_at) db.institutions;
    })
    write_db (add_audit (audit "issue_credential" tx))
    pure (record { credential_pda = credential_pda dto.wallet; tx_signature = tx })

  unfoldable pub get_by_wallet : String → Action Store Institution
  get_by_wallet wallet = do
    row ← gets (λ s. find_by_wallet wallet s.db.institutions)
    or_throw (not_found "Institution not found") row

  unfoldable pub revoke : Call → String → Action Store String
  revoke call wallet = do
    throw_if (not (is_public_key wallet)) (thrown "Invalid public key input")
    tx ← send (revoke_credential wallet) call
    write_db (λ db. record db {
      institutions =
          update_many wallet (λ i. record i { credential_status = "revoked" }) db.institutions;
    })
    write_db (add_audit (audit "revoke_credential" tx))
    pure tx

-- The `status` that `verify` answers with.
pub data VerifiedStatus : Type 0 where
  active expired revoked missing : VerifiedStatus

-- `expires_at` is an instant in milliseconds, `none` for the empty text.
pub record Verified : Type 0 where
  pub status : VerifiedStatus
  pub tier : ℕ
  pub expires_at : Option ℕ
  pub requires_travel_rule : Bool

-- The answer from the database alone: `missing` is 'not_found'.
abbrev verify_row : Option Institution → Verified
verify_row none = record {
  status = missing;
  tier = 0;
  expires_at = some 0;
  requires_travel_rule = true;
}
verify_row (some row) = record {
  status = if row.credential_status == "revoked" then revoked else missing;
  tier = row.tier;
  expires_at = row.credential_expires_at;
  requires_travel_rule = requires_travel_rule row.tier none;
}

-- `Date.now() / 1000` is compared as a fraction, so in milliseconds.
abbrev chain_status : ℕ → ComplianceCredential → VerifiedStatus
chain_status now_ms c =
    if c.status == 3
    then revoked
    else if ltb (to_millis c.expires_at) now_ms
    then expired
    else if c.status == 1
    then active
    else missing

-- The last second of a `Date`.
abbrev pub max_date_seconds : ℕ
max_date_seconds = 8640000000000

-- The wallet is a text that is a public key; `none` is the throw of `toISOString` on an instant that
-- a `Date` cannot hold, or of `toNumber` on one that is larger still.
unfoldable pub verify : ℕ → Bool → String → Store → Option Verified
verify now_ms connected wallet s = elim (read_credential connected wallet s) [
  | none ↦ some (verify_row (find_by_wallet wallet s.db.institutions))
  | some c ↦
      if leb c.expires_at max_date_seconds
      then some (record {
        status = chain_status now_ms c;
        tier = c.tier;
        expires_at = some (to_millis c.expires_at);
        requires_travel_rule = requires_travel_rule c.tier none;
      })
      else none
]

abbrev pub status_of : Option Verified → Option VerifiedStatus
status_of none = none
status_of (some v) = some v.status
