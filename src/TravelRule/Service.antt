-- ===== src/TravelRule/Service.antt =====
-- oragami-backend/src/travel-rule/travel-rule.service.ts. What other packages compute is
-- `TravelServices`; the random nonce, the id of a new row and the clock are arguments.
use oragami.Prelude.{ℕ, String, Bool, not, Option, none, List, ◌==◌, string_eq, find, ◌&&◌}
use oragami.Prelude.Int.{ℤ, pos, ltb_ℤ}
use oragami.Prelude.Results.{
  Action, bad_request, not_found, thrown, pure, throw_if, gets, or_throw, ◌>>=◌, ◌>>◌,
}
use oragami.Js.Json.{Json, Fields}
use oragami.Database.{Db, Institution, TravelRule, find_by_wallet, find_by_nonce_hash}
use oragami.Database.Tables.{create_travel_rule}
use oragami.Encoding.Bytes.{Texts, str_to_bytes64, str_to_bytes34}

pub record SubmitTravelRuleDto : Type 0 where
  pub wallet : String
  pub usdc_amount : String
  pub originator_name : String
  pub originator_account : String
  pub beneficiary_name : String

-- The arguments of the instruction `initTravelRule`.
pub record InitTravelRuleParams : Type 0 where
  pub originator_name : List ℕ
  pub originator_account : List ℕ
  pub beneficiary_name : List ℕ
  pub compliance_hash : List ℕ
  pub amount : ℤ
  pub nonce_hash : List ℕ

pub record TravelServices : Type 0 where
  pub texts : Texts
  -- `BigInt(text)` and `new BN(text)`, `none` for a throw
  pub big_int : String → Option ℤ
  pub bn : String → Option ℤ
  pub lower : String → String
  -- `new PublicKey(s)` does not throw
  pub is_public_key : String → Bool
  -- SHA-256 of bytes, and of `JSON.stringify`
  pub sha256 : List ℕ → List ℕ
  pub digest : Json ℕ → List ℕ
  pub to_hex : List ℕ → String
  pub base58 : List ℕ → String
  -- `deriveTravelRulePda`, in base58
  pub travel_rule_pda : String → List ℕ → String
  -- the transaction in base64 and the last valid block height, `none` where building it throws
  pub unsigned_transaction : String → InitTravelRuleParams → Option (String × ℕ)
  -- `readTravelRule` does not throw
  pub is_on_chain : String → String → Bool

pub record Submitted : Type 0 where
  pub nonce_hash : String
  pub nonce_base58 : String
  pub travel_rule_pda : String
  pub tx_signature : Option String
  pub unsigned_transaction : String
  pub last_valid_block_height : ℕ

pub record FoundTravelRule : Type 0 where
  pub nonce_hash : String
  pub pda : String
  pub institution_wallet : String
  pub usdc_amount : ℤ
  pub submitted_at : ℕ
  -- 'initialized', else 'unknown'
  pub is_initialized : Bool

abbrev pub min_travel_rule_usdc : ℕ
min_travel_rule_usdc = 1000000000

-- The institution that a row refers to.
abbrev pub find_by_id : String → List Institution → Option Institution
find_by_id id = find (λ i. i.id == id)

module _ (services : TravelServices) where
  open services use {
    texts, big_int, bn, lower, is_public_key, sha256, digest, to_hex, base58, travel_rule_pda,
    unsigned_transaction, is_on_chain,
  }

  -- The text that is hashed into `complianceHash`.
  unfoldable pub compliance_payload : SubmitTravelRuleDto → List ℕ → Json ℕ
  compliance_payload dto nonce = Json.obj (
      Fields.field "originatorName" (Json.str dto.originator_name) (
        Fields.field "originatorAccount" (Json.str dto.originator_account) (
          Fields.field "beneficiaryName" (Json.str dto.beneficiary_name) (
            Fields.field "amount" (Json.str dto.usdc_amount)
              (Fields.field "nonce" (Json.str (to_hex nonce)) Fields.end)))))

  unfoldable pub init_params : SubmitTravelRuleDto → List ℕ → ℤ → InitTravelRuleParams
  init_params dto nonce amount = record {
    originator_name = str_to_bytes64 texts dto.originator_name;
    originator_account = str_to_bytes34 texts dto.originator_account;
    beneficiary_name = str_to_bytes64 texts dto.beneficiary_name;
    compliance_hash = digest (compliance_payload dto nonce);
    amount = amount;
    nonce_hash = sha256 nonce;
  }

  unfoldable pub new_row : ℕ → String → List ℕ → SubmitTravelRuleDto → Institution → ℤ → TravelRule
  new_row now id nonce dto institution amount = record {
    id = id;
    pda = travel_rule_pda dto.wallet (sha256 nonce);
    institution_id = institution.id;
    originator_name = dto.originator_name;
    originator_account = dto.originator_account;
    beneficiary_name = dto.beneficiary_name;
    compliance_hash = to_hex (digest (compliance_payload dto nonce));
    nonce_hash = lower (to_hex (sha256 nonce));
    usdc_amount = amount;
    submitted_at = now;
  }

  abbrev pub reply : SubmitTravelRuleDto → List ℕ → String × ℕ → Submitted
  reply dto nonce (transaction, height) = record {
    nonce_hash = to_hex (sha256 nonce);
    nonce_base58 = base58 nonce;
    travel_rule_pda = travel_rule_pda dto.wallet (sha256 nonce);
    tx_signature = none;
    unsigned_transaction = transaction;
    last_valid_block_height = height;
  }

  unfoldable pub submit : ℕ → String → List ℕ → SubmitTravelRuleDto → Action (Db ℕ) Submitted
  unfolding create_travel_rule
  submit now id nonce dto = do
    amount ← or_throw (thrown "SyntaxError") (big_int dto.usdc_amount)
    throw_if (ltb_ℤ amount (pos min_travel_rule_usdc))
        (bad_request "usdcAmount must be >= 1000000000 (1000 USDC) for travel rule")
    found ← gets (λ db. find_by_wallet dto.wallet db.institutions)
    institution ←
        or_throw (bad_request "Institution not found - complete credential onboarding first") found
    throw_if (not (is_public_key dto.wallet)) (thrown "Invalid public key input")
    parsed ← or_throw (thrown "Invalid character") (bn dto.usdc_amount)
    transaction ←
        or_throw (thrown "transaction failed")
          (unsigned_transaction dto.wallet (init_params dto nonce parsed))
    create_travel_rule (new_row now id nonce dto institution amount)
    pure (reply dto nonce transaction)

  -- A throw of `new PublicKey` or of `readTravelRule` only leaves `onChain` 'unknown'.
  unfoldable pub get_by_nonce_hash : String → Action (Db ℕ) FoundTravelRule
  get_by_nonce_hash hash = do
    found ← gets (λ db. find_by_nonce_hash (lower hash) db.travel_rules)
    row ← or_throw (not_found "Travel rule not found") found
    owner ← gets (λ db. find_by_id row.institution_id db.institutions)
    institution ← or_throw (thrown "Inconsistent query result") owner
    pure (record {
      nonce_hash = row.nonce_hash;
      pda = row.pda;
      institution_wallet = institution.wallet_address;
      usdc_amount = row.usdc_amount;
      submitted_at = row.submitted_at;
      is_initialized =
          is_public_key institution.wallet_address
          && is_on_chain institution.wallet_address row.nonce_hash;
    })
