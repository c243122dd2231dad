-- ===== src/Tests/DepositTests.antt =====
-- The theorems on deposits and travel rules, for a deposit of 1 500 USDC.
use oragami.Prelude.{
  ℕ, ◌≡◌, ◌≢◌, refl, inl, true, false, String, Option, some, none, [], ◌∷◌, arith,
}
use mathlib.Core.Path.{subst}
use oragami.Prelude.Int.{ℤ, pos}
use oragami.Prelude.Results.{ok}
use oragami.Database.Tables.{Db, Institution, empty_db, create_deposit, create_travel_rule}
use oragami.Encoding.Codes.{codes}
use oragami.Program.Credential.{ComplianceCredential}
use oragami.Program.Vault.{
  VaultState, TravelRuleData, deposit, accepts_credential, travel_rule_gate, minted,
}
use oragami.Program.VaultLaws.{travel_rule_single_use}
use oragami.Credentials.Service.{Store}
use oragami.Deposits.Preflight.{PreflightDto, preflight}
use oragami.Deposits.PreflightLaws.{read_vault, Forecasts, preflight_of_deposit}
use oragami.Deposits.Index.{IndexDepositDto, IndexText, confirmed, failed, index, travel_rule_id}
use oragami.Deposits.IndexLaws.{Later, at_once, indexes, index_once}
use oragami.TravelRule.Service.{
  TravelServices, SubmitTravelRuleDto, Submitted, submit, get_by_nonce_hash, new_row, reply,
  find_by_id,
}
use oragami.TravelRule.Laws.{Finds, get_by_nonce_hash-submit}
use oragami.Tests.Data.{vault_account}

abbrev bank : ComplianceCredential
bank = record {
  wallet = "bank";
  institution_name = [];
  jurisdiction = [];
  tier = 2;
  kyc_level = 1;
  aml_coverage = 80;
  attestation_hash = [];
  issued_at = 1000;
  expires_at = 9000;
  status = 1;
}

abbrev vault : VaultState
vault = record {
  paused = false;
  min_deposit = 1;
  max_deposit = 5000000000;
  nav_price_bps = 12000;
  total_deposits = 7;
  total_supply = 9;
}

abbrev rule : Option TravelRuleData
rule = some (record { amount = 1500000000; payer = "bank"; consumed = false })

abbrev used : Option TravelRuleData
used = some (record { amount = 1500000000; payer = "bank"; consumed = true })

abbrev vault_after : VaultState
vault_after = record vault { total_deposits = 1500000007; total_supply = 1250000009 }

deposit-bank : deposit 5000 "bank" bank rule 1500000000 vault ≡ some (vault_after, used, 1250000000)
unfolding deposit accepts_credential travel_rule_gate minted
deposit-bank = refl

travel_rule_single_use_example : deposit 6000 "bank" bank used 1500000000 vault_after ≡ none
travel_rule_single_use_example =
    travel_rule_single_use 5000 6000 1500000000 1500000000 "bank" "bank" bank bank rule used vault
      vault_after vault_after 1250000000 (omega arith) (omega arith) deposit-bank

abbrev big_int : String → Option ℤ
big_int text = some (pos 1500000000)

abbrev request : PreflightDto
request = record { wallet = "bank"; usdc_amount = "1500000000" }

preflight_of_deposit_example :
    Forecasts 1500000000 1250000000
      (preflight big_int (λ text. true) request (some bank) (some (read_vault vault 3)) empty_db).0
preflight_of_deposit_example =
    preflight_of_deposit big_int (λ text. true) 5000 1500000000 3 request bank rule used vault
      vault_after 1250000000 empty_db refl refl deposit-bank

abbrev listed : Store
listed = record { db = empty_db; accounts = bank ∷ [] }

abbrev institution : Institution
institution = record {
  id = "i1";
  wallet_address = "bank";
  name = "Bank";
  jurisdiction = "CH";
  tier = 2;
  kyc_level = 1;
  aml_score = 80;
  credential_pda = none;
  credential_status = "active";
  credential_issued_at = none;
  credential_expires_at = none;
  attestation_hash = none;
}

abbrev db : Db ℕ
db = record empty_db { institutions = institution ∷ [] }

abbrev services : TravelServices
services = record {
  texts = codes;
  big_int = big_int;
  bn = big_int;
  lower = λ text. text;
  is_public_key = λ text. true;
  sha256 = λ bytes. 7 ∷ [];
  digest = λ json. 8 ∷ [];
  to_hex = λ bytes. "07";
  base58 = λ bytes. "n";
  travel_rule_pda = λ wallet hash. "rule";
  unsigned_transaction = λ wallet params. some ("tx", 9);
  is_on_chain = λ wallet hash. false;
}

abbrev submission : SubmitTravelRuleDto
submission = record {
  wallet = "bank";
  usdc_amount = "1500000000";
  originator_name = "Bank";
  originator_account = "CH93";
  beneficiary_name = "Vault";
}

abbrev submitted : Submitted
submitted = reply services submission [] ("tx", 9)

abbrev filed : Db ℕ
filed = record db {
  travel_rules = new_row services 50 "r1" [] submission institution (pos 1500000000) ∷ [];
}

submit-bank : submit services 50 "r1" [] submission db ≡ (ok submitted, filed)
unfolding submit create_travel_rule
submit-bank = refl

ids-distinct :
    (i : Institution) → some institution ≡ some i → find_by_id i.id (institution ∷ []) ≡ some i
ids-distinct i h =
    let same : institution ≡ i = cc in
    subst (λ j. find_by_id j.id (institution ∷ []) ≡ some j) same refl

get_by_nonce_hash-submit_example :
    Finds services 50 "r1" [] submission db filed submitted
      (get_by_nonce_hash services "07" filed).0
get_by_nonce_hash-submit_example =
    get_by_nonce_hash-submit services 50 "r1" [] submission db filed submitted submit-bank
      ids-distinct

abbrev index_text : IndexText
index_text = record { size = λ text. 64; lower = λ text. text; big_int = big_int }

abbrev indexing : IndexDepositDto
indexing = record {
  tx_signature = "tx1";
  wallet = "bank";
  usdc_amount = "1500000000";
  cvault_amount = "1500000000";
  nonce = "n1";
  travel_rule_nonce_hash = some "07";
}

abbrev indexed : Db ℕ
indexed = record filed {
  deposits =
      record {
        id = "d1";
        tx_signature = "tx1";
        institution_id = "i1";
        usdc_amount = pos 1500000000;
        cvault_amount = pos 1500000000;
        nav_at_deposit = pos 10000;
        nonce = "n1";
        travel_rule_id = travel_rule_id index_text indexing filed;
        timestamp = 60;
      }
      ∷ [];
  audit_events =
      record {
        institution_id = some "i1";
        actor = "bank";
        role = "institution";
        action = "deposit";
        result = "indexed";
        tx_signature = some "tx1";
      }
      ∷ [];
}

index-bank :
    index index_text 60 "d1" confirmed (some vault_account) indexing filed ≡ (ok "d1", indexed)
unfolding index create_deposit
index-bank = refl

-- Another transaction is indexed, and one is refused, before the first comes again.
abbrev next_deposit : IndexDepositDto
next_deposit = record indexing { tx_signature = "tx2"; nonce = "n2" }

abbrev after_next : Db ℕ
after_next = (index index_text 65 "d2" confirmed (some vault_account) next_deposit indexed).1

abbrev after_failed : Db ℕ
after_failed = (index index_text 66 "d3" failed (some vault_account) next_deposit after_next).1

between : Later index_text indexed after_failed
between =
    indexes 66 "d3" failed (some vault_account) next_deposit after_next
      (indexes 65 "d2" confirmed (some vault_account) next_deposit indexed at_once)

index_once_example :
    index index_text 70 "d4" confirmed (some vault_account) indexing after_failed
    ≢ (ok "d4", indexed)
index_once_example =
    index_once index_text 60 70 "d1" "d4" confirmed confirmed (some vault_account)
      (some vault_account) indexing indexing filed indexed after_failed indexed "d1" "d4" index-bank
      between (inl refl)
