-- ===== src/Database/Tables.antt =====
-- oragami-backend/prisma/schema.prisma: one record for each model that the services write.
use oragami.Prelude.{
  ℕ, String, Bool, Option, List, [], ◌∷◌, map, find, any, ◌||◌, if◌then◌else◌, ◌==◌, string_eq,
}
use oragami.Prelude.Int.{ℤ}
use oragami.Prelude.Results.{ok, err, thrown, Action}

pub record Institution : Type 0 where
  pub id : String
  pub wallet_address : String
  pub name : String
  pub jurisdiction : String
  pub tier : ℕ
  pub kyc_level : ℕ
  pub aml_score : ℕ
  pub credential_pda : Option String
  pub credential_status : String
  pub credential_issued_at : Option ℕ
  pub credential_expires_at : Option ℕ
  pub attestation_hash : Option String

pub record Deposit : Type 0 where
  pub id : String
  pub tx_signature : String
  pub institution_id : String
  pub usdc_amount : ℤ
  pub cvault_amount : ℤ
  pub nav_at_deposit : ℤ
  pub nonce : String
  pub travel_rule_id : Option String
  pub timestamp : ℕ

pub record TravelRule : Type 0 where
  pub id : String
  pub pda : String
  pub institution_id : String
  pub originator_name : String
  pub originator_account : String
  pub beneficiary_name : String
  pub compliance_hash : String
  pub nonce_hash : String
  pub usdc_amount : ℤ
  pub submitted_at : ℕ

-- `raw_payload` is { goldPrice, chfUsd, eusxNav }.
pub record NavSnapshot (F : Type 0) : Type 0 where
  pub nav_bps : ℤ
  pub source : String
  pub tx_signature : Option String
  pub gold_price : Option F
  pub chf_usd : Option F
  pub eusx_nav : F
  pub timestamp : ℕ

pub record YieldEvent (F : Type 0) : Type 0 where
  pub total_deposits : ℕ
  pub usx_allocation_bps : ℕ
  pub apy_bps : ℕ
  pub days_elapsed : ℕ
  pub yield_accrued : ℕ
  pub nav_before_bps : ℤ
  pub nav_after_bps : ℤ
  pub eusx_price : F
  pub timestamp : ℕ

-- `metadata` and `timestamp` are left out.
pub record AuditEvent : Type 0 where
  pub institution_id : Option String
  pub actor : String
  pub role : String
  pub action : String
  pub result : String
  pub tx_signature : Option String

pub record Db (F : Type 0) : Type 0 where
  pub institutions : List Institution
  pub deposits : List Deposit
  pub travel_rules : List TravelRule
  pub nav_snapshots : List (NavSnapshot F)
  pub yield_events : List (YieldEvent F)
  pub audit_events : List AuditEvent

abbrev pub empty_db : {F : Type 0} → Db F
empty_db = record {
  institutions = [];
  deposits = [];
  travel_rules = [];
  nav_snapshots = [];
  yield_events = [];
  audit_events = [];
}

-- `institution.findUnique({ where: { walletAddress } })`
abbrev pub find_by_wallet : String → List Institution → Option Institution
find_by_wallet wallet = find (λ i. i.wallet_address == wallet)

-- `travelRule.findUnique({ where: { nonceHash } })`
abbrev pub find_by_nonce_hash : String → List TravelRule → Option TravelRule
find_by_nonce_hash hash = find (λ t. t.nonce_hash == hash)

-- The first row with the wallet is changed by `update`; where there is none, `row` is added.
abbrev pub upsert :
    String → (Institution → Institution) → Institution → List Institution → List Institution
upsert wallet update row [] = row ∷ []
upsert wallet update row (i ∷ is) =
    if i.wallet_address == wallet then update i ∷ is else i ∷ upsert wallet update row is

-- `institution.updateMany({ where: { walletAddress } })`
abbrev pub update_many : String → (Institution → Institution) → List Institution → List Institution
update_many wallet update = map (λ i. if i.wallet_address == wallet then update i else i)

-- `deposit.create`: `txSignature` and `nonce` are unique.
abbrev pub deposit_taken : Deposit → List Deposit → Bool
deposit_taken d = any (λ e. e.tx_signature == d.tx_signature || e.nonce == d.nonce)

-- `travelRule.create`: `pda` and `nonceHash` are unique.
abbrev pub travel_rule_taken : TravelRule → List TravelRule → Bool
travel_rule_taken t = any (λ u. u.pda == t.pda || u.nonce_hash == t.nonce_hash)

module _ {F : Type 0} where
  unfoldable pub create_deposit : Deposit → Action (Db F) Deposit
  create_deposit d db =
      if deposit_taken d db.deposits
      then (err (thrown "Unique constraint failed"), db)
      else (ok d, record db { deposits = d ∷ db.deposits })

  unfoldable pub create_travel_rule : TravelRule → Action (Db F) TravelRule
  create_travel_rule t db =
      if travel_rule_taken t db.travel_rules
      then (err (thrown "Unique constraint failed"), db)
      else (ok t, record db { travel_rules = t ∷ db.travel_rules })

  abbrev pub create_audit_event : AuditEvent → Action (Db F) (Unit {0})
  create_audit_event e db = (ok tt, record db { audit_events = e ∷ db.audit_events })
