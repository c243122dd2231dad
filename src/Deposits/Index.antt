-- ===== src/Deposits/Index.antt =====
-- oragami-backend/src/deposits/deposits.service.ts: `index`.
use oragami.Prelude.{
  ℕ, String, Bool, true, false, not, Option, none, some, if◌then◌else◌, ◌otherwise◌, ◌==◌,
  string_eq, nat_eq,
}
use oragami.Prelude.Int.{ℤ, pos}
use oragami.Prelude.Results.{
  Action, bad_request, not_found, thrown, pure, throw_if, gets, or_throw, ◌>>=◌, ◌>>◌,
}
use oragami.Database.{
  Institution, Db, AuditEvent, find_by_wallet, find_by_nonce_hash, create_deposit,
  create_audit_event,
}
use oragami.Crank.Service.{VaultAccount}

pub record IndexDepositDto : Type 0 where
  pub tx_signature : String
  pub wallet : String
  pub usdc_amount : String
  pub cvault_amount : String
  pub nonce : String
  pub travel_rule_nonce_hash : Option String

-- What `getTransaction` answers.
pub data Transaction : Type 0 where
  unreachable absent failed confirmed : Transaction

abbrev pub is_confirmed : Transaction → Bool
is_confirmed confirmed = true
is_confirmed _ = false

abbrev is_reachable : Transaction → Bool
is_reachable unreachable = false
is_reachable _ = true

-- `length` and `toLowerCase` of a text, and `BigInt`.
pub record IndexText : Type 0 where
  pub size : String → ℕ
  pub lower : String → String
  pub big_int : String → Option ℤ

module _ (texts : IndexText) where
  open texts use {size, lower, big_int}

  -- The travel rule that the deposit names, if there is a row for it.
  unfoldable pub travel_rule_id : IndexDepositDto → Db ℕ → Option String
  travel_rule_id dto db =
      let hash = dto.travel_rule_nonce_hash otherwise dto.nonce in
      if size hash == 64
      then elim (find_by_nonce_hash (lower hash) db.travel_rules) [
        | none ↦ none
        | some tr ↦ some tr.id
      ]
      else none

  abbrev audit : IndexDepositDto → Institution → AuditEvent
  audit dto institution = record {
    institution_id = some institution.id;
    actor = dto.wallet;
    role = "institution";
    action = "deposit";
    result = "indexed";
    tx_signature = some dto.tx_signature;
  }

  -- `id` is the one that the database makes, `now` is `new Date()`.
  unfoldable pub index :
      ℕ → String → Transaction → Option VaultAccount → IndexDepositDto → Action (Db ℕ) String
  index now id transaction vault dto = do
    throw_if (not (is_reachable transaction)) (thrown "getTransaction failed")
    throw_if (not (is_confirmed transaction))
        (bad_request "Transaction not found or failed on-chain")
    row ← gets (λ db. find_by_wallet dto.wallet db.institutions)
    institution ← or_throw (not_found "Institution not found for wallet") row
    usdc_amount ← or_throw (thrown "SyntaxError") (big_int dto.usdc_amount)
    cvault_amount ← or_throw (thrown "SyntaxError") (big_int dto.cvault_amount)
    vs ← or_throw (thrown "readVaultState failed") vault
    rule ← gets (travel_rule_id dto)
    create_deposit (record {
      id = id;
      tx_signature = dto.tx_signature;
      institution_id = institution.id;
      usdc_amount = usdc_amount;
      cvault_amount = cvault_amount;
      nav_at_deposit = pos (vs.nav_price_bps otherwise 0);
      nonce = dto.nonce;
      travel_rule_id = rule;
      timestamp = now;
    })
    create_audit_event (audit dto institution)
    pure id
