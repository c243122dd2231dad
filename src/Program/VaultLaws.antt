-- ===== src/Program/VaultLaws.antt =====
-- What an accepted deposit tells of its inputs.
use oragami.Prelude.{
  ℕ, ◌+◌, ◌*◌, ◌/◌, ◌≤◌, ◌≡◌, ◌≢◌, inl, inr, String, true, false, Option, none, some, arith,
  Option-cases,
}
use oragami.Program.Credential.{ComplianceCredential}
use oragami.Program.Vault.{
  VaultState, TravelRuleData, deposit, accepts_credential, travel_rule_gate, minted,
}

-- The tokens of an accepted amount.
pub minted_lem :
    (amount nav cvault : ℕ)
    → minted amount nav ≡ some cvault
    → (nav ≢ 0) × (cvault ≡ (amount * 10000) / nav) × (cvault ≢ 0)
unfolding minted
minted_lem amount nav cvault h = ground arith

module _ (now amount : ℕ) (payer : String) (c : ComplianceCredential)
    (rule rule' : Option TravelRuleData) (vs vs' : VaultState) (cvault : ℕ)
    (taken : deposit now payer c rule amount vs ≡ some (vs', rule', cvault)) where
  pub deposit_unpaused : vs.paused ≡ false
  unfolding deposit
  deposit_unpaused = ground arith

  pub deposit_credential : accepts_credential now payer c ≡ true
  unfolding deposit
  deposit_credential = ground arith

  pub deposit_gate : travel_rule_gate payer amount rule ≡ some rule'
  unfolding deposit
  deposit_gate = ground arith

  pub deposit_minted : minted amount vs.nav_price_bps ≡ some cvault
  unfolding deposit
  deposit_minted = ground arith

  pub deposit_open : vs'.paused ≡ false
  unfolding deposit
  deposit_open = ground arith

  -- The two totals grow by the amount and by the tokens, and nothing else in the state changes.
  pub deposit_totals :
      (vs'.total_deposits ≡ vs.total_deposits + amount)
      × (vs'.total_supply ≡ vs.total_supply + cvault)
      × (vs'.nav_price_bps ≡ vs.nav_price_bps)
  unfolding deposit
  deposit_totals = ground arith

-- A deposit of 1000 USDC or more uses up its travel rule record: with the record that it leaves no
-- deposit of that size is taken, at any time, from any payer, under any credential and in any state.
pub travel_rule_single_use :
    (now later amount again : ℕ) (payer other : String) (c d : ComplianceCredential)
    (rule rule' : Option TravelRuleData) (vs vs' vs'' : VaultState) (cvault : ℕ)
    → 1000000000 ≤ amount
    → 1000000000 ≤ again
    → deposit now payer c rule amount vs ≡ some (vs', rule', cvault)
    → deposit later other d rule' again vs'' ≡ none
unfolding travel_rule_gate
travel_rule_single_use now later amount again payer other c d rule rule' vs vs' vs'' cvault big
      large taken =
    elim (Option-cases (deposit later other d rule' again vs'')) [
      | inl refused ↦ refused
      | inr ((v, t, k), second) ↦ absurd (
          ground (
            arith,
            deposit_gate now amount payer c rule rule' vs vs' cvault taken,
            deposit_gate later again other d rule' t vs'' v k second,
          ))
    ]
