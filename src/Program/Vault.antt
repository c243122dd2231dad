-- ===== src/Program/Vault.antt =====
-- oragami-vault/programs/oragami-vault/src/lib.rs: `set_nav` and `deposit`, as far as their checks
-- and amounts go. `u64` arithmetic is checked, so a result that does not fit is an error. That the
-- caller signs as the operator, and that the token transfer goes through, is assumed.
use oragami.Prelude.{
  ℕ, ◌+◌, ◌-◌, ◌*◌, ◌/◌, String, Bool, true, not, ◌&&◌, Option, none, some, ltb, leb, if◌then◌else◌,
  ◌==◌, string_eq, nat_eq,
}
use oragami.Program.Credential.{ComplianceCredential, credential_status_active}

abbrev pub nav_bps_denominator : ℕ
nav_bps_denominator = 10000

abbrev pub travel_rule_threshold : ℕ
travel_rule_threshold = 1000000000

abbrev pub u64_limit : ℕ
u64_limit = 18446744073709551616

pub record VaultState : Type 0 where
  pub paused : Bool
  pub min_deposit : ℕ
  pub max_deposit : ℕ
  pub nav_price_bps : ℕ
  pub total_deposits : ℕ
  pub total_supply : ℕ

pub record TravelRuleData : Type 0 where
  pub amount : ℕ
  pub payer : String
  pub consumed : Bool

-- `checked_add` and `checked_mul`
abbrev pub fits : ℕ → Option ℕ
fits n = if ltb n u64_limit then some n else none

-- The two checks of `set_nav` on the number.
unfoldable pub accepts_nav : ℕ → ℕ → Bool
accepts_nav current nav =
    ltb 0 nav && leb (current - current / 2) nav && leb nav (current + current / 2)

-- The credential gate of `deposit`.
unfoldable pub accepts_credential : ℕ → String → ComplianceCredential → Bool
accepts_credential now payer c =
    c.status == credential_status_active && ltb now c.expires_at && c.wallet == payer

-- The travel rule gate, with the record as it is afterwards.
unfoldable pub travel_rule_gate :
    String → ℕ → Option TravelRuleData → Option (Option TravelRuleData)
travel_rule_gate payer amount rule =
    if leb travel_rule_threshold amount
    then elim rule [
      | none ↦ none
      | some t ↦
          if t.amount == amount && t.payer == payer && not t.consumed
          then some (some (record t { consumed = true }))
          else none
    ]
    else some rule

-- cvault = usdc * 10000 / nav, which must not be 0; there is no division by 0.
unfoldable pub minted : ℕ → ℕ → Option ℕ
minted amount nav = elim (fits (amount * nav_bps_denominator)) [
  | none ↦ none
  | some p ↦ if nav == 0 then none else if p / nav == 0 then none else some (p / nav)
]

-- The totals with a deposit of `amount` for `cvault` new tokens.
abbrev add_totals : VaultState → ℕ → ℕ → Option VaultState
add_totals vs amount cvault = elim (fits (vs.total_deposits + amount)) [
  | none ↦ none
  | some d ↦ elim (fits (vs.total_supply + cvault)) [
    | none ↦ none
    | some t ↦ some (record vs { total_deposits = d; total_supply = t })
  ]
]

abbrev settle :
    VaultState → ℕ → Option TravelRuleData → ℕ → Option (VaultState × Option TravelRuleData × ℕ)
settle vs amount rule cvault = elim (add_totals vs amount cvault) [
  | none ↦ none
  | some vs' ↦ some (vs', rule, cvault)
]

-- The state, the travel rule record and the number of tokens minted, or an error.
unfoldable pub deposit :
    ℕ
    → String
    → ComplianceCredential
    → Option TravelRuleData
    → ℕ
    → VaultState
    → Option (VaultState × Option TravelRuleData × ℕ)
deposit now payer credential rule amount vs =
    if vs.paused
    then none
    else if ltb amount vs.min_deposit
    then none
    else if ltb vs.max_deposit amount
    then none
    else if not (accepts_credential now payer credential)
    then none
    else elim (travel_rule_gate payer amount rule) [
      | none ↦ none
      | some rule' ↦ elim (minted amount vs.nav_price_bps) [
        | none ↦ none
        | some cvault ↦ settle vs amount rule' cvault
      ]
    ]
