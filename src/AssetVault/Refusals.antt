-- ===== src/AssetVault/Refusals.antt =====
-- The account of a genuine credential, and why the deposit of an asset vault is refused that has no
-- travel rule, for an amount that is within its bounds.
use oragami.Prelude.{
  ℕ, ◌≤◌, ◌≡◌, inl, inr, String, Bool, true, false, Option, some, nat_eq, string_eq, arith,
  Option-cases,
}
use oragami.Program.Credential.{ComplianceCredential}
use oragami.Program.Vault.{TravelRuleData}
use oragami.Program.Market.{TokenProgram}
use oragami.AssetVault.Attempt.{
  VaultError, fails, Attempt-cases, vault_paused, credential_not_active, credential_expired,
  credential_wallet_mismatch, overflow, zero_shares, wrong_credential_program,
  invalid_credential_pda, constraint, unreadable, token_refused,
}
use oragami.AssetVault.State.{AssetVault, AssetMarket, CredentialInfo, oragami_vault_program_id}
use oragami.AssetVault.Gate.{check_credential, read_credential, check_travel_rule}
use oragami.AssetVault.Funds.{admitted, deposit, settle, shares_for, add_totals}

-- The account of a wallet's credential under the program oragami-vault.
abbrev pub genuine : (String → String → String) → String → ComplianceCredential → CredentialInfo
genuine derive wallet c = record {
  key = derive wallet oragami_vault_program_id;
  owner = oragami_vault_program_id;
  content = some c;
}

-- The reasons of a refusal that a preflight does not see: the pause, the account of the credential,
-- the size of the numbers, and the token program.
abbrev pub is_unforeseen : VaultError → Bool
is_unforeseen vault_paused = true
is_unforeseen constraint = true
is_unforeseen invalid_credential_pda = true
is_unforeseen wrong_credential_program = true
is_unforeseen unreadable = true
is_unforeseen credential_not_active = true
is_unforeseen credential_expired = true
is_unforeseen credential_wallet_mismatch = true
is_unforeseen overflow = true
is_unforeseen zero_shares = true
is_unforeseen token_refused = true
is_unforeseen e = false

module _ (derive : String → String → String) (now : ℕ) (depositor : String) (info : CredentialInfo)
    (amount : ℕ) where
  check_credential_unforeseen :
      (e : VaultError)
      → check_credential derive now depositor info ≡ fails e
      → is_unforeseen e ≡ true
  unfolding check_credential read_credential
  check_credential_unforeseen e h = elim (Option-cases info.content) [
    | inl p ↦ ground (arith, p)
    | inr (c, p) ↦ ground (arith, p)
  ]

  admitted_unforeseen :
      (v : AssetVault) (e : VaultError)
      → v.min_deposit ≤ amount
      → amount ≤ v.max_deposit
      → admitted derive now depositor info amount v ≡ fails e
      → is_unforeseen e ≡ true
  unfolding admitted
  admitted_unforeseen v e least most h =
      elim (Attempt-cases (check_credential derive now depositor info)) [
        | inl (_, p) ↦ ground (arith, p)
        | inr (e', p) ↦ ground (arith, p, check_credential_unforeseen e' p)
      ]

  shares_for_unforeseen :
      (nav : ℕ) (e : VaultError) → shares_for amount nav ≡ fails e → is_unforeseen e ≡ true
  unfolding shares_for
  shares_for_unforeseen nav e h = ground arith

  add_totals_unforeseen :
      (v : AssetVault) (shares : ℕ) (e : VaultError)
      → add_totals amount shares v ≡ fails e
      → is_unforeseen e ≡ true
  unfolding add_totals
  add_totals_unforeseen v shares e h = ground arith

  settle_unforeseen :
      (tokens : TokenProgram) (m : AssetMarket) (e : VaultError)
      → settle tokens amount m ≡ fails e
      → is_unforeseen e ≡ true
  unfolding settle
  settle_unforeseen tokens m e h =
      let paid = tokens.in_lem m.vault_tokens amount in
      elim (Attempt-cases (shares_for amount m.vault.nav_price_bps)) [
        | inr (e', p) ↦ ground (arith, p, shares_for_unforeseen m.vault.nav_price_bps e' p)
        | inl (k, p) ↦
            let minted = tokens.mint_lem m.share_supply k in
            elim (Attempt-cases (add_totals amount k m.vault)) [
              | inr (e', q) ↦
                  ground (arith, p, q, add_totals_unforeseen m.vault k e' q, paid, minted)
              | inl (v', q) ↦ ground (arith, p, q, paid, minted)
            ]
      ]

  -- What is left to refuse a deposit where no travel rule is required.
  pub refused_later :
      (tokens : TokenProgram) (rule : Option TravelRuleData) (m : AssetMarket) (e : VaultError)
      → m.vault.travel_rule_required ≡ false
      → m.vault.min_deposit ≤ amount
      → amount ≤ m.vault.max_deposit
      → deposit tokens derive now depositor info rule amount m ≡ fails e
      → is_unforeseen e ≡ true
  unfolding deposit check_travel_rule
  refused_later tokens rule m e free least most h =
      elim (Attempt-cases (admitted derive now depositor info amount m.vault)) [
        | inr (e', p) ↦ ground (arith, p, admitted_unforeseen m.vault e' least most p)
        | inl (_, p) ↦ elim (Attempt-cases (settle tokens amount m)) [
          | inr (e', q) ↦ ground (arith, p, q, free, settle_unforeseen tokens m e' q)
          | inl ((m', k), q) ↦ absurd (ground (arith, p, q, free))
        ]
      ]
