-- ===== src/AssetVault/SetupLaws.antt =====
-- The setup script run twice, and against the program of this repository.
use oragami.Prelude.{ℕ, ◌≡◌, refl, inl, inr, String, true, arith, eq_iff, string_eq, Option-cases}
use oragami.Program.Credential.{ComplianceCredential}
use oragami.AssetVault.Attempt.{Attempt, done}
use oragami.AssetVault.Factory.{
  World, RegisterParams, initialize_factory, register_asset, issue_credential,
}
use oragami.AssetVault.Setup.{
  Account, factory_account, vault_account, credential_account, wallet_account, exists,
}

-- What a command makes.
abbrev pub Makes : Account → (World → Attempt World) → Type 0
Makes a f = (w w' : World) → f w ≡ done w' → exists a w' ≡ true

-- A command deletes no account.
abbrev pub Keeps : (World → Attempt World) → Type 0
Keeps f = (b : Account) (w w' : World) → exists b w ≡ true → f w ≡ done w' → exists b w' ≡ true

pub initialize-Makes :
    (authority : String) (fee : ℕ) → Makes factory_account (initialize_factory authority fee)
unfolding initialize_factory
initialize-Makes authority fee w w' h = elim (Option-cases w.factory) [
  | inr (f, p) ↦ absurd (ground (arith, p))
  | inl p ↦ ground (arith, p)
]

pub initialize-Keeps : (authority : String) (fee : ℕ) → Keeps (initialize_factory authority fee)
unfolding initialize_factory
initialize-Keeps authority fee wallet_account w w' there h = refl
initialize-Keeps authority fee factory_account w w' there h = ground arith
initialize-Keeps authority fee (vault_account mint) w w' there h = ground arith
initialize-Keeps authority fee (credential_account wallet) w w' there h = ground arith

pub register_asset-Makes :
    (signer : String) (p : RegisterParams)
    → Makes (vault_account p.asset_mint) (register_asset signer p)
unfolding register_asset
register_asset-Makes signer p w w' h = elim (Option-cases w.factory) [
  | inl q ↦ absurd (ground (arith, q))
  | inr (f, q) ↦ ground (arith, q, eq_iff p.asset_mint p.asset_mint)
]

pub register_asset-Keeps : (signer : String) (p : RegisterParams) → Keeps (register_asset signer p)
unfolding register_asset
register_asset-Keeps signer p wallet_account w w' there h = refl
register_asset-Keeps signer p factory_account w w' there h = elim (Option-cases w.factory) [
  | inl q ↦ absurd (ground (arith, q))
  | inr (f, q) ↦ ground (arith, q)
]
register_asset-Keeps signer p (vault_account mint) w w' there h = elim (Option-cases w.factory) [
  | inl q ↦ absurd (ground (arith, q))
  | inr (f, q) ↦ ground (arith, q)
]
register_asset-Keeps signer p (credential_account wallet) w w' there h =
    elim (Option-cases w.factory) [
      | inl q ↦ absurd (ground (arith, q))
      | inr (f, q) ↦ ground (arith, q)
    ]

pub issue-Makes :
    (signer : String) (c : ComplianceCredential)
    → Makes (credential_account c.wallet) (issue_credential signer c)
unfolding issue_credential
issue-Makes signer c w w' h = elim (Option-cases w.factory) [
  | inl q ↦ absurd (ground (arith, q))
  | inr (f, q) ↦ ground (arith, q, eq_iff c.wallet c.wallet)
]

pub issue-Keeps : (signer : String) (c : ComplianceCredential) → Keeps (issue_credential signer c)
unfolding issue_credential
issue-Keeps signer c wallet_account w w' there h = refl
issue-Keeps signer c factory_account w w' there h = elim (Option-cases w.factory) [
  | inl q ↦ absurd (ground (arith, q))
  | inr (f, q) ↦ ground (arith, q)
]
issue-Keeps signer c (vault_account mint) w w' there h = elim (Option-cases w.factory) [
  | inl q ↦ absurd (ground (arith, q))
  | inr (f, q) ↦ ground (arith, q)
]
issue-Keeps signer c (credential_account wallet) w w' there h = elim (Option-cases w.factory) [
  | inl q ↦ absurd (ground (arith, q))
  | inr (f, q) ↦ ground (arith, q)
]
