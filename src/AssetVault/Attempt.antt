-- ===== src/AssetVault/Attempt.antt =====
-- oragami-vault/programs/multi-asset-vault/src/error.rs, and chains of steps that end in an error. A
-- transaction that fails changes nothing, so an instruction answers with the next state or an error.
use oragami.Prelude.{◌≡◌, refl, ◌⊎◌, inl, inr, Bool, Option, none, some, if◌then◌else◌}
use oragami.Program.Vault.{fits}
use oragami.Prelude.{ℕ}

-- The last three are Anchor's, for a check of the accounts and for an account that cannot be read,
-- and that of the token program.
pub data VaultError : Type 0 where
  asset_already_registered factory_full : VaultError
  vault_paused deposit_too_small deposit_too_large insufficient_vault_funds : VaultError
  invalid_nav nav_change_too_large : VaultError
  credential_not_active credential_expired credential_wallet_mismatch : VaultError
  credential_already_revoked : VaultError
  overflow zero_shares : VaultError
  receiver_credential_not_active receiver_credential_expired : VaultError
  wrong_share_mint wrong_credential_program invalid_credential_pda : VaultError
  travel_rule_required invalid_travel_rule travel_rule_already_consumed : VaultError
  constraint unreadable token_refused : VaultError

pub data Attempt {ℓ} (A : Type ℓ) : Type ℓ where
  done : A → Attempt A
  fails : VaultError → Attempt A

infixl 5 ◌>>=◌ ◌>>◌
abbrev pub ◌>>=◌ {ℓ κ} : {A : Type ℓ} {B : Type κ} → Attempt A → (A → Attempt B) → Attempt B
done a >>= f = f a
fails e >>= f = fails e

abbrev pub ◌>>◌ {ℓ κ} : {A : Type ℓ} {B : Type κ} → Attempt A → Attempt B → Attempt B
m >> k = m >>= λ _. k

-- `require!(c, e)`
abbrev pub require : Bool → VaultError → Attempt (Unit {0})
require c e = if c then done tt else fails e

-- `ok_or(e)`
abbrev pub ok_or {ℓ} : {A : Type ℓ} → VaultError → Option A → Attempt A
ok_or e none = fails e
ok_or e (some a) = done a

-- A checked result of `u64` arithmetic.
abbrev pub checked : ℕ → Attempt ℕ
checked n = ok_or overflow (fits n)

pub Attempt-cases {ℓ} :
    {A : Type ℓ} (m : Attempt A) → ((a : A) × (m ≡ done a)) ⊎ ((e : VaultError) × (m ≡ fails e))
Attempt-cases (done a) = inl (a, refl)
Attempt-cases (fails e) = inr (e, refl)

-- Inversion of a chain that succeeds.
pub >>=-eq-done {ℓ κ} :
    {A : Type ℓ} {B : Type κ} (m : Attempt A) (f : A → Attempt B) {b : B}
    → (m >>= f) ≡ done b
    → (a : A) × ((m ≡ done a) × (f a ≡ done b))
>>=-eq-done (done a) f h = (a, (refl, h))
>>=-eq-done (fails e) f h = cc
