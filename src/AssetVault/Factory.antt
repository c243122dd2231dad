-- ===== src/AssetVault/Factory.antt =====
-- oragami-vault/programs/multi-asset-vault/src/instructions: initialize.rs, register_asset.rs,
-- set_nav.rs, admin.rs and credential.rs, over all accounts of the program. The signer is an argument.
use oragami.Prelude.{
  ℕ, ◌-◌, ◌+◌, ◌*◌, ◌/◌, min, String, Bool, false, not, ◌&&◌, Option, none, some, List, [], ◌∷◌,
  ◌++◌, length, map, find, any, is_some, ltb, leb, if◌then◌else◌, ◌==◌, string_eq, nat_eq,
}
use oragami.Program.Credential.{
  ComplianceCredential, account_of, set_revoked, credential_status_active,
  credential_status_revoked,
}
use oragami.Program.Vault.{nav_bps_denominator, u64_limit}
use oragami.AssetVault.Attempt.{
  Attempt, done, ◌>>=◌, ◌>>◌, require, ok_or, checked, constraint, invalid_nav, deposit_too_small,
  asset_already_registered, factory_full, nav_change_too_large, credential_expired,
  credential_already_revoked,
}
use oragami.AssetVault.State.{Factory, AssetVault, AssetMarket, max_nav_change_bps, max_assets}

-- The accounts at the addresses that the program derives: the factory, the vaults with their
-- tokens, and the credentials of its own.
pub record World : Type 0 where
  pub factory : Option Factory
  pub markets : List AssetMarket
  pub credentials : List ComplianceCredential

abbrev pub empty_world : World
empty_world = record { factory = none; markets = []; credentials = [] }

-- `init` fails where the account exists.
unfoldable pub initialize_factory : String → ℕ → World → Attempt World
initialize_factory authority fee_bps w = do
  require (not (is_some w.factory)) constraint
  done (record w {
    factory = some (record { authority = authority; fee_bps = fee_bps; registered_assets = [] });
  })

-- The factory, if its authority signs.
abbrev pub authorized : String → World → Attempt Factory
authorized signer w = do
  f ← ok_or constraint w.factory
  require (f.authority == signer) constraint
  done f

abbrev pub market_of : String → List AssetMarket → Option AssetMarket
market_of mint = find (λ m. m.vault.asset_mint == mint)

abbrev pub contains : String → List String → Bool
contains mint = any (λ x. x == mint)

pub record RegisterParams : Type 0 where
  pub asset_mint : String
  pub share_mint : String
  pub vault_token_account : String
  pub ticker : List ℕ
  pub nav_price_bps : ℕ
  pub min_deposit : ℕ
  pub max_deposit : ℕ
  pub travel_rule_required : Bool

abbrev pub new_market : RegisterParams → AssetMarket
new_market p = record {
  vault = record {
    asset_mint = p.asset_mint;
    share_mint = p.share_mint;
    vault_token_account = p.vault_token_account;
    nav_price_bps = p.nav_price_bps;
    total_deposits = 0;
    total_supply = 0;
    min_deposit = p.min_deposit;
    max_deposit = p.max_deposit;
    ticker = p.ticker;
    travel_rule_required = p.travel_rule_required;
    paused = false;
  };
  vault_tokens = 0;
  share_supply = 0;
}

-- The accounts of the vault are made by the same transaction, by `init`.
unfoldable pub register_asset : String → RegisterParams → World → Attempt World
register_asset signer p w = do
  f ← authorized signer w
  require (not (is_some (market_of p.asset_mint w.markets))) constraint
  require (ltb 0 p.nav_price_bps) invalid_nav
  require (leb p.min_deposit p.max_deposit) deposit_too_small
  require (not (contains p.asset_mint f.registered_assets)) asset_already_registered
  require (ltb (length f.registered_assets) max_assets) factory_full
  done (record w {
    factory = some (record f { registered_assets = f.registered_assets ++ (p.asset_mint ∷ []) });
    markets = new_market p ∷ w.markets;
  })

-- `saturating_add`
abbrev saturating_add : ℕ → ℕ → ℕ
saturating_add a b = min (a + b) (u64_limit - 1)

unfoldable pub price : ℕ → AssetVault → Attempt AssetVault
price nav v = do
  require (ltb 0 nav) invalid_nav
  p ← checked (v.nav_price_bps * max_nav_change_bps)
  let max_change = p / nav_bps_denominator
  require
      (leb (v.nav_price_bps - max_change) nav
        && leb nav (saturating_add v.nav_price_bps max_change))
      nav_change_too_large
  done (record v { nav_price_bps = nav })

abbrev pub store : AssetMarket → List AssetMarket → List AssetMarket
store m' = map (λ m. if m.vault.asset_mint == m'.vault.asset_mint then m' else m)

unfoldable pub set_nav : String → String → ℕ → World → Attempt World
unfolding price
set_nav signer mint nav w = do
  f ← authorized signer w
  m ← ok_or constraint (market_of mint w.markets)
  v ← price nav m.vault
  done (record w { markets = store (record m { vault = v }) w.markets })

unfoldable pub pause_vault : String → String → Bool → World → Attempt World
pause_vault signer mint paused w = do
  f ← authorized signer w
  m ← ok_or constraint (market_of mint w.markets)
  done (record w {
    markets = store (record m { vault = record m.vault { paused = paused } }) w.markets;
  })

-- The credentials that the program keeps itself, `params.issued_at` being the instant.
unfoldable pub issue_credential : String → ComplianceCredential → World → Attempt World
issue_credential signer params w = do
  f ← authorized signer w
  require (not (is_some (account_of params.wallet w.credentials))) constraint
  require (ltb params.issued_at params.expires_at) credential_expired
  done (record w {
    credentials = (record params { status = credential_status_active }) ∷ w.credentials;
  })

unfoldable pub revoke_credential : String → String → World → Attempt World
revoke_credential signer wallet w = do
  f ← authorized signer w
  c ← ok_or constraint (account_of wallet w.credentials)
  require (not (c.status == credential_status_revoked)) credential_already_revoked
  done (record w { credentials = set_revoked wallet w.credentials })
