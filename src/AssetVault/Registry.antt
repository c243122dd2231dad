-- ===== src/AssetVault/Registry.antt =====
-- Sequences of transactions on the factory of the asset vaults, and its registry against the vaults.
use mathlib.Core.Option
use oragami.Prelude.{
  ℕ, ◌≤◌, ◌<◌, ◌≡◌, refl, String, Bool, none, some, List, [], ◌∷◌, ◌++◌, length, All, arith, eq_iff,
  string_eq,
}
use oragami.Program.Credential.{ComplianceCredential}
use oragami.AssetVault.Attempt.{Attempt, done, fails}
use oragami.AssetVault.State.{Factory, AssetMarket}
use oragami.AssetVault.Factory.{
  World, RegisterParams, initialize_factory, register_asset, set_nav, pause_vault, issue_credential,
  revoke_credential, market_of, store,
}

-- A transaction, by whoever signs.
pub data Command : Type 0 where
  initializes : (authority : String) (fee_bps : ℕ) → Command
  registers : (signer : String) (params : RegisterParams) → Command
  prices : (signer mint : String) (nav : ℕ) → Command
  pauses : (signer mint : String) (on : Bool) → Command
  issues : (signer : String) (params : ComplianceCredential) → Command
  revokes : (signer wallet : String) → Command

abbrev pub attempt : Command → World → Attempt World
attempt (initializes authority fee_bps) w = initialize_factory authority fee_bps w
attempt (registers signer params) w = register_asset signer params w
attempt (prices signer mint nav) w = set_nav signer mint nav w
attempt (pauses signer mint on) w = pause_vault signer mint on w
attempt (issues signer params) w = issue_credential signer params w
attempt (revokes signer wallet) w = revoke_credential signer wallet w

-- A transaction that fails changes nothing.
abbrev pub after : World → Attempt World → World
after w (done w') = w'
after w (fails e) = w

unfoldable pub run : List Command → World → World
run [] w = w
run (c ∷ cs) w = run cs (after w (attempt c w))

-- The mints of the vaults, in the order of their registration.
abbrev pub mints : List AssetMarket → List String
mints [] = []
mints (m ∷ ms) = mints ms ++ (m.vault.asset_mint ∷ [])

-- No two vaults have one mint.
abbrev pub IsDistinct : List AssetMarket → Type 0
IsDistinct [] = Unit
IsDistinct (m ∷ ms) = (market_of m.vault.asset_mint ms ≡ none) × IsDistinct ms

-- A share has a price.
abbrev pub IsPriced : AssetMarket → Type 0
IsPriced m = 0 < m.vault.nav_price_bps

abbrev pub Registry : Option.Option Factory → List AssetMarket → Type 0
Registry none ms = ms ≡ []
Registry (some f) ms = (f.registered_assets ≡ mints ms) × (length f.registered_assets ≤ 16)

pub record IsOrderly (w : World) : Type 0 where
  pub registry : Registry w.factory w.markets
  pub distinct : IsDistinct w.markets
  pub priced : All IsPriced w.markets

pub market_of-mint :
    (mint : String) (ms : List AssetMarket) (m : AssetMarket)
    → market_of mint ms ≡ some m
    → m.vault.asset_mint ≡ mint
market_of-mint mint [] m h = ground arith
market_of-mint mint (x ∷ ms) m h =
    ground (arith, eq_iff x.vault.asset_mint mint, market_of-mint mint ms m)

pub mints-store : (m' : AssetMarket) (ms : List AssetMarket) → mints (store m' ms) ≡ mints ms
mints-store m' [] = refl
mints-store m' (x ∷ ms) =
    ground (arith, eq_iff x.vault.asset_mint m'.vault.asset_mint, mints-store m' ms)

pub market_of-store :
    (mint : String) (m' : AssetMarket) (ms : List AssetMarket)
    → market_of mint ms ≡ none
    → market_of mint (store m' ms) ≡ none
market_of-store mint m' [] h = refl
market_of-store mint m' (x ∷ ms) h = ground (
  arith,
  eq_iff x.vault.asset_mint m'.vault.asset_mint,
  eq_iff x.vault.asset_mint mint,
  eq_iff m'.vault.asset_mint mint,
  market_of-store mint m' ms,
)

pub store-IsDistinct :
    (m' : AssetMarket) (ms : List AssetMarket) → IsDistinct ms → IsDistinct (store m' ms)
store-IsDistinct m' [] h = tt
store-IsDistinct m' (x ∷ ms) (new, h) = ground (
  arith,
  eq_iff x.vault.asset_mint m'.vault.asset_mint,
  market_of-store x.vault.asset_mint m' ms new,
  store-IsDistinct m' ms h,
)

pub store-IsPriced :
    (m' : AssetMarket) (ms : List AssetMarket)
    → IsPriced m'
    → All IsPriced ms
    → All IsPriced (store m' ms)
store-IsPriced m' [] p h = tt
store-IsPriced m' (x ∷ ms) p (q, h) = ground (arith, store-IsPriced m' ms p h)

pub market_of-IsPriced :
    (mint : String) (ms : List AssetMarket) (m : AssetMarket)
    → market_of mint ms ≡ some m
    → All IsPriced ms
    → IsPriced m
market_of-IsPriced mint [] m h p = ground arith
market_of-IsPriced mint (x ∷ ms) m h (q, p) = ground (arith, market_of-IsPriced mint ms m)
