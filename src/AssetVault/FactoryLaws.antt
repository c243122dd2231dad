-- ===== src/AssetVault/FactoryLaws.antt =====
-- What any transactions of the authority and of others leave of the factory of the asset vaults.
use mathlib.Core.Option
use mathlib.Core.Path.{subst}
use oragami.Prelude.{
  ℕ, ◌<◌, ◌≡◌, refl, ap, sym, ◌∙◌, inl, inr, String, Bool, none, some, List, [], ◌∷◌, ◌++◌,
  length-append, arith, Option-cases, string_eq,
}
use oragami.Program.Credential.{ComplianceCredential}
use oragami.AssetVault.Attempt.{done, Attempt-cases}
use oragami.AssetVault.State.{Factory, AssetVault, AssetMarket}
use oragami.AssetVault.Factory.{
  World, RegisterParams, empty_world, initialize_factory, register_asset, set_nav, pause_vault,
  price, issue_credential, revoke_credential, market_of, new_market, store,
}
use oragami.AssetVault.Registry.{
  Command, initializes, registers, prices, pauses, issues, revokes, attempt, after, run, mints,
  IsPriced, Registry, IsOrderly, mints-store, store-IsDistinct, store-IsPriced, market_of-IsPriced,
}

Registry-store :
    (m' : AssetMarket) (o : Option.Option Factory) (ms : List AssetMarket)
    → Registry o ms
    → Registry o (store m' ms)
Registry-store m' none ms h = ap (store m') h
Registry-store m' (some f) ms (e, few) = (e ∙ sym (mints-store m' ms), few)

store-IsOrderly :
    (m' : AssetMarket) (w : World)
    → IsPriced m'
    → IsOrderly w
    → IsOrderly (record w { markets = store m' w.markets })
store-IsOrderly m' w p o = record {
  registry = Registry-store m' w.factory w.markets o.registry;
  distinct = store-IsDistinct m' w.markets o.distinct;
  priced = store-IsPriced m' w.markets p o.priced;
}

initialize_factory-IsOrderly :
    (authority : String) (fee_bps : ℕ) (w w' : World)
    → initialize_factory authority fee_bps w ≡ done w'
    → IsOrderly w
    → IsOrderly w'
unfolding initialize_factory
initialize_factory-IsOrderly authority fee_bps w w' h o = elim (Option-cases w.factory) [
  | inr (f, p) ↦ absurd (ground (arith, p))
  | inl p ↦
      let empty : w.markets ≡ [] = subst (λ x. Registry x w.markets) p o.registry in
      let same : w' ≡ record w {
        factory =
            some (record { authority = authority; fee_bps = fee_bps; registered_assets = [] });
      } =
        ground (arith, p) in
      rw same (record {
        registry = (sym (ap mints empty), omega arith);
        distinct = o.distinct;
        priced = o.priced;
      })
]

register_asset-IsOrderly :
    (signer : String) (params : RegisterParams) (w w' : World)
    → register_asset signer params w ≡ done w'
    → IsOrderly w
    → IsOrderly w'
unfolding register_asset
register_asset-IsOrderly signer params w w' h o = elim (Option-cases w.factory) [
  | inl p ↦ absurd (ground (arith, p))
  | inr (f, p) ↦
      let (e, few) = subst (λ x. Registry x w.markets) p o.registry in
      let same : w' ≡ record w {
        factory =
            some (record f { registered_assets = f.registered_assets ++ (params.asset_mint ∷ []) });
        markets = new_market params ∷ w.markets;
      } =
        ground (arith, p) in
      rw same (record {
        registry = (
          ap (λ x. x ++ (params.asset_mint ∷ [])) e,
          ground (arith, p, length-append {0} f.registered_assets (params.asset_mint ∷ [])),
        );
        distinct = (ground (arith, p), o.distinct);
        priced = (ground (arith, p), o.priced);
      })
]

price-IsPriced : (nav : ℕ) (v v' : AssetVault) → price nav v ≡ done v' → 0 < v'.nav_price_bps
unfolding price
price-IsPriced nav v v' h = ground arith

set_nav-IsOrderly :
    (signer mint : String) (nav : ℕ) (w w' : World)
    → set_nav signer mint nav w ≡ done w'
    → IsOrderly w
    → IsOrderly w'
unfolding set_nav
set_nav-IsOrderly signer mint nav w w' h o = elim (Option-cases (market_of mint w.markets)) [
  | inl p ↦ absurd (ground (arith, p))
  | inr (m, p) ↦ elim (Attempt-cases (price nav m.vault)) [
    | inr (e, q) ↦ absurd (ground (arith, p, q))
    | inl (v, q) ↦
        let same : w' ≡ record w { markets = store (record m { vault = v }) w.markets } =
          ground (arith, p, q) in
        rw same (store-IsOrderly (record m { vault = v }) w (price-IsPriced nav m.vault v q) o)
  ]
]

pause_vault-IsOrderly :
    (signer mint : String) (on : Bool) (w w' : World)
    → pause_vault signer mint on w ≡ done w'
    → IsOrderly w
    → IsOrderly w'
unfolding pause_vault
pause_vault-IsOrderly signer mint on w w' h o = elim (Option-cases (market_of mint w.markets)) [
  | inl p ↦ absurd (ground (arith, p))
  | inr (m, p) ↦
      let m' : AssetMarket = record m { vault = record m.vault { paused = on } } in
      let same : w' ≡ record w { markets = store m' w.markets } = ground (arith, p) in
      rw same (store-IsOrderly m' w (market_of-IsPriced mint w.markets m p o.priced) o)
]

-- The credentials are no part of it.
issue_credential-same :
    (signer : String) (params : ComplianceCredential) (w w' : World)
    → issue_credential signer params w ≡ done w'
    → (w'.factory ≡ w.factory) × (w'.markets ≡ w.markets)
unfolding issue_credential
issue_credential-same signer params w w' h = ground arith

revoke_credential-same :
    (signer wallet : String) (w w' : World)
    → revoke_credential signer wallet w ≡ done w'
    → (w'.factory ≡ w.factory) × (w'.markets ≡ w.markets)
unfolding revoke_credential
revoke_credential-same signer wallet w w' h = ground arith

same-IsOrderly :
    (w w' : World)
    → (w'.factory ≡ w.factory) × (w'.markets ≡ w.markets)
    → IsOrderly w
    → IsOrderly w'
same-IsOrderly w w' (f, m) o = record {
  registry = rw (f, m) o.registry;
  distinct = rw m o.distinct;
  priced = rw m o.priced;
}

attempt-IsOrderly :
    (c : Command) (w w' : World) → attempt c w ≡ done w' → IsOrderly w → IsOrderly w'
attempt-IsOrderly (initializes authority fee_bps) w w' h o =
    initialize_factory-IsOrderly authority fee_bps w w' h o
attempt-IsOrderly (registers signer params) w w' h o =
    register_asset-IsOrderly signer params w w' h o
attempt-IsOrderly (prices signer mint nav) w w' h o = set_nav-IsOrderly signer mint nav w w' h o
attempt-IsOrderly (pauses signer mint on) w w' h o = pause_vault-IsOrderly signer mint on w w' h o
attempt-IsOrderly (issues signer params) w w' h o =
    same-IsOrderly w w' (issue_credential-same signer params w w' h) o
attempt-IsOrderly (revokes signer wallet) w w' h o =
    same-IsOrderly w w' (revoke_credential-same signer wallet w w' h) o

after-IsOrderly : (w : World) (c : Command) → IsOrderly w → IsOrderly (after w (attempt c w))
after-IsOrderly w c o = elim (Attempt-cases (attempt c w)) [
  | inl (w', h) ↦ rw h (attempt-IsOrderly c w w' h o)
  | inr (e, h) ↦ rw h o
]

keep-IsOrderly : (cs : List Command) (w : World) → IsOrderly w → IsOrderly (run cs w)
unfolding run
keep-IsOrderly [] w o = o
keep-IsOrderly (c ∷ cs) w o = keep-IsOrderly cs _ (after-IsOrderly w c o)

-- after any sequence of initializations, registrations, NAV changes, pauses, issues and revocations
-- from the start, by whoever signs, failed ones included: before the factory there is no vault, and afterwards it lists exactly the mints of the vaults, in the order of their registration
-- and at most 16, no two vaults have one mint, and every vault has a NAV above zero.
pub run-IsOrderly : (cs : List Command) → IsOrderly (run cs empty_world)
run-IsOrderly cs =
    keep-IsOrderly cs empty_world (record { registry = refl; distinct = tt; priced = tt })
