-- ===== src/AssetVault/Redeploy.antt =====
-- oragami-vault/scripts/setup-multi-asset-vault.ts: the whole script, once more after it has ended, and
-- with the program of this repository.
use mathlib.Core.Path.{subst}
use oragami.Prelude.{
  ℕ, ◌≡◌, ◌≢◌, refl, ap, sym, ◌∙◌, inl, inr, String, true, false, not, Option, none, some, [],
  arith, eq_iff, string_eq, Bool-cases, ◌==◌,
}
use oragami.Prelude.Results.{ok, Action, ◌>>=◌, ◌>>◌, pure, modify, gets, throw_if, thrown}
use oragami.AssetVault.Attempt.{done}
use oragami.AssetVault.Factory.{World, initialize_factory}
use oragami.AssetVault.Setup.{
  Account, factory_account, vault_account, credential_account, wallet_account, SetupEnv, Manifest,
  Devnet, exists, ensure, register, deploy, main, mint_of, saved_mint, manifest_of,
}
use oragami.AssetVault.SetupTwice.{
  >>=-eq-ok, delivered-eq-ok, IsDeployed, deploy-IsDeployed, deploy-again, airdropped,
  from_gold_vault, from_silver_vault,
}

-- The choice of a mint changes nothing.
mint_of-state :
    (env : SetupEnv) (saved created : Option String) (s t : Devnet) (mint : String)
    → mint_of env saved created s ≡ (ok mint, t)
    → t ≡ s
mint_of-state env none none s t mint h = cc
mint_of-state env none (some created) s t mint h = ground arith
mint_of-state env (some saved) none s t mint h = ground arith
mint_of-state env (some saved) (some created) s t mint h = ground arith

module _ (env : SetupEnv) where
  -- The script once the mints are known.
  abbrev saved_as : String → String → Action Devnet Manifest
  saved_as gold silver =
      modify (λ s. record s { manifest = some (manifest_of env gold silver) })
      >> pure (manifest_of env gold silver)

  abbrev with_mints : String → String → Action Devnet Manifest
  with_mints gold silver = deploy env gold silver >> saved_as gold silver

  abbrev with_gold : Option Manifest → String → Action Devnet Manifest
  with_gold saved gold =
      mint_of env (saved_mint (λ m. m.silver_mint) saved) env.silver_created >>= with_mints gold

  abbrev with_saved : Option Manifest → Action Devnet Manifest
  with_saved saved =
      mint_of env (saved_mint (λ m. m.gold_mint) saved) env.gold_created >>= with_gold saved

  -- The deployment of a run that ends.
  main-deploy :
      (s t : Devnet) (m : Manifest)
      → main env s ≡ (ok m, t)
      → (gold silver : String) × (u : Devnet) × ((deploy env gold silver s ≡ (ok tt, u))
          × (saved_as gold silver u ≡ (ok m, t)))
  unfolding main
  main-deploy s t m h =
      let (_, s1, (h1, k1)) =
        >>=-eq-ok (throw_if {S = Devnet} (not (env.reached wallet_account)) (thrown "network"))
          (λ x. gets (λ s. s.manifest) >>= with_saved) s t m h in
      let (saved, s2, (h2, k2)) =
        >>=-eq-ok (gets {S = Devnet} (λ s. s.manifest)) with_saved s1 t m k1 in
      let (gold, s3, (h3, k3)) =
        >>=-eq-ok (mint_of env (saved_mint (λ m. m.gold_mint) saved) env.gold_created)
          (with_gold saved) s2 t m k2 in
      let (silver, s4, (h4, k4)) =
        >>=-eq-ok (mint_of env (saved_mint (λ m. m.silver_mint) saved) env.silver_created)
          (with_mints gold) s3 t m k3 in
      let (_, s5, (h5, k5)) =
        >>=-eq-ok (deploy env gold silver) (λ x. saved_as gold silver) s4 t m k4 in
      let unread : s2 ≡ s = ground arith in
      let same4 =
        mint_of-state env (saved_mint (λ m. m.silver_mint) saved) env.silver_created s3 s4 silver
          h4 in
      let same3 =
        mint_of-state env (saved_mint (λ m. m.gold_mint) saved) env.gold_created s2 s3 gold h3 in
      (
        gold,
        silver,
        s5,
        (subst (λ x. deploy env gold silver x ≡ (ok tt, s5)) (same4 ∙ same3 ∙ unread) h5, k5),
      )

  main-IsDeployed :
      (s t : Devnet) (m : Manifest)
      → main env s ≡ (ok m, t)
      → IsDeployed env m.gold_mint m.silver_mint t.world × (t.manifest ≡ some m)
  main-IsDeployed s t m h =
      let (gold, silver, u, (h5, k5)) = main-deploy s t m h in
      let same : m ≡ manifest_of env gold silver = ground arith in
      let left : t ≡ record u { manifest = some (manifest_of env gold silver) } = ground arith in
      rw (same, left) ((deploy-IsDeployed env gold silver s u h5).0, refl)

-- A mint of the manifest is taken over.
mint_of-saved :
    (env : SetupEnv) (mint : String) (created : Option String) (s : Devnet)
    → env.is_public_key "" ≡ false
    → env.is_public_key mint ≡ true
    → mint_of env (some mint) created s ≡ (ok mint, s)
mint_of-saved env mint created s empty key = elim (Bool-cases (mint == "")) [
  | inr other ↦ ground (arith, other, key)
  | inl same ↦
      absurd (
        ground
          (arith, empty, subst (λ x. env.is_public_key x ≡ true) ((eq_iff mint "").0 same) key))
]

-- after a run of the script that ended, whatever the network did to it, a later run by the same
-- authority whose queries and mints are answered, and that reads both mints of the manifest as
-- addresses and the empty text as none, ends too: it leaves the factory, the vaults and the
-- credentials as they were, keeps both mints in the manifest, and mints the demo tokens once more.
pub main-main :
    (env env' : SetupEnv) (s t : Devnet) (m : Manifest)
    → main env s ≡ (ok m, t)
    → env'.authority ≡ env.authority
    → ((a : Account) → env'.reached a ≡ true)
    → env'.is_public_key "" ≡ false
    → env'.is_public_key m.gold_mint ≡ true
    → env'.is_public_key m.silver_mint ≡ true
    → env'.is_minted m.gold_mint ≡ true
    → env'.is_minted m.silver_mint ≡ true
    → main env' t ≡ (
      ok (manifest_of env' m.gold_mint m.silver_mint),
      record (airdropped env' m.gold_mint m.silver_mint t) {
        manifest = some (manifest_of env' m.gold_mint m.silver_mint);
      },
    )
unfolding main
main-main env env' s t m h same reached empty gold silver gold_minted silver_minted =
    let (deployed, saved) = main-IsDeployed env s t m h in
    let deployed' =
      subst
        (λ x.
          (exists factory_account t.world ≡ true)
          × (exists (vault_account m.gold_mint) t.world ≡ true)
          × (exists (vault_account m.silver_mint) t.world ≡ true)
          × (exists (credential_account x) t.world ≡ true))
        (sym same) deployed in
    ground (
      arith,
      reached wallet_account,
      saved,
      mint_of-saved env' m.gold_mint env'.gold_created t empty gold,
      mint_of-saved env' m.silver_mint env'.silver_created t empty silver,
      deploy-again env' m.gold_mint m.silver_mint t reached gold_minted silver_minted deployed',
    )

-- Making the factory registers no asset.
initialize-markets :
    (authority : String) (fee : ℕ) (w w' : World)
    → initialize_factory authority fee w ≡ done w'
    → w'.markets ≡ w.markets
unfolding initialize_factory
initialize-markets authority fee w w' h = ground arith

ensure_factory-markets :
    (env : SetupEnv) (s t : Devnet)
    → ensure env factory_account (initialize_factory env.authority 10) s ≡ (ok tt, t)
    → t.world.markets ≡ s.world.markets
unfolding ensure
ensure_factory-markets env s t h = elim (Bool-cases (exists factory_account s.world)) [
  | inl there ↦ ground (arith, there)
  | inr missing ↦
      let (w, (took, same)) =
        delivered-eq-ok (env.sent factory_account) (initialize_factory env.authority 10) s t
          (ground (arith, missing)) in
      rw same (initialize-markets env.authority 10 s.world w took)
]

-- A program that refuses the registration leaves a vault that is missing so.
ensure_vault-refused :
    (env : SetupEnv) (mint ticker : String) (s t : Devnet)
    → env.fifth_argument ≡ none
    → s.world.markets ≡ []
    → ensure env (vault_account mint) (register env mint ticker) s ≢ (ok tt, t)
unfolding ensure
ensure_vault-refused env mint ticker s t refuses bare h =
    let missing : exists (vault_account mint) s.world ≡ false = ground (arith, bare) in
    let (w, (took, same)) =
      delivered-eq-ok (env.sent (vault_account mint)) (register env mint ticker) s t
        (ground (arith, missing)) in
    ground (arith, refuses, took)

deploy_refused :
    (env : SetupEnv) (gold silver : String) (s t : Devnet)
    → env.fifth_argument ≡ none
    → s.world.markets ≡ []
    → deploy env gold silver s ≢ (ok tt, t)
unfolding deploy
deploy_refused env gold silver s t refuses bare h =
    let (_, s1, (h1, k1)) =
      >>=-eq-ok (ensure env factory_account (initialize_factory env.authority 10))
        (λ x. from_gold_vault env gold silver) s t tt h in
    let (_, s2, (h2, k2)) =
      >>=-eq-ok (ensure env (vault_account gold) (register env gold "GOLD\0\0\0\0"))
        (λ x. from_silver_vault env gold silver) s1 t tt k1 in
    ensure_vault-refused env gold "GOLD\0\0\0\0" s1 s2 refuses
      (ensure_factory-markets env s s1 h1 ∙ bare) h2

-- where the program refuses a registration that carries four arguments, as the one of this repository
-- does, a run of the script on a chain without vaults never ends with a manifest, whatever the network
-- answers.
pub main_refused :
    (env : SetupEnv) (s : Devnet) (m : Manifest)
    → env.fifth_argument ≡ none
    → s.world.markets ≡ []
    → (main env s).0 ≢ ok m
main_refused env s m refuses bare h =
    let (gold, silver, u, (deployed, k)) =
      main-deploy env s (main env s).1 m (ap (λ r. (r, (main env s).1)) h) in
    deploy_refused env gold silver s u refuses bare deployed
