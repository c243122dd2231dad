-- ===== src/Tests/SetupTests.antt =====
-- The theorems on the setup script, for mints of gold and silver.
use oragami.Prelude.{
  ◌≡◌, ◌≢◌, refl, true, false, not, none, some, [], ◌==◌, string_eq, length, nat_eq,
}
use oragami.Prelude.Results.{ok}
use oragami.Encoding.Codes.{codes}
use oragami.AssetVault.Factory.{empty_world, initialize_factory, register_asset, issue_credential}
use oragami.AssetVault.Setup.{SetupEnv, Devnet, main, deploy, ensure, manifest_of, answered}
use oragami.AssetVault.SetupTwice.{airdropped}
use oragami.AssetVault.Redeploy.{main-main, main_refused}

-- A network on which everything is answered.
abbrev env : SetupEnv
env = record {
  texts = codes;
  authority = "operator";
  now_ms = 5000;
  chain_now = 5;
  is_public_key = λ text. not (text == "");
  gold_created = some "gold";
  silver_created = some "silver";
  reached = λ account. true;
  sent = λ account. answered;
  is_minted = λ mint. true;
  pda = λ seed key. seed;
  fifth_argument = some false;
}

abbrev start : Devnet
start = record { world = empty_world; minted = []; manifest = none }

ends : (main env start).0 ≡ ok (manifest_of env "gold" "silver")
unfolding main deploy ensure initialize_factory register_asset issue_credential
ends = refl

two_vaults : length (main env start).1.world.markets ≡ 2
unfolding main deploy ensure initialize_factory register_asset issue_credential
two_vaults = refl

run_ends : main env start ≡ (ok (manifest_of env "gold" "silver"), (main env start).1)
unfolding main deploy ensure initialize_factory register_asset issue_credential
run_ends = refl

main-main_example : main env (main env start).1 ≡ (
  ok (manifest_of env "gold" "silver"),
  record (airdropped env "gold" "silver" (main env start).1) {
    manifest = some (manifest_of env "gold" "silver");
  },
)
main-main_example =
    main-main env env start (main env start).1 (manifest_of env "gold" "silver") run_ends refl
      (λ a. refl) refl refl refl refl refl

main_refused_example :
    (main (record env { fifth_argument = none }) start).0 ≢ ok (manifest_of env "gold" "silver")
main_refused_example =
    main_refused (record env { fifth_argument = none }) start (manifest_of env "gold" "silver") refl
      refl
