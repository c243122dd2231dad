-- ===== src/AssetVault/Setup.antt =====
-- oragami-vault/scripts/setup-multi-asset-vault.ts, over the accounts of the program. What the network
-- answers is in `SetupEnv`. Reading the files of the wallet and of the IDL, and printing, is left out.
use oragami.Prelude.{
  ℕ, ◌+◌, ◌*◌, String, Bool, true, not, Option, none, some, List, ◌∷◌, is_some, replicate,
  if◌then◌else◌, ◌==◌, string_eq,
}
use oragami.Prelude.Clock.{to_seconds}
use oragami.Prelude.Results.{
  Result, ok, err, Action, ◌>>=◌, ◌>>◌, pure, throw, gets, or_throw, throw_if, modify, thrown,
}
use oragami.Encoding.Bytes.{Texts, str_to_bytes}
use oragami.Program.Credential.{ComplianceCredential, account_of}
use oragami.AssetVault.Attempt.{Attempt, done, fails, unreadable}
use oragami.AssetVault.Factory.{
  World, RegisterParams, initialize_factory, register_asset, issue_credential, market_of,
}

-- The accounts that the script asks for, and that it makes.
pub data Account : Type 0 where
  wallet_account factory_account : Account
  vault_account : (mint : String) → Account
  credential_account : (wallet : String) → Account

-- What became of a transaction: `rpc()` gave its outcome; it threw and the transaction was never
-- taken; or it threw although the transaction was taken.
pub data Delivery : Type 0 where
  answered lost unconfirmed : Delivery

pub record SetupEnv : Type 0 where
  pub texts : Texts
  pub authority : String
  -- `Date.now()`, and the clock of the chain in seconds
  pub now_ms : ℕ
  pub chain_now : ℕ
  -- whether `new PublicKey` takes a text
  pub is_public_key : String → Bool
  -- the answers of `createMint`
  pub gold_created : Option String
  pub silver_created : Option String
  -- whether a query is answered, and the fate of the transaction that makes an account
  pub reached : Account → Bool
  pub sent : Account → Delivery
  -- whether the token account of a mint is there, or made, and `mintTo` is answered
  pub is_minted : String → Bool
  -- the address of seeds and a key under the program
  pub pda : String → String → String
  -- what the program that is deployed reads as `travel_rule_required` in a call that carries four
  -- arguments: none if it refuses the call
  pub fifth_argument : Option Bool

pub record Manifest : Type 0 where
  pub authority : String
  pub gold_mint : String
  pub silver_mint : String
  pub gold_share_mint : String
  pub silver_share_mint : String
  pub deployed_at : ℕ

-- The accounts of the program, the tokens that were minted, and the file of the manifest.
pub record Devnet : Type 0 where
  pub world : World
  pub minted : List (String × ℕ)
  pub manifest : Option Manifest

abbrev pub exists : Account → World → Bool
exists wallet_account w = true
exists factory_account w = is_some w.factory
exists (vault_account mint) w = is_some (market_of mint w.markets)
exists (credential_account wallet) w = is_some (account_of wallet w.credentials)

-- The state after a program's answer.
abbrev pub executed : Attempt World → Devnet → Result (Unit {0}) × Devnet
executed (done w) s = (ok tt, record s { world = w })
executed (fails e) s = (err (thrown "rejected"), s)

abbrev pub delivered : Delivery → (World → Attempt World) → Action Devnet (Unit {0})
delivered answered f s = executed (f s.world) s
delivered lost f s = (err (thrown "network"), s)
delivered unconfirmed f s = let (r, s') = executed (f s.world) s in (err (thrown "network"), s')

abbrev pub saved_mint : (Manifest → String) → Option Manifest → Option String
saved_mint field none = none
saved_mint field (some m) = some (field m)

module _ (env : SetupEnv) where
  abbrev pub account_exists : Account → Action Devnet Bool
  account_exists a = do
    throw_if (not (env.reached a)) (thrown "network")
    gets (λ s. exists a s.world)

  -- A step that is skipped where its account is there.
  unfoldable pub ensure : Account → (World → Attempt World) → Action Devnet (Unit {0})
  ensure a f = do there ← account_exists a; if there then pure tt else delivered (env.sent a) f

  -- A mint that the manifest names, or a new one; the empty text counts as none.
  abbrev pub mint_of : Option String → Option String → Action Devnet String
  mint_of none created = or_throw (thrown "network") created
  mint_of (some saved) created =
      if saved == ""
      then or_throw (thrown "network") created
      else if env.is_public_key saved
      then pure saved
      else throw (thrown "Invalid public key input")

  abbrev pub registration : String → String → Bool → RegisterParams
  registration mint ticker travel_rule_required = record {
    asset_mint = mint;
    share_mint = env.pda "share_mint" mint;
    vault_token_account = env.pda "vault_token" mint;
    ticker = str_to_bytes env.texts ticker 8;
    nav_price_bps = 10000;
    min_deposit = 1000000;
    max_deposit = 1000000000000;
    travel_rule_required = travel_rule_required;
  }

  -- The call carries four arguments.
  abbrev pub register : String → String → World → Attempt World
  register mint ticker w = elim env.fifth_argument [
    | none ↦ fails unreadable
    | some required ↦ register_asset env.authority (registration mint ticker required) w
  ]

  abbrev pub demo_credential : ComplianceCredential
  demo_credential = record {
    wallet = env.authority;
    institution_name = str_to_bytes env.texts "Oragami Demo Institution" 64;
    jurisdiction = str_to_bytes env.texts "CH\0\0" 4;
    tier = 3;
    kyc_level = 3;
    aml_coverage = 95;
    attestation_hash = replicate 32 0;
    issued_at = env.chain_now;
    expires_at = to_seconds env.now_ms + 365 * 24 * 60 * 60;
    status = 1;
  }

  abbrev pub airdrop : String → ℕ → Action Devnet (Unit {0})
  airdrop mint amount = do
    throw_if (not (env.is_minted mint)) (thrown "network")
    modify (λ s. record s { minted = (mint, amount) ∷ s.minted })

  abbrev pub manifest_of : String → String → Manifest
  manifest_of gold silver = record {
    authority = env.authority;
    gold_mint = gold;
    silver_mint = silver;
    gold_share_mint = env.pda "share_mint" gold;
    silver_share_mint = env.pda "share_mint" silver;
    deployed_at = env.now_ms;
  }

  -- The steps on the accounts, once the mints are known.
  unfoldable pub deploy : String → String → Action Devnet (Unit {0})
  unfolding ensure
  deploy gold silver = do
    ensure factory_account (initialize_factory env.authority 10)
    ensure (vault_account gold) (register gold "GOLD\0\0\0\0")
    ensure (vault_account silver) (register silver "SILVER\0\0")
    airdrop gold 10000000000
    airdrop silver 10000000000
    ensure (credential_account env.authority) (issue_credential env.authority demo_credential)

  unfoldable pub main : Action Devnet Manifest
  unfolding deploy
  main = do
    throw_if (not (env.reached wallet_account)) (thrown "network")
    saved ← gets (λ s. s.manifest)
    gold ← mint_of (saved_mint (λ m. m.gold_mint) saved) env.gold_created
    silver ← mint_of (saved_mint (λ m. m.silver_mint) saved) env.silver_created
    deploy gold silver
    modify (λ s. record s { manifest = some (manifest_of gold silver) })
    pure (manifest_of gold silver)
