-- ===== src/MultiAsset/Service.antt =====
-- oragami-backend/src/multi-asset-vault/multi-asset-vault.service.ts. What the chain answers is an
-- `AssetChain`; `none` stands for a throw. Amounts that the code keeps as decimal texts are numbers,
-- and instants are milliseconds.
use mathlib.Core.Option
use oragami.Prelude.{
  ℕ, String, Bool, false, not, ◌&&◌, Option, none, some, List, [], ◌∷◌, ltb, if◌then◌else◌,
  ◌otherwise◌, ◌==◌, nat_eq,
}
use oragami.Prelude.Clock.{to_seconds, to_millis}
use oragami.Prelude.Int.{ℤ, pos, negsuc, leb_ℤ, ltb_ℤ, scale, quot}
use oragami.Prelude.Results.{Error, Result, ok, err, bad_request, not_found, thrown}
use oragami.Encoding.Bytes.{Texts, ticker_from_bytes, str_to_bytes, remove_nul}
use oragami.Credentials.Service.{floor_seconds}

-- The account of a vault, as it is read.
pub record RawVault : Type 0 where
  pub asset_mint : String
  pub share_mint : String
  pub vault_token_account : String
  pub ticker : Option (List ℕ)
  pub nav_price_bps : Option ℕ
  pub total_deposits : Option ℕ
  pub total_supply : Option ℕ
  pub min_deposit : Option ℕ
  pub max_deposit : Option ℕ
  pub travel_rule_required : Bool
  pub paused : Bool

pub record AssetVaultInfo : Type 0 where
  pub asset_mint : String
  pub share_mint : String
  pub vault_token_account : String
  pub ticker : String
  pub nav_price_bps : ℕ
  pub nav_display : String
  pub total_deposits : ℕ
  pub total_supply : ℕ
  pub min_deposit : ℕ
  pub max_deposit : ℕ
  pub travel_rule_required : Bool
  pub paused : Bool

pub record RawFactory : Type 0 where
  pub authority : String
  pub fee_bps : Option ℕ
  pub registered_assets : Option (List String)

pub record Factory : Type 0 where
  pub pda : String
  pub authority : String
  pub fee_bps : ℕ
  pub registered_assets : List String

pub record RawCredential : Type 0 where
  pub status : Option ℕ
  pub tier : Option ℕ
  pub kyc_level : Option ℕ
  pub aml_coverage : Option ℕ
  pub jurisdiction : Option (List ℕ)
  pub issued_at : Option ℕ
  pub expires_at : Option ℕ

pub data AssetStatus : Type 0 where
  revoked expired active pending not_on_chain : AssetStatus

-- What `verifyCredential` tells of an account that is there.
pub record AssetCredential : Type 0 where
  pub tier : ℕ
  pub kyc_level : ℕ
  pub aml_coverage : ℕ
  pub jurisdiction : String
  pub issued_at : ℕ
  pub expires_at : ℕ

pub record VerifiedAsset : Type 0 where
  pub wallet : String
  pub credential_pda : String
  pub status : AssetStatus
  pub can_deposit : Bool
  pub details : Option AssetCredential

pub data Refusal : Type 0 where
  credential_is : AssetStatus → Refusal
  vault_paused below_minimum exceeds_maximum : Refusal

pub record AssetPreflight : Type 0 where
  pub can_deposit : Bool
  pub reason : Option Refusal
  pub requires_travel_rule : Bool
  pub credential_status : AssetStatus
  pub ticker : String
  pub nav_price_bps : ℕ
  pub nav_display : String
  pub paused : Bool
  pub travel_rule_required : Bool
  pub estimated_shares : ℤ

-- The arguments of the instruction `issueCredential`.
pub record IssueArguments : Type 0 where
  pub institution_name : List ℕ
  pub jurisdiction : List ℕ
  pub tier : ℕ
  pub kyc_level : ℕ
  pub aml_coverage : ℕ
  pub expires_at : ℤ

pub record AssetChain : Type 0 where
  pub texts : Texts
  -- `new PublicKey(s)` does not throw
  pub is_public_key : String → Bool
  pub credential_pda : String → String
  pub factory_pda : String
  -- `toFixed(4)` of a price in basis points, after a dollar sign
  pub nav_to_display : ℕ → String
  -- `padEnd(4, '\0')`
  pub pad_end : String → String
  pub big_int : String → Option ℤ
  pub date_time : String → Option ℤ
  pub fetch_factory : Option RawFactory
  pub fetch_vault : String → Option RawVault
  pub fetch_credential : String → Option RawCredential
  pub set_nav_tx : String → ℕ → Option String
  pub issue_tx : String → IssueArguments → Option String
  -- the token account of a wallet, and the signature of minting an amount to it
  pub token_account : String → String → Option String
  pub mint_tx : String → String → ℕ → Option String

-- The last second that a `Date` can hold.
abbrev pub max_date_seconds : ℕ
max_date_seconds = 8640000000000

abbrev or_fail : {A : Type 0} → Error → Option A → Result A
or_fail e none = err e
or_fail e (some a) = ok a

abbrev pub status_of : ℕ → ℕ → ℕ → AssetStatus
status_of now status expires_at =
    if status == 3
    then revoked
    else if ltb expires_at now
    then expired
    else if status == 1
    then active
    else pending

module _ (chain : AssetChain) where
  open chain use {
    texts, is_public_key, credential_pda, factory_pda, nav_to_display, pad_end, big_int, date_time,
    fetch_factory, fetch_vault, fetch_credential, set_nav_tx, issue_tx, token_account, mint_tx,
  }

  unfoldable pub format_vault : RawVault → AssetVaultInfo
  format_vault raw =
      let nav_bps = raw.nav_price_bps otherwise 10000 in
      record {
        asset_mint = raw.asset_mint;
        share_mint = raw.share_mint;
        vault_token_account = raw.vault_token_account;
        ticker = ticker_from_bytes texts (raw.ticker otherwise []);
        nav_price_bps = nav_bps;
        nav_display = nav_to_display nav_bps;
        total_deposits = raw.total_deposits otherwise 0;
        total_supply = raw.total_supply otherwise 0;
        min_deposit = raw.min_deposit otherwise 0;
        max_deposit = raw.max_deposit otherwise 0;
        travel_rule_required = raw.travel_rule_required;
        paused = raw.paused;
      }

  unfoldable pub get_factory : Result Factory
  get_factory = elim fetch_factory [
    | none ↦ err (not_found "Factory not initialized")
    | some raw ↦ ok (record {
      pda = factory_pda;
      authority = raw.authority;
      fee_bps = raw.fee_bps otherwise 0;
      registered_assets = raw.registered_assets otherwise [];
    })
  ]

  unfoldable pub get_vault_by_mint : String → Result AssetVaultInfo
  get_vault_by_mint mint =
      if not (is_public_key mint)
      then err (bad_request "Invalid asset mint address")
      else or_fail (not_found "Vault not found for mint")
          (Option.map format_vault (fetch_vault mint))

  -- The vaults that can be read, of those that are registered.
  unfoldable pub readable_vaults : List String → List AssetVaultInfo
  unfolding get_vault_by_mint
  readable_vaults [] = []
  readable_vaults (mint ∷ mints) = elim (get_vault_by_mint mint) [
    | ok info ↦ info ∷ readable_vaults mints
    | err e ↦ readable_vaults mints
  ]

  unfoldable pub get_all_vaults : Result (List AssetVaultInfo)
  unfolding get_factory readable_vaults
  get_all_vaults = elim get_factory [
    | err e ↦ err e
    | ok factory ↦ ok (readable_vaults factory.registered_assets)
  ]

  -- A `number` that is finite is taken to be an integer.
  unfoldable pub set_nav : String → Option ℤ → Result String
  set_nav mint none = err (bad_request "navPriceBps must be a positive integer")
  set_nav mint (some nav) = elim nav [
    | negsuc n ↦ err (bad_request "navPriceBps must be a positive integer")
    | pos n ↦
        if n == 0
        then err (bad_request "navPriceBps must be a positive integer")
        else if not (is_public_key mint)
        then err (thrown "Invalid public key input")
        else or_fail (thrown "setNav failed") (set_nav_tx mint n)
  ]

  abbrev not_found_on_chain : String → VerifiedAsset
  not_found_on_chain wallet = record {
    wallet = wallet;
    credential_pda = credential_pda wallet;
    status = not_on_chain;
    can_deposit = false;
    details = none;
  }

  -- `toISOString` throws on an instant that a `Date` cannot hold, and that is caught.
  unfoldable pub verified : ℕ → String → RawCredential → VerifiedAsset
  verified now wallet raw =
      let expires_at = raw.expires_at otherwise 0 in
      let issued_at = raw.issued_at otherwise 0 in
      let status = raw.status otherwise 0 in
      if ltb max_date_seconds issued_at
      then not_found_on_chain wallet
      else if ltb max_date_seconds expires_at
      then not_found_on_chain wallet
      else record {
        wallet = wallet;
        credential_pda = credential_pda wallet;
        status = status_of now status expires_at;
        can_deposit = status == 1 && ltb now expires_at;
        details = some (record {
          tier = raw.tier otherwise 0;
          kyc_level = raw.kyc_level otherwise 0;
          aml_coverage = raw.aml_coverage otherwise 0;
          jurisdiction = remove_nul (texts.decode (raw.jurisdiction otherwise []));
          issued_at = to_millis issued_at;
          expires_at = to_millis expires_at;
        });
      }

  unfoldable pub verify_credential : ℕ → String → Result VerifiedAsset
  unfolding verified
  verify_credential now_ms wallet =
      if not (is_public_key wallet)
      then err (bad_request "Invalid wallet address")
      else elim (fetch_credential wallet) [
        | none ↦ ok (not_found_on_chain wallet)
        | some raw ↦ ok (verified (to_seconds now_ms) wallet raw)
      ]

  -- The address and the signature; an instant that is NaN is refused by `new BN`.
  unfoldable pub issue_credential :
      ℕ → String → String → String → ℕ → ℕ → ℕ → String → Result (String × String)
  issue_credential now_ms wallet institution_name jurisdiction tier kyc_level aml_coverage
        expires_at =
      if not (is_public_key wallet)
      then err (bad_request "Invalid wallet address")
      else elim (date_time expires_at) [
        | none ↦ err (thrown "Invalid number")
        | some ms ↦
            let expires_at_sec = floor_seconds ms in
            if leb_ℤ expires_at_sec (pos (to_seconds now_ms))
            then err (bad_request "expiresAt must be in the future")
            else elim (issue_tx wallet (record {
              institution_name = str_to_bytes texts institution_name 64;
              jurisdiction = str_to_bytes texts (pad_end jurisdiction) 4;
              tier = tier;
              kyc_level = kyc_level;
              aml_coverage = aml_coverage;
              expires_at = expires_at_sec;
            })) [
              | none ↦ err (thrown "issueCredential failed")
              | some tx ↦ ok (credential_pda wallet, tx)
            ]
      ]

  -- The token account and the signature.
  unfoldable pub faucet : String → String → Option ℕ → Result (String × String)
  faucet wallet mint amount =
      if not (is_public_key wallet && is_public_key mint)
      then err (bad_request "Invalid wallet or mint address")
      else elim (token_account wallet mint) [
        | none ↦ err (thrown "getOrCreateAssociatedTokenAccount failed")
        | some ata ↦ elim (mint_tx mint ata (amount otherwise 1000000000)) [
          | none ↦ err (thrown "mintTo failed")
          | some tx ↦ ok (ata, tx)
        ]
      ]

  abbrev refusal : VerifiedAsset → AssetVaultInfo → ℤ → Option Refusal
  refusal cred vault amount =
      if not cred.can_deposit
      then some (credential_is cred.status)
      else if vault.paused
      then some vault_paused
      else if ltb_ℤ amount (pos vault.min_deposit)
      then some below_minimum
      else if ltb_ℤ (pos vault.max_deposit) amount
      then some exceeds_maximum
      else none

  -- The answer from the credential, the vault and the amount; a NAV of zero is a `RangeError`.
  unfoldable pub assess : VerifiedAsset → AssetVaultInfo → ℤ → Result AssetPreflight
  assess cred vault amount =
      if vault.nav_price_bps == 0
      then err (thrown "Division by zero")
      else ok (record {
        can_deposit =
            cred.can_deposit
            && not vault.paused
            && leb_ℤ (pos vault.min_deposit) amount
            && leb_ℤ amount (pos vault.max_deposit);
        reason = refusal cred vault amount;
        requires_travel_rule = vault.travel_rule_required && leb_ℤ (pos 1000000000) amount;
        credential_status = cred.status;
        ticker = vault.ticker;
        nav_price_bps = vault.nav_price_bps;
        nav_display = vault.nav_display;
        paused = vault.paused;
        travel_rule_required = vault.travel_rule_required;
        estimated_shares = quot (scale 10000 amount) vault.nav_price_bps;
      })

  unfoldable pub preflight_deposit : ℕ → String → String → String → Result AssetPreflight
  unfolding verify_credential get_vault_by_mint assess
  preflight_deposit now_ms wallet mint amount = elim (verify_credential now_ms wallet) [
    | err e ↦ err e
    | ok cred ↦ elim (get_vault_by_mint mint) [
      | err e ↦ err e
      | ok vault ↦ elim (big_int amount) [
        | none ↦ err (thrown "SyntaxError")
        | some n ↦ assess cred vault n
      ]
    ]
  ]
