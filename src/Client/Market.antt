-- ===== src/Client/Market.antt =====
-- oragami-frontend/services/vault-operations.ts: the tradeable tokens, the yield, the NAV, the
-- relayer, and the texts and numbers of the client.
use oragami.Prelude.{String, Bool, Option, none, some, [], ◌∷◌, ◌otherwise◌}
use oragami.Prelude.Int.{ℤ}
use oragami.Js.Number.{Number}
use oragami.Js.Floats.{Floats}
use oragami.Six.Service.{truthy}
use oragami.Client.Tasks.{Outcome, returned, raised, ◌>>=◌, ◌>>◌, pure, await}
use oragami.Client.Risk.{
  Fetched, unreachable, is_ok, not_ok, ErrorBody, unparsable, no_error, message,
}
use oragami.Client.Vault.{
  Chain, Wallet, Sending, Instruction, VaultOperationResponse, ClientVaultState, number, flag,
  failure, send, with_key, attempt, fetch_vault_state, vault_state_pda, cvault_mint_pda,
  vault_token_pda, registry_pda,
}

module _ (chain : Chain) where
  -- The mint of the tradeable tokens is read from the account of the vault.
  with_state : (ClientVaultState → Sending VaultOperationResponse) → Sending VaultOperationResponse
  unfolding fetch_vault_state
  with_state k = elim (fetch_vault_state chain) [
    | none ↦ pure (failure "Could not fetch vault state")
    | some state ↦ k state
  ]

  abbrev convert_instruction : String → String → ℤ → String → String → Instruction
  convert_instruction key mint n user_cvault user_trade = record {
    method = "convertToTradeable";
    params = ("amount", number n) ∷ [];
    accounts =
        ("vaultState", vault_state_pda chain)
        ∷ ("cvaultMint", cvault_mint_pda chain)
        ∷ ("cvaultTradeMint", mint)
        ∷ ("userCvaultAccount", user_cvault)
        ∷ ("userCvaultTradeAccount", user_trade)
        ∷ ("authority", key)
        ∷ ("tokenProgram", chain.token_program)
        ∷ [];
  }

  unfoldable pub convert_to_tradeable : Wallet → Number → Sending VaultOperationResponse
  unfolding with_state
  convert_to_tradeable wallet amount = attempt chain "Conversion failed" (do
    await chain.program
    with_key chain wallet λ key. with_state λ state. do
      n ← await (chain.bn amount)
      user_cvault ← await (chain.token_account (cvault_mint_pda chain) key)
      user_trade ← await (chain.token_account state.cvault_trade_mint key)
      send chain (convert_instruction key state.cvault_trade_mint n user_cvault user_trade))

  abbrev trade_instruction : String → String → ℤ → Bool → String → String → String → Instruction
  trade_instruction key mint n to_cvault user_trade user_cvault destination = record {
    method = "redeemTradeable";
    params = ("amount", number n) ∷ ("redeemToCvault", flag to_cvault) ∷ [];
    accounts =
        ("vaultState", vault_state_pda chain)
        ∷ ("cvaultTradeMint", mint)
        ∷ ("cvaultMint", cvault_mint_pda chain)
        ∷ ("vaultTokenAccount", vault_token_pda chain)
        ∷ ("userCvaultTradeAccount", user_trade)
        ∷ ("userCvaultAccount", user_cvault)
        ∷ ("userDestination", destination)
        ∷ ("authority", key)
        ∷ ("tokenProgram", chain.token_program)
        ∷ [];
  }

  pub redeem_tradeable : Wallet → Number → Bool → String → Sending VaultOperationResponse
  unfolding with_state
  redeem_tradeable wallet amount redeem_to_cvault deposit_mint =
      attempt chain "Redeem tradeable failed" (do
        await chain.program
        with_key chain wallet λ key. with_state λ state. do
          n ← await (chain.bn amount)
          user_trade ← await (chain.token_account state.cvault_trade_mint key)
          user_cvault ← await (chain.token_account (cvault_mint_pda chain) key)
          destination ← await (chain.token_account deposit_mint key)
          send chain (
              trade_instruction key state.cvault_trade_mint n redeem_to_cvault user_trade
                user_cvault destination))

  pub claim_vault_yield : Wallet → Number → String → Sending VaultOperationResponse
  claim_vault_yield wallet amount vault_usx_account = attempt chain "Claim yield failed" (do
    await chain.program
    with_key chain wallet λ key. do
      n ← await (chain.bn amount)
      send chain (record {
        method = "claimYield";
        params = ("amount", number n) ∷ [];
        accounts =
            ("vaultState", vault_state_pda chain)
            ∷ ("vaultUsxAccount", vault_usx_account)
            ∷ ("authority", key)
            ∷ ("tokenProgram", chain.token_program)
            ∷ [];
      }))

  pub sync_vault_yield : Wallet → Sending VaultOperationResponse
  sync_vault_yield wallet = attempt chain "Sync yield failed" (do
    await chain.program
    with_key chain wallet λ key. send chain (record {
      method = "syncYield";
      params = [];
      accounts = ("vaultState", vault_state_pda chain) ∷ ("operator", key) ∷ [];
    }))

  pub set_vault_nav : Wallet → Number → Sending VaultOperationResponse
  set_vault_nav wallet nav_price_bps = attempt chain "Set NAV failed" (do
    await chain.program
    with_key chain wallet λ key. do
      n ← await (chain.bn nav_price_bps)
      send chain (record {
        method = "setNav";
        params = ("navPriceBps", number n) ∷ [];
        accounts =
            ("vaultState", vault_state_pda chain)
            ∷ ("rwaAssetRegistry", registry_pda chain)
            ∷ ("operator", key)
            ∷ [];
      }))

-- An error that is no object with a `message` has none, so the text for it is never shown.
abbrev shown_message : ErrorBody → Option String
shown_message unparsable = none
shown_message no_error = none
shown_message (message text) = truthy (some text)

-- The answer of the relayer to a POST of /vault-operation.
pub submit_vault_operation : Fetched VaultOperationResponse → Outcome VaultOperationResponse
submit_vault_operation (unreachable e) = raised e
submit_vault_operation (is_ok body) = body
submit_vault_operation (not_ok body) =
    returned (failure (shown_message body otherwise "Operation failed"))

module _ (fl : Floats) where
  open fl use {Float, of_nat, mul, div, math_floor}

  unfoldable pub calc_cvault_from_usdc : Float → Float → Number
  calc_cvault_from_usdc usdc nav = math_floor (div (mul usdc (of_nat 10000)) nav)

  pub calc_usdc_from_cvault : Float → Float → Number
  calc_usdc_from_cvault cvault nav = math_floor (div (mul cvault nav) (of_nat 10000))

  -- The number that is made a `BN`, at the default of six decimals.
  pub parse_token_amount : Float → Number
  parse_token_amount amount = math_floor (mul amount (of_nat 1000000))
