-- ===== src/Client/Vault.antt =====
-- oragami-frontend/services/vault-operations.ts: the program, the queries, and the transactions of
-- deposits and redemptions. What Anchor, web3.js and spl-token answer during one call is a `Chain`.
use oragami.Prelude.{String, Bool, true, false, Option, none, some, List, [], ◌∷◌, ◌otherwise◌}
use oragami.Prelude.Int.{ℤ, pos}
use oragami.Js.Number.{Number}
use oragami.Client.Tasks.{
  Outcome, returned, raised, Task, ◌>>=◌, ◌>>◌, pure, await, catching, record_call,
}

pub data Argument : Type 0 where
  number : ℤ → Argument
  text : String → Argument
  flag : Bool → Argument

-- One call of `program.methods`, with the accounts by their names.
pub record Instruction : Type 0 where
  pub method : String
  pub params : List (String × Argument)
  pub accounts : List (String × String)

-- The fields of the account that the client reads.
pub record ClientVaultState : Type 0 where
  pub cvault_trade_mint : String
  pub paused : Bool
  pub total_deposits : ℤ

pub record Chain : Type 0 where
  -- `new Program(…)` and the addresses that are derived from seeds
  pub program : Outcome (Unit {0})
  pub pda : List String → String
  pub token_program : String
  -- `new BN(x)` of a number, and `Date.now()` with a random text behind it
  pub bn : Number → Outcome ℤ
  pub nonce : String
  -- `getOrCreateAssociatedTokenAccount` for a mint and an owner: its address
  pub token_account : String → String → Outcome String
  pub fetch_account : String → Outcome ClientVaultState
  pub rpc : Instruction → Outcome String

-- `wallet.publicKey`
pub record Wallet : Type 0 where
  pub public_key : Option String

pub record VaultOperationResponse : Type 0 where
  pub success : Bool
  pub signature : Option String
  pub error : Option String

abbrev pub failure : String → VaultOperationResponse
failure error = record { success = false; signature = none; error = some error }

abbrev pub confirmed : String → VaultOperationResponse
confirmed tx = record { success = true; signature = some tx; error = none }

-- The body of `POST /api/deposits/index`.
pub record IndexRequest : Type 0 where
  pub tx_signature : String
  pub wallet : String
  pub usdc_amount : String
  pub cvault_amount : String
  pub nonce : String

-- A transaction that is handed to the wallet, and a request to the backend that follows it.
pub data Call : Type 0 where
  transaction : Instruction → Call
  index_deposit : IndexRequest → Call

abbrev pub Sending : Type 0 → Type 0
Sending = Task Call

module _ (chain : Chain) where
  abbrev pub vault_state_pda : String
  vault_state_pda = chain.pda ("vault_state" ∷ [])

  abbrev pub cvault_mint_pda : String
  cvault_mint_pda = chain.pda ("cvault_mint" ∷ [])

  abbrev pub vault_token_pda : String
  vault_token_pda = chain.pda ("vault_token_account" ∷ [])

  -- `vaultState.toBuffer()` is the address itself here.
  abbrev pub registry_pda : String
  registry_pda = chain.pda ("rwa_asset_registry" ∷ vault_state_pda ∷ [])

  abbrev pub send : Instruction → Sending VaultOperationResponse
  send i = do tx ← record_call (transaction i) (chain.rpc i); pure (confirmed tx)

  -- The key of the wallet, or the answer that there is none.
  abbrev pub with_key :
      Wallet → (String → Sending VaultOperationResponse) → Sending VaultOperationResponse
  with_key wallet k = elim wallet.public_key [
    | none ↦ pure (failure "Wallet not connected")
    | some key ↦ k key
  ]

  -- The `try` of an operation with its `catch`.
  abbrev pub attempt : String → Sending VaultOperationResponse → Sending VaultOperationResponse
  attempt fallback body = catching body λ e. pure (failure (e otherwise fallback))

  unfoldable pub fetch_vault_state : Option ClientVaultState
  fetch_vault_state = elim chain.program [
    | raised e ↦ none
    | returned _ ↦ elim (chain.fetch_account vault_state_pda) [
      | raised e ↦ none
      | returned account ↦ some account
    ]
  ]

  -- For the accounts that `toNumber` can read.
  pub get_vault_tvl : ℤ
  unfolding fetch_vault_state
  get_vault_tvl = elim fetch_vault_state [ none ↦ pos 0 | some state ↦ state.total_deposits ]

  pub is_vault_paused : Bool
  unfolding fetch_vault_state
  is_vault_paused = elim fetch_vault_state [ none ↦ false | some state ↦ state.paused ]

  -- For the key of the wallet, the amount and the two token accounts.
  abbrev pub deposit_instruction : String → ℤ → String → String → Instruction
  deposit_instruction key n payer_deposit payer_cvault = record {
    method = "deposit";
    params = ("amount", number n) ∷ ("nonce", text chain.nonce) ∷ [];
    accounts =
        ("vaultState", vault_state_pda)
        ∷ ("cvaultMint", cvault_mint_pda)
        ∷ ("vaultTokenAccount", vault_token_pda)
        ∷ ("payerDepositAccount", payer_deposit)
        ∷ ("payerCvaultAccount", payer_cvault)
        ∷ ("payer", key)
        ∷ ("tokenProgram", chain.token_program)
        ∷ [];
  }

  abbrev pub redeem_instruction : String → ℤ → String → String → Instruction
  redeem_instruction key n redeemer_cvault redeemer_deposit = record {
    method = "redeem";
    params = ("cvaultAmount", number n) ∷ ("nonce", text chain.nonce) ∷ [];
    accounts =
        ("vaultState", vault_state_pda)
        ∷ ("cvaultMint", cvault_mint_pda)
        ∷ ("vaultTokenAccount", vault_token_pda)
        ∷ ("redeemerCvaultAccount", redeemer_cvault)
        ∷ ("redeemerDepositAccount", redeemer_deposit)
        ∷ ("redeemer", key)
        ∷ ("tokenProgram", chain.token_program)
        ∷ [];
  }

  unfoldable pub deposit_to_vault : Wallet → Number → String → Sending VaultOperationResponse
  deposit_to_vault wallet amount deposit_mint = attempt "Deposit failed" (do
    await chain.program
    with_key wallet λ key. do
      n ← await (chain.bn amount)
      payer_deposit ← await (chain.token_account deposit_mint key)
      payer_cvault ← await (chain.token_account cvault_mint_pda key)
      send (deposit_instruction key n payer_deposit payer_cvault))

  unfoldable pub redeem_from_vault : Wallet → Number → String → Sending VaultOperationResponse
  redeem_from_vault wallet cvault_amount deposit_mint = attempt "Redeem failed" (do
    await chain.program
    with_key wallet λ key. do
      n ← await (chain.bn cvault_amount)
      redeemer_cvault ← await (chain.token_account cvault_mint_pda key)
      redeemer_deposit ← await (chain.token_account deposit_mint key)
      send (redeem_instruction key n redeemer_cvault redeemer_deposit))
