-- ===== src/Solstice/Yield.antt =====
-- oragami-backend/src/solana/solstice.service.ts: `mintUsx` and `lockUsxForYield`, the transactions
-- of the vault's authority. What web3.js and spl-token answer during one call is a `SolsticeChain`.
use oragami.Prelude.{String, Option, none, some, List, [], ◌∷◌, ◌++◌, ◌otherwise◌}
use oragami.Prelude.Int.{ℤ, pos, ltb_ℤ}
use oragami.Prelude.Results.{
  Error, bad_request, thrown, Result, Action, ◌>>=◌, ◌>>◌, pure, throw_if, or_throw, modify,
}
use oragami.Js.Floats.{max_safe_integer}
use oragami.Six.Service.{truthy}
use oragami.Solstice.Api.{
  SolsticeApi, SolanaInstruction, build, mint_request, confirm_request, lock_request, usdc,
}

-- The settings of `onModuleInit` are read once. The mints have defaults.
pub record SolsticeSettings : Type 0 where
  pub usx_mint : Option String
  pub eusx_mint : Option String

pub record Mints : Type 0 where
  pub usx : String
  pub eusx : String

abbrev pub set_mints : SolsticeSettings → Mints → Mints
set_mints settings mints = record {
  usx = truthy settings.usx_mint otherwise mints.usx;
  eusx = truthy settings.eusx_mint otherwise mints.eusx;
}

pub record SolsticeChain : Type 0 where
  pub api : SolsticeApi
  pub authority : String
  pub mints : Mints
  -- the instruction that creates the account of the authority for a mint, if the mint is a key
  pub ata_instruction : String → Option SolanaInstruction
  -- each `none` for a throw: the blockhash, signing and serializing, sending, confirming
  pub blockhash : Option String
  pub serialize : String → List SolanaInstruction → Option String
  pub send_raw : String → Option String
  pub confirm : String → Option (Unit {0})

-- The transactions that were handed to the network.
abbrev pub Sent : Type 0
Sent = List (List SolanaInstruction)

module _ (chain : SolsticeChain) where
  open chain use {api, authority, mints, ata_instruction}

  abbrev answered : Result SolanaInstruction → Action Sent SolanaInstruction
  answered r s = (r, s)

  unfoldable pub send_instructions : List SolanaInstruction → Action Sent String
  send_instructions instructions = do
    hash ← or_throw (thrown "getLatestBlockhash failed") chain.blockhash
    raw ← or_throw (thrown "transaction is not valid") (chain.serialize hash instructions)
    modify λ sent. sent ++ instructions ∷ []
    sig ← or_throw (thrown "sendRawTransaction failed") (chain.send_raw raw)
    or_throw (thrown "confirmTransaction failed") (chain.confirm sig)
    pure sig

  abbrev pub invalid_mint : Error
  invalid_mint = thrown "Invalid public key input"

  -- The accounts for USX and eUSX, then both steps of the mint.
  unfoldable pub mint_usx : ℤ → Action Sent String
  unfolding build send_instructions
  mint_usx usdc_amount = do
    throw_if (ltb_ℤ (pos max_safe_integer) usdc_amount)
        (bad_request "usdcAmount exceeds safe integer range")
    usx_ata ← or_throw invalid_mint (ata_instruction mints.usx)
    eusx_ata ← or_throw invalid_mint (ata_instruction mints.eusx)
    req_mint ← answered (build api (mint_request authority usdc_amount usdc (some authority)))
    conf_mint ← answered (build api (confirm_request authority usdc none (some authority)))
    send_instructions (usx_ata ∷ eusx_ata ∷ req_mint ∷ conf_mint ∷ [])

  unfoldable pub lock_usx_for_yield : ℤ → Action Sent String
  unfolding build send_instructions
  lock_usx_for_yield usx_amount = do
    throw_if (ltb_ℤ (pos max_safe_integer) usx_amount)
        (bad_request "usxAmount exceeds safe integer range")
    locked ← answered (build api (lock_request authority usx_amount none none (some authority)))
    send_instructions (locked ∷ [])
