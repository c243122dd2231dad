-- ===== src/Solstice/YieldLaws.antt =====
-- What a mint of USX hands to the network.
use oragami.Prelude.{◌≡◌, ◌⊎◌, String, true, false, none, some, List, [], ◌∷◌, ◌++◌}
use oragami.Prelude.Int.{ℤ, pos, ltb_ℤ}
use oragami.Prelude.Results.{Error, bad_request, Result, ok, err}
use oragami.Js.Floats.{max_safe_integer}
use oragami.Solstice.Api.{SolanaInstruction, build, mint_request, confirm_request, usdc}
use oragami.Solstice.Yield.{SolsticeChain, Sent}

module _ (chain : SolsticeChain) where
  -- No blockhash, or none of the instructions under it that can be signed.
  abbrev pub IsUnsendable : List SolanaInstruction → Type 0
  IsUnsendable is =
      (chain.blockhash ≡ none)
      ⊎ ((hash : String) × ((chain.blockhash ≡ some hash) × (chain.serialize hash is ≡ none)))

  -- Signed under the blockhash.
  abbrev pub IsSigned : List SolanaInstruction → String → Type 0
  IsSigned is raw =
      (hash : String) × ((chain.blockhash ≡ some hash) × (chain.serialize hash is ≡ some raw))

  -- The network did not take it, or did not confirm it.
  abbrev pub IsLost : String → Type 0
  IsLost raw =
      (chain.send_raw raw ≡ none)
      ⊎ ((sig : String) × ((chain.send_raw raw ≡ some sig) × (chain.confirm sig ≡ none)))

  -- The ends of a transaction of these instructions, from what was sent before.
  pub data Transaction (is : List SolanaInstruction) (sent : Sent) (end : Result String × Sent)
      : Type 0 where
    not_sent : (e : Error) → IsUnsendable is → end ≡ (err e, sent) → Transaction is sent end
    not_confirmed :
        (e : Error) (raw : String)
        → IsSigned is raw
        → IsLost raw
        → end ≡ (err e, sent ++ is ∷ [])
        → Transaction is sent end
    confirmed :
        (raw sig : String)
        → IsSigned is raw
        → chain.send_raw raw ≡ some sig
        → chain.confirm sig ≡ some tt
        → end ≡ (ok sig, sent ++ is ∷ [])
        → Transaction is sent end

  -- The instructions of a mint of so much: the two accounts, and the API's answers to the request
  -- and to its confirmation.
  abbrev pub IsMintOf : ℤ → List SolanaInstruction → Type 0
  IsMintOf amount is =
      (i j k l : SolanaInstruction) × ((is ≡ i ∷ j ∷ k ∷ l ∷ [])
        × (chain.ata_instruction chain.mints.usx ≡ some i)
        × (chain.ata_instruction chain.mints.eusx ≡ some j)
        × (build chain.api (mint_request chain.authority amount usdc (some chain.authority)) ≡ ok k)
        × (build chain.api (confirm_request chain.authority usdc none (some chain.authority))
            ≡ ok l))

  -- The instructions of a mint cannot be made: an account's or an answer of the API is missing.
  abbrev pub IsUnbuilt : ℤ → Error → Type 0
  IsUnbuilt amount e =
      (chain.ata_instruction chain.mints.usx ≡ none)
      ⊎ (chain.ata_instruction chain.mints.eusx ≡ none)
      ⊎ (build chain.api (mint_request chain.authority amount usdc (some chain.authority)) ≡ err e)
      ⊎ (build chain.api (confirm_request chain.authority usdc none (some chain.authority)) ≡ err e)

  -- The ends of a mint of so much.
  pub data MintRun (amount : ℤ) (sent : Sent) (end : Result String × Sent) : Type 0 where
    too_large :
        ltb_ℤ (pos max_safe_integer) amount ≡ true
        → end ≡ (err (bad_request "usdcAmount exceeds safe integer range"), sent)
        → MintRun amount sent end
    not_built :
        (e : Error)
        → ltb_ℤ (pos max_safe_integer) amount ≡ false
        → IsUnbuilt amount e
        → end ≡ (err e, sent)
        → MintRun amount sent end
    transacted :
        (is : List SolanaInstruction)
        → ltb_ℤ (pos max_safe_integer) amount ≡ false
        → IsMintOf amount is
        → Transaction is sent end
        → MintRun amount sent end
