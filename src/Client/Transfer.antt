-- ===== src/Client/Transfer.antt =====
-- oragami-frontend/app/app/vaults/page.tsx: the dialog that hands shares of an asset vault to another
-- wallet. The environment is that of the dialog for deposits, and `new BN` of a number.
use oragami.Prelude.{
  String, Bool, true, false, not, ◌||◌, Option, none, some, List, [], ◌∷◌, ◌++◌, if◌then◌else◌,
  ◌otherwise◌, ◌==◌, string_eq,
}
use oragami.Prelude.Int.{ℤ}
use oragami.Js.Number.{Number}
use oragami.Js.Floats.{Floats}
use oragami.Six.Service.{truthy}
use oragami.Client.Tasks.{Outcome, returned, raised, Task, ◌>>=◌, ◌>>◌, await, record_call}
use oragami.Client.Vault.{number, Instruction}
use oragami.Client.Modal.{ModalEnv, ModalCall, creates_account, transaction, succeeded, share_mint}

pub record TransferModal : Type 0 where
  pub public_key : Option String
  pub receiver : String
  pub amount : String
  -- `canDeposit` of the credential that the backend gave for the receiver
  pub receiver_cred : Option Bool
  pub submitting : Bool
  pub tx_sig : Option String
  pub error : Option String

pub record TransferEnv (F : Type 0) : Type 0 where
  pub modal : ModalEnv F
  -- `new BN(rawAmount)` of a number
  pub bn_of : Number → Outcome ℤ

-- `disabled` of the button.
abbrev pub is_disabled : TransferModal → Bool
is_disabled m =
    m.submitting || m.receiver == "" || m.amount == "" || not (m.receiver_cred otherwise true)

module _ (fl : Floats) (env : TransferEnv fl.Float) where
  open fl use {of_nat, mul, math_floor}
  open env.modal use {asset_mint, pda, parse_key, token_account, parse_float}

  abbrev pub raw_amount : String → Number
  raw_amount text = math_floor (mul (parse_float text otherwise of_nat 0) (of_nat 1000000))

  abbrev pub transfer_instruction : String → String → ℤ → String → String → Instruction
  transfer_instruction sender receiver n sender_share receiver_share = record {
    method = "transferShares";
    params = ("amount", number n) ∷ [];
    accounts =
        ("assetVault", pda ("vault" ∷ asset_mint ∷ []))
        ∷ ("senderShareAccount", sender_share)
        ∷ ("receiverShareAccount", receiver_share)
        ∷ ("senderCredential", pda ("credential" ∷ sender ∷ []))
        ∷ ("receiverCredential", pda ("credential" ∷ receiver ∷ []))
        ∷ ("sender", sender)
        ∷ ("tokenProgram", env.modal.token_program)
        ∷ [];
  }

  -- The two transactions, under their `try`.
  unfoldable pub handed : String → String → String → Task ModalCall String
  handed sender receiver amount = do
    await env.modal.program
    await (parse_key sender)
    await (parse_key receiver)
    await (parse_key asset_mint)
    sender_share ← await (token_account (share_mint fl env.modal) sender)
    receiver_share ← await (token_account (share_mint fl env.modal) receiver)
    await env.modal.blockhash
    await env.modal.signed
    record_call (creates_account sender receiver_share receiver (share_mint fl env.modal))
        env.modal.sent
    n ← await (env.bn_of (raw_amount amount))
    let i = transfer_instruction sender receiver n sender_share receiver_share
    record_call (transaction i) (env.modal.rpc i)

  abbrev pub settled :
      TransferModal → Outcome String × List ModalCall → TransferModal × List ModalCall
  settled m (returned tx, log) =
      (record m { tx_sig = some tx; submitting = false }, log ++ (succeeded ∷ []))
  settled m (raised e, log) =
      (record m { error = some (truthy e otherwise "Transfer failed"); submitting = false }, log)

  unfoldable pub handle_transfer : TransferModal → List ModalCall → TransferModal × List ModalCall
  unfolding handed
  handle_transfer m log = elim (truthy m.public_key) [
    | none ↦ (m, log)
    | some sender ↦
        if m.receiver == "" || m.amount == ""
        then (m, log)
        else if not env.modal.has_phantom
        then (record m { error = some "Phantom not found" }, log)
        else settled (record m { submitting = true; error = none })
            (handed sender m.receiver m.amount log)
  ]

  -- A click does nothing while the button is disabled.
  unfoldable pub click : TransferModal → List ModalCall → TransferModal × List ModalCall
  unfolding handle_transfer
  click m log = if is_disabled m then (m, log) else handle_transfer m log
