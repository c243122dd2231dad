-- ===== src/Tests/TransferTests.antt =====
-- The theorems on the dialog that hands shares on, for two tokens.
use oragami.Prelude.{
  ◌≡◌, ◌≢◌, ◌⊎◌, refl, String, true, false, none, some, [], string_eq, arith, eq_iff,
}
use oragami.Prelude.Int.{pos}
use oragami.Js.Fractions.{Fraction, fractions}
use oragami.Client.Tasks.{returned}
use oragami.Client.Transfer.{
  TransferModal, TransferEnv, transfer_instruction, handed, handle_transfer, click,
}
use oragami.Client.TransferLaws.{Handover, MayClick, click-Handover, transfer_shares-IsHanded}
use oragami.AssetVault.Attempt.{fails, wrong_share_mint, constraint}
use oragami.AssetVault.Factory.{new_market}
use oragami.AssetVault.Funds.{transfer_shares, ShareAccount}
use oragami.AssetVault.Refusals.{genuine}
use oragami.AssetVault.State.{CredentialInfo}
use oragami.Tests.AssetTests.{bank, gold}
use oragami.Tests.ModalTests
use oragami.Tests.ProgramTests.{tokens}

abbrev env : TransferEnv Fraction
env = record { modal = ModalTests.gold; bn_of = λ n. returned (pos 2000000) }

abbrev modal : TransferModal
modal = record {
  public_key = some "bank";
  receiver = "desk";
  amount = "2";
  receiver_cred = some true;
  submitting = false;
  tx_sig = none;
  error = none;
}

click-Handover_example :
    ((click fractions env modal []).1 ≡ [])
    ⊎ (MayClick fractions env modal × Handover fractions env modal (click fractions env modal []).1)
click-Handover_example = click-Handover fractions env modal

click-answered : (click fractions env modal []).0.tx_sig ≡ some "tx"
unfolding click handle_transfer handed
click-answered = refl

-- An address is that of the program.
abbrev derive : String → String → String
derive wallet program = program

abbrev dialog_info : CredentialInfo
dialog_info = record (genuine derive "bank" bank) { key = "pda" }

abbrev account : ShareAccount
account = record { key = "desk-xau"; mint = "VAULT-XAU"; owner = "desk"; balance = 0 }

not_own : ◌≢◌ {A = String} "pda" "ihUcHpWkfpeE6cH8ycusgyaqNMGGJj8krEyWox1m6aP"
not_own p = ground (arith, eq_iff "pda" "ihUcHpWkfpeE6cH8ycusgyaqNMGGJj8krEyWox1m6aP")

transfer_shares-IsHanded_example :
    (transfer_shares tokens derive 5 "bank" dialog_info dialog_info 2000000
        (new_market gold).vault
        account
        account
      ≡ fails wrong_share_mint)
    ⊎ (transfer_shares tokens derive 5 "bank" dialog_info dialog_info 2000000
          (new_market gold).vault
          account
          account
        ≡ fails constraint)
transfer_shares-IsHanded_example =
    transfer_shares-IsHanded fractions env tokens derive 5 modal
      (transfer_instruction fractions env "bank" "desk" (pos 2000000) "account" "account") "bank"
      dialog_info dialog_info 2000000 (new_market gold).vault account account
      ("bank", pos 2000000, "account", "account", (refl, refl, refl)) refl refl not_own
