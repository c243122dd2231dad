-- ===== src/Tests/AnchorTests.antt =====
-- The theorem on confirmations, for a transaction that is found at the third round.
use oragami.Prelude.{ℕ, zero, suc, ◌≡◌, refl, String}
use oragami.Anchor.Service.{
  Confirmation, confirmed, failed, threw, returned, raised, rounds, confirm_tx,
}
use oragami.Anchor.Laws.{RoundsEnd, confirm_tx-RoundsEnd}

abbrev answers : ℕ → Confirmation
answers zero = threw "timeout"
answers (suc zero) = failed "7"
answers (suc (suc n)) = confirmed

abbrev failure : String → String
failure error = "Transaction failed"

confirm_tx-RoundsEnd_example : RoundsEnd failure answers 0 3 (confirm_tx failure answers 3)
confirm_tx-RoundsEnd_example = confirm_tx-RoundsEnd failure answers 2

third : confirm_tx failure answers 3 ≡ returned 2
unfolding confirm_tx rounds
third = refl

gives_up : confirm_tx failure answers 2 ≡ raised "Transaction failed" 1
unfolding confirm_tx rounds
gives_up = refl

-- Without rounds nothing is asked for, and the confirmation returns.
no_rounds : confirm_tx failure answers 0 ≡ returned 0
unfolding confirm_tx rounds
no_rounds = refl
