-- ===== src/Program/YieldLaws.antt =====
-- The accrual of the yield does not depend on how often it is run.
use oragami.Prelude.{ℕ, ◌+◌, ◌*◌, ◌≤◌, ◌≡◌, some, arith, inl, inr, Option-cases}
use oragami.Prelude.Options.{◌>>=◌}
use oragami.Program.Market.{Market}
use oragami.Program.Yield.{daily_yield, days_elapsed, accrue, process_yield}

days_split :
    (first second last : ℕ)
    → first ≤ second
    → days_elapsed second last
      ≡ days_elapsed first last + days_elapsed second (last + days_elapsed first last * 86400)
unfolding days_elapsed
days_split first second last later = ground arith

accrue-add : (m : Market) (d e : ℕ) → (accrue d m >>= accrue e) ≡ accrue (d + e) m
unfolding accrue daily_yield
accrue-add m d e = ground arith

accrue_time :
    (m u : Market) (d : ℕ)
    → accrue d m ≡ some u
    → u.last_yield_claim ≡ m.last_yield_claim + d * 86400
unfolding accrue
accrue_time m u d h = ground arith

-- run at one instant and again at that instant or later, the accrual ends as if it was only run the
-- second time, errors included.
pub process_yield_composes :
    (first second : ℕ) (m : Market)
    → first ≤ second
    → (process_yield first m >>= process_yield second) ≡ process_yield second m
unfolding process_yield
process_yield_composes first second m later =
    let last = m.last_yield_claim in
    let d = days_elapsed first last in
    let e = days_elapsed second (last + d * 86400) in
    let split = days_split first second last later in
    elim (Option-cases (accrue d m)) [
      | inl failed ↦ ground (arith, split, failed, accrue-add m d e)
      | inr (u, done) ↦ ground (arith, split, done, accrue-add m d e, accrue_time m u d done)
    ]
