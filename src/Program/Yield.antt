-- ===== src/Program/Yield.antt =====
-- oragami-vault/programs/oragami-vault/src/lib.rs: the accrual of the yield and its distribution.
use oragami.Prelude.{ℕ, ◌+◌, ◌-◌, ◌*◌, ◌/◌, Option, some, ltb, if◌then◌else◌, ◌==◌, nat_eq}
use oragami.Prelude.Options.{◌>>=◌}
use oragami.Program.Vault.{fits}
use oragami.Program.Market.{Market}

abbrev pub seconds_in_day : ℕ
seconds_in_day = 86400

unfoldable pub days_elapsed : ℕ → ℕ → ℕ
days_elapsed now last = if ltb last now then (now - last) / seconds_in_day else 0

unfoldable pub daily_yield : Market → Option ℕ
daily_yield m = do
  a ← fits (m.vault.total_deposits * m.usx_allocation_bps)
  b ← fits ((a / 10000) * m.apy_bps)
  some ((b / 10000) / 365)

-- What `days` full days add.
unfoldable pub accrue : ℕ → Market → Option Market
accrue days m = do
  daily ← daily_yield m
  accrued ← fits (daily * days)
  pending ← fits (m.pending_yield + accrued)
  some (record m {
    pending_yield = pending;
    last_yield_claim = m.last_yield_claim + days * seconds_in_day;
  })

unfoldable pub process_yield : ℕ → Market → Option Market
unfolding accrue days_elapsed
process_yield now m =
    let days = days_elapsed now m.last_yield_claim in
    let accrued = accrue days m in if days == 0 then some m else accrued

unfoldable pub distribute_yield : ℕ → Market → Market
distribute_yield now m =
    if m.pending_yield == 0 then m else record m { pending_yield = 0; last_yield_claim = now }

abbrev pub sync_yield : ℕ → Market → Market
sync_yield now m = record m { last_yield_claim = now }
