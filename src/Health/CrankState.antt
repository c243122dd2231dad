-- ===== src/Health/CrankState.antt =====
-- oragami-backend/src/health/crank-state.service.ts. The argument `now` is `new Date()`.
use oragami.Prelude.{ℕ, Bool, Option, none, some, if◌then◌else◌}

pub record CrankRuns : Type 0 where
  pub nav_last_run : Option ℕ
  pub nav_last_success : Option ℕ
  pub yield_last_run : Option ℕ
  pub yield_last_success : Option ℕ

abbrev pub no_runs : CrankRuns
no_runs = record {
  nav_last_run = none;
  nav_last_success = none;
  yield_last_run = none;
  yield_last_success = none;
}

unfoldable pub record_nav_run : ℕ → Bool → CrankRuns → CrankRuns
record_nav_run now success r =
    let s = record r { nav_last_run = some now } in
    if success then record s { nav_last_success = some now } else s

unfoldable pub record_yield_run : ℕ → Bool → CrankRuns → CrankRuns
record_yield_run now success r =
    let s = record r { yield_last_run = some now } in
    if success then record s { yield_last_success = some now } else s
