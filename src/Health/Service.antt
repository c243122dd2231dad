-- ===== src/Health/Service.antt =====
-- oragami-backend/src/health/health.service.ts and the snapshot of crank-state.service.ts. The checks of
-- the database and of the chain are calls that throw or not.
use oragami.Prelude.{ℕ, Bool, true, false, ◌&&◌, Option}
use oragami.Js.Floats.{Floats}
use oragami.Six.Service.{SixEnv, SixState, is_connected}
use oragami.Health.CrankState.{CrankRuns}

pub data HealthStatus : Type 0 where
  healthy degraded : HealthStatus

pub record Health : Type 0 where
  pub status : HealthStatus
  pub solana_connected : Bool
  pub six_connected : Bool
  pub db_connected : Bool

abbrev overall : Bool → HealthStatus
overall true = healthy
overall false = degraded

-- `connected` of the checks is that `SELECT 1` and `getVersion` were answered.
unfoldable pub get_health :
    (fl : Floats) → SixEnv fl.Float → Bool → Bool → SixState fl.Float → Health
unfolding is_connected
get_health fl env db_connected solana_connected six =
    let six_connected = is_connected fl env six in
    record {
      status = overall (db_connected && solana_connected && six_connected);
      solana_connected = solana_connected;
      six_connected = six_connected;
      db_connected = db_connected;
    }

pub record CrankTimes : Type 0 where
  pub last_run : Option ℕ
  pub last_success : Option ℕ

pub record CrankSnapshot : Type 0 where
  pub nav_crank : CrankTimes
  pub yield_crank : CrankTimes

unfoldable pub get_crank_snapshot : CrankRuns → CrankSnapshot
get_crank_snapshot r = record {
  nav_crank = record { last_run = r.nav_last_run; last_success = r.nav_last_success };
  yield_crank = record { last_run = r.yield_last_run; last_success = r.yield_last_success };
}
