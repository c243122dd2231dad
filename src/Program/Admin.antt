-- ===== src/Program/Admin.antt =====
-- oragami-vault/programs/oragami-vault/src/lib.rs: `set_pause`, `update_config` and `set_nav`. That the
-- signer is the operator or the authority is assumed, as is the account of the registry, of which
-- `set_nav` writes only the time of its last verification.
use oragami.Prelude.{ℕ, Bool, Option, none, some, leb, ◌otherwise◌, if◌then◌else◌}
use oragami.Prelude.Options.{◌>>=◌, ◌>>◌, require}
use oragami.Program.Vault.{accepts_nav}
use oragami.Program.Market.{Market}

pub record UpdateConfigParams : Type 0 where
  pub min_deposit : Option ℕ
  pub max_deposit : Option ℕ
  pub usx_allocation_bps : Option ℕ
  pub apy_bps : Option ℕ
  pub secondary_market_enabled : Option Bool

abbrev pub set_pause : Bool → Market → Market
set_pause paused m = record m { vault = record m.vault { paused = paused } }

unfoldable pub set_nav : ℕ → Market → Option Market
set_nav nav m =
    if accepts_nav m.vault.nav_price_bps nav
    then some (record m { vault = record m.vault { nav_price_bps = nav } })
    else none

abbrev within_mandate : Option ℕ → ℕ → Option (Unit {0})
within_mandate none b = some tt
within_mandate (some maximum) b = require (leb b maximum)

-- The allocation that is asked for, checked against 100 % and the mandate, if there is one.
checked_allocation : Option ℕ → Option ℕ → ℕ → Option ℕ
checked_allocation mandate none current = some current
checked_allocation mandate (some b) current = do
  require (leb b 10000)
  within_mandate mandate b
  some b

-- `mandate` is the `max_usx_allocation_bps` of the mandate account, where it is passed.
unfoldable pub update_config : Option ℕ → UpdateConfigParams → Market → Option Market
unfolding checked_allocation
update_config mandate params m = do
  b ← checked_allocation mandate params.usx_allocation_bps m.usx_allocation_bps
  some (record m {
    vault = record m.vault {
      min_deposit = params.min_deposit otherwise m.vault.min_deposit;
      max_deposit = params.max_deposit otherwise m.vault.max_deposit;
    };
    usx_allocation_bps = b;
    apy_bps = params.apy_bps otherwise m.apy_bps;
    secondary_market_enabled = params.secondary_market_enabled otherwise m.secondary_market_enabled;
  })
