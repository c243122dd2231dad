-- ===== src/Prelude/Clock.antt =====
-- Units of time. Instants are numbers of milliseconds since the epoch.
use Prim.Native.Nat.{ℕ, ◌*◌, ◌/◌}

-- `Math.floor(ms / 1000)`
abbrev pub to_seconds : ℕ → ℕ
to_seconds ms = ms / 1000

-- `new Date(s * 1000)`
abbrev pub to_millis : ℕ → ℕ
to_millis s = s * 1000
