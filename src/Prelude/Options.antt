-- ===== src/Prelude/Options.antt =====
-- Chains of steps that may fail, for `do` blocks.
use mathlib.Core.Bool.{Bool}
use mathlib.Core.Option.{Option, none, some}
use oragami.Prelude.Tests.{if◌then◌else◌}

infixl 5 ◌>>=◌ ◌>>◌
abbrev pub ◌>>=◌ {ℓ κ} : {A : Type ℓ} {B : Type κ} → Option A → (A → Option B) → Option B
none >>= f = none
some a >>= f = f a

abbrev pub ◌>>◌ {ℓ κ} : {A : Type ℓ} {B : Type κ} → Option A → Option B → Option B
m >> k = m >>= λ _. k

-- `require!(c, …)`
abbrev pub require : Bool → Option (Unit {0})
require c = if c then some tt else none
