-- ===== src/Vault/Queries.antt =====
-- oragami-backend/src/vault/vault.service.ts and vault.controller.ts: the histories and the statistics.
-- The tables hold the newest rows first; a list of rows is read in that order. Numbers that the
-- answers carry as decimal texts are numbers here.
use mathlib.Core.List.{reverse}
use oragami.Prelude.{
  ℕ, ◌+◌, ◌-◌, String, Bool, Option, none, some, List, [], ◌∷◌, length, take, filter, leb,
  if◌then◌else◌, ◌==◌, string_eq, ◌otherwise◌,
}
use oragami.Prelude.Int.{ℤ, pos, ◌-ℤ◌, ltb_ℤ}
use oragami.Prelude.Results.{Result, ok, err, thrown}
use oragami.Js.Number.{Number, int, math_min, math_max}
use oragami.Js.Floats.{Floats}
use oragami.Six.Service.{truthy}
use oragami.Database.{Db, Institution, Deposit, NavSnapshot, YieldEvent}
use oragami.Crank.Service.{VaultAccount}

-- `Number.isFinite(parsed) ? parsed : 100` of the query parameter; `parse_int` is `parseInt(…, 10)`.
abbrev pub finite_or_hundred : Number → Number
finite_or_hundred (int z) = int z
finite_or_hundred x = int (pos 100)

unfoldable pub limit_of : (String → Number) → Option String → Number
limit_of parse_int limit = elim (truthy limit) [
  | none ↦ int (pos 100)
  | some text ↦ finite_or_hundred (parse_int text)
]

-- `Math.min(500, Math.max(1, limit))`
abbrev pub clamp_take : Number → Number
clamp_take limit = math_min 500 (math_max 1 limit)

-- `findMany` with `take`: Prisma takes no NaN and no infinity, and this code asks for no negative
-- number.
abbrev pub rows : {A : Type 0} → Number → List A → Result (List A)
rows (int (pos n)) table = ok (take n table)
rows x table = err (thrown "PrismaClientValidationError")

unfoldable pub nav_history : {F : Type 0} → Number → Db F → Result (List (NavSnapshot F))
nav_history limit db = rows (clamp_take limit) db.nav_snapshots

unfoldable pub yield_history : {F : Type 0} → Number → Db F → Result (List (YieldEvent F))
yield_history limit db = rows (clamp_take limit) db.yield_events

-- The two handlers of the controller.
unfoldable pub get_nav_history :
    {F : Type 0} → (String → Number) → Option String → Db F → Result (List (NavSnapshot F))
unfolding nav_history limit_of
get_nav_history parse_int limit = nav_history (limit_of parse_int limit)

unfoldable pub get_yield_history :
    {F : Type 0} → (String → Number) → Option String → Db F → Result (List (YieldEvent F))
unfolding yield_history limit_of
get_yield_history parse_int limit = yield_history (limit_of parse_int limit)

pub record NavCurrent (F : Type 0) : Type 0 where
  pub nav_bps : Option ℤ
  pub source : Option String
  pub gold_price : Option F
  pub chf_usd : Option F
  pub eusx_nav : Option F
  pub timestamp : Option ℕ

-- `findFirst`, the newest row.
abbrev current_of : {F : Type 0} → List (NavSnapshot F) → NavCurrent F
current_of [] = record {
  nav_bps = none;
  source = none;
  gold_price = none;
  chf_usd = none;
  eusx_nav = none;
  timestamp = none;
}
current_of (row ∷ _) = record {
  nav_bps = some row.nav_bps;
  source = some row.source;
  gold_price = row.gold_price;
  chf_usd = row.chf_usd;
  eusx_nav = some row.eusx_nav;
  timestamp = some row.timestamp;
}

unfoldable pub nav_current : {F : Type 0} → Db F → NavCurrent F
nav_current db = current_of db.nav_snapshots

-- The sum of a column; of no rows it is `null`, which counts as 0.
abbrev sum_deposits : List Deposit → ℤ
sum_deposits [] = pos 0
sum_deposits (d ∷ ds) = d.usdc_amount -ℤ (pos 0 -ℤ sum_deposits ds)

abbrev sum_yield : {F : Type 0} → List (YieldEvent F) → ℕ
sum_yield [] = 0
sum_yield (y ∷ ys) = y.yield_accrued + sum_yield ys

abbrev is_active : Institution → Bool
is_active i = i.credential_status == "active"

-- A day in milliseconds.
abbrev day : ℕ
day = 86400000

abbrev last_24h : {F : Type 0} → ℕ → List (NavSnapshot F) → List (NavSnapshot F)
last_24h now snapshots = reverse (filter (λ s. leb (now - day) s.timestamp) snapshots)

abbrev last_of : {F : Type 0} → NavSnapshot F → List (NavSnapshot F) → NavSnapshot F
last_of s [] = s
last_of s (t ∷ ts) = last_of t ts

pub record Stats (F : Type 0) : Type 0 where
  pub total_institutions : ℕ
  pub active_credentials : ℕ
  pub total_deposits_usd : ℤ
  pub total_yield_distributed : ℕ
  pub current_apy : F
  pub nav_change_24h : F

module _ (fl : Floats) where
  open fl use {Float, of_nat, mul, div}

  -- `Number` of a difference that fits, as a double; `float_of` is that of an integer.
  nav_change : (ℤ → Float) → List (NavSnapshot Float) → Float
  nav_change float_of (first ∷ second ∷ rest) =
      if ltb_ℤ (pos 0) first.nav_bps
      then mul
          (div (float_of ((last_of second rest).nav_bps -ℤ first.nav_bps)) (float_of first.nav_bps))
          (of_nat 100)
      else of_nat 0
  nav_change float_of _ = of_nat 0

  -- A failed read of the vault throws.
  pub stats : (ℤ → Float) → ℕ → Option VaultAccount → Db Float → Result (Stats Float)
  unfolding nav_change
  stats float_of now account db = elim account [
    | none ↦ err (thrown "Account does not exist")
    | some vs ↦ ok (record {
      total_institutions = length db.institutions;
      active_credentials = length (filter is_active db.institutions);
      total_deposits_usd = sum_deposits db.deposits;
      total_yield_distributed = sum_yield db.yield_events;
      current_apy = div (of_nat (vs.apy_bps otherwise 0)) (of_nat 100);
      nav_change_24h = nav_change float_of (last_24h now db.nav_snapshots);
    })
  ]
