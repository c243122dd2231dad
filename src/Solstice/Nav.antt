-- ===== src/Solstice/Nav.antt =====
-- oragami-backend/src/solana/solstice.service.ts: `getEusxNav` with its cache of 60 seconds, and
-- the two positions that are computed from it. Account reads are answers of the environment,
-- `none` where they throw.
use oragami.Prelude.{ℕ, ◌+◌, String, Bool, ◌&&◌, Option, none, some, ltb, if◌then◌else◌, string_eq}
use oragami.Prelude.Int.{ℤ, pos}
use oragami.Prelude.Results.{ok, err, thrown, Action}
use oragami.Js.Number.{to_bigint}
use oragami.Js.Floats.{Floats}
use oragami.Six.Service.{truthy}

pub record CachedNav (F : Type 0) : Type 0 where
  pub value : F
  pub timestamp : ℕ

pub record SolsticeState (F : Type 0) : Type 0 where
  pub cached_eusx_nav : Option (CachedNav F)

abbrev pub cache_ttl_ms : ℕ
cache_ttl_ms = 60000

pub record SolsticeEnv (F : Type 0) : Type 0 where
  pub now : ℕ
  pub nav_override : Option String  -- SOLSTICE_EUSX_NAV_OVERRIDE
  pub reserve_account : Option String  -- SOLSTICE_YIELD_RESERVE_USX_ACCOUNT
  -- `Number(text)`
  pub to_number : String → F
  -- `reserve.amount` and the supply of eUSX
  pub reserve_read : Option (ℕ × ℕ)

pub record VaultYieldPosition : Type 0 where
  pub eusx_balance : ℕ
  pub usx_value : ℤ

pub record YieldInfo (F : Type 0) : Type 0 where
  pub eusx_price_in_usx : F
  pub total_assets : ℤ
  pub total_shares : ℕ

module _ (fl : Floats) where
  open fl use {Float, of_nat, mul, div, is_finite, gt_zero, math_floor}

  -- `Number.isFinite(x) && x > 0`
  abbrev pub usable : Float → Bool
  usable x = is_finite x && gt_zero x

  abbrev is_cached : ℕ → Option (CachedNav Float) → Option Float
  is_cached now none = none
  is_cached now (some c) = if ltb now (c.timestamp + cache_ttl_ms) then some c.value else none

  abbrev from_override : SolsticeEnv Float → Option Float
  from_override env = elim (truthy env.nav_override) [
    | none ↦ none
    | some text ↦ if usable (env.to_number text) then some (env.to_number text) else none
  ]

  abbrev reserve_ratio : Option (ℕ × ℕ) → Option Float
  reserve_ratio none = none
  reserve_ratio (some (amount, supply)) =
      if ltb 0 supply && usable (div (of_nat amount) (of_nat supply))
      then some (div (of_nat amount) (of_nat supply))
      else none

  abbrev from_reserve : SolsticeEnv Float → Option Float
  from_reserve env = elim (truthy env.reserve_account) [
    | none ↦ none
    | some pk ↦ reserve_ratio env.reserve_read
  ]

  abbrev remember : ℕ → Float → Float × SolsticeState Float
  remember now v = (v, record { cached_eusx_nav = some (record { value = v; timestamp = now }) })

  unfoldable pub get_eusx_nav :
      SolsticeEnv Float → SolsticeState Float → Float × SolsticeState Float
  get_eusx_nav env s = elim (is_cached env.now s.cached_eusx_nav) [
    | some v ↦ (v, s)
    | none ↦ elim (from_override env) [
      | some v ↦ remember env.now v
      | none ↦ elim (from_reserve env) [
        | some v ↦ remember env.now v
        | none ↦ remember env.now (of_nat 1)
      ]
    ]
  ]

  -- `BigInt(Math.floor(Number(n) * nav))`
  abbrev valued : ℕ → Float → Option ℤ
  valued n nav = to_bigint (math_floor (mul (of_nat n) nav))

  -- The balance is 0 where the token account cannot be read.
  abbrev balance_or_zero : Option ℕ → ℕ
  balance_or_zero none = 0
  balance_or_zero (some n) = n

  pub get_vault_yield_position :
      SolsticeEnv Float → Option ℕ → Action (SolsticeState Float) VaultYieldPosition
  get_vault_yield_position env account s =
      let (nav, s') = get_eusx_nav env s in
      let balance = balance_or_zero account in
      elim (valued balance nav) [
        | none ↦ (err (thrown "RangeError"), s')
        | some v ↦ (ok (record { eusx_balance = balance; usx_value = v }), s')
      ]

  abbrev no_yield : Float → YieldInfo Float
  no_yield nav = record { eusx_price_in_usx = nav; total_assets = pos 0; total_shares = 0 }

  -- A RangeError of `BigInt` falls into the same `catch` as a failed read of the mint.
  pub get_yield_info :
      SolsticeEnv Float → Option ℕ → SolsticeState Float → YieldInfo Float × SolsticeState Float
  get_yield_info env supply s =
      let (nav, s') = get_eusx_nav env s in
      elim supply [
        | none ↦ (no_yield nav, s')
        | some shares ↦ elim (valued shares nav) [
          | none ↦ (no_yield nav, s')
          | some v ↦
              (record { eusx_price_in_usx = nav; total_assets = v; total_shares = shares }, s')
        ]
      ]
