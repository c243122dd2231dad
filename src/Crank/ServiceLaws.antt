-- ===== src/Crank/ServiceLaws.antt =====
-- What one run of the NAV crank keeps, whatever the feeds, the chain and the database answer.
use oragami.Prelude.{ℕ, ◌≡◌, refl, false, inl, inr, Bool-cases, String, arith}
use oragami.Prelude.Results.{Result, ok, err, thrown}
use oragami.Js.Number.{Number, IsBetween}
use oragami.Js.Floats.{Floats, IsPrice}
use oragami.Js.Json.{Json}
use oragami.Six.Service.{SixEnv, SixState}
use oragami.Solstice.NavLaws.{CacheIsValid, get_eusx_nav-IsPrice}
use oragami.Crank.PriceLaws.{OnlyPrice, or_else-OnlyPrice, extract_price-OnlyPrice}
use oragami.Crank.Nav.{compute_nav_bps}
use oragami.Crank.NavLaws.{MemoryIsValid, compute_nav_bps-IsBetween}
use oragami.Crank.Service.{
  Backend, CrankEnv, Prices, NavResult, answered, fetch_price, fetch_prices, publish, tick_yield,
  update_on_chain, decide, update_nav, run_nav_crank, vault_view,
}

module _ (fl : Floats) where
  open fl use {Float}

  answered-OnlyPrice : (r : Result (Json Float)) → OnlyPrice fl (answered fl r)
  answered-OnlyPrice (ok body) = extract_price-OnlyPrice fl body
  answered-OnlyPrice (err e) = tt

  fetch_price-OnlyPrice :
      (env : SixEnv Float) (valor : String) (s : SixState Float)
      → OnlyPrice fl (fetch_price fl env valor s).0
  unfolding fetch_price
  fetch_price-OnlyPrice env valor s = answered-OnlyPrice _

  -- The prices in memory are finite and positive, and so is the cached eUSX price.
  pub record BackendIsValid (b : Backend Float) : Type 0 where
    pub memory_valid : MemoryIsValid fl b.memory
    pub cache_valid : CacheIsValid fl b.solstice

  record PricesAreValid (p : Prices Float) : Type 0 where
    gold_valid : OnlyPrice fl p.gold_price
    chf_valid : OnlyPrice fl p.chf_usd
    eusx_valid : IsPrice fl p.eusx_nav

  fetch_prices-valid :
      (env : CrankEnv Float) (b : Backend Float)
      → BackendIsValid b
      → PricesAreValid (fetch_prices fl env b).0 × BackendIsValid (fetch_prices fl env b).1
  unfolding fetch_prices
  fetch_prices-valid env b v =
      let m = v.memory_valid in
      let (nav, cached) = get_eusx_nav-IsPrice fl env.solstice b.solstice v.cache_valid in
      let (gold, six₁) = fetch_price fl env.six_gold "274702" b.six in
      let g =
        or_else-OnlyPrice fl gold b.memory.last_gold_price
          (fetch_price-OnlyPrice env.six_gold "274702" b.six) m.last_gold in
      let c =
        or_else-OnlyPrice fl (fetch_price fl env.six_chf "275164" six₁).0 b.memory.last_chf_usd
          (fetch_price-OnlyPrice env.six_chf "275164" six₁) m.last_chf in
      (
        record { gold_valid = g; chf_valid = c; eusx_valid = nav },
        record {
          memory_valid = record {
            last_gold = g;
            last_chf = c;
            baseline_gold = m.baseline_gold;
            baseline_chf = m.baseline_chf;
          };
          cache_valid = cached;
        },
      )

  publish-valid :
      (env : CrankEnv Float) (current alloc : ℕ) (nav : Number) (p : Prices Float)
      (b : Backend Float)
      → BackendIsValid b
      → BackendIsValid (publish fl env current alloc nav p b).1
  unfolding publish tick_yield
  publish-valid env current alloc nav p b v = ground arith

  update_on_chain-valid :
      (env : CrankEnv Float) (current alloc : ℕ) (nav : Number) (p : Prices Float)
      (b : Backend Float)
      → BackendIsValid b
      → BackendIsValid (update_on_chain fl env current alloc nav p b).1
  unfolding update_on_chain
  update_on_chain-valid env current alloc nav p b v =
      ground (arith, publish-valid env current alloc nav p b v)

  decide-valid :
      (env : CrankEnv Float) (nav : Number) (p : Prices Float) (b : Backend Float)
      → BackendIsValid b
      → BackendIsValid (decide fl env nav p b).1
  unfolding decide
  decide-valid env nav p b v = ground (
    arith,
    update_on_chain-valid env (vault_view env.vault_before).0 (vault_view env.vault_before).1 nav p
        b v,
  )

  -- The answer is with this NAV, which is within the limits; it throws only for the audit row.
  abbrev pub AnswersWithin : CrankEnv Float → Number → Result (NavResult Float) → Type 0
  AnswersWithin env nav (ok r) = (r.nav_bps ≡ nav) × IsBetween 5000 20000 nav
  AnswersWithin env nav (err e) =
      (e ≡ thrown "auditEvent.create failed") × (env.audit_saved ≡ false)

  update_on_chain-AnswersWithin :
      (env : CrankEnv Float) (current alloc : ℕ) (nav : Number) (p : Prices Float)
      (b : Backend Float)
      → IsBetween 5000 20000 nav
      → AnswersWithin env nav (update_on_chain fl env current alloc nav p b).0
  unfolding update_on_chain
  update_on_chain-AnswersWithin env current alloc nav p b h = elim (Bool-cases env.audit_saved) [
    | inl e ↦ rw e (refl, h)
    | inr e ↦ rw e (refl, refl)
  ]

  decide-AnswersWithin :
      (env : CrankEnv Float) (nav : Number) (p : Prices Float) (b : Backend Float)
      → IsBetween 5000 20000 nav
      → AnswersWithin env nav (decide fl env nav p b).0
  unfolding decide
  decide-AnswersWithin env nav p b h = ground (
    arith,
    update_on_chain-AnswersWithin env (vault_view env.vault_before).0
        (vault_view env.vault_before).1 nav p b h,
  )

  -- The NAV that a run computes, and that `decide` gets.
  abbrev pub computed_nav : CrankEnv Float → Backend Float → Number
  computed_nav env b =
      let (p, b') = fetch_prices fl env b in
      (compute_nav_bps fl p.gold_price p.chf_usd p.eusx_nav b'.memory).0

  abbrev pub decided_on : CrankEnv Float → Backend Float → Backend Float
  decided_on env b =
      let (p, b') = fetch_prices fl env b in
      record b' { memory = (compute_nav_bps fl p.gold_price p.chf_usd p.eusx_nav b'.memory).1 }

  pub computed_nav-IsBetween :
      (env : CrankEnv Float) (b : Backend Float)
      → BackendIsValid b
      → IsBetween 5000 20000 (computed_nav env b) × BackendIsValid (decided_on env b)
  computed_nav-IsBetween env b v =
      let (p, v') = fetch_prices-valid env b v in
      let (n, m) =
        compute_nav_bps-IsBetween fl _ _ _ _ p.gold_valid p.chf_valid p.eusx_valid
          v'.memory_valid in
      (n, record { memory_valid = m; cache_valid = v'.cache_valid })

  -- From a backend whose remembered prices are finite and positive, `updateNav` answers with the
  -- NAV that it computed from the prices, an integer from 5 000 to 20 000, or throws, which it does
  -- with the error of the audit row alone and only if that cannot be written; and the remembered
  -- prices stay finite and positive.
  pub update_nav-AnswersWithin :
      (env : CrankEnv Float) (b : Backend Float)
      → BackendIsValid b
      → AnswersWithin env (computed_nav env b) (update_nav fl env b).0
        × BackendIsValid (update_nav fl env b).1
  unfolding update_nav
  update_nav-AnswersWithin env b v =
      let (n, v') = computed_nav-IsBetween env b v in
      (
        decide-AnswersWithin env (computed_nav env b) (fetch_prices fl env b).0 (decided_on env b)
            n,
        decide-valid env (computed_nav env b) (fetch_prices fl env b).0 (decided_on env b) v',
      )

  pub run_nav_crank-BackendIsValid :
      (env : CrankEnv Float) (b : Backend Float)
      → BackendIsValid b
      → BackendIsValid (run_nav_crank fl env b)
  unfolding run_nav_crank
  run_nav_crank-BackendIsValid env b v =
      let (n, v') = update_nav-AnswersWithin env b v in
      record { memory_valid = v'.memory_valid; cache_valid = v'.cache_valid }
