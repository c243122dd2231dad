-- ===== src/Crank/Spacing.antt =====
-- Runs of the crank one after the other.
use oragami.Prelude.{ℕ, ◌+◌, ◌≤◌, List, [], ◌∷◌, inl, inr, arith}
use oragami.Js.Number.{Number}
use oragami.Js.Floats.{Floats}
use oragami.Crank.Service.{Backend, CrankEnv, run_nav_crank}
use oragami.Crank.ServiceLaws.{BackendIsValid, computed_nav, run_nav_crank-BackendIsValid}
use oragami.Crank.Guards.{set_navs, run_nav_crank_sends}

-- The times of the transactions, the newest first: each lies 90 s or more after the one before.
abbrev pub IsSpaced : List (Number × ℕ) → Type 0
IsSpaced [] = Unit
IsSpaced ((nav, at) ∷ []) = Unit
IsSpaced ((nav, at) ∷ (nav', at') ∷ calls) = (at' + 90000 ≤ at) × IsSpaced ((nav', at') ∷ calls)

-- The newest transaction is no later than `last`.
abbrev pub IsLast : ℕ → List (Number × ℕ) → Type 0
IsLast last [] = Unit
IsLast last ((nav, at) ∷ calls) = at ≤ last

extend-IsSpaced :
    (nav : Number) (last at : ℕ) (calls : List (Number × ℕ))
    → last + 90000 ≤ at
    → IsLast last calls
    → IsSpaced calls
    → IsSpaced ((nav, at) ∷ calls)
extend-IsSpaced nav last at [] h l s = tt
extend-IsSpaced nav last at (c ∷ calls) h l s = (omega arith, s)

module _ (fl : Floats) where
  open fl use {Float}

  -- `@Cron`: one run after the other, the first environment first.
  unfoldable pub run_all : List (CrankEnv Float) → Backend Float → Backend Float
  run_all [] b = b
  run_all (env ∷ envs) b = run_all envs (run_nav_crank fl env b)

  -- The clock does not go back within a run.
  abbrev pub ClocksAreSane : List (CrankEnv Float) → Type 0
  ClocksAreSane [] = Unit
  ClocksAreSane (env ∷ envs) = (env.now ≤ env.set_at) × ClocksAreSane envs

  pub record IsOrderly (b : Backend Float) : Type 0 where
    pub valid : BackendIsValid fl b
    pub spaced : IsSpaced (set_navs b.chain)
    pub latest : IsLast b.memory.last_on_chain_update_ms (set_navs b.chain)

  run_nav_crank-IsOrderly :
      (env : CrankEnv Float) (b : Backend Float)
      → env.now ≤ env.set_at
      → IsOrderly b
      → IsOrderly (run_nav_crank fl env b)
  run_nav_crank-IsOrderly env b clock o = elim (run_nav_crank_sends fl env b o.valid) [
    | inl u ↦ record {
      valid = run_nav_crank-BackendIsValid fl env b o.valid;
      spaced = rw (u.0) (o.spaced);
      latest = rw (u.0, u.1) (o.latest);
    }
    | inr (s, j) ↦ record {
      valid = run_nav_crank-BackendIsValid fl env b o.valid;
      spaced = rw (s.0) (
          extend-IsSpaced (computed_nav fl env b) b.memory.last_on_chain_update_ms env.set_at _
            (omega arith) o.latest o.spaced);
      latest = rw (s.0, s.1) (omega arith);
    }
  ]

  -- From a backend with finite positive remembered prices, whose earlier `setNav` transactions
  -- lie 90 s or more apart and no later than the noted time of the last: over any sequence of
  -- runs in which the clock does not go back within a run, whatever the feeds, the chain and the
  -- database answer, every two `setNav` transactions that were answered lie 90 s or more apart,
  -- and the remembered prices stay finite and positive.
  pub run_all-IsOrderly :
      (envs : List (CrankEnv Float)) (b : Backend Float)
      → ClocksAreSane envs
      → IsOrderly b
      → IsOrderly (run_all envs b)
  unfolding run_all
  run_all-IsOrderly [] b c o = o
  run_all-IsOrderly (env ∷ envs) b c o =
      run_all-IsOrderly envs (run_nav_crank fl env b) c.1 (run_nav_crank-IsOrderly env b c.0 o)
