-- ===== src/Crank/Guards.antt =====
-- When a run of the NAV crank sends a `setNav` transaction.
use oragami.Prelude.{
  ℕ, ◌+◌, ◌≤◌, ◌≡◌, refl, ap, ◌∙◌, ◌≢◌, ◌⊎◌, inl, inr, none, List, [], ◌∷◌, false, arith,
}
use oragami.Prelude.Int.{pos}
use oragami.Js.Number.{Number, int, IsBetween, differs_by_more}
use oragami.Js.Floats.{Floats}
use oragami.Crank.Service.{
  Backend, CrankEnv, Prices, ChainCall, set_nav, vault_view, publish, tick_yield, post_attestation,
  update_on_chain, decide, update_nav, run_nav_crank, min_update_interval_ms, max_nav_change_bps,
  fetch_prices,
}
use oragami.Crank.Nav.{compute_nav_bps, set_baselines}
use oragami.Crank.ServiceLaws.{BackendIsValid, computed_nav, decided_on, computed_nav-IsBetween}

-- The `setNav` transactions among those that were answered, with their times.
abbrev pub set_navs : List ChainCall → List (Number × ℕ)
set_navs [] = []
set_navs (set_nav nav at ∷ calls) = (nav, at) ∷ set_navs calls
set_navs (_ ∷ calls) = set_navs calls

-- `x` is a whole number at most `c` away from `n`.
abbrev pub IsWithin : ℕ → Number → ℕ → Type 0
IsWithin c (int (pos m)) n = (m ≤ n + c) × (n ≤ m + c)
IsWithin c x n = ⊥

IsWithin-of_test :
    (c : ℕ) (x : Number) (n : ℕ)
    → IsBetween 5000 20000 x
    → differs_by_more c x n ≡ false
    → IsWithin c x n
IsWithin-of_test c (int (pos m)) n h t = ground arith
IsWithin-of_test c x n h t = elim h [ ]

module _ (fl : Floats) where
  open fl use {Float}

  -- No `setNav` was sent.
  abbrev pub Unsent : Backend Float → Backend Float → Type 0
  Unsent b b' =
      (set_navs b'.chain ≡ set_navs b.chain)
      × (b'.memory.last_on_chain_update_ms ≡ b.memory.last_on_chain_update_ms)

  -- Exactly one was sent, for `nav`, and its time was noted.
  abbrev pub Sent : Number → ℕ → Backend Float → Backend Float → Type 0
  Sent nav at b b' =
      (set_navs b'.chain ≡ (nav, at) ∷ set_navs b.chain) × (b'.memory.last_on_chain_update_ms ≡ at)

  publish_sends :
      (env : CrankEnv Float) (current alloc : ℕ) (nav : Number) (p : Prices Float)
      (b : Backend Float)
      → Unsent b (publish fl env current alloc nav p b).1
        ⊎ Sent nav env.set_at b (publish fl env current alloc nav p b).1
  unfolding publish tick_yield post_attestation
  publish_sends env current alloc nav p b = ground arith

  update_on_chain_sends :
      (env : CrankEnv Float) (current alloc : ℕ) (nav : Number) (p : Prices Float)
      (b : Backend Float)
      → Unsent b (update_on_chain fl env current alloc nav p b).1
        ⊎ Sent nav env.set_at b (update_on_chain fl env current alloc nav p b).1
  unfolding update_on_chain
  update_on_chain_sends env current alloc nav p b =
      ground (arith, publish_sends env current alloc nav p b)

  -- What held when a `setNav` was sent: the vault account was read, its NAV is near, and the last
  -- update lies far enough back.
  abbrev pub Permitted : CrankEnv Float → Number → Backend Float → Type 0
  Permitted env nav b =
      (env.vault_before ≢ none)
      × (differs_by_more max_nav_change_bps nav (vault_view env.vault_before).0 ≡ false)
      × (b.memory.last_on_chain_update_ms + min_update_interval_ms ≤ env.now)

  decide_sends :
      (env : CrankEnv Float) (nav : Number) (p : Prices Float) (b : Backend Float)
      → Unsent b (decide fl env nav p b).1
        ⊎ Sent nav env.set_at b (decide fl env nav p b).1 × Permitted env nav b
  unfolding decide
  decide_sends env nav p b = ground (
    arith,
    update_on_chain_sends env (vault_view env.vault_before).0 (vault_view env.vault_before).1 nav p
        b,
  )

  -- The vault account was read, and `nav` is a whole number of basis points from 5 000 to 20 000,
  -- at most 1 000 away from the NAV in that account; the last update lies 90 s back or more.
  abbrev pub Justified : CrankEnv Float → Number → Backend Float → Type 0
  Justified env nav b =
      (env.vault_before ≢ none)
      × IsBetween 5000 20000 nav
      × IsWithin 1000 nav (vault_view env.vault_before).0
      × (b.memory.last_on_chain_update_ms + 90000 ≤ env.now)

  pub decided_on_keeps :
      (env : CrankEnv Float) (b : Backend Float)
      → ((decided_on fl env b).chain ≡ b.chain)
        × ((decided_on fl env b).memory.last_on_chain_update_ms ≡ b.memory.last_on_chain_update_ms)
  unfolding fetch_prices compute_nav_bps set_baselines
  decided_on_keeps env b = (refl, refl)

  update_nav_sends :
      (env : CrankEnv Float) (b : Backend Float)
      → BackendIsValid fl b
      → Unsent b (update_nav fl env b).1
        ⊎ Sent (computed_nav fl env b) env.set_at b (update_nav fl env b).1
          × Justified env (computed_nav fl env b) b
  unfolding update_nav
  update_nav_sends env b v =
      let (calls, last) = decided_on_keeps env b in
      let within = (computed_nav-IsBetween fl env b v).0 in
      elim (decide_sends env (computed_nav fl env b) (fetch_prices fl env b).0
        (decided_on fl env b)) [
          | inl u ↦ inl (u.0 ∙ ap set_navs calls, u.1 ∙ last)
          | inr (s, k) ↦ inr (
            (s.0 ∙ ap (λ c. (computed_nav fl env b, env.set_at) ∷ set_navs c) calls, s.1),
            (
              k.0,
              within,
              IsWithin-of_test 1000 (computed_nav fl env b) _ within k.1,
              rw last at (k.2),
            ),
          )
        ]

  -- A `setNav` counts as sent when it is answered with a signature.
  -- From a backend whose remembered prices are finite and positive, one run of the crank sends no
  -- `setNav` and leaves the time of the last update alone, or sends exactly one, for the NAV that
  -- it computed, and notes the time; and it sends it only if the vault account was read, the NAV is
  -- an integer from 5 000 to 20 000 and at most 1 000 away from the one in the account, and
  -- the last update lies 90 s back or more.
  pub run_nav_crank_sends :
      (env : CrankEnv Float) (b : Backend Float)
      → BackendIsValid fl b
      → Unsent b (run_nav_crank fl env b)
        ⊎ Sent (computed_nav fl env b) env.set_at b (run_nav_crank fl env b)
          × Justified env (computed_nav fl env b) b
  unfolding run_nav_crank
  run_nav_crank_sends env b v = update_nav_sends env b v
