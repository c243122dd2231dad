-- ===== src/Crank/Records.antt =====
-- What a run of the crank leaves in the database and in the run times.
use oragami.Prelude.{◌≡◌, ◌⊎◌, Option, none, some, Bool, true, false, arith, ℕ, String}
use oragami.Prelude.Results.{Result, ok, err}
use oragami.Js.Number.{Number}
use oragami.Js.Floats.{Floats}
use oragami.Health.CrankState.{CrankRuns, record_nav_run}
use oragami.Crank.Nav.{compute_nav_bps}
use oragami.Crank.Service.{
  Backend, CrankEnv, Prices, NavResult, vault_view, fetch_prices, tick_yield, post_attestation,
  publish, update_on_chain, decide, update_nav, run_nav_crank, succeeded,
}
use oragami.Crank.ServiceLaws.{computed_nav, decided_on}
use oragami.Crank.Guards.{Unsent, Sent, decided_on_keeps}

module _ (fl : Floats) where
  open fl use {Float}

  -- A signature goes with one `setNav` that was sent, its absence with none.
  abbrev Signed : CrankEnv Float → Number → Option String → Backend Float → Backend Float → Type 0
  Signed env nav none b b' = Unsent fl b b'
  Signed env nav (some tx) b b' = Sent fl nav env.set_at b b'

  -- So does the answer; a throw comes from the audit row alone.
  abbrev Agrees :
      CrankEnv Float → Number → Result (NavResult Float) → Backend Float → Backend Float → Type 0
  Agrees env nav (err e) b b' = env.audit_saved ≡ false
  Agrees env nav (ok r) b b' = Signed env nav r.tx_signature b b'

  publish-Signed :
      (env : CrankEnv Float) (current alloc : ℕ) (nav : Number) (p : Prices Float)
      (b : Backend Float)
      → let (tx, b') = publish fl env current alloc nav p b in Signed env nav tx b b'
  unfolding publish tick_yield post_attestation
  publish-Signed env current alloc nav p b = ground arith

  update_on_chain-Agrees :
      (env : CrankEnv Float) (current alloc : ℕ) (nav : Number) (p : Prices Float)
      (b : Backend Float)
      → let (r, b') = update_on_chain fl env current alloc nav p b in Agrees env nav r b b'
  unfolding update_on_chain
  update_on_chain-Agrees env current alloc nav p b =
      ground (arith, publish-Signed env current alloc nav p b)

  decide-Agrees :
      (env : CrankEnv Float) (nav : Number) (p : Prices Float) (b : Backend Float)
      → let (r, b') = decide fl env nav p b in Agrees env nav r b b'
  unfolding decide
  decide-Agrees env nav p b = ground (
    arith,
    update_on_chain-Agrees env (vault_view env.vault_before).0 (vault_view env.vault_before).1 nav p
        b,
  )

  -- How the noted times tell what a run did: it sent one `setNav` and noted its end as a success,
  -- or it sent none and left the time of the last success alone.
  abbrev pub Reports : CrankEnv Float → Number → Backend Float → Backend Float → Type 0
  Reports env nav b b' =
      Sent fl nav env.set_at b b' × (b'.runs.nav_last_success ≡ some env.finished_at)
      ⊎ Unsent fl b b' × (b'.runs.nav_last_success ≡ b.runs.nav_last_success)

  Reports-of_Agrees :
      (env : CrankEnv Float) (nav : Number) (r : Result (NavResult Float)) (b b' : Backend Float)
      → env.audit_saved ≡ true
      → b'.runs ≡ b.runs
      → Agrees env nav r b b'
      → Reports env nav b
          (record b' { runs = record_nav_run env.finished_at (succeeded fl r) b'.runs })
  unfolding record_nav_run
  Reports-of_Agrees env nav (err e) b b' audit same h = cc
  Reports-of_Agrees env nav (ok r) b b' audit same h = ground arith

  update_on_chain-runs :
      (env : CrankEnv Float) (current alloc : ℕ) (nav : Number) (p : Prices Float)
      (b : Backend Float)
      → (update_on_chain fl env current alloc nav p b).1.runs ≡ b.runs
  unfolding update_on_chain publish tick_yield
  update_on_chain-runs env current alloc nav p b = ground arith

  decide-runs :
      (env : CrankEnv Float) (nav : Number) (p : Prices Float) (b : Backend Float)
      → (decide fl env nav p b).1.runs ≡ b.runs
  unfolding decide
  decide-runs env nav p b = ground (
    arith,
    update_on_chain-runs env (vault_view env.vault_before).0 (vault_view env.vault_before).1 nav p
        b,
  )

  Agrees-decided_on :
      (env : CrankEnv Float) (nav : Number) (r : Result (NavResult Float)) (b b' : Backend Float)
      → Agrees env nav r (decided_on fl env b) b'
      → Agrees env nav r b b'
  Agrees-decided_on env nav (err e) b b' h = h
  Agrees-decided_on env nav (ok r) b b' h = ground (arith, decided_on_keeps fl env b)

  last_run_noted :
      (now : ℕ) (done : Bool) (r : CrankRuns) → (record_nav_run now done r).nav_last_run ≡ some now
  unfolding record_nav_run
  last_run_noted now done r = ground arith

  -- If the audit row is written, a run notes its end as its last run, and as its last success
  -- exactly when a `setNav` for the NAV that it computed was sent.
  run_nav_crank-Reports :
      (env : CrankEnv Float) (b : Backend Float)
      → env.audit_saved ≡ true
      → ((run_nav_crank fl env b).runs.nav_last_run ≡ some env.finished_at)
        × Reports env (computed_nav fl env b) b (run_nav_crank fl env b)
  unfolding run_nav_crank update_nav fetch_prices compute_nav_bps
  run_nav_crank-Reports env b audit =
      let d = decided_on fl env b in
      let nav = computed_nav fl env b in
      let p = (fetch_prices fl env b).0 in
      (
        last_run_noted env.finished_at _ _,
        Reports-of_Agrees env nav (decide fl env nav p d).0 b (decide fl env nav p d).1 audit
            (decide-runs env nav p d)
            (Agrees-decided_on env nav (decide fl env nav p d).0 b (decide fl env nav p d).1
              (decide-Agrees env nav p d)),
      )
