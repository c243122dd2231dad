-- ===== src/Crank/Service.antt =====
-- oragami-backend/src/crank/nav-crank.service.ts: `updateNav`, `runNavCrank` and what they call.
-- The state is that of the services which a run touches, with the database and the log of the
-- transactions that were answered. What the feeds, the chain, the database and the clock answer
-- during one run is a `CrankEnv`; `none` stands for a throw. Logging is left out.
use oragami.Prelude.{
  ℕ, ◌+◌, ◌-◌, ◌*◌, ◌/◌, String, Bool, true, false, not, ◌&&◌, Option, none, some, List, ◌∷◌, ltb,
  if◌then◌else◌, ◌otherwise◌, ◌<|>◌, is_some,
}
use oragami.Prelude.Int.{pos}
use oragami.Prelude.Results.{Result, ok, err, thrown}
use oragami.Js.Number.{Number, differs_by_more, to_bigint}
use oragami.Js.Floats.{Floats}
use oragami.Js.Json.{Json}
use oragami.Database.{Db, AuditEvent}
use oragami.Six.Service.{SixEnv, SixState, fetch_intraday_snapshot}
use oragami.Solstice.Nav.{SolsticeEnv, SolsticeState, get_eusx_nav}
use oragami.Health.CrankState.{CrankRuns, record_nav_run}
use oragami.Crank.Price.{extract_price}
use oragami.Crank.Nav.{CrankMemory, compute_nav_bps}

-- The fields of the vault account that the backend reads; one that is missing is `undefined`.
pub record VaultAccount : Type 0 where
  pub nav_price_bps : Option ℕ
  pub usx_allocation_bps : Option ℕ
  pub total_deposits : Option ℕ
  pub total_supply : Option ℕ
  pub pending_yield : Option ℕ
  pub apy_bps : Option ℕ
  pub last_yield_claim : Option ℕ
  pub paused : Bool

-- A transaction that was answered with a signature, with the clock when the answer came. One whose
-- answer is lost is not told from one that was not taken, as in the code.
pub data ChainCall : Type 0 where
  set_nav : Number → ℕ → ChainCall
  post_reserve_attestation : List ℕ → Number → Number → ChainCall
  process_yield : ChainCall

pub record Backend (F : Type 0) : Type 0 where
  pub memory : CrankMemory F
  pub six : SixState F
  pub solstice : SolsticeState F
  pub runs : CrankRuns
  pub db : Db F
  pub chain : List ChainCall  -- the newest first

pub record CrankEnv (F : Type 0) : Type 0 where
  pub six_gold : SixEnv F
  pub six_chf : SixEnv F
  pub solstice : SolsticeEnv F
  -- `readVaultState` before the update and in `tickYield`
  pub vault_before : Option VaultAccount
  pub vault_after : Option VaultAccount
  -- the answer of the `setNav` transaction, a signature
  pub set_nav_tx : Number → Option String
  -- the `linkHash` of the registry, and the answer of the attestation
  pub link_hash : Option (List ℕ)
  pub attestation_tx : Number → Number → Option String
  pub process_yield_ok : Bool
  -- whether the database takes the row
  pub snapshot_saved : Bool
  pub yield_event_saved : Bool
  pub audit_saved : Bool
  -- `Date.now()` at the guard, after `setNav`, in `tickYield` and at the end
  pub now : ℕ
  pub set_at : ℕ
  pub tick_at : ℕ
  pub finished_at : ℕ

pub record Prices (F : Type 0) : Type 0 where
  pub gold_price : Option F
  pub chf_usd : Option F
  pub eusx_nav : F
  pub source : String

-- What `updateNav` returns.
pub record NavResult (F : Type 0) : Type 0 where
  pub nav_bps : Number
  pub prices : Prices F
  pub tx_signature : Option String

abbrev pub max_nav_change_bps : ℕ
max_nav_change_bps = 1000

abbrev pub min_update_interval_ms : ℕ
min_update_interval_ms = 90000

-- `readVaultState` with its defaults: the NAV, the allocation, and whether the vault is there.
abbrev pub vault_view : Option VaultAccount → ℕ × ℕ × Bool
vault_view none = (10000, 7000, false)
vault_view (some v) = (v.nav_price_bps otherwise 10000, v.usx_allocation_bps otherwise 7000, true)

module _ (fl : Floats) where
  open fl use {Float, of_nat, mul, math_round}

  abbrev pub answered : Result (Json Float) → Option Float
  answered (ok body) = extract_price fl body
  answered (err e) = none

  -- One of the two `try` blocks of step 1.
  unfoldable pub fetch_price :
      SixEnv Float → String → SixState Float → Option Float × SixState Float
  fetch_price env valor s =
      let (body, s') = fetch_intraday_snapshot fl env "VALOR_BC" valor "148" s in
      (answered body, s')

  abbrev source_of : Option Float → Option Float → Option Float → Option Float → String
  source_of gold chf cached_gold cached_chf =
      if not (is_some gold) && is_some cached_gold
      then "SIX-cached"
      else if not (is_some chf) && is_some cached_chf
      then "SIX-cached"
      else "SIX"

  -- Steps 1 and 2.
  unfoldable pub fetch_prices : CrankEnv Float → Backend Float → Prices Float × Backend Float
  fetch_prices env b =
      let (gold, six₁) = fetch_price env.six_gold "274702" b.six in
      let (chf, six₂) = fetch_price env.six_chf "275164" six₁ in
      let last_gold = gold <|> b.memory.last_gold_price in
      let last_chf = chf <|> b.memory.last_chf_usd in
      let (eusx, solstice') = get_eusx_nav fl env.solstice b.solstice in
      (
        record {
          gold_price = last_gold;
          chf_usd = last_chf;
          eusx_nav = eusx;
          source = source_of gold chf last_gold last_chf;
        },
        record b {
          six = six₂;
          solstice = solstice';
          memory = record (b.memory) { last_gold_price = last_gold; last_chf_usd = last_chf };
        },
      )

  -- `BigInt(navBps)` throws inside the `try`, and then no row is written.
  unfoldable pub record_snapshot :
      CrankEnv Float → Number → Prices Float → Option String → Db Float → Db Float
  record_snapshot env nav p tx db = elim (to_bigint nav) [
    | none ↦ db
    | some n ↦
        if env.snapshot_saved
        then record db {
          nav_snapshots =
              record {
                nav_bps = n;
                source = p.source;
                tx_signature = tx;
                gold_price = p.gold_price;
                chf_usd = p.chf_usd;
                eusx_nav = p.eusx_nav;
                timestamp = env.finished_at;
              }
              ∷ db.nav_snapshots;
        }
        else db
  ]

  -- `postReserveAttestation` of vault.service.ts, which never throws.
  unfoldable pub post_attestation :
      CrankEnv Float → Option Float → Number → List ChainCall → List ChainCall
  post_attestation env gold nav chain =
      let micro = math_round (mul (gold otherwise of_nat 0) (of_nat 1000000)) in
      elim env.link_hash [
        | none ↦ chain
        | some hash ↦ elim (env.attestation_tx micro nav) [
          | none ↦ chain
          | some tx ↦ post_reserve_attestation hash micro nav ∷ chain
        ]
      ]

  -- Whole days since the last claim, 0 where that lies ahead.
  abbrev days_elapsed : ℕ → ℕ → ℕ
  days_elapsed now_ms last_claim = (now_ms - last_claim * 1000) / 86400000

  unfoldable pub record_yield_event :
      CrankEnv Float → VaultAccount → ℕ → ℕ → Number → Float → Db Float → Db Float
  record_yield_event env vs alloc before after eusx db = elim (to_bigint after) [
    | none ↦ db
    | some n ↦
        if env.yield_event_saved
        then record db {
          yield_events =
              record {
                total_deposits = vs.total_deposits otherwise 0;
                usx_allocation_bps = alloc;
                apy_bps = vs.apy_bps otherwise 0;
                days_elapsed = days_elapsed env.tick_at (vs.last_yield_claim otherwise 0);
                yield_accrued = vs.pending_yield otherwise 0;
                nav_before_bps = pos before;
                nav_after_bps = n;
                eusx_price = eusx;
                timestamp = env.tick_at;
              }
              ∷ db.yield_events;
        }
        else db
  ]

  unfoldable pub tick_yield :
      CrankEnv Float → ℕ → Number → ℕ → Float → Backend Float → Backend Float
  tick_yield env before after alloc eusx b =
      if not env.process_yield_ok
      then b
      else (let b' = record b { chain = process_yield ∷ b.chain } in
          elim env.vault_after [
            | none ↦ b'
            | some vs ↦ record b' { db = record_yield_event env vs alloc before after eusx b'.db }
          ])

  -- Step 7: the `try` block around `setNav`.
  unfoldable pub publish :
      CrankEnv Float → ℕ → ℕ → Number → Prices Float → Backend Float → Option String × Backend Float
  publish env current alloc nav p b = elim (env.set_nav_tx nav) [
    | none ↦ (none, b)
    | some tx ↦
        let b' = record b {
          memory = record (b.memory) { last_on_chain_update_ms = env.set_at };
          chain = post_attestation env p.gold_price nav (set_nav nav env.set_at ∷ b.chain);
        } in
        (some tx, tick_yield env current nav alloc p.eusx_nav b')
  ]

  abbrev audit_event : Option String → AuditEvent
  audit_event tx = record {
    institution_id = none;
    actor = "system";
    role = "crank";
    action = "set_nav";
    result = if is_some tx then "success" else "failed";
    tx_signature = tx;
  }

  abbrev answer : Number → Prices Float → Option String → Result (NavResult Float)
  answer nav p tx = ok (record { nav_bps = nav; prices = p; tx_signature = tx })

  -- Steps 7 to 9.
  unfoldable pub update_on_chain :
      CrankEnv Float
      → ℕ
      → ℕ
      → Number
      → Prices Float
      → Backend Float
      → Result (NavResult Float) × Backend Float
  update_on_chain env current alloc nav p b =
      let (tx, b') = publish env current alloc nav p b in
      let db' = record_snapshot env nav p tx b'.db in
      if env.audit_saved
      then (
        answer nav p tx,
        record b' { db = record db' { audit_events = audit_event tx ∷ db'.audit_events } },
      )
      else (err (thrown "auditEvent.create failed"), record b' { db = db' })

  -- Steps 5 and 6, before step 7.
  unfoldable pub decide :
      CrankEnv Float
      → Number
      → Prices Float
      → Backend Float
      → Result (NavResult Float) × Backend Float
  decide env nav p b =
      let (current, alloc, initialized) = vault_view env.vault_before in
      if differs_by_more max_nav_change_bps nav current
      then (answer nav p none, record b { db = record_snapshot env nav p none b.db })
      else if ltb env.now (b.memory.last_on_chain_update_ms + min_update_interval_ms)
      then (answer nav p none, b)
      else if not initialized
      then (answer nav p none, record b { db = record_snapshot env nav p none b.db })
      else update_on_chain env current alloc nav p b

  unfoldable pub update_nav :
      CrankEnv Float → Backend Float → Result (NavResult Float) × Backend Float
  update_nav env b =
      let (p, b') = fetch_prices env b in
      let (nav, m) = compute_nav_bps fl p.gold_price p.chf_usd p.eusx_nav b'.memory in
      decide env nav p (record b' { memory = m })

  -- `result.txSignature !== null`, false after a throw.
  abbrev pub succeeded : Result (NavResult Float) → Bool
  succeeded (ok r) = is_some r.tx_signature
  succeeded (err e) = false

  unfoldable pub run_nav_crank : CrankEnv Float → Backend Float → Backend Float
  run_nav_crank env b =
      let (r, b') = update_nav env b in
      record b' { runs = record_nav_run env.finished_at (succeeded r) b'.runs }
