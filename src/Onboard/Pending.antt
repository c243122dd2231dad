-- ===== src/Onboard/Pending.antt =====
-- oragami-frontend/app/onboard/pending/page.tsx: the page that polls the status of a credential. The
-- effect runs at the start and whenever the wallet changes, and owns an interval and a timer, which
-- are known by the number of its run.
use oragami.Prelude.{
  ℕ, ◌+◌, String, Bool, true, false, Option, none, some, List, [], ◌∷◌, if◌then◌else◌, ◌==◌, ltb,
  string_eq, nat_eq,
}
use oragami.Six.Service.{truthy}

pub record Pending : Type 0 where
  pub mounted : Bool
  pub elapsed : ℕ
  pub timeout_reached : Bool
  -- the runs of the effect, and the one whose interval and timer are not cleared
  pub runs : ℕ
  pub interval : Option ℕ
  pub timer : Option ℕ
  -- the wallet of the last run, the wallets that were asked for, and the pages that were opened
  pub public_key : Option String
  pub asked : List (Option String)
  pub replaced : List String

pub data Event : Type 0 where
  -- 3 s and 1 s are over
  polls ticks : Event
  -- `verifyCredential` answers a call of a run with a status, or throws
  answers : ℕ → String → Event
  fails : ℕ → Event
  -- the wallet of the store becomes another one, or none; the page is left
  wallet_changes : Option String → Event
  unmounts : Event

-- `clearInterval`
abbrev pub clear_interval : ℕ → Option ℕ → Option ℕ
clear_interval id none = none
clear_interval id (some other) = if id == other then none else some other

-- The body of the effect, for the wallet in the store.
abbrev pub effect : Option String → Pending → Pending
effect none s = record s { replaced = "/onboard/connect" ∷ s.replaced }
effect (some key) s = record s {
  runs = s.runs + 1;
  interval = some (s.runs + 1);
  timer = some (s.runs + 1);
}

-- What the effect returns: it clears the interval and the timer of its run.
abbrev pub cleanup : Pending → Pending
cleanup s = record s { interval = none; timer = none }

abbrev pub initial_pending : Option String → Pending
initial_pending key = effect (truthy key) (record {
  mounted = true;
  elapsed = 0;
  timeout_reached = false;
  runs = 0;
  interval = none;
  timer = none;
  public_key = key;
  asked = [];
  replaced = [];
})

abbrev pub polled : Option ℕ → Pending → Pending
polled none s = s
polled (some id) s = record s { asked = s.public_key ∷ s.asked }

abbrev pub ticked : Option ℕ → Pending → Pending
ticked none s = s
ticked (some id) s =
    if ltb (s.elapsed + 1) 60 then record s { elapsed = s.elapsed + 1 } else record s {
      elapsed = s.elapsed + 1;
      timeout_reached = true;
      interval = clear_interval id s.interval;
      timer = none;
    }

-- A call can be answered after its interval was cleared.
abbrev pub answered : ℕ → String → Pending → Pending
answered id status s =
    if status == "active"
    then record s {
      interval = clear_interval id s.interval;
      replaced = "/onboard/complete" ∷ s.replaced;
    }
    else s

unfoldable pub step : Event → Pending → Pending
step polls s = polled s.interval s
step ticks s = ticked s.timer s
step (answers id status) s = answered id status s
step (fails id) s = s
step (wallet_changes key) s =
    if s.mounted then effect (truthy key) (record (cleanup s) { public_key = key }) else s
step unmounts s = record (cleanup s) { mounted = false }

-- The first event of the list comes first.
unfoldable pub run : List Event → Pending → Pending
unfolding step
run [] s = s
run (e ∷ es) s = run es (step e s)
