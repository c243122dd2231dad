-- ===== src/Onboard/PendingLaws.antt =====
-- How long the page for pending accounts polls.
use oragami.Prelude.{
  ℕ, ◌+◌, ◌≤◌, ◌<◌, ltb, ◌≡◌, refl, ◌∙◌, inl, inr, String, Option, none, some, List, [], ◌∷◌, ◌⊎◌,
  ◌==◌, string_eq, nat_eq, arith, Bool-cases, Option-cases,
}
use oragami.Six.Service.{truthy}
use oragami.Onboard.Pending.{
  Pending, Event, polls, ticks, answers, fails, wallet_changes, unmounts, clear_interval, effect,
  ticked, answered, step, run, initial_pending,
}

-- The seconds that pass while the page keeps its wallet.
abbrev pub seconds : List Event → ℕ
seconds [] = 0
seconds (ticks ∷ es) = seconds es + 1
seconds (e ∷ es) = seconds es

abbrev pub KeepsWallet : List Event → Type 0
KeepsWallet [] = Unit
KeepsWallet (wallet_changes key ∷ es) = ⊥
KeepsWallet (e ∷ es) = KeepsWallet es

-- Neither the interval nor the timer runs.
abbrev pub IsStopped : Pending → Type 0
IsStopped s = (s.interval ≡ none) × (s.timer ≡ none)

-- An interval that runs is that of the effect whose timer runs.
abbrev IsPaired : Pending → Type 0
IsPaired s = (s.interval ≡ none) ⊎ (s.interval ≡ s.timer)

effect-IsPaired : (key : Option String) (s : Pending) → IsPaired s → IsPaired (effect key s)
effect-IsPaired none s h = h
effect-IsPaired (some key) s h = inr refl

clear_interval_lem :
    (id : ℕ) (i : Option ℕ) → (clear_interval id i ≡ none) ⊎ (clear_interval id i ≡ i)
clear_interval_lem id none = inl refl
clear_interval_lem id (some other) = ground arith

-- Once the effect's own interval and timer are cleared, neither runs.
clear_interval-none :
    (id : ℕ) (i : Option ℕ) → (i ≡ none) ⊎ (i ≡ some id) → clear_interval id i ≡ none
clear_interval-none id none h = refl
clear_interval-none id (some other) h = ground arith

answered-IsPaired :
    (id : ℕ) (status : String) (s : Pending) → IsPaired s → IsPaired (answered id status s)
answered-IsPaired id status s h = elim (Bool-cases (status == "active")) [
  | inl active ↦ rw active (ground (arith, clear_interval_lem id s.interval, h))
  | inr other ↦ rw other h
]

ticked-IsPaired : (s : Pending) → IsPaired s → IsPaired (ticked s.timer s)
ticked-IsPaired s h = ground arith

step-IsPaired : (e : Event) (s : Pending) → IsPaired s → IsPaired (step e s)
unfolding step
step-IsPaired polls s h = ground arith
step-IsPaired ticks s h = ticked-IsPaired s h
step-IsPaired (answers id status) s h = answered-IsPaired id status s h
step-IsPaired (fails id) s h = h
step-IsPaired (wallet_changes key) s h = ground arith
step-IsPaired unmounts s h = inl refl

run-IsPaired : (es : List Event) (s : Pending) → IsPaired s → IsPaired (run es s)
unfolding run
run-IsPaired [] s h = h
run-IsPaired (e ∷ es) s h = run-IsPaired es (step e s) (step-IsPaired e s h)

paired-IsStopped : (s : Pending) → IsPaired s → s.timer ≡ none → IsStopped s
paired-IsStopped s (inl h) t = (h, t)
paired-IsStopped s (inr h) t = (h ∙ t, t)

-- After a second neither runs, or the page has counted one of less than 60.
ticked-cases :
    (s : Pending)
    → IsPaired s
    → IsStopped (ticked s.timer s)
      ⊎ (((ticked s.timer s).elapsed ≡ s.elapsed + 1) × (s.elapsed + 1 < 60))
ticked-cases s h = elim (Option-cases s.timer) [
  | inl idle ↦ inl (ground (arith, idle, paired-IsStopped s h idle))
  | inr (id, on) ↦ elim (Bool-cases (ltb (s.elapsed + 1) 60)) [
    | inl less ↦ inr (ground (arith, on, less))
    | inr all_ ↦ inl (ground (arith, on, all_, clear_interval-none id s.interval, h))
  ]
]

-- Nothing runs, and the wallets that were asked for are those.
abbrev pub StaysStopped : List (Option String) → Pending → Type 0
StaysStopped asked s = IsStopped s × (s.asked ≡ asked)

run_stopped :
    (es : List Event) (s : Pending) (asked : List (Option String))
    → KeepsWallet es
    → StaysStopped asked s
    → StaysStopped asked (run es s)
unfolding run step
run_stopped [] s asked k h = h
run_stopped (polls ∷ es) s asked k h = run_stopped es _ asked k (ground arith)
run_stopped (ticks ∷ es) s asked k h = run_stopped es _ asked k (ground arith)
run_stopped (answers id status ∷ es) s asked k h = run_stopped es _ asked k (ground arith)
run_stopped (fails id ∷ es) s asked k h = run_stopped es s asked k h
run_stopped (wallet_changes key ∷ es) s asked k h = absurd k
run_stopped (unmounts ∷ es) s asked k h = run_stopped es _ asked k (ground arith)

-- The timer of the page stops it when it has counted 60 s.
run-IsStopped :
    (es : List Event) (s : Pending)
    → KeepsWallet es
    → IsPaired s
    → 1 ≤ seconds es
    → 60 ≤ s.elapsed + seconds es
    → IsStopped (run es s)
unfolding run step
run-IsStopped [] s k h one_ n = ground arith
run-IsStopped (ticks ∷ es) s k h one_ n = elim (ticked-cases s h) [
  | inl stopped ↦ (run_stopped es _ _ k (stopped, refl)).0
  | inr counted ↦ run-IsStopped es _ k (ticked-IsPaired s h) (ground arith) (ground arith)
]
run-IsStopped (polls ∷ es) s k h one_ n = run-IsStopped es _ k (ground arith) one_ (ground arith)
run-IsStopped (answers id status ∷ es) s k h one_ n =
    run-IsStopped es _ k (answered-IsPaired id status s h) one_ (ground arith)
run-IsStopped (fails id ∷ es) s k h one_ n = run-IsStopped es s k h one_ n
run-IsStopped (wallet_changes key ∷ es) s k h one_ n = absurd k
run-IsStopped (unmounts ∷ es) s k h one_ n = (run_stopped es _ s.asked k ((refl, refl), refl)).0

initial_pending-IsPaired : (key : Option String) → IsPaired (initial_pending key)
initial_pending-IsPaired key = effect-IsPaired (truthy key) _ (inl refl)

-- whatever the wallet of the page and whatever has happened on it: once 60 s have passed in which its
-- wallet has not changed, the interval and the timer are cleared, and as long as the wallet stays
-- the same they stay so and the backend is asked no more.
pub run-StaysStopped :
    (key : Option String) (before after later : List Event)
    → KeepsWallet after
    → KeepsWallet later
    → 60 ≤ seconds after
    → StaysStopped
        (run after (run before (initial_pending key))).asked
        (run later (run after (run before (initial_pending key))))
run-StaysStopped key before after later k l n =
    let s = run before (initial_pending key) in
    let paired = run-IsPaired before (initial_pending key) (initial_pending-IsPaired key) in
    run_stopped later (run after s) _ l
      (run-IsStopped after s k paired (omega (arith, n)) (omega (arith, n)), refl)
