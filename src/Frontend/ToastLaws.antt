-- ===== src/Frontend/ToastLaws.antt =====
-- What holds of the toasts of oragami-frontend/hooks/use-toast.ts after any events.
use oragami.Prelude.{
  ℕ, ◌≤◌, ◌≡◌, refl, inl, inr, String, Bool, false, not, none, some, List, [], ◌∷◌, length, map,
  filter, any, ◌==◌, string_eq, arith, Bool-cases,
}
use oragami.Frontend.Toasts.{
  Toast, ToastAction, ToastState, ToastEvent, add_toast, update_toast, dismiss_toast, remove_toast,
  dispatched, shown, timed_out, no_toasts, reducer, toast, time_out, step, queue_all,
  add_to_remove_queue,
}

length-map : {A B : Type 0} (f : A → B) (xs : List A) → length (map f xs) ≡ length xs
length-map f [] = refl
length-map f (x ∷ xs) = ground (arith, length-map f xs)

length-filter : {A : Type 0} (p : A → Bool) (xs : List A) → length (filter p xs) ≤ length xs
length-filter p [] = ground arith
length-filter p (x ∷ xs) = ground (arith, length-filter p xs)

-- No text stands twice in the list.
abbrev IsDistinct : List String → Type 0
IsDistinct [] = Unit
IsDistinct (t ∷ ts) = (any (λ u. u == t) ts ≡ false) × IsDistinct ts

any-filter :
    (p : String → Bool) (t : String) (ts : List String)
    → any (λ u. u == t) ts ≡ false
    → any (λ u. u == t) (filter p ts) ≡ false
any-filter p t [] h = refl
any-filter p t (u ∷ ts) h = ground (arith, any-filter p t ts)

filter-IsDistinct :
    (p : String → Bool) (ts : List String) → IsDistinct ts → IsDistinct (filter p ts)
filter-IsDistinct p [] h = tt
filter-IsDistinct p (t ∷ ts) (fresh, h) = elim (Bool-cases (p t)) [
  | inl kept ↦ rw kept (any-filter p t ts fresh, filter-IsDistinct p ts h)
  | inr dropped ↦ rw dropped (filter-IsDistinct p ts h)
]

add_to_remove_queue-IsDistinct :
    (id : String) (ts : List String) → IsDistinct ts → IsDistinct (add_to_remove_queue id ts)
unfolding add_to_remove_queue
add_to_remove_queue-IsDistinct id ts h = elim (Bool-cases (any (λ t. t == id) ts)) [
  | inl queued ↦ rw queued h
  | inr new ↦ rw new (new, h)
]

queue_all-IsDistinct :
    (toasts : List Toast) (ts : List String) → IsDistinct ts → IsDistinct (queue_all toasts ts)
unfolding queue_all
queue_all-IsDistinct [] ts h = h
queue_all-IsDistinct (t ∷ toasts) ts h =
    queue_all-IsDistinct toasts _ (add_to_remove_queue-IsDistinct t.id ts h)

-- At most one toast is there, and no toast has two timers.
abbrev IsTidy : ToastState → Type 0
IsTidy s = (length s.toasts ≤ 1) × IsDistinct s.timeouts

reducer-IsTidy : (a : ToastAction) (s : ToastState) → IsTidy s → IsTidy (reducer a s)
unfolding reducer
reducer-IsTidy (add_toast t) s (few, distinct) = (ground arith, distinct)
reducer-IsTidy (update_toast c) s (few, distinct) = (rw (length-map _ s.toasts) few, distinct)
reducer-IsTidy (dismiss_toast none) s (few, distinct) =
    (rw (length-map _ s.toasts) few, queue_all-IsDistinct s.toasts s.timeouts distinct)
reducer-IsTidy (dismiss_toast (some id)) s (few, distinct) = (
  rw (length-map _ s.toasts) few,
  elim (Bool-cases (id == "")) [
    | inl empty ↦ rw empty (queue_all-IsDistinct s.toasts s.timeouts distinct)
    | inr named ↦ rw named (add_to_remove_queue-IsDistinct id s.timeouts distinct)
  ],
)
reducer-IsTidy (remove_toast none) s (few, distinct) = (ground arith, distinct)
reducer-IsTidy (remove_toast (some id)) s (few, distinct) =
    (omega (arith, length-filter (λ t. not (t.id == id)) s.toasts, few), distinct)

module _ (to_text : ℕ → String) where
  unfoldable pub run : List ToastEvent → ToastState → ToastState
  run [] s = s
  run (e ∷ es) s = run es (step to_text e s)

  step-IsTidy : (e : ToastEvent) (s : ToastState) → IsTidy s → IsTidy (step to_text e s)
  unfolding step toast time_out reducer
  step-IsTidy (dispatched a) s h = reducer-IsTidy a s h
  step-IsTidy (shown title description) s (few, distinct) = (ground arith, distinct)
  step-IsTidy (timed_out id) s (few, distinct) = (
    omega (arith, length-filter (λ t. not (t.id == id)) s.toasts, few),
    filter-IsDistinct _ s.timeouts distinct,
  )

  run_from-IsTidy : (es : List ToastEvent) (s : ToastState) → IsTidy s → IsTidy (run es s)
  unfolding run
  run_from-IsTidy [] s h = h
  run_from-IsTidy (e ∷ es) s h = run_from-IsTidy es _ (step-IsTidy e s h)

  -- After any events from the start, at most one toast is shown, and no toast has two timers, however
  -- often it was dismissed.
  run-IsTidy : (es : List ToastEvent) → IsTidy (run es no_toasts)
  run-IsTidy es = run_from-IsTidy es no_toasts (ground arith, tt)
