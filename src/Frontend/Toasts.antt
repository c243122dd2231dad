-- ===== src/Frontend/Toasts.antt =====
-- oragami-frontend/hooks/use-toast.ts: the reducer with its timers, and the ids. A timer is known
-- by the toast that it removes; the listeners of React are left out.
use oragami.Prelude.{
  ℕ, ◌+◌, ◌%◌, String, Bool, true, false, not, Option, none, some, List, [], ◌∷◌, take, map, filter,
  any, if◌then◌else◌, ◌otherwise◌, ◌<|>◌, ◌==◌, string_eq,
}

-- `title`, `description` and `open` of a toast.
pub record Toast : Type 0 where
  pub id : String
  pub title : Option String
  pub description : Option String
  pub open_ : Bool

-- A partial toast: what is missing stays as it is.
pub record ToastChange : Type 0 where
  pub id : String
  pub title : Option String
  pub description : Option String
  pub open_ : Option Bool

pub data ToastAction : Type 0 where
  add_toast : Toast → ToastAction
  update_toast : ToastChange → ToastAction
  dismiss_toast : Option String → ToastAction
  remove_toast : Option String → ToastAction

-- `memoryState`, `toastTimeouts` and `count`.
pub record ToastState : Type 0 where
  pub toasts : List Toast
  pub timeouts : List String
  pub count : ℕ

abbrev pub no_toasts : ToastState
no_toasts = record { toasts = []; timeouts = []; count = 0 }

abbrev pub toast_limit : ℕ
toast_limit = 1

-- `Number.MAX_SAFE_INTEGER`
abbrev pub max_count : ℕ
max_count = 9007199254740991

abbrev has_timeout : String → List String → Bool
has_timeout id = any (λ t. t == id)

unfoldable pub add_to_remove_queue : String → List String → List String
add_to_remove_queue id timeouts = if has_timeout id timeouts then timeouts else id ∷ timeouts

-- `state.toasts.forEach((toast) => addToRemoveQueue(toast.id))`
unfoldable pub queue_all : List Toast → List String → List String
unfolding add_to_remove_queue
queue_all [] timeouts = timeouts
queue_all (t ∷ ts) timeouts = queue_all ts (add_to_remove_queue t.id timeouts)

abbrev pub change : ToastChange → Toast → Toast
change c t = record t {
  title = c.title <|> t.title;
  description = c.description <|> t.description;
  open_ = c.open_ otherwise t.open_;
}

abbrev pub close : Toast → Toast
close t = record t { open_ = false }

-- The reducer, with its side effect on the timers: an empty id is dismissed like a missing one, as
-- far as the timers go.
unfoldable pub reducer : ToastAction → ToastState → ToastState
unfolding add_to_remove_queue queue_all
reducer (add_toast t) s = record s { toasts = take toast_limit (t ∷ s.toasts) }
reducer (update_toast c) s = record s {
  toasts = map (λ t. if t.id == c.id then change c t else t) s.toasts;
}
reducer (dismiss_toast none) s = record s {
  toasts = map close s.toasts;
  timeouts = queue_all s.toasts s.timeouts;
}
reducer (dismiss_toast (some id)) s = record s {
  toasts = map (λ t. if t.id == id then close t else t) s.toasts;
  timeouts = if id == "" then queue_all s.toasts s.timeouts else add_to_remove_queue id s.timeouts;
}
reducer (remove_toast none) s = record s { toasts = [] }
reducer (remove_toast (some id)) s = record s { toasts = filter (λ t. not (t.id == id)) s.toasts }

-- `genId`, the text of the number being `to_text`.
abbrev pub next_count : ℕ → ℕ
next_count n = (n + 1) % max_count

-- `toast`: a new open toast.
unfoldable pub toast :
    (ℕ → String) → Option String → Option String → ToastState → String × ToastState
unfolding reducer
toast to_text title description s =
    let n = next_count s.count in
    (
      to_text n,
      reducer
          (add_toast
            (record { id = to_text n; title = title; description = description; open_ = true }))
          (record s { count = n }),
    )

-- The timer of a toast fires: `toastTimeouts.delete` and `REMOVE_TOAST`.
unfoldable pub time_out : String → ToastState → ToastState
unfolding reducer
time_out id s =
    reducer (remove_toast (some id))
      (record s { timeouts = filter (λ t. not (t == id)) s.timeouts })

-- What happens to the toasts.
pub data ToastEvent : Type 0 where
  dispatched : ToastAction → ToastEvent
  shown : Option String → Option String → ToastEvent
  timed_out : String → ToastEvent

unfoldable pub step : (ℕ → String) → ToastEvent → ToastState → ToastState
unfolding reducer toast time_out
step to_text (dispatched a) s = reducer a s
step to_text (shown title description) s = (toast to_text title description s).1
step to_text (timed_out id) s = time_out id s
