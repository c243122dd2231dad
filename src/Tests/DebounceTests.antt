-- ===== src/Tests/DebounceTests.antt =====
-- The theorem on fields that ask the backend, for the receiver of a transfer.
use oragami.Prelude.{ℕ, ◌≡◌, refl, String, some, [], ◌∷◌, true, false, string_eq}
use oragami.Client.Tasks.{Outcome, returned}
use oragami.Client.Debounce.{Field, empty_field, asks_receiver, asks_amount, typed, fires, settles}
use oragami.Client.DebounceLaws.{Reach, starts, goes, types, expires, answers, Reach-Shows}

-- Every text counts as long enough, and the backend answers with the text.
abbrev length : String → ℕ
length text = 44

abbrev answer : String → Outcome String
answer text = returned text

abbrev start : Field String
start = empty_field (asks_receiver length)

abbrev after_typing : Field String
after_typing = record start { text = "bank"; is_armed = true }

abbrev asking : Field String
asking = record after_typing { is_armed = false; checking = true; pending = "bank" ∷ [] }

abbrev answered : Field String
answered = record asking { shown = some "bank"; checking = false; pending = [] }

by_typing : typed (asks_receiver length) "bank" start ≡ after_typing
unfolding typed
by_typing = refl

by_timer : fires (asks_receiver length) after_typing ≡ asking
unfolding fires
by_timer = refl

by_answer : settles (asks_receiver length) [] (returned "bank") asking ≡ answered
unfolding settles
by_answer = refl

reached : Reach (asks_receiver length) answer answered
unfolding typed fires settles
reached =
    goes asking answered
      (goes after_typing asking (goes start after_typing starts (types "bank" refl)) expires)
      (answers [] [] "bank" refl)

Reach-Shows_example : answered.shown ≡ some "bank"
Reach-Shows_example = Reach-Shows (asks_receiver length) answer answered refl reached refl refl

-- A second receiver that is typed while the first one is asked for, and whose answer comes first, ends
-- with the credential of the first one.
abbrev overtaken : Field String
overtaken = settles (asks_receiver length) [] (returned "bank") (
    settles (asks_receiver length) ("bank" ∷ []) (returned "desk")
      (fires (asks_receiver length) (typed (asks_receiver length) "desk" asking)))

shows_other : overtaken.shown ≡ some "bank"
unfolding typed fires settles
shows_other = refl

for_desk : overtaken.text ≡ "desk"
unfolding typed fires settles
for_desk = refl

no_wallet : asks_amount (some "") (λ text. true) "2" ≡ false
no_wallet = refl
