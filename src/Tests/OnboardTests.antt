-- ===== src/Tests/OnboardTests.antt =====
-- The theorem on the page for pending accounts, over the first minutes of a visit, and runs of the
-- registration form.
use oragami.Prelude.{
  ℕ, zero, suc, ◌≡◌, refl, none, some, false, List, [], ◌∷◌, if◌then◌else◌, ◌==◌, string_eq, nat_eq,
  arith,
}
use oragami.Onboard.Pending.{
  Event, polls, ticks, answers, wallet_changes, initial_pending, run, step,
}
use oragami.Onboard.Register.{
  Dates, FormValues, RegisterPage, issued, failed, submit, on_submit, form_schema,
}
use oragami.Onboard.PendingLaws.{StaysStopped, run-StaysStopped}

abbrev seconds_of : ℕ → List Event
seconds_of zero = []
seconds_of (suc n) = ticks ∷ seconds_of n

abbrev poll_and_answer : List Event
poll_and_answer = polls ∷ answers 1 "not_found" ∷ []

run-StaysStopped_example : StaysStopped (some "bank" ∷ []) (
    run poll_and_answer (run (seconds_of 60) (run poll_and_answer (initial_pending (some "bank")))))
unfolding run step
run-StaysStopped_example =
    run-StaysStopped (some "bank") poll_and_answer (seconds_of 60) poll_and_answer tt tt
      (omega arith)

active_opens :
    (run (polls ∷ answers 1 "active" ∷ []) (initial_pending (some "bank"))).replaced
    ≡ "/onboard/complete" ∷ []
unfolding run step
active_opens = refl

-- A wallet that comes after the timeout is not asked for: the next second ends its interval.
late_wallet :
    (run
      (wallet_changes (some "desk") ∷ ticks ∷ ticks ∷ ticks ∷ polls ∷ [])
      (run (seconds_of 60) (initial_pending (some "bank")))).asked
    ≡ []
unfolding run step
late_wallet = refl

abbrev dates : Dates
dates = record {
  length = λ text. if text == "" then 0 else 2;
  get_time = λ text. some 5000;
  to_iso_string = λ t. "1970-01-01T00:00:05.000Z";
}

abbrev values : FormValues
values = record {
  institution_name = "AG";
  jurisdiction = "CH";
  tier = "2";
  kyc_level = "2";
  aml_score = 50;
  expires_at = "1970-01-01";
}

abbrev empty_form : RegisterPage
empty_form = record { submitting = false; submit_error = none; pushed = none }

-- A credential that there is already leads on to the same page.
conflict-pushes :
    (submit dates 4000
      (some "bank")
      (some "key")
      (λ dto. failed (some 409) none none)
      values
      empty_form).0.pushed
    ≡ some "/onboard/pending"
unfolding submit on_submit form_schema
conflict-pushes = refl

past-refused :
    (submit dates 6000 (some "bank") (some "key") (λ dto. issued) values empty_form).1 ≡ []
unfolding submit on_submit form_schema
past-refused = refl
