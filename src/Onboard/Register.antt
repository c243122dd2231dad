-- ===== src/Onboard/Register.antt =====
-- oragami-frontend/app/onboard/register/page.tsx: the form that asks for a credential. A length of a
-- text is its number of UTF-16 units; a date is an instant in milliseconds.
use oragami.Prelude.{
  ℕ, String, Bool, true, false, ◌&&◌, ◌||◌, Option, none, some, List, [], ◌∷◌, if◌then◌else◌, ◌==◌,
  ltb, leb, ◌otherwise◌, string_eq, nat_eq,
}
use oragami.Six.Service.{truthy}
use oragami.Credentials.Service.{IssueCredentialDto}

-- What the fields hold; `aml_score` comes from a slider.
pub record FormValues : Type 0 where
  pub institution_name : String
  pub jurisdiction : String
  pub tier : String
  pub kyc_level : String
  pub aml_score : ℕ
  pub expires_at : String

-- `length` of a text, `getTime` of `new Date(…)`, with `none` for NaN and for a date before 1970, and
-- an instant as a text.
pub record Dates : Type 0 where
  pub length : String → ℕ
  pub get_time : String → Option ℕ
  pub to_iso_string : ℕ → String

-- `Number` of an option of the two selections.
abbrev pub number_of : String → ℕ
number_of text = if text == "1" then 1 else if text == "2" then 2 else 3

abbrev is_option : String → Bool
is_option text = text == "1" || text == "2" || text == "3"

abbrev is_later : Option ℕ → ℕ → Bool
is_later none now_ms = false
is_later (some t) now_ms = ltb now_ms t

-- The schema of the form.
unfoldable pub form_schema : Dates → ℕ → FormValues → Bool
form_schema dates now_ms v =
    leb 1 (dates.length v.institution_name)
    && leb (dates.length v.institution_name) 64
    && leb 1 (dates.length v.jurisdiction)
    && is_option v.tier
    && is_option v.kyc_level
    && leb v.aml_score 100
    && is_later (dates.get_time v.expires_at) now_ms

-- What `issueCredential` answers: `failed` has the status and the messages of the body and of the
-- error, as far as there are any.
pub data IssueAnswer : Type 0 where
  issued : IssueAnswer
  failed : (status : Option ℕ) (body message : Option String) → IssueAnswer

pub record RegisterPage : Type 0 where
  pub submitting : Bool
  pub submit_error : Option String
  -- the page that was opened last by `router.push`
  pub pushed : Option String

abbrev is_conflict : Option ℕ → Bool
is_conflict none = false
is_conflict (some status) = status == 409

abbrev pub answered : IssueAnswer → RegisterPage → RegisterPage
answered issued p = record p { pushed = some "/onboard/pending"; submitting = false }
answered (failed status body message) p =
    if is_conflict status
    then record p { pushed = some "/onboard/pending"; submitting = false }
    else record p {
      submit_error =
          some (truthy body otherwise truthy message otherwise "Failed to issue credential");
      submitting = false;
    }

abbrev pub request_of : Dates → String → FormValues → ℕ → IssueCredentialDto
request_of dates wallet v expires_at = record {
  wallet = wallet;
  institution_name = v.institution_name;
  jurisdiction = v.jurisdiction;
  tier = number_of v.tier;
  kyc_level = number_of v.kyc_level;
  aml_score = v.aml_score;
  expires_at = dates.to_iso_string expires_at;
}

abbrev refused : String → RegisterPage → RegisterPage
refused text p = record p { submit_error = some text }

-- With the wallet and the key of the administrator, as far as there are any: the page afterwards and
-- the requests, each under the key. The date was checked by the schema; `toISOString` throws outside
-- the `try` where it is none.
unfoldable pub on_submit :
    Dates
    → Option String
    → Option String
    → (IssueCredentialDto → IssueAnswer)
    → FormValues
    → RegisterPage
    → RegisterPage × List (IssueCredentialDto × String)
on_submit dates public_key admin_key issue_credential v p = elim (truthy public_key) [
  | none ↦ (refused "Wallet not connected. Go back and connect your wallet." p, [])
  | some wallet ↦ elim (truthy admin_key) [
    | none ↦ (refused "NEXT_PUBLIC_ADMIN_API_KEY not configured. Set it in .env.local" p, [])
    | some key ↦ elim (dates.get_time v.expires_at) [
      | none ↦ (record p { submitting = true; submit_error = none }, [])
      | some t ↦
          let dto = request_of dates wallet v t in
          (
            answered (issue_credential dto) (record p { submitting = true; submit_error = none }),
            (dto, key) ∷ [],
          )
    ]
  ]
]

-- The form is handed on only if the schema takes it.
unfoldable pub submit :
    Dates
    → ℕ
    → Option String
    → Option String
    → (IssueCredentialDto → IssueAnswer)
    → FormValues
    → RegisterPage
    → RegisterPage × List (IssueCredentialDto × String)
unfolding form_schema on_submit
submit dates now_ms public_key admin_key issue_credential v p =
    if form_schema dates now_ms v
    then on_submit dates public_key admin_key issue_credential v p
    else (p, [])
