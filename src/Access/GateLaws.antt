-- ===== src/Access/GateLaws.antt =====
-- Whom the gate lets in.
use oragami.Prelude.{
  ℕ, ◌≤◌, ◌≡◌, ◌≢◌, refl, ap, ◌∙◌, String, true, false, ◌⊎◌, eq_iff, string_eq, Option, none, some,
  List, [], ◌∷◌, arith, inl, inr, Bool-cases,
}
use oragami.Prelude.Clock.{to_millis}
use oragami.Program.Credential.{ComplianceCredential, account_of}
use oragami.Credentials.Service.{
  Services, Store, VerifiedStatus, verify, active, expired, revoked, missing, status_of,
  max_date_seconds,
}
use oragami.Credentials.Verification.{verify-eq-active_iff}
use oragami.Six.Service.{truthy}
use oragami.Access.Gate.{
  Passage, next, redirect, Verification, refused, says, passage_of, passed, status_text, verified,
  spoken, handled, middleware, backend,
}

status-cases : (st : Option VerifiedStatus) → (st ≡ some active) ⊎ (st ≢ some active)
status-cases none = inr (ground arith)
status-cases (some active) = inl refl
status-cases (some expired) = inr (ground arith)
status-cases (some revoked) = inr (ground arith)
status-cases (some missing) = inr (ground arith)

passage_inactive :
    (st : Option VerifiedStatus)
    → st ≢ some active
    → passage_of (spoken st) ≡ redirect "/onboard/connect"
passage_inactive none h = refl
passage_inactive (some active) h = absurd (h refl)
passage_inactive (some expired) h = refl
passage_inactive (some revoked) h = refl
passage_inactive (some missing) h = refl

-- What the backend may answer to a GET of any path.
abbrev pub IsAnswer : Verification → Type 0
IsAnswer v = (v ≡ refused) ⊎ ((st : VerifiedStatus) × (v ≡ says (status_text st)))

spoken-IsAnswer : (st : Option VerifiedStatus) → IsAnswer (spoken st)
spoken-IsAnswer none = inl refl
spoken-IsAnswer (some st) = inr (st, refl)

handled-IsAnswer :
    (services : Services) (now_ms : ℕ) (s : Store) (asked : Option String)
    → IsAnswer (handled services now_ms true s asked)
handled-IsAnswer services now_ms s none = inl refl
handled-IsAnswer services now_ms s (some w) = elim (Bool-cases (services.is_public_key w)) [
  | inl pk ↦ rw pk (spoken-IsAnswer (status_of (verify now_ms true w s)))
  | inr pk ↦ rw pk (inl refl)
]

pub backend-IsAnswer :
    (services : Services) (key : Option String) (now_ms : ℕ) (s : Store) (path : List String)
    → IsAnswer (backend services key now_ms true s path)
unfolding backend
backend-IsAnswer services key now_ms s path = handled-IsAnswer services now_ms s _

pub truthy_lem : (wallet : String) → wallet ≢ "" → truthy (some wallet) ≡ some wallet
truthy_lem wallet h = ground (arith, eq_iff wallet "")

module _ (services : Services) (requested : String → List String) (key : Option String) (now_ms : ℕ)
    (wallet : String) (s : Store) where
  abbrev pub gate : Passage
  gate = middleware requested (some wallet) (backend services key now_ms true s)

  -- The wallet is a key with an active account that has not expired, at an instant of a `Date`.
  abbrev pub MayEnter : Type 0
  MayEnter =
      (c : ComplianceCredential) × ((services.is_public_key wallet ≡ true)
        × (account_of wallet s.accounts ≡ some c)
        × (c.status ≡ 1)
        × (now_ms ≤ to_millis c.expires_at)
        × (c.expires_at ≤ max_date_seconds))

  pub gate_lem :
      wallet ≢ "" → gate ≡ passage_of (backend services key now_ms true s (requested wallet))
  unfolding middleware
  gate_lem h =
      ap (λ t. passed requested t (backend services key now_ms true s)) (truthy_lem wallet h)

  -- The cookie's URL is the one of its wallet.
  abbrev pub IsPlain : Type 0
  IsPlain = requested wallet ≡ "api" ∷ "credentials" ∷ wallet ∷ "verify" ∷ []

  gate_plain : wallet ≢ "" → IsPlain → gate ≡ passage_of (verified services now_ms true s wallet)
  unfolding backend
  gate_plain h plain = gate_lem h ∙ rw plain refl

  gate_active :
      wallet ≢ ""
      → IsPlain
      → services.is_public_key wallet ≡ true
      → status_of (verify now_ms true wallet s) ≡ some active
      → gate ≡ next
  gate_active h plain pk a = gate_plain h plain ∙ rw (pk, a) refl

  gate_inactive :
      wallet ≢ ""
      → IsPlain
      → services.is_public_key wallet ≡ true
      → status_of (verify now_ms true wallet s) ≢ some active
      → gate ≡ redirect "/onboard/connect"
  gate_inactive h plain pk a =
      gate_plain h plain ∙ rw pk (passage_inactive (status_of (verify now_ms true wallet s)) a)

  gate_no_key :
      wallet ≢ ""
      → IsPlain
      → services.is_public_key wallet ≡ false
      → gate ≡ redirect "/onboard/connect"
  gate_no_key h plain pk = gate_plain h plain ∙ rw pk refl

  -- what a value of the cookie meets that is not empty and whose URL is read as the path
  -- api/credentials/<the value>/verify, while the backend can be reached and reads the chain: it is
  -- let in exactly if it is a public key with an active account that has not expired and expires at
  -- an instant that a `Date` can hold, and everyone else is sent to /onboard/connect, never to
  -- /onboard/pending.
  pub gate-MayEnter :
      wallet ≢ ""
      → IsPlain
      → ((gate ≡ next) × MayEnter) ⊎ ((gate ≡ redirect "/onboard/connect") × ¬ MayEnter)
  gate-MayEnter h plain = elim (Bool-cases (services.is_public_key wallet)) [
    | inr k ↦ inr (gate_no_key h plain k, λ (c, m). ground (arith, k))
    | inl pk ↦ elim (status-cases (status_of (verify now_ms true wallet s))) [
      | inl a ↦
          let (c, known, one_, later, held) = (verify-eq-active_iff now_ms wallet s).0 a in
          inl (gate_active h plain pk a, (c, (pk, known, one_, later, held)))
      | inr a ↦ inr (
        gate_inactive h plain pk a,
        λ (c, m). a ((verify-eq-active_iff now_ms wallet s).1 (c, m.1, m.2, m.3, m.4)),
      )
    ]
  ]
