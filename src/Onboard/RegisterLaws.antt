-- ===== src/Onboard/RegisterLaws.antt =====
-- What the form for credentials asks of the backend.
use oragami.Prelude.{
  ℕ, ◌≤◌, ◌<◌, ◌≡◌, refl, inl, inr, String, true, some, Option, List, [], ◌∷◌, ◌⊎◌, nat_eq,
  string_eq, arith, Bool-cases, Option-cases, ◌==◌,
}
use oragami.Six.Service.{truthy}
use oragami.Credentials.Service.{IssueCredentialDto}
use oragami.Onboard.Register.{
  FormValues, Dates, IssueAnswer, RegisterPage, number_of, request_of, form_schema, on_submit,
  submit,
}

module _ (dates : Dates) (now_ms : ℕ) where
  -- As the service takes it, for the instant of its expiry.
  abbrev IsValid : IssueCredentialDto → ℕ → Type 0
  IsValid dto t =
      (1 ≤ dates.length dto.institution_name)
      × (dates.length dto.institution_name ≤ 64)
      × (1 ≤ dto.tier)
      × (dto.tier ≤ 3)
      × (1 ≤ dto.kyc_level)
      × (dto.kyc_level ≤ 3)
      × (dto.aml_score ≤ 100)
      × (now_ms < t)

  number_of-IsOption : (text : String) → (1 ≤ number_of text) × (number_of text ≤ 3)
  number_of-IsOption text = elim (Bool-cases (text == "1")) [
    | inl one_ ↦ rw one_ (omega arith, omega arith)
    | inr other ↦ elim (Bool-cases (text == "2")) [
      | inl two ↦ rw (other, two) (omega arith, omega arith)
      | inr three ↦ rw (other, three) (omega arith, omega arith)
    ]
  ]

  form_schema-IsValid :
      (v : FormValues) (wallet : String) (t : ℕ)
      → form_schema dates now_ms v ≡ true
      → dates.get_time v.expires_at ≡ some t
      → IsValid (request_of dates wallet v t) t
  unfolding form_schema
  form_schema-IsValid v wallet t h e =
      let (tier_ge, tier_le) = number_of-IsOption v.tier in
      let (kyc_ge, kyc_le) = number_of-IsOption v.kyc_level in
      (
        ground (arith, h),
        ground (arith, h),
        tier_ge,
        tier_le,
        kyc_ge,
        kyc_le,
        ground (arith, h),
        ground (arith, h, e),
      )

  -- One request was sent, for the wallet, under the key, and with what the service takes.
  abbrev Sent :
      FormValues → Option String → Option String → List (IssueCredentialDto × String) → Type 0
  Sent v public_key admin_key sent =
      (wallet : String) × (key : String) × (t : ℕ) × ((public_key ≡ some wallet)
        × (admin_key ≡ some key)
        × (sent ≡ (request_of dates wallet v t, key) ∷ [])
        × IsValid (request_of dates wallet v t) t)

  truthy-some : (o : Option String) (a : String) → truthy o ≡ some a → o ≡ some a
  truthy-some o a h = ground arith

  module _ (public_key admin_key : Option String) (issue : IssueCredentialDto → IssueAnswer)
      (v : FormValues) (p : RegisterPage) where
    on_submit-Sent :
        form_schema dates now_ms v ≡ true
        → ((on_submit dates public_key admin_key issue v p).1 ≡ [])
          ⊎ Sent v public_key admin_key (on_submit dates public_key admin_key issue v p).1
    unfolding on_submit
    on_submit-Sent good = elim (Option-cases (truthy public_key)) [
      | inl k ↦ inl (ground (arith, k))
      | inr (wallet, k) ↦ elim (Option-cases (truthy admin_key)) [
        | inl a ↦ inl (ground (arith, k, a))
        | inr (key, a) ↦ elim (Option-cases (dates.get_time v.expires_at)) [
          | inl d ↦ inl (ground (arith, k, a, d))
          | inr (t, d) ↦ inr (
            wallet,
            key,
            t,
            (
              truthy-some public_key wallet k,
              truthy-some admin_key key a,
              ground (arith, k, a, d),
              form_schema-IsValid v wallet t good d,
            ),
          )
        ]
      ]
    ]

    -- a submission sends nothing, or one request for the connected wallet under the key of the
    -- administrator, whose name, tier, KYC level, score and expiry are in their ranges.
    submit-Sent :
        ((submit dates now_ms public_key admin_key issue v p).1 ≡ [])
        ⊎ Sent v public_key admin_key (submit dates now_ms public_key admin_key issue v p).1
    unfolding submit
    submit-Sent = elim (Bool-cases (form_schema dates now_ms v)) [
      | inr bad ↦ rw bad (inl refl)
      | inl good ↦ rw good (on_submit-Sent good)
    ]
