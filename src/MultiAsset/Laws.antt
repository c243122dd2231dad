-- ===== src/MultiAsset/Laws.antt =====
-- What `preflightDeposit` and `getAllVaults` of
-- oragami-backend/src/multi-asset-vault/multi-asset-vault.service.ts answer.
use oragami.Prelude.{
  ℕ, String, ◌≡◌, ◌≤◌, ◌<◌, ◌↔◌, refl, inl, inr, true, false, none, some, ◌⊎◌, ◌otherwise◌, arith,
  Option-cases,
}
use oragami.Prelude.Clock.{to_seconds}
use oragami.Prelude.Int.{ℤ, pos, ◌≤ℤ◌}
use oragami.Prelude.Results.{Error, Result, ok, err}
use oragami.MultiAsset.Service.{
  AssetChain, AssetVaultInfo, VerifiedAsset, AssetPreflight, RawCredential, active, assess,
  preflight_deposit, verify_credential, verified, get_vault_by_mint, credential_is,
}

-- The go-ahead is given exactly where no reason against it is named.
assess_reason :
    (chain : AssetChain) (cred : VerifiedAsset) (vault : AssetVaultInfo) (amount : ℤ)
    (p : AssetPreflight)
    → assess chain cred vault amount ≡ ok p
    → (p.can_deposit ≡ true) ↔ (p.reason ≡ none)
unfolding assess
assess_reason chain cred vault amount p h = (λ go. ground arith, λ clear. ground arith)

-- A result is there or is an error.
Result-cases : {A : Type 0} (r : Result A) → ((e : Error) × (r ≡ err e)) ⊎ ((a : A) × (r ≡ ok a))
Result-cases (err e) = inl (e, refl)
Result-cases (ok a) = inr (a, refl)

-- What a preflight that answers has read.
preflight_reads :
    (chain : AssetChain) (now_ms : ℕ) (wallet mint amount : String) (p : AssetPreflight)
    → preflight_deposit chain now_ms wallet mint amount ≡ ok p
    → (cred : VerifiedAsset) × (vault : AssetVaultInfo) × (n : ℤ) × ((verify_credential chain now_ms
            wallet
          ≡ ok cred)
        × (get_vault_by_mint chain mint ≡ ok vault)
        × (chain.big_int amount ≡ some n)
        × (assess chain cred vault n ≡ ok p))
unfolding preflight_deposit
preflight_reads chain now_ms wallet mint amount p h =
    elim (Result-cases (verify_credential chain now_ms wallet)) [
      | inl (e, c) ↦ absurd (ground arith)
      | inr (cred, c) ↦ elim (Result-cases (get_vault_by_mint chain mint)) [
        | inl (e, v) ↦ absurd (ground arith)
        | inr (vault, v) ↦ elim (Option-cases (chain.big_int amount)) [
          | inl a ↦ absurd (ground arith)
          | inr (n, a) ↦ (cred, vault, n, (c, v, a, ground arith))
        ]
      ]
    ]

-- The answer of `preflightDeposit` gives a reason exactly where it does not give the go-ahead.
preflight_deposit-reason :
    (chain : AssetChain) (now_ms : ℕ) (wallet mint amount : String) (p : AssetPreflight)
    → preflight_deposit chain now_ms wallet mint amount ≡ ok p
    → (p.can_deposit ≡ true) ↔ (p.reason ≡ none)
preflight_deposit-reason chain now_ms wallet mint amount p h =
    let (cred, vault, n, reads) = preflight_reads chain now_ms wallet mint amount p h in
    assess_reason chain cred vault n p reads.3

-- The account is active and has not expired, the vault is open, and the amount lies within the
-- vault's limits.
abbrev pub Permits : ℕ → RawCredential → AssetVaultInfo → ℤ → Type 0
Permits now raw vault n =
    ((raw.status otherwise 0) ≡ 1)
    × (now < (raw.expires_at otherwise 0))
    × (vault.paused ≡ false)
    × (pos vault.min_deposit ≤ℤ n)
    × (n ≤ℤ pos vault.max_deposit)

verified_permits :
    (chain : AssetChain) (now : ℕ) (wallet : String) (raw : RawCredential)
    → (verified chain now wallet raw).can_deposit ≡ true
    → ((raw.status otherwise 0) ≡ 1) × (now < (raw.expires_at otherwise 0))
unfolding verified
verified_permits chain now wallet raw h = ground arith

assess_permits :
    (chain : AssetChain) (cred : VerifiedAsset) (vault : AssetVaultInfo) (n : ℤ)
    (p : AssetPreflight)
    → assess chain cred vault n ≡ ok p
    → p.can_deposit ≡ true
    → (cred.can_deposit ≡ true)
      × (vault.paused ≡ false)
      × (pos vault.min_deposit ≤ℤ n)
      × (n ≤ℤ pos vault.max_deposit)
unfolding assess
assess_permits chain cred vault n p h can_pay = ground arith

verify_reads :
    (chain : AssetChain) (now_ms : ℕ) (wallet : String) (cred : VerifiedAsset)
    → verify_credential chain now_ms wallet ≡ ok cred
    → cred.can_deposit ≡ true
    → (raw : RawCredential) × ((chain.fetch_credential wallet ≡ some raw)
        × ((verified chain (to_seconds now_ms) wallet raw).can_deposit ≡ true))
unfolding verify_credential
verify_reads chain now_ms wallet cred h can_pay =
    elim (Option-cases (chain.fetch_credential wallet)) [
      | inl f ↦ absurd (ground arith)
      | inr (raw, f) ↦ (raw, ground arith)
    ]

-- Where `preflightDeposit` gives the go-ahead, the credential account on the chain is active and
-- expires later than now, the vault is not paused, and the amount is within its limits.
preflight_deposit-Permits :
    (chain : AssetChain) (now_ms : ℕ) (wallet mint amount : String) (p : AssetPreflight)
    → preflight_deposit chain now_ms wallet mint amount ≡ ok p
    → p.can_deposit ≡ true
    → (raw : RawCredential) × (vault : AssetVaultInfo) × (n : ℤ) × ((chain.fetch_credential wallet
          ≡ some raw)
        × (get_vault_by_mint chain mint ≡ ok vault)
        × (chain.big_int amount ≡ some n)
        × Permits (to_seconds now_ms) raw vault n)
preflight_deposit-Permits chain now_ms wallet mint amount p h can_pay =
    let (cred, vault, n, reads) = preflight_reads chain now_ms wallet mint amount p h in
    let limits = assess_permits chain cred vault n p reads.3 can_pay in
    let (raw, found) = verify_reads chain now_ms wallet cred reads.0 limits.0 in
    let (status, later) = verified_permits chain (to_seconds now_ms) wallet raw found.1 in
    (raw, vault, n, (found.0, reads.1, reads.2, (status, later, limits.1, limits.2, limits.3)))

-- In the second in which a credential with status 1 expires, for instants that a `Date` can hold,
-- an answer of `preflightDeposit` refuses the deposit and gives as its reason that the credential
-- is active.
pub preflight_deposit-expiring :
    (chain : AssetChain) (now_ms : ℕ) (wallet mint amount : String) (raw : RawCredential)
    (p : AssetPreflight)
    → chain.fetch_credential wallet ≡ some raw
    → raw.status ≡ some 1
    → raw.expires_at ≡ some (to_seconds now_ms)
    → to_seconds now_ms ≤ 8640000000000
    → (raw.issued_at otherwise 0) ≤ 8640000000000
    → preflight_deposit chain now_ms wallet mint amount ≡ ok p
    → (p.can_deposit ≡ false) × (p.reason ≡ some (credential_is active))
unfolding preflight_deposit verify_credential verified assess
preflight_deposit-expiring chain now_ms wallet mint amount raw p found status expires date issued
      h =
    (ground arith, ground arith)
