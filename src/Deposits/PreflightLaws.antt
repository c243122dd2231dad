-- ===== src/Deposits/PreflightLaws.antt =====
-- `preflight` against the checks and amounts of the on-chain deposit.
use oragami.Prelude.{
  ◌≤◌, ℕ, ◌*◌, ◌/◌, ◌<◌, ◌≡◌, ◌≢◌, ◌∙◌, sym, ap, refl, String, Bool, true, false, Option, none,
  some, arith, leb, ◌==◌, nat_eq,
}
use mathlib.Core.Path.{subst}
use oragami.Prelude.Clock.{to_millis}
use oragami.Prelude.Int.{ℤ, pos, leb_ℤ, scale, quot}
use oragami.Prelude.Results.{Result, ok, err}
use oragami.Database.{Db}
use oragami.Program.Credential.{ComplianceCredential, account_of}
use oragami.Program.Vault.{VaultState, TravelRuleData, deposit, accepts_credential}
use oragami.Program.VaultLaws.{minted_lem, deposit_unpaused, deposit_credential, deposit_minted}
use oragami.Crank.Service.{VaultAccount}
use oragami.Credentials.Service.{Store, verify, expired, status_of, max_date_seconds}
use oragami.Deposits.Preflight.{PreflightDto, Preflight, preflight, credential_status_of, text}

-- The vault account as the backend reads it.
abbrev pub read_vault : VaultState → ℕ → VaultAccount
read_vault vs yield = record {
  nav_price_bps = some vs.nav_price_bps;
  usx_allocation_bps = none;
  total_deposits = some vs.total_deposits;
  total_supply = some vs.total_supply;
  pending_yield = some yield;
  apy_bps = none;
  last_yield_claim = none;
  paused = vs.paused;
}

-- What the credential of an accepted deposit has as its status.
accepted_status :
    (now : ℕ) (payer : String) (c : ComplianceCredential)
    → accepts_credential now payer c ≡ true
    → c.status ≡ 1
unfolding accepts_credential
accepted_status now payer c h = ground arith

scale-pos : (amount : ℕ) → scale 10000 (pos amount) ≡ pos (amount * 10000)
scale-pos amount = ground arith

leb-pos : (a b : ℕ) → leb_ℤ (pos a) (pos b) ≡ leb a b
leb-pos a b = ground arith

is_not_zero : (n : ℕ) → n ≢ 0 → (n == 0) ≡ false
is_not_zero n h = ground arith

-- The tokens that are estimated are those of the formula on the chain.
quot-scale : (amount nav : ℕ) → quot (scale 10000 (pos amount)) nav ≡ pos ((amount * 10000) / nav)
quot-scale amount nav = ap (λ a. quot a nav) (scale-pos amount)

-- What a check before a deposit answers is a go-ahead for `cvault` tokens.
abbrev pub Forecasts : ℕ → ℕ → Result Preflight → Type 0
Forecasts amount cvault (ok p) =
    (p.can_deposit ≡ true)
    × (p.reason ≡ none)
    × (p.estimated_cvault ≡ pos cvault)
    × (p.requires_travel_rule ≡ leb 1000000000 amount)
Forecasts amount cvault (err e) = ⊥

-- The answer is a go-ahead.
abbrev pub GoesAhead : Result Preflight → Type 0
GoesAhead (ok p) = p.can_deposit ≡ true
GoesAhead (err e) = ⊥

module _ (big_int : String → Option ℤ) (is_public_key : String → Bool) where
  -- The go-ahead of `preflight`, in full.
  preflight_answer :
      (amount yield : ℕ) (dto : PreflightDto) (c : ComplianceCredential) (vs : VaultState)
      (db : Db ℕ)
      → big_int dto.usdc_amount ≡ some (pos amount)
      → is_public_key dto.wallet ≡ true
      → c.status ≡ 1
      → vs.paused ≡ false
      → vs.nav_price_bps ≢ 0
      → (preflight big_int is_public_key dto (some c) (some (read_vault vs yield)) db).0
        ≡ ok (record {
          can_deposit = true;
          reason = none;
          requires_travel_rule = leb_ℤ (pos 1000000000) (pos amount);
          credential_status = text "active";
          current_nav = vs.nav_price_bps;
          estimated_cvault = quot (scale 10000 (pos amount)) vs.nav_price_bps;
        })
  unfolding preflight credential_status_of
  preflight_answer amount yield dto c vs db parsed key status open_ nav =
      rw (parsed, key, status, open_, is_not_zero vs.nav_price_bps nav)

  -- Of a deposit that the chain takes, `preflight` on the same accounts, for a wallet that is a
  -- public key and a text that is the amount, says beforehand that it can be made, gives the
  -- exact number of tokens that are minted, and asks for a travel rule record exactly from 1000
  -- USDC on.
  pub preflight_of_deposit :
      (now amount yield : ℕ) (dto : PreflightDto) (c : ComplianceCredential)
      (rule rule' : Option TravelRuleData) (vs vs' : VaultState) (cvault : ℕ) (db : Db ℕ)
      → big_int dto.usdc_amount ≡ some (pos amount)
      → is_public_key dto.wallet ≡ true
      → deposit now dto.wallet c rule amount vs ≡ some (vs', rule', cvault)
      → Forecasts amount cvault
          (preflight big_int is_public_key dto (some c) (some (read_vault vs yield)) db).0
  preflight_of_deposit now amount yield dto c rule rule' vs vs' cvault db parsed key taken =
      let (nav, tokens, _) =
        minted_lem amount vs.nav_price_bps cvault
          (deposit_minted now amount dto.wallet c rule rule' vs vs' cvault taken) in
      subst (Forecasts amount cvault)
        (sym (
          preflight_answer amount yield dto c vs db parsed key
            (accepted_status now dto.wallet c
              (deposit_credential now amount dto.wallet c rule rule' vs vs' cvault taken))
            (deposit_unpaused now amount dto.wallet c rule rule' vs vs' cvault taken) nav))
        (
          refl,
          refl,
          quot-scale amount vs.nav_price_bps ∙ ap pos (sym tokens),
          leb-pos 1000000000 amount,
        )

  -- For an account with status 1 that has expired, at an instant that a `Date` can hold, an open vault with a NAV, a wallet that is a
  -- public key and an amount that parses: `preflight` says that the deposit can be made, `verify`
  -- says that the credential has expired, and the chain refuses every deposit.
  pub preflight_ignores_expiry :
      (now : ℕ) (amount : ℤ) (n yield : ℕ) (dto : PreflightDto) (c : ComplianceCredential)
      (rule : Option TravelRuleData) (vs : VaultState) (s : Store)
      → big_int dto.usdc_amount ≡ some amount
      → is_public_key dto.wallet ≡ true
      → account_of dto.wallet s.accounts ≡ some c
      → c.status ≡ 1
      → c.expires_at < now
      → c.expires_at ≤ max_date_seconds
      → vs.paused ≡ false
      → vs.nav_price_bps ≢ 0
      → let r =
          (preflight big_int is_public_key dto
            (account_of dto.wallet s.accounts)
            (some (read_vault vs yield))
            s.db).0 in
        GoesAhead r
        × (status_of (verify (to_millis now) true dto.wallet s) ≡ some expired)
        × (deposit now dto.wallet c rule n vs ≡ none)
  unfolding deposit preflight credential_status_of accepts_credential verify
  preflight_ignores_expiry now amount n yield dto c rule vs s parsed key known active past held
        open_ nav =
      (ground arith, ground arith, ground arith)
