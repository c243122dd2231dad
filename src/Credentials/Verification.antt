-- ===== src/Credentials/Verification.antt =====
-- What `verify` and a second `issue` answer after the operations.
use mathlib.Core.Option
use oragami.Prelude.{
  ℕ, ◌≤◌, String, Bool, true, ◌≡◌, ◌↔◌, inl, inr, some, arith, eq_iff, Option-cases, string_eq,
}
use oragami.Prelude.Clock.{to_seconds, to_millis}
use oragami.Prelude.Results.{ok, err, conflict}
use oragami.Database.{Institution, find_by_wallet}
use oragami.Program.Credential.{
  ComplianceCredential, account_of, issue_credential, revoke_credential,
}
use oragami.Program.CredentialLaws.{revoke_credential_lem, revoke_credential_known}
use oragami.Credentials.Service.{
  Services, Call, Store, IssueCredentialDto, Issued, issue, revoke, issue_params, later_than,
  verify, active, revoked, Verified, status_of, max_date_seconds,
}
use oragami.Credentials.Agreement.{issued_account, issued_row, upserted_is_active}

-- With a connection to the chain, `verify` answers 'active' exactly for a wallet that has an account
-- with status 1 whose expiry has not passed and is an instant that a `Date` can hold.
pub verify-eq-active_iff :
    (now_ms : ℕ) (wallet : String) (s : Store)
    → (status_of (verify now_ms true wallet s) ≡ some active) ↔ (
        (c : ComplianceCredential) × (account_of wallet s.accounts ≡ some c)
        × (c.status ≡ 1)
        × (now_ms ≤ to_millis c.expires_at)
        × (c.expires_at ≤ max_date_seconds))
unfolding verify
verify-eq-active_iff now_ms wallet s = (λ h. ground arith, λ (c, e, a, b, d). ground arith)

module _ (services : Services) where
  -- After a revocation that the service answers, `verify` with a connection to the chain says
  -- 'revoked' at any time, of an account that expires at an instant that a `Date` can hold.
  pub verify-revoke :
      (call : Call) (wallet tx : String) (s : Store) (now_ms : ℕ) (c : ComplianceCredential)
      → account_of wallet s.accounts ≡ some c
      → c.expires_at ≤ max_date_seconds
      → (revoke services call wallet s).0 ≡ ok tx
      → status_of (verify now_ms true wallet (revoke services call wallet s).1) ≡ some revoked
  unfolding revoke verify
  verify-revoke call wallet tx s now_ms c account held h =
      elim (Option-cases (revoke_credential wallet s.accounts)) [
        | inl refused ↦ ground arith
        | inr (cs, taken) ↦ ground (
          arith,
          account,
          revoke_credential_lem wallet wallet s.accounts cs taken,
          eq_iff wallet wallet,
        )
      ]

  -- An issue that the service answers makes the wallet's credential active until it expires, at the
  -- tier that was asked for, and the row of the wallet says so too.
  pub verify-issue :
      (now_ms t : ℕ) (connected : Bool) (call : Call) (id : String) (dto : IssueCredentialDto)
      (s : Store) (r : Issued) (e : ℕ)
      → (issue services now_ms connected call id dto s).0 ≡ ok r
      → later_than (to_seconds now_ms) (services.date_time dto.expires_at) ≡ some e
      → t ≤ to_millis e
      → e ≤ max_date_seconds
      → let s' = (issue services now_ms connected call id dto s).1 in
        (status_of (verify t true dto.wallet s') ≡ some active)
        × (Option.map (λ (v : Verified). v.tier) (verify t true dto.wallet s') ≡ some dto.tier)
        × (Option.map
              (λ (i : Institution). i.credential_status)
              (find_by_wallet dto.wallet s'.db.institutions)
            ≡ some "active")
  unfolding issue verify issue_params
  verify-issue now_ms t connected call id dto s r e h later before held =
      let a = to_seconds now_ms in
      elim (Option-cases (issue_credential (issue_params services dto a e) s.accounts)) [
        | inl refused ↦ ground arith
        | inr (cs, taken) ↦
            let row = issued_row services dto.wallet id dto a e s.db.institutions in
            let is_active =
              upserted_is_active services id dto a e
                (find_by_wallet dto.wallet s.db.institutions) in
            (
              ground (
                arith,
                issued_account services dto.wallet dto a e s.accounts cs taken,
                eq_iff dto.wallet dto.wallet,
              ),
              ground (
                arith,
                issued_account services dto.wallet dto a e s.accounts cs taken,
                eq_iff dto.wallet dto.wallet,
              ),
              ground (arith, row, is_active, eq_iff dto.wallet dto.wallet),
            )
      ]

  -- After a revocation that the service answers, with a connection every `issue` for the wallet
  -- whose date lies ahead ends in a conflict, since the revoked account stays on the chain, and
  -- nothing is changed.
  pub issue-revoke :
      (call again : Call) (tx id : String) (dto : IssueCredentialDto) (s : Store) (now_ms e : ℕ)
      → (revoke services call dto.wallet s).0 ≡ ok tx
      → later_than (to_seconds now_ms) (services.date_time dto.expires_at) ≡ some e
      → let s' = (revoke services call dto.wallet s).1 in
        issue services now_ms true again id dto s' ≡ (
          err (
              conflict "A credential already exists for this wallet. Revoke it before re-issuing."),
          s',
        )
  unfolding revoke issue
  issue-revoke call again tx id dto s now_ms e h later =
      elim (Option-cases (revoke_credential dto.wallet s.accounts)) [
        | inl refused ↦ ground arith
        | inr (cs, taken) ↦
            let (c, known) = revoke_credential_known dto.wallet s.accounts cs taken in
            ground (
              arith,
              revoke_credential_lem dto.wallet dto.wallet s.accounts cs taken,
              eq_iff dto.wallet dto.wallet,
            )
      ]
