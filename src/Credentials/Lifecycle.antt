-- ===== src/Credentials/Lifecycle.antt =====
-- `issue` and `revoke` keep the database and the chain in agreement.
use oragami.Prelude.{ℕ, String, Bool, inl, inr, List, [], ◌∷◌, arith, Option-cases}
use oragami.Prelude.Clock.{to_seconds}
use oragami.Database.{empty_db}
use oragami.Program.Credential.{issue_credential, revoke_credential}
use oragami.Credentials.Service.{
  Services, Call, Store, IssueCredentialDto, issue, revoke, issue_params, later_than,
}
use oragami.Credentials.Agreement.{
  AgreeFor, IsConsistent, issued_AgreeFor, lost_AgreeFor, revoked_AgreeFor, revoked_AgreeFor_db,
}

-- The operations on credentials, with what becomes of each call.
pub data Operation : Type 0 where
  issuing : ℕ → Bool → Call → String → IssueCredentialDto → Operation
  revoking : Call → String → Operation

module _ (services : Services) where
  -- `revoke` keeps the agreement of the database and the chain for every wallet, whether the
  -- transaction is answered, lost after the chain took it, or not sent, and whatever it revokes.
  pub revoke-IsConsistent :
      (call : Call) (wallet : String) (s : Store)
      → IsConsistent s
      → IsConsistent (revoke services call wallet s).1
  unfolding revoke
  revoke-IsConsistent call wallet s h w =
      elim (Option-cases (revoke_credential wallet s.accounts)) [
        | inl refused ↦ ground (arith, h w)
        | inr (cs, taken) ↦ ground (
          arith,
          h w,
          revoked_AgreeFor w wallet s cs taken _ (h w),
          revoked_AgreeFor_db w wallet s cs taken (h w),
        )
      ]

  -- So does `issue`, for every answer of the chain and for every error on the way.
  pub issue-IsConsistent :
      (now_ms : ℕ) (connected : Bool) (call : Call) (id : String) (dto : IssueCredentialDto)
      (s : Store)
      → IsConsistent s
      → IsConsistent (issue services now_ms connected call id dto s).1
  unfolding issue
  issue-IsConsistent now_ms connected call id dto s h w =
      elim (Option-cases (later_than (to_seconds now_ms) (services.date_time dto.expires_at))) [
        | inl past ↦ ground (arith, h w)
        | inr (expiry, later) ↦
            let a = to_seconds now_ms in
            elim (Option-cases (issue_credential (issue_params services dto a expiry) s.accounts)) [
              | inl refused ↦ ground (arith, h w)
              | inr (cs, taken) ↦ ground (
                arith,
                h w,
                issued_AgreeFor services w id dto a expiry s cs taken (h w),
                lost_AgreeFor services w dto a expiry s cs taken (h w),
              )
            ]
      ]

  pub apply : Operation → Store → Store
  apply (issuing now_ms connected call id dto) s = (issue services now_ms connected call id dto s).1
  apply (revoking call wallet) s = (revoke services call wallet s).1

  pub run : List Operation → Store → Store
  run [] s = s
  run (o ∷ os) s = run os (apply o s)

  run-IsConsistent : (os : List Operation) (s : Store) → IsConsistent s → IsConsistent (run os s)
  unfolding run apply
  run-IsConsistent [] s h = h
  run-IsConsistent (issuing now_ms connected call id dto ∷ os) s h =
      run-IsConsistent os _ (issue-IsConsistent now_ms connected call id dto s h)
  run-IsConsistent (revoking call wallet ∷ os) s h =
      run-IsConsistent os _ (revoke-IsConsistent call wallet s h)

  -- From an empty store, after any sequence of issues and revocations with any losses on the way, a
  -- row of the database that says 'revoked' belongs to a wallet whose account on the chain is
  -- revoked, and one that says 'active' to a wallet that has an account.
  pub run_agrees :
      (os : List Operation) (w : String)
      → AgreeFor w (run os (record { db = empty_db; accounts = [] }))
  run_agrees os w = run-IsConsistent os (record { db = empty_db; accounts = [] }) (λ v. tt) w
