-- ===== src/Credentials/Agreement.antt =====
-- The database and the chain agree on a credential: the parts that the operations share.
use mathlib.Core.Option
use oragami.Prelude.{
  ℕ, String, true, ◌≡◌, ◌≢◌, refl, sym, ◌∙◌, inl, inr, Option, none, some, List, arith, eq_iff,
  Bool-cases, is_some, if◌then◌else◌, ◌==◌, string_eq,
}
use oragami.Database.{Institution, find_by_wallet, upsert, update_many}
use oragami.Database.Laws.{find_by_wallet-upsert, find_by_wallet-update_many}
use oragami.Program.Credential.{
  ComplianceCredential, account_of, revoke_account, issue_credential, revoke_credential,
}
use oragami.Program.CredentialLaws.{
  issue_credential_lem, revoke_credential_lem, revoke_credential_known,
}
use oragami.Credentials.Service.{
  Services, Store, IssueCredentialDto, issue_params, updated_row, created_row,
}

-- A wallet's row and its account: a row that says 'revoked' has an account that is revoked, and one
-- that says 'active' has an account.
abbrev pub Agree : Option Institution → Option ComplianceCredential → Type 0
Agree none c = Unit
Agree (some i) none = (i.credential_status ≢ "revoked") × (i.credential_status ≢ "active")
Agree (some i) (some c) = i.credential_status ≡ "revoked" → c.status ≡ 3

abbrev pub AgreeFor : String → Store → Type 0
AgreeFor w s = Agree (find_by_wallet w s.db.institutions) (account_of w s.accounts)

-- The database and the chain agree on every wallet.
abbrev pub IsConsistent : Store → Type 0
IsConsistent s = (w : String) → AgreeFor w s

active_not_revoked : ◌≡◌ {A = String} "active" "revoked" → ⊥
active_not_revoked h = cc ((eq_iff "active" "revoked").1 h)

-- A row beside a new or a changed account.
Agree-new_account :
    (row : Option Institution) (c : ComplianceCredential) → Agree row none → Agree row (some c)
Agree-new_account none c h = tt
Agree-new_account (some i) c h = λ e. absurd (h.0 e)

pub Agree-revoked :
    (row : Option Institution) (c : ComplianceCredential) → c.status ≡ 3 → Agree row (some c)
Agree-revoked none c h = tt
Agree-revoked (some i) c h = λ e. h

module _ (services : Services) where
  pub upserted_is_active :
      (id : String) (dto : IssueCredentialDto) (a b : ℕ) (old : Option Institution)
      → (let row : Institution = elim old [
        | none ↦ created_row services id dto a b
        | some i ↦ updated_row services dto a b i
      ] in
          row.credential_status)
        ≡ "active"
  unfolding updated_row created_row
  upserted_is_active id dto a b none = refl
  upserted_is_active id dto a b (some i) = refl

  -- The row of a wallet once the issue is in the database.
  pub issued_row :
      (w id : String) (dto : IssueCredentialDto) (a b : ℕ) (rows : List Institution)
      → find_by_wallet w
          (upsert dto.wallet (updated_row services dto a b) (created_row services id dto a b) rows)
        ≡ (if dto.wallet == w
            then some (elim (find_by_wallet dto.wallet rows) [
              | none ↦ created_row services id dto a b
              | some i ↦ updated_row services dto a b i
            ])
            else find_by_wallet w rows)
  unfolding updated_row created_row
  issued_row w id dto a b rows =
      find_by_wallet-upsert w dto.wallet (updated_row services dto a b)
        (created_row services id dto a b) rows (λ i. refl) refl

  -- The account of a wallet once the chain has taken the issue.
  pub issued_account :
      (w : String) (dto : IssueCredentialDto) (a b : ℕ) (cs cs' : List ComplianceCredential)
      → issue_credential (issue_params services dto a b) cs ≡ some cs'
      → account_of w cs' ≡ (
          if dto.wallet == w
          then some (record (issue_params services dto a b) { status = 1 })
          else account_of w cs)
  unfolding issue_params
  issued_account w dto a b cs cs' taken =
      issue_credential_lem w (issue_params services dto a b) cs cs' taken

  pub issued_new :
      (w : String) (dto : IssueCredentialDto) (a b : ℕ) (cs cs' : List ComplianceCredential)
      → issue_credential (issue_params services dto a b) cs ≡ some cs'
      → (dto.wallet == w) ≡ true
      → account_of w cs ≡ none
  unfolding issue_params issue_credential
  issued_new w dto a b cs cs' taken same = ground (arith, eq_iff dto.wallet w)

  pub issued_AgreeFor :
      (w id : String) (dto : IssueCredentialDto) (a b : ℕ) (s : Store)
      (cs : List ComplianceCredential)
      → issue_credential (issue_params services dto a b) s.accounts ≡ some cs
      → AgreeFor w s
      → Agree
          (find_by_wallet w (
            upsert dto.wallet
              (updated_row services dto a b)
              (created_row services id dto a b)
              s.db.institutions))
          (account_of w cs)
  issued_AgreeFor w id dto a b s cs taken h = elim (Bool-cases (dto.wallet == w)) [
    | inl same ↦
        rw
          (
            issued_row w id dto a b s.db.institutions,
            issued_account w dto a b s.accounts cs taken,
            same,
          )
          (λ e. absurd (active_not_revoked (sym (upserted_is_active id dto a b _) ∙ e)))
    | inr other ↦
        rw
          (
            issued_row w id dto a b s.db.institutions,
            issued_account w dto a b s.accounts cs taken,
            other,
          )
          h
  ]

  -- Where only the chain has taken the issue, the wallet had no account before.
  pub lost_AgreeFor :
      (w : String) (dto : IssueCredentialDto) (a b : ℕ) (s : Store) (cs : List ComplianceCredential)
      → issue_credential (issue_params services dto a b) s.accounts ≡ some cs
      → AgreeFor w s
      → AgreeFor w (record s { accounts = cs })
  lost_AgreeFor w dto a b s cs taken h = elim (Bool-cases (dto.wallet == w)) [
    | inl same ↦
        rw (issued_account w dto a b s.accounts cs taken, same)
          (Agree-new_account _ _ (rw (issued_new w dto a b s.accounts cs taken same) at h))
    | inr other ↦ rw (issued_account w dto a b s.accounts cs taken, other) h
  ]

-- What a revocation that the chain took leaves for a wallet.
revoked_account_AgreeFor :
    (row : Option Institution) (old : Option ComplianceCredential)
    → is_some old ≡ true
    → Agree row (Option.map revoke_account old)
revoked_account_AgreeFor row none h = cc
revoked_account_AgreeFor row (some c) h = Agree-revoked row (revoke_account c) refl

module _ (w wallet : String) (s : Store) (cs : List ComplianceCredential)
    (taken : revoke_credential wallet s.accounts ≡ some cs) where
  revoked_known : (wallet == w) ≡ true → is_some (account_of w s.accounts) ≡ true
  revoked_known same =
      let (c, known) = revoke_credential_known wallet s.accounts cs taken in
      rw (← ((eq_iff wallet w).0 same), known)

  -- In the accounts alone, where the answer was lost.
  pub revoked_AgreeFor :
      (row : Option Institution) → Agree row (account_of w s.accounts) → Agree row (account_of w cs)
  revoked_AgreeFor row h = elim (Bool-cases (wallet == w)) [
    | inl same ↦
        rw (revoke_credential_lem w wallet s.accounts cs taken, same)
          (revoked_account_AgreeFor row (account_of w s.accounts) (revoked_known same))
    | inr other ↦ rw (revoke_credential_lem w wallet s.accounts cs taken, other) h
  ]

  pub revoked_AgreeFor_db :
      AgreeFor w s
      → Agree
          (find_by_wallet w (
            update_many wallet (λ i. record i { credential_status = "revoked" }) s.db.institutions))
          (account_of w cs)
  revoked_AgreeFor_db h = elim (Bool-cases (wallet == w)) [
    | inl same ↦
        rw (revoke_credential_lem w wallet s.accounts cs taken, same)
          (revoked_account_AgreeFor _ (account_of w s.accounts) (revoked_known same))
    | inr other ↦
        rw
          (
            revoke_credential_lem w wallet s.accounts cs taken,
            find_by_wallet-update_many w wallet (λ i. record i { credential_status = "revoked" })
                s.db.institutions (λ i. refl),
            other,
          )
          h
  ]
