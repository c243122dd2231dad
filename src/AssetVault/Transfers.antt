-- ===== src/AssetVault/Transfers.antt =====
-- Who may hand shares of an asset vault on, by way of the program.
use oragami.Prelude.{
  ℕ, ◌+◌, ◌-◌, ◌≤◌, ◌<◌, ◌≡◌, ◌≢◌, ◌⊎◌, inl, inr, String, false, some, arith, eq_iff, string_eq,
  Option-cases, Bool-cases, ◌==◌,
}
use oragami.Program.Credential.{ComplianceCredential}
use oragami.Program.Market.{TokenProgram}
use oragami.AssetVault.Attempt.{done, Attempt-cases}
use oragami.AssetVault.State.{AssetVault, CredentialInfo, oragami_vault_program_id}
use oragami.AssetVault.Gate.{check_credential, check_receiver, read_credential}
use oragami.AssetVault.Funds.{ShareAccount, transfer_shares, moved}

module _ (derive : String → String → String) where
  -- The account is that of the wallet's credential under the program oragami-vault, which is active
  -- and has not expired.
  abbrev pub IsCredentialed : ℕ → String → CredentialInfo → Type 0
  IsCredentialed now wallet info =
      (c : ComplianceCredential) × ((info.key ≡ derive wallet oragami_vault_program_id)
        × (info.owner ≡ oragami_vault_program_id)
        × (info.content ≡ some c)
        × (c.status ≡ 1)
        × (now < c.expires_at))

  check_credential-IsCredentialed :
      (now : ℕ) (wallet : String) (info : CredentialInfo)
      → check_credential derive now wallet info ≡ done tt
      → IsCredentialed now wallet info
  unfolding check_credential read_credential
  check_credential-IsCredentialed now wallet info h = elim (Option-cases info.content) [
    | inl p ↦ absurd (ground (arith, p))
    | inr (c, p) ↦ (
      c,
      ground (
        arith,
        p,
        eq_iff info.key (derive wallet oragami_vault_program_id),
        eq_iff info.owner oragami_vault_program_id,
      ),
    )
  ]

  check_receiver-IsCredentialed :
      (now : ℕ) (wallet : String) (info : CredentialInfo)
      → check_receiver derive now wallet info ≡ done tt
      → IsCredentialed now wallet info
  unfolding check_receiver read_credential
  check_receiver-IsCredentialed now wallet info h = elim (Option-cases info.content) [
    | inl p ↦ absurd (ground (arith, p))
    | inr (c, p) ↦ (
      c,
      ground (
        arith,
        p,
        eq_iff info.key (derive wallet oragami_vault_program_id),
        eq_iff info.owner oragami_vault_program_id,
      ),
    )
  ]

-- The amount is there, and goes from one balance to the other, or both are the same account and stay
-- as they are; nothing else changes.
abbrev pub Moves : ℕ → ShareAccount → ShareAccount → ShareAccount × ShareAccount → Type 0
Moves amount from to (from', to') =
    (amount ≤ from.balance)
    × (((from.key ≡ to.key) × (from' ≡ from) × (to' ≡ to))
        ⊎ ((from.key ≢ to.key)
            × (from' ≡ record from { balance = from.balance - amount })
            × (to' ≡ record to { balance = to.balance + amount })))

module _ (tokens : TokenProgram) where
  moved-Moves :
      (amount : ℕ) (from to from' to' : ShareAccount)
      → moved tokens amount from to ≡ done (from', to')
      → Moves amount from to (from', to')
  unfolding moved
  moved-Moves amount from to from' to' h =
      let same = eq_iff from.key to.key in
      let out = tokens.out_lem from.balance amount in
      let in_ = tokens.in_lem to.balance amount in
      elim (Bool-cases (from.key == to.key)) [
        | inl e ↦ (ground (arith, out, e), inl (ground (arith, out, e, same)))
        | inr e ↦ (
          ground (arith, out, in_, e),
          inr (ground (arith, e, same), ground (arith, out, in_, e), ground (arith, out, in_, e)),
        )
      ]

  -- a transfer by the program that succeeds is of a positive amount of this vault's shares, while the
  -- vault is not paused; both the wallet that signs and the owner of the account that receives have
  -- an active credential that has not expired, at its address under the program oragami-vault; the
  -- account that pays had the amount and loses it, and the other gains it, or they are one account,
  -- and it stays as it is.
  pub transfer_shares-IsCredentialed :
      (derive : String → String → String) (now : ℕ) (sender : String)
      (sender_info receiver_info : CredentialInfo) (amount : ℕ) (v : AssetVault)
      (from to from' to' : ShareAccount)
      → transfer_shares tokens derive now sender sender_info receiver_info amount v from to
        ≡ done (from', to')
      → IsCredentialed derive now sender sender_info
        × IsCredentialed derive now to.owner receiver_info
        × (from.mint ≡ v.share_mint)
        × (to.mint ≡ v.share_mint)
        × (0 < amount)
        × (v.paused ≡ false)
        × Moves amount from to (from', to')
  unfolding transfer_shares
  transfer_shares-IsCredentialed derive now sender sender_info receiver_info amount v from to from'
        to' h =
      elim (Attempt-cases (check_credential derive now sender sender_info)) [
        | inr (e, p) ↦ absurd (ground (arith, p))
        | inl (_, p) ↦ elim (Attempt-cases (check_receiver derive now to.owner receiver_info)) [
          | inr (e, q) ↦ absurd (ground (arith, p, q))
          | inl (_, q) ↦ (
            check_credential-IsCredentialed derive now sender sender_info p,
            check_receiver-IsCredentialed derive now to.owner receiver_info q,
            ground (arith, eq_iff from.mint v.share_mint),
            ground (arith, eq_iff to.mint v.share_mint),
            ground arith,
            ground arith,
            moved-Moves amount from to from' to' (ground (arith, p, q)),
          )
        ]
      ]
