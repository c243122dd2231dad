-- ===== src/Client/TransferLaws.antt =====
-- What a click on "Transfer Shares" in the dialog of an asset vault sends, and what the program of the
-- asset vaults answers.
use oragami.Prelude.{
  ℕ, ◌≡◌, ◌≢◌, ◌⊎◌, inl, inr, String, true, false, Option, none, some, List, [], ◌∷◌, arith,
  Bool-cases, Option-cases, string_eq, ◌==◌, eq_iff, if◌then◌else◌,
}
use oragami.Prelude.Int.{ℤ}
use mathlib.Core.Path.{subst}
use oragami.Js.Floats.{Floats}
use oragami.Six.Service.{truthy}
use oragami.Client.Tasks.{Outcome, returned, raised, Outcome-cases}
use oragami.Client.Vault.{Instruction}
use oragami.Client.Modal.{
  ModalCall, asks_preflight, asks_faucet, asks_credential, creates_account, transaction, succeeded,
  share_mint,
}
use oragami.Program.Market.{TokenProgram}
use oragami.AssetVault.Attempt.{fails, constraint, wrong_share_mint}
use oragami.AssetVault.State.{AssetVault, CredentialInfo, oragami_vault_program_id}
use oragami.AssetVault.Funds.{ShareAccount, transfer_shares}
use oragami.Client.Transfer.{
  TransferModal, TransferEnv, is_disabled, raw_amount, transfer_instruction, handed, settled,
  handle_transfer, click,
}

module _ (fl : Floats) (env : TransferEnv fl.Float) where
  abbrev shares : String
  shares = share_mint fl env.modal

  abbrev creation : String → String → String → ModalCall
  creation sender receiver b = creates_account sender b receiver shares

  -- The ends of the two transactions.
  data Handing (sender receiver amount : String) (r : Outcome String × List ModalCall)
      : Type 0 where
    unsent : (e : Option String) → r ≡ (raised e, []) → Handing sender receiver amount r
    created :
        (b : String) (e : Option String)
        → r ≡ (raised e, creation sender receiver b ∷ [])
        → Handing sender receiver amount r
    asked :
        (n : ℤ) (a b : String)
        → env.bn_of (raw_amount fl env amount) ≡ returned n
        → r ≡ (
          env.modal.rpc (transfer_instruction fl env sender receiver n a b),
          creation sender receiver b
              ∷ transaction (transfer_instruction fl env sender receiver n a b)
              ∷ [],
        )
        → Handing sender receiver amount r

  -- Once both accounts are known.
  prepared-Handing :
      (sender receiver amount a b : String)
      → env.modal.program ≡ returned tt
      → env.modal.parse_key sender ≡ returned tt
      → env.modal.parse_key receiver ≡ returned tt
      → env.modal.parse_key env.modal.asset_mint ≡ returned tt
      → env.modal.token_account shares sender ≡ returned a
      → env.modal.token_account shares receiver ≡ returned b
      → Handing sender receiver amount (handed fl env sender receiver amount [])
  unfolding handed
  prepared-Handing sender receiver amount a b p k r m ha hb =
      elim (Outcome-cases env.modal.blockhash) [
        | inr (e, h) ↦ unsent e (simp (p, k, r, m, ha, hb, h))
        | inl (_, h) ↦ elim (Outcome-cases env.modal.signed) [
          | inr (e, s) ↦ unsent e (simp (p, k, r, m, ha, hb, h, s))
          | inl (_, s) ↦ elim (Outcome-cases env.modal.sent) [
            | inr (e, t) ↦ created b e (simp (p, k, r, m, ha, hb, h, s, t))
            | inl (_, t) ↦ elim (Outcome-cases (env.bn_of (raw_amount fl env amount))) [
              | inr (e, q) ↦ created b e (simp (p, k, r, m, ha, hb, h, s, t, q))
              | inl (n, q) ↦ asked n a b q (simp (p, k, r, m, ha, hb, h, s, t, q))
            ]
          ]
        ]
      ]

  handed-Handing :
      (sender receiver amount : String)
      → Handing sender receiver amount (handed fl env sender receiver amount [])
  unfolding handed
  handed-Handing sender receiver amount = elim (Outcome-cases env.modal.program) [
    | inr (e, p) ↦ unsent e (simp p)
    | inl (_, p) ↦ elim (Outcome-cases (env.modal.parse_key sender)) [
      | inr (e, k) ↦ unsent e (simp (p, k))
      | inl (_, k) ↦ elim (Outcome-cases (env.modal.parse_key receiver)) [
        | inr (e, r) ↦ unsent e (simp (p, k, r))
        | inl (_, r) ↦ elim (Outcome-cases (env.modal.parse_key env.modal.asset_mint)) [
          | inr (e, m) ↦ unsent e (simp (p, k, r, m))
          | inl (_, m) ↦ elim (Outcome-cases (env.modal.token_account shares sender)) [
            | inr (e, ha) ↦ unsent e (simp (p, k, r, m, ha))
            | inl (a, ha) ↦ elim (Outcome-cases (env.modal.token_account shares receiver)) [
              | inr (e, hb) ↦ unsent e (simp (p, k, r, m, ha, hb))
              | inl (b, hb) ↦ prepared-Handing sender receiver amount a b p k r m ha hb
            ]
          ]
        ]
      ]
    ]
  ]

  -- A call that a click may leave: the account for the shares of the receiver, the transfer of the
  -- amount in the field to the receiver in the field, by the wallet, and the report of its success.
  abbrev pub IsHanded : TransferModal → ModalCall → Type 0
  IsHanded m (asks_preflight mint wallet raw) = ⊥
  IsHanded m (asks_faucet mint wallet) = ⊥
  IsHanded m (asks_credential wallet key) = ⊥
  IsHanded m (creates_account payer account owner mint) =
      (m.public_key ≡ some payer) × (owner ≡ m.receiver) × (mint ≡ share_mint fl env.modal)
  IsHanded m (transaction i) =
      (sender : String) × (n : ℤ) × (a : String) × (b : String) × ((m.public_key ≡ some sender)
        × (env.bn_of (raw_amount fl env m.amount) ≡ returned n)
        × (i ≡ transfer_instruction fl env sender m.receiver n a b))
  IsHanded m succeeded = Unit

  -- All that a click may leave, in this order.
  pub data Handover (m : TransferModal) : List ModalCall → Type 0 where
    nothing : Handover m []
    prepared :
        (sender b : String)
        → m.public_key ≡ some sender
        → Handover m (creation sender m.receiver b ∷ [])
    refused :
        (sender a b : String) (n : ℤ)
        → m.public_key ≡ some sender
        → env.bn_of (raw_amount fl env m.amount) ≡ returned n
        → Handover m (
            creation sender m.receiver b
            ∷ transaction (transfer_instruction fl env sender m.receiver n a b)
            ∷ [])
    reported :
        (sender a b : String) (n : ℤ)
        → m.public_key ≡ some sender
        → env.bn_of (raw_amount fl env m.amount) ≡ returned n
        → Handover m (
            creation sender m.receiver b
            ∷ transaction (transfer_instruction fl env sender m.receiver n a b)
            ∷ succeeded
            ∷ [])

  settled-Handover :
      (m : TransferModal) (sender : String) (r : Outcome String × List ModalCall)
      → m.public_key ≡ some sender
      → Handing sender m.receiver m.amount r
      → Handover m (settled fl env (record m { submitting = true; error = none }) r).1
  settled-Handover m sender r key (unsent e h) = rw h nothing
  settled-Handover m sender r key (created b e h) = rw h (prepared sender b key)
  settled-Handover m sender r key (asked n a b q h) =
      elim (Outcome-cases (env.modal.rpc (transfer_instruction fl env sender m.receiver n a b))) [
        | inl (tx, p) ↦ rw (h, p) (reported sender a b n key q)
        | inr (e, p) ↦ rw (h, p) (refused sender a b n key q)
      ]

  -- The backend has not answered that the receiver may not deposit, and no transfer is under way.
  abbrev pub MayClick : TransferModal → Type 0
  MayClick m = (m.submitting ≡ false) × (m.receiver_cred ≢ some false)

  -- whatever the wallet and the chain answer, a click on "Transfer Shares" sends nothing, or, while no
  -- transfer is under way and the credential that is shown is not one that may not deposit, it sends
  -- by the connected wallet: nothing; or one transaction that makes the account for the shares of the
  -- receiver in the field; or this one and then one `transferShares` of the amount in the field to
  -- that receiver and into that account; and only after the latter success may be reported, once.
  pub click-Handover :
      (m : TransferModal)
      → ((click fl env m []).1 ≡ []) ⊎ (MayClick m × Handover m (click fl env m []).1)
  unfolding click handle_transfer
  click-Handover m = elim (Bool-cases (is_disabled m)) [
    | inl off ↦ inl (ground (arith, off))
    | inr on ↦ elim (Option-cases (truthy m.public_key)) [
      | inl away ↦ inl (ground (arith, away, on))
      | inr (sender, here) ↦ elim (Bool-cases env.modal.has_phantom) [
        | inr p ↦ inl (ground (arith, here, p, on))
        | inl p ↦
            let same : (click fl env m []).1
                ≡ (settled fl env (record m { submitting = true; error = none })
                    (handed fl env sender m.receiver m.amount [])).1 =
              ground (arith, here, p, on) in
            inr (
              (ground (arith, on), ground (arith, on)),
              rw same (
                  settled-Handover m sender _ (ground (arith, here))
                    (handed-Handing sender m.receiver m.amount)),
            )
      ]
    ]
  ]

-- The account that an instruction passes under a name.
abbrev pub account_at : String → List (String × String) → Option String
account_at name [] = none
account_at name ((key, account) ∷ rest) = if key == name then some account else account_at name rest

-- the program of the asset vaults refuses every transfer that the dialog may send, in any state of the
-- chain, if the address of the credential that the dialog derives for the wallet is not the one under
-- the program oragami-vault.
pub transfer_shares-IsHanded :
    (fl : Floats) (env : TransferEnv fl.Float) (tokens : TokenProgram)
    (derive : String → String → String) (now : ℕ) (m : TransferModal) (i : Instruction)
    (sender : String) (info receiver_info : CredentialInfo) (amount : ℕ) (v : AssetVault)
    (from to : ShareAccount)
    → IsHanded fl env m (transaction i)
    → m.public_key ≡ some sender
    → account_at "senderCredential" i.accounts ≡ some info.key
    → env.modal.pda ("credential" ∷ sender ∷ []) ≢ derive sender oragami_vault_program_id
    → (transfer_shares tokens derive now sender info receiver_info amount v from to
        ≡ fails wrong_share_mint)
      ⊎ (transfer_shares tokens derive now sender info receiver_info amount v from to
          ≡ fails constraint)
unfolding transfer_shares
transfer_shares-IsHanded fl env tokens derive now m i sender info receiver_info amount v from to
      (signer, n, a, b, (signs, q, same)) key passed other =
    let one : signer ≡ sender = ground (arith, signs, key) in
    let found : some (env.modal.pda ("credential" ∷ signer ∷ [])) ≡ some info.key =
      subst (λ x. account_at "senderCredential" x.accounts ≡ some info.key) same passed in
    let at : info.key ≡ env.modal.pda ("credential" ∷ sender ∷ []) = cc in
    ground (arith, at, other, eq_iff info.key (derive sender oragami_vault_program_id))
