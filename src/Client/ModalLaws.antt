-- ===== src/Client/ModalLaws.antt =====
-- What a click on "Deposit" in the dialog of an asset vault sends.
use oragami.Prelude.{
  ◌≡◌, inl, inr, String, true, Option, none, some, List, [], ◌∷◌, arith, Bool-cases, Option-cases,
  string_eq,
}
use oragami.Prelude.Int.{ℤ}
use oragami.Js.Floats.{Floats}
use oragami.Client.Tasks.{Outcome, returned, raised, Outcome-cases}
use oragami.Client.Modal.{
  Modal, ModalEnv, ModalPreflight, ModalCall, creates_account, transaction, succeeded, raw_amount,
  share_mint, deposit_instruction, submitted, allowed, deposited, handle_deposit,
}

module _ (fl : Floats) (env : ModalEnv fl.Float) where
  abbrev creation : String → String → ModalCall
  creation key b = creates_account key b key (share_mint fl env)

  -- The ends of the two transactions.
  data Submission (key raw : String) (r : Outcome String × List ModalCall) : Type 0 where
    unsent : (e : Option String) → r ≡ (raised e, []) → Submission key raw r
    created :
        (b : String) (e : Option String)
        → r ≡ (raised e, creation key b ∷ [])
        → Submission key raw r
    refused :
        (n : ℤ) (a b : String) (e : Option String)
        → env.bn raw ≡ returned n
        → r ≡ (raised e, creation key b ∷ transaction (deposit_instruction fl env key n a b) ∷ [])
        → Submission key raw r
    taken :
        (n : ℤ) (a b tx : String)
        → env.bn raw ≡ returned n
        → env.rpc (deposit_instruction fl env key n a b) ≡ returned tx
        → r
          ≡ (returned tx, creation key b ∷ transaction (deposit_instruction fl env key n a b) ∷ [])
        → Submission key raw r

  -- Once both accounts are known.
  prepared-Submission :
      (key raw a b : String)
      → env.program ≡ returned tt
      → env.parse_key key ≡ returned tt
      → env.parse_key env.asset_mint ≡ returned tt
      → env.token_account env.asset_mint key ≡ returned a
      → env.token_account (share_mint fl env) key ≡ returned b
      → Submission key raw (submitted fl env key raw [])
  unfolding submitted
  prepared-Submission key raw a b p k m ha hb = elim (Outcome-cases env.blockhash) [
    | inr (e, h) ↦ unsent e (simp (p, k, m, ha, hb, h))
    | inl (_, h) ↦ elim (Outcome-cases env.signed) [
      | inr (e, s) ↦ unsent e (simp (p, k, m, ha, hb, h, s))
      | inl (_, s) ↦ elim (Outcome-cases env.sent) [
        | inr (e, t) ↦ created b e (simp (p, k, m, ha, hb, h, s, t))
        | inl (_, t) ↦ elim (Outcome-cases (env.bn raw)) [
          | inr (e, q) ↦ created b e (simp (p, k, m, ha, hb, h, s, t, q))
          | inl (n, q) ↦ elim (Outcome-cases (env.rpc (deposit_instruction fl env key n a b))) [
            | inr (e, u) ↦ refused n a b e q (simp (p, k, m, ha, hb, h, s, t, q, u))
            | inl (tx, u) ↦ taken n a b tx q u (simp (p, k, m, ha, hb, h, s, t, q, u))
          ]
        ]
      ]
    ]
  ]

  submitted-Submission : (key raw : String) → Submission key raw (submitted fl env key raw [])
  unfolding submitted
  submitted-Submission key raw = elim (Outcome-cases env.program) [
    | inr (e, p) ↦ unsent e (simp p)
    | inl (_, p) ↦ elim (Outcome-cases (env.parse_key key)) [
      | inr (e, k) ↦ unsent e (simp (p, k))
      | inl (_, k) ↦ elim (Outcome-cases (env.parse_key env.asset_mint)) [
        | inr (e, m) ↦ unsent e (simp (p, k, m))
        | inl (_, m) ↦ elim (Outcome-cases (env.token_account env.asset_mint key)) [
          | inr (e, ha) ↦ unsent e (simp (p, k, m, ha))
          | inl (a, ha) ↦ elim (Outcome-cases (env.token_account (share_mint fl env) key)) [
            | inr (e, hb) ↦ unsent e (simp (p, k, m, ha, hb))
            | inl (b, hb) ↦ prepared-Submission key raw a b p k m ha hb
          ]
        ]
      ]
    ]
  ]

  -- The wallet is there, and the preflight that the dialog holds, for whichever wallet and amount it
  -- was asked, is a go-ahead.
  abbrev pub HasGoAhead : Modal → String → Type 0
  HasGoAhead m key =
      (p : ModalPreflight) × ((m.preflight ≡ some p)
        × (p.can_deposit ≡ true)
        × (m.public_key ≡ some key))

  allowed-HasGoAhead :
      (m : Modal) (key : String)
      → allowed fl env m.preflight m.public_key ≡ some key
      → HasGoAhead m key
  allowed-HasGoAhead m key h = elim (Option-cases m.preflight) [
    | inl without ↦ ground (arith, without, h)
    | inr (p, given) ↦ (p, (given, ground (arith, given, h), ground (arith, given, h)))
  ]

  -- The ends of a click: the dialog shows a signature only where the deposit was answered with it.
  pub data ClickRun (m : Modal) (end : Modal × List ModalCall) : Type 0 where
    nothing_sent : end.1 ≡ [] → end.0.tx_sig ≡ m.tx_sig → ClickRun m end
    account_only :
        (key b : String)
        → HasGoAhead m key
        → end.1 ≡ creation key b ∷ []
        → end.0.tx_sig ≡ m.tx_sig
        → ClickRun m end
    not_answered :
        (key a b : String) (n : ℤ)
        → HasGoAhead m key
        → env.bn (raw_amount fl env m.amount) ≡ returned n
        → end.1 ≡ creation key b ∷ transaction (deposit_instruction fl env key n a b) ∷ []
        → end.0.tx_sig ≡ m.tx_sig
        → ClickRun m end
    deposit_made :
        (key a b tx : String) (n : ℤ)
        → HasGoAhead m key
        → env.bn (raw_amount fl env m.amount) ≡ returned n
        → env.rpc (deposit_instruction fl env key n a b) ≡ returned tx
        → end.1
          ≡ creation key b ∷ transaction (deposit_instruction fl env key n a b) ∷ succeeded ∷ []
        → end.0.tx_sig ≡ some tx
        → ClickRun m end

  deposited-ClickRun :
      (m : Modal) (key : String) (r : Outcome String × List ModalCall)
      (end : Modal × List ModalCall)
      → end ≡ deposited fl env (record m { submitting = true; error = none }) r
      → HasGoAhead m key
      → Submission key (raw_amount fl env m.amount) r
      → ClickRun m end
  deposited-ClickRun m key r end same may (unsent e h) =
      nothing_sent (ground (arith, same, h)) (ground (arith, same, h))
  deposited-ClickRun m key r end same may (created b e h) =
      account_only key b may (ground (arith, same, h)) (ground (arith, same, h))
  deposited-ClickRun m key r end same may (refused n a b e q h) =
      not_answered key a b n may q (ground (arith, same, h)) (ground (arith, same, h))
  deposited-ClickRun m key r end same may (taken n a b tx q u h) =
      deposit_made key a b tx n may q u (ground (arith, same, h)) (ground (arith, same, h))

  -- whatever the wallet and the chain answer, a click on "Deposit" in the dialog sends nothing, or
  -- with a connected wallet and under a go-ahead in the preflight that the dialog holds, which may be
  -- that of another wallet or amount, the transaction that creates the wallet's account for shares, with at most one `deposit` of the amount in the field behind it; the dialog reports
  -- success only where that deposit was answered, and shows its signature.
  pub handle_deposit-ClickRun : (m : Modal) → ClickRun m (handle_deposit fl env m [])
  unfolding handle_deposit
  handle_deposit-ClickRun m = elim (Option-cases (allowed fl env m.preflight m.public_key)) [
    | inl without ↦ nothing_sent (ground (arith, without)) (ground (arith, without))
    | inr (key, given) ↦ elim (Bool-cases env.has_phantom) [
      | inr p ↦ nothing_sent (ground (arith, given, p)) (ground (arith, given, p))
      | inl p ↦
          deposited-ClickRun m key _ _ (ground (arith, given, p)) (allowed-HasGoAhead m key given)
            (submitted-Submission key (raw_amount fl env m.amount))
    ]
  ]
