-- ===== src/Client/PanelLaws.antt =====
-- What the deposit handler of the panel hands to the wallet and to the backend.
use oragami.Prelude.{
  ◌+◌, ◌≡◌, ◌⊎◌, refl, inl, inr, String, true, false, none, some, List, [], ◌∷◌, ◌otherwise◌, arith,
  Bool-cases, Option-cases, ◌==◌, string_eq,
}
use oragami.Prelude.Int.{ℤ}
use oragami.Js.Number.{Number}
use oragami.Js.Floats.{Floats}
use oragami.Client.Tasks.{Outcome, returned, raised, Outcome-cases}
use oragami.Client.Risk.{
  RiskApi, unknown, Fetched, RiskCheckResponse, analyzed, blocked, unreachable, is_ok, not_ok,
  check_vault_compliance, check_wallet_risk, assessed,
}
use oragami.Client.Vault.{
  Chain, Call, VaultOperationResponse, transaction, index_deposit, deposit_to_vault,
  deposit_instruction, failure, confirmed,
}
use oragami.Client.Panel.{
  Tab, PanelEnv, pass, ready, deposited, handle_deposit, raw_amount, index_request,
}

-- The ends of a deposit: nothing was sent, or one transaction for the amount and the wallet.
data Attempt (chain : Chain) (key : String) (amount : Number)
    (r : Outcome VaultOperationResponse × List Call) : Type 0 where
  unsent : (e : String) → r ≡ (returned (failure e), []) → Attempt chain key amount r
  refused :
      (n : ℤ) (a b : String) (e : String)
      → chain.bn amount ≡ returned n
      → r ≡ (returned (failure e), transaction (deposit_instruction chain key n a b) ∷ [])
      → Attempt chain key amount r
  taken :
      (n : ℤ) (a b : String) (signature : String)
      → chain.bn amount ≡ returned n
      → chain.rpc (deposit_instruction chain key n a b) ≡ returned signature
      → r ≡ (returned (confirmed signature), transaction (deposit_instruction chain key n a b) ∷ [])
      → Attempt chain key amount r

deposit_to_vault-Attempt :
    (chain : Chain) (key mint : String) (amount : Number)
    → Attempt chain key amount
        (deposit_to_vault chain (record { public_key = some key }) amount mint [])
unfolding deposit_to_vault
deposit_to_vault-Attempt chain key mint amount = elim (Outcome-cases chain.program) [
  | inr (e, p) ↦ unsent (e otherwise "Deposit failed") (simp p)
  | inl (_, p) ↦ elim (Outcome-cases (chain.bn amount)) [
    | inr (e, q) ↦ unsent (e otherwise "Deposit failed") (simp (p, q))
    | inl (n, q) ↦ elim (Outcome-cases (chain.token_account mint key)) [
      | inr (e, s) ↦ unsent (e otherwise "Deposit failed") (simp (p, q, s))
      | inl (a, s) ↦
          elim (Outcome-cases (chain.token_account (chain.pda ("cvault_mint" ∷ [])) key)) [
            | inr (e, t) ↦ unsent (e otherwise "Deposit failed") (simp (p, q, s, t))
            | inl (b, t) ↦ elim (Outcome-cases (chain.rpc (deposit_instruction chain key n a b))) [
              | inr (e, u) ↦ refused n a b (e otherwise "Deposit failed") q (simp (p, q, s, t, u))
              | inl (signature, u) ↦ taken n a b signature q u (simp (p, q, s, t, u))
            ]
          ]
    ]
  ]
]

module _ (fl : Floats) where
  -- An answer that does not block the wallet and does not give it a score above 70: analysed with a
  -- lower score or with none, or with any other status.
  abbrev pub HasNoObjection : RiskCheckResponse fl.Float → Type 0
  HasNoObjection (blocked r) = ⊥
  HasNoObjection (analyzed r) =
      (r.risk_score ≡ none)
      ⊎ ((x : fl.Float) × ((r.risk_score ≡ some x) × (fl.gt x (fl.of_nat 70) ≡ false)))
  HasNoObjection (unknown status) = Unit

  -- The relayer has answered on the wallet without an objection.
  abbrev pub IsCompliant : RiskApi fl.Float → String → Type 0
  IsCompliant api key =
      (r : RiskCheckResponse fl.Float) × ((api.fetched key ≡ is_ok (returned r)) × HasNoObjection r)

  by_answer :
      (api : RiskApi fl.Float) (key : String) (f : Fetched (RiskCheckResponse fl.Float))
      → api.fetched key ≡ f
      → (check_vault_compliance fl api key).compliant ≡ true
      → IsCompliant api key
  unfolding check_vault_compliance check_wallet_risk assessed
  by_answer api key (unreachable e) p h = ground (arith, p)
  by_answer api key (not_ok body) p h = ground (arith, p)
  by_answer api key (is_ok (raised e)) p h = ground (arith, p)
  by_answer api key (is_ok (returned (blocked r))) p h = ground (arith, p)
  by_answer api key (is_ok (returned (analyzed r))) p h = elim (Option-cases r.risk_score) [
    | inl missing ↦ (analyzed r, (p, inl missing))
    | inr (x, given) ↦ (analyzed r, (p, inr (x, (given, ground (arith, p, given)))))
  ]
  by_answer api key (is_ok (returned (unknown status))) p h = (unknown status, (p, tt))

  -- a wallet that passes the check was answered on.
  check_vault_compliance-IsCompliant :
      (api : RiskApi fl.Float) (key : String)
      → (check_vault_compliance fl api key).compliant ≡ true
      → IsCompliant api key
  check_vault_compliance-IsCompliant api key = by_answer api key (api.fetched key) refl

module _ (fl : Floats) (env : PanelEnv fl.Float) where
  -- The wallet is connected under this key and has passed the check.
  abbrev pub MayDeposit : Tab → String → Type 0
  MayDeposit tab key =
      (tab.connected ≡ true) × (tab.public_key ≡ some key) × IsCompliant fl env.api key

  -- The ends of `handleDeposit`, from a tab to the tab afterwards and what was sent.
  pub data DepositRun (tab : Tab) (end : Tab × List Call) : Type 0 where
    nothing_sent : end.1 ≡ [] → end.0.updates ≡ tab.updates → DepositRun tab end
    not_confirmed :
        (key a b : String) (n : ℤ)
        → MayDeposit tab key
        → env.chain.bn (raw_amount fl env tab.amount) ≡ returned n
        → end.1 ≡ transaction (deposit_instruction env.chain key n a b) ∷ []
        → end.0.updates ≡ tab.updates
        → DepositRun tab end
    confirmed_and_indexed :
        (key a b signature : String) (n : ℤ)
        → MayDeposit tab key
        → env.chain.bn (raw_amount fl env tab.amount) ≡ returned n
        → env.chain.rpc (deposit_instruction env.chain key n a b) ≡ returned signature
        → end.1
          ≡ transaction (deposit_instruction env.chain key n a b)
            ∷ index_deposit (index_request fl env tab key signature)
            ∷ []
        → end.0.updates ≡ tab.updates + 1
        → DepositRun tab end

  deposited-DepositRun :
      (tab : Tab) (key : String) (r : Outcome VaultOperationResponse × List Call)
      (end : Tab × List Call)
      → end
        ≡ deposited fl env key
            (record tab { compliance = pass; is_submitting = true; result = none })
            r
      → MayDeposit tab key
      → Attempt env.chain key (raw_amount fl env tab.amount) r
      → DepositRun tab end
  deposited-DepositRun tab key r end same may (unsent e h) =
      nothing_sent (ground (arith, same, h)) (ground (arith, same, h))
  deposited-DepositRun tab key r end same may (refused n a b e q h) =
      not_confirmed key a b n may q (ground (arith, same, h)) (ground (arith, same, h))
  deposited-DepositRun tab key r end same may (taken n a b signature q u h) =
      elim (Bool-cases (signature == "")) [
        | inl empty ↦
            not_confirmed key a b n may q (ground (arith, same, h, empty))
              (ground (arith, same, h, empty))
        | inr signed ↦
            confirmed_and_indexed key a b signature n may q u (ground (arith, same, h, signed))
              (ground (arith, same, h, signed))
      ]

  ready-key :
      (tab : Tab) (raw : Number) (key : String)
      → ready tab raw ≡ some key
      → (tab.connected ≡ true) × (tab.public_key ≡ some key)
  ready-key tab raw key h = ground arith

  -- whatever the relayer, the wallet and the chain answer, a click on "Deposit" either sends
  -- nothing, or one `deposit` of the amount in the field for the connected wallet, after the relayer
  -- has answered on that wallet with neither a block nor a score above 70, which an answer with no
  -- score or an unknown status is too; it is indexed, and the page
  -- told to reload, only under a signature with which the transaction was confirmed.
  pub handle_deposit-DepositRun : (tab : Tab) → DepositRun tab (handle_deposit fl env tab [])
  unfolding handle_deposit
  handle_deposit-DepositRun tab = elim (Option-cases (ready tab (raw_amount fl env tab.amount))) [
    | inl idle ↦ nothing_sent (ground (arith, idle)) (ground (arith, idle))
    | inr (key, set) ↦ elim (Bool-cases (check_vault_compliance fl env.api key).compliant) [
      | inr failed ↦ nothing_sent (ground (arith, set, failed)) (ground (arith, set, failed))
      | inl passed ↦ elim (Bool-cases env.has_phantom) [
        | inr p ↦ nothing_sent (ground (arith, set, passed, p)) (ground (arith, set, passed, p))
        | inl p ↦ elim (Bool-cases (env.is_public_key key)) [
          | inr q ↦
              nothing_sent (ground (arith, set, passed, p, q)) (ground (arith, set, passed, p, q))
          | inl q ↦
              let (connected, known) = ready-key tab (raw_amount fl env tab.amount) key set in
              deposited-DepositRun tab key _ _ (ground (arith, set, passed, p, q))
                (connected, known, check_vault_compliance-IsCompliant fl env.api key passed)
                (deposit_to_vault-Attempt env.chain key env.usdc_mint
                  (raw_amount fl env tab.amount))
        ]
      ]
    ]
  ]
