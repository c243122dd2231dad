-- ===== src/Client/Modal.antt =====
-- oragami-frontend/app/app/vaults/page.tsx: the dialog that deposits into the vault of an asset. A
-- handler runs from its click to its end; a call answers what the arguments say.
use oragami.Prelude.{
  String, Bool, true, false, not, Option, none, some, List, [], ◌∷◌, ◌++◌, if◌then◌else◌,
  ◌otherwise◌, ◌==◌, string_eq,
}
use oragami.Prelude.Int.{ℤ}
use oragami.Js.Number.{Number}
use oragami.Js.Floats.{Floats}
use oragami.Six.Service.{truthy}
use oragami.Client.Tasks.{Outcome, returned, raised, Task, ◌>>=◌, ◌>>◌, await, record_call}
use oragami.Client.Vault.{number, Instruction}

pub record ModalPreflight : Type 0 where
  pub estimated_shares : String
  pub can_deposit : Bool
  pub reason : Option String
  pub credential_status : String

pub record Modal : Type 0 where
  pub public_key : Option String
  pub amount : String
  pub preflight : Option ModalPreflight
  pub checking : Bool
  pub submitting : Bool
  pub issuing_cred : Bool
  pub cred_issued : Bool
  pub fauceting : Bool
  pub tx_sig : Option String
  pub error : Option String

-- What leaves the dialog: requests to the backend, the transaction that creates the account for
-- shares, the deposit, and `onSuccess`.
pub data ModalCall : Type 0 where
  asks_preflight : (mint wallet raw : String) → ModalCall
  asks_faucet : (mint wallet : String) → ModalCall
  -- with the fixed particulars of a demo institution
  asks_credential : (wallet admin_key : String) → ModalCall
  creates_account : (payer account owner mint : String) → ModalCall
  transaction : Instruction → ModalCall
  succeeded : ModalCall

-- What `fetch` answers: `not_ok` carries the message of the body, if it has one, and `HTTP` with the
-- status.
pub data Posted : Type 0 where
  unreachable : Option String → Posted
  is_ok : Posted
  not_ok : Option String → String → Posted

pub record ModalEnv (F : Type 0) : Type 0 where
  pub asset_mint : String
  pub admin_key : Option String
  -- `window.solana`, and `getProgram` of it
  pub has_phantom : Bool
  pub program : Outcome (Unit {0})
  -- `new PublicKey(…)`, the derived addresses, and `getAssociatedTokenAddressSync`
  pub parse_key : String → Outcome (Unit {0})
  pub pda : List String → String
  pub token_account : String → String → Outcome String
  pub token_program : String
  -- `getLatestBlockhash`, `signTransaction`, `sendRawTransaction`, `new BN(…)` and `rpc`
  pub blockhash : Outcome (Unit {0})
  pub signed : Outcome (Unit {0})
  pub sent : Outcome String
  pub bn : String → Outcome ℤ
  pub rpc : Instruction → Outcome String
  -- `parseFloat`, with `none` for NaN, and `toString`
  pub parse_float : String → Option F
  pub show : Number → String

module _ (fl : Floats) (env : ModalEnv fl.Float) where
  open fl use {of_nat, mul, math_floor, gt_zero}
  open env use {asset_mint, pda, parse_key, token_account}

  abbrev pub raw_amount : String → String
  raw_amount text =
      env.show (math_floor (mul (env.parse_float text otherwise of_nat 0) (of_nat 1000000)))

  -- `parseFloat(amount) <= 0`
  abbrev is_nothing : Option fl.Float → Bool
  is_nothing none = false
  is_nothing (some x) = not (gt_zero x)

  -- The wallet, where there is one and an amount.
  abbrev asking : Modal → Option String
  asking m =
      if m.amount == ""
      then none
      else if is_nothing (env.parse_float m.amount)
      then none
      else truthy m.public_key

  abbrev found : Outcome ModalPreflight → Option ModalPreflight
  found (returned res) = some res
  found (raised e) = none

  unfoldable pub run_preflight :
      Outcome ModalPreflight → Modal → List ModalCall → Modal × List ModalCall
  run_preflight answer m log = elim (asking m) [
    | none ↦ (record m { preflight = none }, log)
    | some key ↦ (
      record m { preflight = found answer; checking = false },
      log ++ (asks_preflight asset_mint key (raw_amount m.amount) ∷ []),
    )
  ]

  abbrev failed : String → Option String → Modal → Modal
  failed text e m = record m { error = some (truthy e otherwise text) }

  abbrev issued : Posted → Outcome ModalPreflight → Modal → List ModalCall → Modal × List ModalCall
  issued (unreachable e) answer m log = (failed "Failed to issue credential" e m, log)
  issued (not_ok message status) answer m log =
      (record m { error = some (truthy message otherwise status) }, log)
  issued is_ok answer m log = run_preflight answer (record m { cred_issued = true }) log

  abbrev stop_issuing : Modal × List ModalCall → Modal × List ModalCall
  stop_issuing (m, log) = (record m { issuing_cred = false }, log)

  unfoldable pub handle_issue_credential :
      Posted → Outcome ModalPreflight → Modal → List ModalCall → Modal × List ModalCall
  unfolding run_preflight
  handle_issue_credential posted answer m log = elim (truthy m.public_key) [
    | none ↦ (m, log)
    | some key ↦ elim (truthy env.admin_key) [
      | none ↦ (record m { error = some "NEXT_PUBLIC_ADMIN_API_KEY not set" }, log)
      | some admin_key ↦ stop_issuing (
          issued posted answer (record m { issuing_cred = true; error = none })
            (log ++ (asks_credential key admin_key ∷ [])))
    ]
  ]

  abbrev stop_fauceting : Modal × List ModalCall → Modal × List ModalCall
  stop_fauceting (m, log) = (record m { fauceting = false }, log)

  abbrev filled :
      Outcome (Unit {0}) → Outcome ModalPreflight → Modal → List ModalCall → Modal × List ModalCall
  filled (raised e) answer m log = (failed "Faucet failed" e m, log)
  filled (returned _) answer m log = run_preflight answer m log

  unfoldable pub handle_faucet :
      Outcome (Unit {0}) → Outcome ModalPreflight → Modal → List ModalCall → Modal × List ModalCall
  unfolding run_preflight
  handle_faucet reply answer m log = elim (truthy m.public_key) [
    | none ↦ (m, log)
    | some key ↦ stop_fauceting (
        filled reply answer (record m { fauceting = true; error = none })
          (log ++ (asks_faucet asset_mint key ∷ [])))
  ]

  abbrev pub share_mint : String
  share_mint = pda ("share_mint" ∷ asset_mint ∷ [])

  abbrev pub deposit_instruction : String → ℤ → String → String → Instruction
  deposit_instruction key n depositor_asset depositor_share = record {
    method = "deposit";
    params = ("amount", number n) ∷ [];
    accounts =
        ("assetVault", pda ("vault" ∷ asset_mint ∷ []))
        ∷ ("shareMint", share_mint)
        ∷ ("vaultTokenAccount", pda ("vault_token" ∷ asset_mint ∷ []))
        ∷ ("depositorAssetAccount", depositor_asset)
        ∷ ("depositorShareAccount", depositor_share)
        ∷ ("credential", pda ("credential" ∷ key ∷ []))
        ∷ ("depositor", key)
        ∷ ("tokenProgram", env.token_program)
        ∷ [];
  }

  -- The two transactions of a deposit, under their `try`.
  unfoldable pub submitted : String → String → Task ModalCall String
  submitted key raw = do
    await env.program
    await (parse_key key)
    await (parse_key asset_mint)
    depositor_asset ← await (token_account asset_mint key)
    depositor_share ← await (token_account share_mint key)
    await env.blockhash
    await env.signed
    record_call (creates_account key depositor_share key share_mint) env.sent
    n ← await (env.bn raw)
    let i = deposit_instruction key n depositor_asset depositor_share
    record_call (transaction i) (env.rpc i)

  -- A wallet with a go-ahead.
  abbrev pub allowed : Option ModalPreflight → Option String → Option String
  allowed none key = none
  allowed (some p) key = if p.can_deposit then truthy key else none

  abbrev pub deposited : Modal → Outcome String × List ModalCall → Modal × List ModalCall
  deposited m (returned tx, log) =
      (record m { tx_sig = some tx; submitting = false }, log ++ (succeeded ∷ []))
  deposited m (raised e, log) =
      (record m { error = some (truthy e otherwise "Deposit failed"); submitting = false }, log)

  unfoldable pub handle_deposit : Modal → List ModalCall → Modal × List ModalCall
  unfolding submitted
  handle_deposit m log = elim (allowed m.preflight m.public_key) [
    | none ↦ (m, log)
    | some key ↦
        if not env.has_phantom
        then (record m { error = some "Phantom not found" }, log)
        else deposited (record m { submitting = true; error = none })
            (submitted key (raw_amount m.amount) log)
  ]
