-- ===== src/Client/Panel.antt =====
-- oragami-frontend/features/vault/VaultPanel.tsx: the handlers of the three tabs. A handler that
-- throws leaves the tab as it is by then.
use oragami.Prelude.{
  ℕ, ◌+◌, String, Bool, true, false, not, Option, none, some, List, [], ◌∷◌, ◌++◌, if◌then◌else◌,
  ◌otherwise◌,
}
use oragami.Prelude.Int.{pos, ltb_ℤ}
use oragami.Js.Number.{Number, nan, neg_inf, pos_inf, int}
use oragami.Js.Floats.{Floats}
use oragami.Six.Service.{truthy}
use oragami.Client.Tasks.{Outcome, returned, raised}
use oragami.Client.Risk.{RiskApi, check_vault_compliance}
use oragami.Client.Vault.{
  Chain, Call, IndexRequest, VaultOperationResponse, index_deposit, deposit_to_vault,
  redeem_from_vault, failure,
}
use oragami.Client.Market.{convert_to_tradeable, calc_cvault_from_usdc}

pub data Check : Type 0 where
  idle checking pass fail : Check

-- What the wallet store and the hooks of a tab hold, with the number of calls of `onSuccess`.
pub record Tab : Type 0 where
  pub connected : Bool
  pub public_key : Option String
  pub amount : String
  pub compliance : Check
  pub is_submitting : Bool
  pub result : Option VaultOperationResponse
  -- `preflight.estimatedCvault`, where there is one
  pub estimated_cvault : Option String
  pub updates : ℕ

pub record PanelEnv (F : Type 0) : Type 0 where
  pub api : RiskApi F
  pub chain : Chain
  -- `window.solana`, and whether `new PublicKey(…)` takes a text
  pub has_phantom : Bool
  pub is_public_key : String → Bool
  pub usdc_mint : String
  pub nav_price_bps : F
  -- `parseFloat`, with `none` for NaN; `parseInt(…, 10)`; `toString`; an integer as a number
  pub parse_float : String → Option F
  pub parse_int : String → Number
  pub show : Number → String
  pub float_of : Number → F
  pub uuid : String

-- `x > 0`
abbrev pub is_positive : Number → Bool
is_positive nan = false
is_positive neg_inf = false
is_positive pos_inf = true
is_positive (int z) = ltb_ℤ (pos 0) z

-- `x <= 0`
abbrev pub is_not_positive : Number → Bool
is_not_positive nan = false
is_not_positive neg_inf = true
is_not_positive pos_inf = false
is_not_positive (int z) = not (ltb_ℤ (pos 0) z)

-- The key of a connected wallet, where the amount is not 0 or less.
abbrev pub ready : Tab → Number → Option String
ready tab raw =
    if tab.connected then (if is_not_positive raw then none else truthy tab.public_key) else none

abbrev pub cleared : Tab → Tab
cleared tab = record tab { amount = ""; compliance = idle; updates = tab.updates + 1 }

module _ (fl : Floats) (env : PanelEnv fl.Float) where
  open fl use {Float, of_nat, mul, math_floor}
  open env use {api, chain, has_phantom, is_public_key, usdc_mint}

  -- `Math.floor((parseFloat(amount) || 0) * 1_000_000)`
  unfoldable pub raw_amount : String → Number
  raw_amount text = math_floor (mul (env.parse_float text otherwise of_nat 0) (of_nat 1000000))

  -- The estimate of the preflight, or else that of the client.
  unfoldable pub cvault_out : String → Option String → Number
  unfolding calc_cvault_from_usdc
  cvault_out amount estimated_cvault = elim (truthy estimated_cvault) [
    | some text ↦ env.parse_int text
    | none ↦
        if is_positive (raw_amount amount)
        then calc_cvault_from_usdc fl (env.float_of (raw_amount amount)) env.nav_price_bps
        else int (pos 0)
  ]

  abbrev pub index_request : Tab → String → String → IndexRequest
  index_request tab key signature = record {
    tx_signature = signature;
    wallet = key;
    usdc_amount = env.show (raw_amount tab.amount);
    cvault_amount = env.show (cvault_out tab.amount tab.estimated_cvault);
    nonce = env.uuid;
  }

  -- The check of the handlers of deposits and redemptions, and the wallet that they need.
  abbrev gated : (String → Tab → List Call → Tab × List Call) → Tab → List Call → Tab × List Call
  gated k tab log = elim (ready tab (raw_amount tab.amount)) [
    | none ↦ (tab, log)
    | some key ↦
        if not (check_vault_compliance fl api key).compliant
        then (record tab { compliance = fail; is_submitting = false; result = none }, log)
        else if not has_phantom
        then (
          record tab {
            compliance = pass;
            is_submitting = false;
            result = some (failure "Phantom not found");
          },
          log,
        )
        else if not (is_public_key key)
        then (record tab { compliance = pass; is_submitting = true; result = none }, log)
        else k key (record tab { compliance = pass; is_submitting = true; result = none }) log
  ]

  abbrev pub stopped : Tab → Tab
  stopped tab = record tab { is_submitting = false }

  -- The end of `handleDeposit`: a failure of the indexing is passed over.
  abbrev pub deposited : String → Tab → Outcome VaultOperationResponse × List Call → Tab × List Call
  deposited key tab (raised e, log) = (tab, log)
  deposited key tab (returned res, log) =
      elim (if res.success then truthy res.signature else none) [
        | none ↦ (
          stopped (record tab {
            result = some (record { success = false; signature = none; error = res.error });
          }),
          log,
        )
        | some signature ↦ (
          stopped (
              cleared (record tab {
                result = some (record { success = true; signature = some signature; error = none });
                estimated_cvault = none;
              })),
          log ++ (index_deposit (index_request tab key signature) ∷ []),
        )
      ]

  unfoldable pub handle_deposit : Tab → List Call → Tab × List Call
  unfolding raw_amount cvault_out check_vault_compliance deposit_to_vault
  handle_deposit = gated λ key tab log. deposited key tab (
      deposit_to_vault chain (record { public_key = some key }) (raw_amount tab.amount) usdc_mint
        log)

  -- The end of the other handlers.
  abbrev finished : Tab → Outcome VaultOperationResponse × List Call → Tab × List Call
  finished tab (raised e, log) = (tab, log)
  finished tab (returned res, log) =
      if res.success
      then (
        stopped (
            cleared (record tab {
              result = some (record { success = true; signature = res.signature; error = none });
            })),
        log,
      )
      else (
        stopped (record tab {
          result = some (record { success = false; signature = none; error = res.error });
        }),
        log,
      )

  unfoldable pub handle_redeem : Tab → List Call → Tab × List Call
  unfolding raw_amount check_vault_compliance redeem_from_vault
  handle_redeem = gated λ key tab log. finished tab (
      redeem_from_vault chain (record { public_key = some key }) (raw_amount tab.amount) usdc_mint
        log)

  -- No check of the wallet here.
  unfoldable pub handle_convert : Tab → List Call → Tab × List Call
  unfolding raw_amount convert_to_tradeable
  handle_convert tab log = elim (ready tab (raw_amount tab.amount)) [
    | none ↦ (tab, log)
    | some key ↦
        let tab' = record tab { is_submitting = true; result = none } in
        if not has_phantom
        then (
          record tab { is_submitting = false; result = some (failure "Phantom not found") },
          log,
        )
        else if not (is_public_key key)
        then (tab', log)
        else finished tab' (
            convert_to_tradeable chain (record { public_key = some key }) (raw_amount tab.amount)
              log)
  ]
