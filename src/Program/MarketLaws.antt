-- ===== src/Program/MarketLaws.antt =====
-- A deposit and the redemption of its tokens at the same NAV.
use native.Mathlib.Nat.{div-mul-le_self, lt-div-mul-add}
use oragami.Prelude.{
  ℕ, ◌+◌, ◌-◌, ◌*◌, ◌/◌, ◌≤◌, ◌<◌, ◌≡◌, ◌⊎◌, refl, ap, ◌∙◌, inl, inr, String, false, Option, none,
  some, arith, Option-cases,
}
use oragami.Program.Credential.{ComplianceCredential}
use oragami.Program.Vault.{TravelRuleData, deposit, minted}
use oragami.Program.VaultLaws.{minted_lem, deposit_totals, deposit_minted, deposit_open}
use oragami.Program.Market.{Market, TokenProgram, usdc_for, take_deposit, redeem}

-- The tokens of an amount are worth no more than it, and less than a token and a unit below it.
worth :
    (amount nav cvault : ℕ)
    → minted amount nav ≡ some cvault
    → (cvault * nav ≤ amount * 10000)
      × (amount * 10000 < cvault * nav + nav)
      × (amount * 10000 < 18446744073709551616)
unfolding minted
worth amount nav cvault h =
    let (positive, e, _) = minted_lem amount nav cvault h in
    let low : cvault * nav ≤ amount * 10000 = rw e (div-mul-le_self (amount * 10000) nav) in
    let high : amount * 10000 < cvault * nav + nav = rw e (lt-div-mul-add (ground arith)) in
    ground (arith, low, high)

module _ (tokens : TokenProgram) where
  open tokens use {burn, transfer_out, burn_lem, out_lem, in_lem, mint_lem}

  -- The vault has taken in the amount and minted the tokens, and is open.
  take_deposit_parts :
      (now amount : ℕ) (payer : String) (c : ComplianceCredential)
      (rule rule' : Option TravelRuleData) (m m' : Market)
      → take_deposit tokens now payer c rule amount m ≡ some (m', rule')
      → (cvault : ℕ) × ((minted amount m.vault.nav_price_bps ≡ some cvault)
          × (m'.vault_tokens ≡ m.vault_tokens + amount)
          × (m'.cvault_supply ≡ m.cvault_supply + cvault)
          × (m'.vault.total_supply ≡ m.vault.total_supply + cvault)
          × (m'.vault.nav_price_bps ≡ m.vault.nav_price_bps)
          × (m'.vault.paused ≡ false))
  unfolding take_deposit
  take_deposit_parts now amount payer c rule rule' m m' taken =
      elim (Option-cases (deposit now payer c rule amount m.vault)) [
        | inl e ↦ absurd (ground (arith, e))
        | inr ((vs, r, cvault), e) ↦
            let totals = deposit_totals now amount payer c rule r m.vault vs cvault e in
            let coins = deposit_minted now amount payer c rule r m.vault vs cvault e in
            let open_ = deposit_open now amount payer c rule r m.vault vs cvault e in
            (
              cvault,
              ground (arith, e, in_lem m.vault_tokens amount, mint_lem m.cvault_supply cvault),
            )
      ]

  -- A redemption of tokens that are counted, and whose worth is there, is paid or is refused by the
  -- token program.
  redeem_covered :
      (balance cvault : ℕ) (m : Market)
      → m.vault.paused ≡ false
      → cvault * m.vault.nav_price_bps < 18446744073709551616
      → (cvault * m.vault.nav_price_bps) / 10000 ≤ m.vault_tokens
      → cvault ≤ m.vault.total_supply
      → ((burn balance m.cvault_supply cvault ≡ none)
          ⊎ (transfer_out m.vault_tokens ((cvault * m.vault.nav_price_bps) / 10000) ≡ none))
        ⊎ ((u : Market) × ((redeem tokens balance cvault m ≡ some u)
              × (u.vault_tokens ≡ m.vault_tokens - (cvault * m.vault.nav_price_bps) / 10000)
              × (u.cvault_supply ≡ m.cvault_supply - cvault)
              × (u.vault.total_supply ≡ m.vault.total_supply - cvault)))
  unfolding redeem usdc_for
  redeem_covered balance cvault m open_ small covered counted =
      let usdc = (cvault * m.vault.nav_price_bps) / 10000 in
      elim (burn_lem balance m.cvault_supply cvault) [
        | inl b ↦ inl (inl b)
        | inr (b, owned) ↦ elim (out_lem m.vault_tokens usdc) [
          | inl o ↦ inl (inr o)
          | inr (o, enough) ↦ inr (
            record {
              vault = record m.vault {
                total_deposits = m.vault.total_deposits - usdc;
                total_supply = m.vault.total_supply - cvault;
              };
              pending_yield = m.pending_yield;
              last_yield_claim = m.last_yield_claim;
              usx_allocation_bps = m.usx_allocation_bps;
              apy_bps = m.apy_bps;
              secondary_market_enabled = m.secondary_market_enabled;
              vault_tokens = m.vault_tokens - usdc;
              cvault_supply = m.cvault_supply - cvault;
              trade_supply = m.trade_supply;
            },
            (ground (arith, b, o), refl, refl, refl),
          )
        ]
      ]

  -- the tokens that a deposit mints can be redeemed at once, unless the token program refuses to burn
  -- them or to pay: for no more USDC than were deposited, and for less than one token's price and one
  -- unit less; the supply of the tokens and their count are then as before the deposit, and the
  -- vault's account holds what it held, the deposit and less what was paid.
  pub redeem-take_deposit :
      (now amount balance : ℕ) (payer : String) (c : ComplianceCredential)
      (rule rule' : Option TravelRuleData) (m m' : Market)
      → take_deposit tokens now payer c rule amount m ≡ some (m', rule')
      → (cvault : ℕ) × (usdc : ℕ) × ((m'.cvault_supply ≡ m.cvault_supply + cvault)
          × (usdc ≤ amount)
          × (amount * 10000 < usdc * 10000 + 10000 + m.vault.nav_price_bps)
          × (((burn balance m'.cvault_supply cvault ≡ none)
                ⊎ (transfer_out m'.vault_tokens usdc ≡ none))
              ⊎ ((u : Market) × ((redeem tokens balance cvault m' ≡ some u)
                    × (u.vault_tokens ≡ (m.vault_tokens + amount) - usdc)
                    × (u.cvault_supply ≡ m.cvault_supply)
                    × (u.vault.total_supply ≡ m.vault.total_supply)))))
  redeem-take_deposit now amount balance payer c rule rule' m m' taken =
      let (cvault, (coins, held, supply, total, nav, open_)) =
        take_deposit_parts now amount payer c rule rule' m m' taken in
      let (low, high, small) = worth amount m.vault.nav_price_bps cvault coins in
      let usdc = (cvault * m'.vault.nav_price_bps) / 10000 in
      let low' : cvault * m'.vault.nav_price_bps ≤ amount * 10000 = rw nav low in
      let high' : amount * 10000 < cvault * m'.vault.nav_price_bps + m.vault.nav_price_bps =
        rw nav high in
      (
        cvault,
        usdc,
        (
          supply,
          omega (arith, low'),
          omega (arith, high'),
          elim (redeem_covered balance cvault m' open_ (omega (arith, low', small))
              (omega (arith, low', held)) (omega (arith, total))) [
                | inl fails_ ↦ inl fails_
                | inr (u, (paid, rest, less, fewer)) ↦ inr (
                  u,
                  (
                    paid,
                    rest ∙ ap (λ t. t - usdc) held,
                    omega (arith, less, supply),
                    omega (arith, fewer, total),
                  ),
                )
              ],
        ),
      )
