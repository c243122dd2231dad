-- ===== src/AssetVault/FundsLaws.antt =====
-- What deposits and redemptions of an asset vault do to its tokens, its shares and its totals.
use native.Mathlib.Nat.{div-mul-le_self, lt-div-mul-add}
use oragami.Prelude.{ℕ, ◌+◌, ◌-◌, ◌*◌, ◌/◌, ◌≤◌, ◌<◌, ◌≡◌, ap, ◌⊎◌, inl, inr, String, Option, arith}
use oragami.Program.Vault.{TravelRuleData}
use oragami.Program.Market.{TokenProgram}
use oragami.AssetVault.Attempt.{done, fails, Attempt-cases, token_refused, VaultError}
use oragami.AssetVault.State.{AssetVault, AssetMarket, CredentialInfo}
use oragami.AssetVault.Gate.{check_travel_rule}
use oragami.AssetVault.Funds.{shares_for, assets_for, add_totals, admitted, settle, deposit, redeem}

-- The shares of an amount are worth no more than it, and less than a share's price below it.
pub shares_for_lem :
    (amount nav shares : ℕ)
    → shares_for amount nav ≡ done shares
    → (shares ≡ (amount * 10000) / nav)
      × (0 < shares)
      × (0 < nav)
      × (shares * nav ≤ amount * 10000)
      × (amount * 10000 < shares * nav + nav)
      × (amount * 10000 < 18446744073709551616)
unfolding shares_for
shares_for_lem amount nav shares h =
    let positive : 0 < nav = ground arith in
    let e : shares ≡ (amount * 10000) / nav = ground arith in
    let low : shares * nav ≤ amount * 10000 = rw e (div-mul-le_self (amount * 10000) nav) in
    let high : amount * 10000 < shares * nav + nav = rw e (lt-div-mul-add positive) in
    (e, ground arith, positive, low, high, ground arith)

-- Only the totals of the vault change.
abbrev pub Grows : ℕ → ℕ → AssetVault → AssetVault → Type 0
Grows amount shares v v' =
    (v'.total_deposits ≡ v.total_deposits + amount)
    × (v'.total_supply ≡ v.total_supply + shares)
    × (v'.nav_price_bps ≡ v.nav_price_bps)
    × (v'.paused ≡ v.paused)

add_totals-Grows :
    (amount shares : ℕ) (v v' : AssetVault)
    → add_totals amount shares v ≡ done v'
    → Grows amount shares v v'
unfolding add_totals
add_totals-Grows amount shares v v' h = ground arith

module _ (tokens : TokenProgram) where
  open tokens use {in_lem, mint_lem, out_lem, burn_lem}

  pub settle_lem :
      (amount : ℕ) (m m' : AssetMarket) (shares : ℕ)
      → settle tokens amount m ≡ done (m', shares)
      → (shares_for amount m.vault.nav_price_bps ≡ done shares)
        × (m'.vault_tokens ≡ m.vault_tokens + amount)
        × (m'.share_supply ≡ m.share_supply + shares)
        × Grows amount shares m.vault m'.vault
  unfolding settle
  settle_lem amount m m' shares h = elim (Attempt-cases (shares_for amount m.vault.nav_price_bps)) [
    | inr (e, p) ↦ absurd (ground (arith, p))
    | inl (k, p) ↦ elim (Attempt-cases (add_totals amount k m.vault)) [
      | inr (e, q) ↦
          absurd (ground (arith, p, q, in_lem m.vault_tokens amount, mint_lem m.share_supply k))
      | inl (v, q) ↦
          let totals = add_totals-Grows amount k m.vault v q in
          ground (arith, p, q, totals, in_lem m.vault_tokens amount, mint_lem m.share_supply k)
    ]
  ]

  module _ (derive : String → String → String) (now : ℕ) (depositor : String)
      (info : CredentialInfo) (rule rule' : Option TravelRuleData) (amount : ℕ) (m m' : AssetMarket)
      (shares : ℕ) where
    -- The parts of a deposit that is taken.
    pub deposit_parts :
        deposit tokens derive now depositor info rule amount m ≡ done (m', rule', shares)
        → (admitted derive now depositor info amount m.vault ≡ done tt)
          × (check_travel_rule m.vault depositor amount rule ≡ done rule')
          × (settle tokens amount m ≡ done (m', shares))
    unfolding deposit
    deposit_parts h = elim (Attempt-cases (admitted derive now depositor info amount m.vault)) [
      | inr (e, p) ↦ absurd (ground (arith, p))
      | inl (_, p) ↦ elim (Attempt-cases (check_travel_rule m.vault depositor amount rule)) [
        | inr (e, q) ↦ absurd (ground (arith, p, q))
        | inl (r, q) ↦ elim (Attempt-cases (settle tokens amount m)) [
          | inr (e, s) ↦ absurd (ground (arith, p, q, s))
          | inl ((u, k), s) ↦ ground (arith, p, q, s)
        ]
      ]
    ]

  -- What a redemption that is paid takes away.
  abbrev pub Pays : ℕ → ℕ → AssetMarket → AssetMarket → Type 0
  Pays shares assets m u =
      (assets ≡ (shares * m.vault.nav_price_bps) / 10000)
      × (assets ≤ m.vault_tokens)
      × (shares ≤ m.share_supply)
      × (u.vault_tokens ≡ m.vault_tokens - assets)
      × (u.share_supply ≡ m.share_supply - shares)
      × (shares ≤ m.vault.total_supply)
      × (u.vault.total_supply ≡ m.vault.total_supply - shares)
      × (u.vault.total_deposits ≡ m.vault.total_deposits - assets)
      × (u.vault.nav_price_bps ≡ m.vault.nav_price_bps)

  pub redeem-Pays :
      (balance shares : ℕ) (m u : AssetMarket) (assets : ℕ)
      → redeem tokens balance shares m ≡ done (u, assets)
      → Pays shares assets m u
  unfolding redeem assets_for
  redeem-Pays balance shares m u assets h = ground (
    arith,
    burn_lem balance m.share_supply shares,
    out_lem m.vault_tokens ((shares * m.vault.nav_price_bps) / 10000),
  )

  -- Where the assets of the shares are there, neither they nor the totals are the reason of a
  -- refusal.
  pub redeem_covered :
      (balance shares : ℕ) (m : AssetMarket) (e : VaultError)
      → 0 < shares
      → shares ≤ m.vault.total_supply
      → shares * m.vault.nav_price_bps < 18446744073709551616
      → (shares * m.vault.nav_price_bps) / 10000 ≤ m.vault_tokens
      → redeem tokens balance shares m ≡ fails e
      → e ≡ token_refused
  unfolding redeem assets_for
  redeem_covered balance shares m e some_ counted small covered h = ground (
    arith,
    burn_lem balance m.share_supply shares,
    out_lem m.vault_tokens ((shares * m.vault.nav_price_bps) / 10000),
  )

  -- after a deposit that is taken, the shares that it minted can be redeemed at the NAV that it
  -- leaves, unless the token program refuses: for no more than was deposited, and for less than one
  -- share's price and one unit less; and then the shares and their count are as before the deposit.
  pub redeem-deposit :
      (derive : String → String → String) (now : ℕ) (depositor : String) (info : CredentialInfo)
      (rule rule' : Option TravelRuleData) (amount balance : ℕ) (m m' : AssetMarket) (shares : ℕ)
      → deposit tokens derive now depositor info rule amount m ≡ done (m', rule', shares)
      → (redeem tokens balance shares m' ≡ fails token_refused)
        ⊎ ((u : AssetMarket) × (assets : ℕ) × ((redeem tokens balance shares m' ≡ done (u, assets))
              × (assets ≤ amount)
              × (amount * 10000 < assets * 10000 + 10000 + m.vault.nav_price_bps)
              × (u.share_supply ≡ m.share_supply)
              × (u.vault.total_supply ≡ m.vault.total_supply)))
  redeem-deposit derive now depositor info rule rule' amount balance m m' shares taken =
      let parts = deposit_parts derive now depositor info rule rule' amount m m' shares taken in
      let (k, held, supply, totals) = settle_lem amount m m' shares parts.2 in
      let worth = shares_for_lem amount m.vault.nav_price_bps shares k in
      let nav : m'.vault.nav_price_bps ≡ m.vault.nav_price_bps = totals.2 in
      elim (Attempt-cases (redeem tokens balance shares m')) [
        | inr (e, p) ↦ inl (
            rw p (
              ap fails (
                redeem_covered balance shares m' e worth.1 (omega (arith, totals.1))
                  (rw nav (omega (arith, worth.3, worth.5))) (rw nav (omega (arith, worth.3, held)))
                  p)))
        | inl ((u, assets), p) ↦
            let (e, enough, owned, rest, less, counted, total, deposits, same) =
              redeem-Pays balance shares m' u assets p in
            let e' : assets ≡ (shares * m.vault.nav_price_bps) / 10000 = rw (← nav) e in
            inr (
              u,
              assets,
              (
                p,
                omega (arith, e', worth.3),
                omega (arith, e', worth.4),
                omega (arith, less, supply),
                omega (arith, total, totals.1),
              ),
            )
      ]
