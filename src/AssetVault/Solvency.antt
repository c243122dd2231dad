-- ===== src/AssetVault/Solvency.antt =====
-- Whether an asset vault can pay: its transactions, and what others may do to its accounts, as steps
-- over which the NAV is not raised.
use native.Mathlib.Nat.{le_trans, mul-le-mul_left}
use oragami.Prelude.{ℕ, ◌+◌, ◌-◌, ◌*◌, ◌/◌, ◌≤◌, ◌<◌, ◌≡◌, String, Bool, Option, arith}
use oragami.Program.Vault.{TravelRuleData}
use oragami.Program.Market.{TokenProgram}
use oragami.AssetVault.Attempt.{VaultError, done, fails, token_refused}
use oragami.AssetVault.State.{AssetVault, AssetMarket, CredentialInfo}
use oragami.AssetVault.Factory.{RegisterParams, new_market, price}
use oragami.AssetVault.Funds.{deposit, redeem}
use oragami.AssetVault.FundsLaws.{
  shares_for_lem, settle_lem, deposit_parts, redeem-Pays, redeem_covered,
}

-- The shares that exist are worth no more than the vault holds, which is at least what was booked as
-- deposits, and are counted.
pub record IsSolvent (m : AssetMarket) : Type 0 where
  pub covered : m.share_supply * m.vault.nav_price_bps ≤ m.vault_tokens * 10000
  pub booked : m.vault.total_deposits ≤ m.vault_tokens
  pub counted : m.share_supply ≤ m.vault.total_supply

module _ (tokens : TokenProgram) where
  -- The last two are not of the program: anyone may send tokens of the asset to the vault, and a
  -- holder may burn shares without it.
  pub data Step (m u : AssetMarket) : Type 0 where
    deposited :
        (derive : String → String → String) (now : ℕ) (depositor : String) (info : CredentialInfo)
        (rule rule' : Option TravelRuleData) (amount shares : ℕ)
        → deposit tokens derive now depositor info rule amount m ≡ done (u, rule', shares)
        → Step m u
    redeemed :
        (balance shares assets : ℕ) → redeem tokens balance shares m ≡ done (u, assets) → Step m u
    lowered :
        (nav : ℕ) (v : AssetVault)
        → price nav m.vault ≡ done v
        → nav ≤ m.vault.nav_price_bps
        → u ≡ record m { vault = v }
        → Step m u
    paused : (on : Bool) → u ≡ record m { vault = record m.vault { paused = on } } → Step m u
    donated : (n : ℕ) → u ≡ record m { vault_tokens = m.vault_tokens + n } → Step m u
    burned : (n : ℕ) → u ≡ record m { share_supply = m.share_supply - n } → Step m u

  pub data Reach (m : AssetMarket) : AssetMarket → Type 0 where
    here : Reach m m
    after : {t u : AssetMarket} → Reach m t → Step t u → Reach m u

  -- More shares at the same NAV, for at least their worth.
  grown :
      (s k nav t a : ℕ)
      → s * nav ≤ t * 10000
      → k * nav ≤ a * 10000
      → (s + k) * nav ≤ (t + a) * 10000
  grown s k nav t a h g = grind arith

  -- Fewer shares at the same NAV, for no more than their worth.
  shrunk :
      (s k nav t : ℕ)
      → s * nav ≤ t * 10000
      → k ≤ s
      → (s - k) * nav ≤ (t - (k * nav) / 10000) * 10000
  shrunk s k nav t h le = grind arith

  cheaper : (s nav low b : ℕ) → low ≤ nav → s * nav ≤ b → s * low ≤ b
  cheaper s nav low b le h = le_trans (mul-le-mul_left s le) h

  fewer : (s n nav b : ℕ) → s * nav ≤ b → (s - n) * nav ≤ b
  fewer s n nav b h = grind arith

  deposit-IsSolvent :
      (derive : String → String → String) (now : ℕ) (depositor : String) (info : CredentialInfo)
      (rule rule' : Option TravelRuleData) (amount shares : ℕ) (m u : AssetMarket)
      → deposit tokens derive now depositor info rule amount m ≡ done (u, rule', shares)
      → IsSolvent m
      → IsSolvent u
  deposit-IsSolvent derive now depositor info rule rule' amount shares m u taken safe =
      let parts =
        deposit_parts tokens derive now depositor info rule rule' amount m u shares taken in
      let (k, held, supply, totals) = settle_lem tokens amount m u shares parts.2 in
      let worth = shares_for_lem amount m.vault.nav_price_bps shares k in
      record {
        covered =
            rw (held, supply, totals.2)
              (grown m.share_supply shares m.vault.nav_price_bps m.vault_tokens amount safe.covered
                worth.3);
        booked = omega (arith, held, totals.0, safe.booked);
        counted = omega (arith, supply, totals.1, safe.counted);
      }

  redeem-IsSolvent :
      (balance shares assets : ℕ) (m u : AssetMarket)
      → redeem tokens balance shares m ≡ done (u, assets)
      → IsSolvent m
      → IsSolvent u
  redeem-IsSolvent balance shares assets m u paid safe =
      let (e, enough, owned, held, supply, counted, total, deposits, nav) =
        redeem-Pays tokens balance shares m u assets paid in
      record {
        covered =
            rw (held, supply, nav, e)
              (shrunk m.share_supply shares m.vault.nav_price_bps m.vault_tokens safe.covered
                owned);
        booked = omega (arith, held, deposits, safe.booked);
        counted = omega (arith, supply, total, safe.counted);
      }

  price-kept :
      (nav : ℕ) (v v' : AssetVault)
      → price nav v ≡ done v'
      → (v'.nav_price_bps ≡ nav)
        × (v'.total_deposits ≡ v.total_deposits)
        × (v'.total_supply ≡ v.total_supply)
  unfolding price
  price-kept nav v v' h = ground arith

  lowered-IsSolvent :
      (nav : ℕ) (v : AssetVault) (m u : AssetMarket)
      → price nav m.vault ≡ done v
      → nav ≤ m.vault.nav_price_bps
      → u ≡ record m { vault = v }
      → IsSolvent m
      → IsSolvent u
  lowered-IsSolvent nav v m u set low e safe =
      let (now_, deposits, supply) = price-kept nav m.vault v set in
      rw e (record {
        covered = rw now_ (
            cheaper m.share_supply m.vault.nav_price_bps nav (m.vault_tokens * 10000) low
              safe.covered);
        booked = omega (arith, deposits, safe.booked);
        counted = omega (arith, supply, safe.counted);
      })

  Step-IsSolvent : (m u : AssetMarket) → Step m u → IsSolvent m → IsSolvent u
  Step-IsSolvent m u (deposited derive now who info rule rule' amount shares e) safe =
      deposit-IsSolvent derive now who info rule rule' amount shares m u e safe
  Step-IsSolvent m u (redeemed balance shares assets e) safe =
      redeem-IsSolvent balance shares assets m u e safe
  Step-IsSolvent m u (lowered nav v set low e) safe = lowered-IsSolvent nav v m u set low e safe
  Step-IsSolvent m u (paused on e) safe = ground arith
  Step-IsSolvent m u (donated n e) safe = ground arith
  Step-IsSolvent m u (burned n e) safe =
      ground
        (arith, fewer m.share_supply n m.vault.nav_price_bps (m.vault_tokens * 10000) safe.covered)

  run-IsSolvent : {m u : AssetMarket} → IsSolvent m → Reach m u → IsSolvent u
  run-IsSolvent safe here = safe
  run-IsSolvent safe (after {t = t} {u = u} r s) = Step-IsSolvent t u s (run-IsSolvent safe r)

  payable : (s nav supply t : ℕ) → s ≤ supply → supply * nav ≤ t * 10000 → (s * nav) / 10000 ≤ t
  payable s nav supply t le h = grind arith

  new_market-IsSolvent : (p : RegisterParams) → IsSolvent (new_market p)
  new_market-IsSolvent p = record {
    covered = omega arith;
    booked = omega arith;
    counted = omega arith;
  }

  -- from a vault that was just registered, over any sequence of deposits, redemptions, pauses,
  -- gifts to the vault, burns by the holders and changes of the NAV that do not raise it: shares
  -- that exist and whose product with the NAV fits into 64 bits are redeemed, also while the vault is
  -- paused, unless the token program refuses.
  pub redeem_solvent :
      (p : RegisterParams) (u : AssetMarket) (balance shares : ℕ) (e : VaultError)
      → Reach (new_market p) u
      → 0 < shares
      → shares ≤ u.share_supply
      → shares * u.vault.nav_price_bps < 18446744073709551616
      → redeem tokens balance shares u ≡ fails e
      → e ≡ token_refused
  redeem_solvent p u balance shares e r some_ owned small refused =
      let safe = run-IsSolvent (new_market-IsSolvent p) r in
      redeem_covered tokens balance shares u e some_ (omega (arith, owned, safe.counted)) small
        (payable shares u.vault.nav_price_bps u.share_supply u.vault_tokens owned safe.covered)
        refused
