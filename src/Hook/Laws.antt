-- ===== src/Hook/Laws.antt =====
-- The transfer hook: whom it lets through, and what the whitelist keeps.
use oragami.Prelude.{
  ℕ, ◌<◌, ◌≡◌, ◌≢◌, ◌↔◌, ◌⊎◌, refl, inl, inr, String, true, false, not, Option, none, some, List,
  [], ◌∷◌, filter, arith, eq_iff, string_eq, Option-cases, ◌==◌, Bool-cases,
}
use oragami.Hook.Program.{
  WhitelistEntry, ComplianceConfig, Compliance, AddWhitelistParams, entry_of, side,
  add_to_whitelist, remove_from_whitelist, transfer_hook, not_initialized, constraint,
  validate_whitelist_entry,
}
use oragami.Hook.Accounts.{
  Transfer, Ledger, extra_account_metas, instruction, resolved, whitelist_pda,
}

-- The entry is there, all three checks are passed, and it has not expired.
abbrev pub IsCompliant : ℕ → Option WhitelistEntry → Type 0
IsCompliant now none = ⊥
IsCompliant now (some e) =
    (e.kyc_compliant ≡ true)
    × (e.aml_clear ≡ true)
    × (e.travel_rule_compliant ≡ true)
    × (now < e.expiry)

side_iff : (now : ℕ) (e : Option WhitelistEntry) → (side now e ≡ none) ↔ IsCompliant now e
unfolding validate_whitelist_entry
side_iff now none = ground arith
side_iff now (some e) = ground arith

-- a transfer whose handler is given these accounts passes exactly if transfers are allowed, the source
-- is owned by the mint or has a compliant entry that has not expired, and the destination is owned by
-- the mint or by the default key or has such an entry too.
pub transfer_hook-eq-none :
    (now : ℕ) (default_key : String) (config : ComplianceConfig)
    (source_owner mint destination_owner : String) (source destination : Option WhitelistEntry)
    → (transfer_hook now default_key config source_owner mint destination_owner source destination
        ≡ none)
      ↔ ((config.allow_transfers ≡ true)
          × ((source_owner ≡ mint) ⊎ IsCompliant now source)
          × ((destination_owner ≡ mint)
              ⊎ (destination_owner ≡ default_key)
              ⊎ IsCompliant now destination))
unfolding transfer_hook
transfer_hook-eq-none now default_key config source_owner mint destination_owner source
      destination =
    let source_side = side_iff now source in
    let destination_side = side_iff now destination in
    let from_mint = eq_iff source_owner mint in
    let to_mint = eq_iff destination_owner mint in
    let to_default = eq_iff destination_owner default_key in
    (
      λ h. (
        ground (arith, source_side, destination_side, from_mint, to_mint, to_default),
        ground (arith, source_side, destination_side, from_mint, to_mint, to_default),
        ground (arith, source_side, destination_side, from_mint, to_mint, to_default),
      ),
      λ h. ground (arith, source_side, destination_side, from_mint, to_mint, to_default),
    )

not_eq : (a b : String) → a ≢ b → (a == b) ≡ false
not_eq a b differ = elim (Bool-cases (a == b)) [
  | inl p ↦ absurd (differ ((eq_iff a b).0 p))
  | inr p ↦ p
]

-- the instruction `transfer_hook`, called with the extra accounts that were registered for the mint,
-- is refused by the checks of the accounts, whatever the settings and the whitelist hold, if the
-- destination's token account is not its own owner, where the entries of different wallets have different addresses and
-- that of the token account is not the program's own.
pub resolved-Refuses :
    (derive : List String → String) (program_id : String) (ledger : Ledger) (now : ℕ)
    (default_key : String) (t : Transfer)
    → ((a b : String) → whitelist_pda derive a ≡ whitelist_pda derive b → a ≡ b)
    → whitelist_pda derive t.destination_token ≢ program_id
    → t.destination_token ≢ t.destination_owner
    → (resolved derive program_id ledger now default_key t ≡ some not_initialized)
      ⊎ (resolved derive program_id ledger now default_key t ≡ some constraint)
unfolding resolved instruction extra_account_metas
resolved-Refuses derive program_id ledger now default_key t injective own other =
    let misplaced =
      not_eq _ _ (λ same. other (injective t.destination_token t.destination_owner same)) in
    let foreign = not_eq _ _ own in ground (arith, misplaced, foreign)

entry_of-filter :
    (wallet : String) (entries : List WhitelistEntry)
    → entry_of wallet entries ≡ none
    → filter (λ e. not (e.wallet == wallet)) entries ≡ entries
entry_of-filter wallet [] h = refl
entry_of-filter wallet (e ∷ entries) h = ground (arith, entry_of-filter wallet entries)

-- What the authority adds to the whitelist and then removes leaves the settings and the entries as
-- they were, at any time and with any parameters.
pub remove_from_whitelist-add_to_whitelist :
    (now : ℕ) (signer wallet : String) (params : AddWhitelistParams) (s s' : Compliance)
    → add_to_whitelist now signer wallet params s ≡ some s'
    → remove_from_whitelist signer wallet s' ≡ some s
unfolding add_to_whitelist remove_from_whitelist
remove_from_whitelist-add_to_whitelist now signer wallet params s s' h =
    elim (Option-cases (entry_of wallet s.entries)) [
      | inr (e, found) ↦ absurd (ground (arith, found))
      | inl new ↦ ground (
        arith,
        new,
        entry_of-filter wallet s.entries new,
        eq_iff s.config.authority signer,
        eq_iff wallet wallet,
      )
    ]
