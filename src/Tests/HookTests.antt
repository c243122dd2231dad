-- ===== src/Tests/HookTests.antt =====
-- The theorems on the transfer hook, for a transfer from a bank to a desk.
use oragami.Prelude.{
  ◌≡◌, ◌≢◌, ◌⊎◌, ◌↔◌, refl, String, true, false, none, some, List, [], ◌∷◌, string_eq, arith,
  eq_iff, ◌==◌,
}
use oragami.Hook.Program.{
  WhitelistEntry, ComplianceConfig, initialize_compliance, transfer_hook, not_initialized,
  constraint, validate_whitelist_entry,
}
use oragami.Hook.Accounts.{Transfer, Ledger, resolved, instruction}
use oragami.Hook.Laws.{IsCompliant, transfer_hook-eq-none, resolved-Refuses}

-- The address of seeds is the last of them here.
abbrev derive : List String → String
derive [] = "none"
derive (text ∷ []) = text
derive (text ∷ other ∷ seeds) = derive (other ∷ seeds)

abbrev entry : String → WhitelistEntry
entry wallet = record {
  wallet = wallet;
  kyc_compliant = true;
  aml_clear = true;
  travel_rule_compliant = true;
  added_at = 0;
  expiry = 86400;
}

abbrev settings : ComplianceConfig
settings = initialize_compliance "authority" "oracle"

transfer_hook-eq-none_example :
    (transfer_hook 86400 "default" settings "bank" "mint" "desk"
        (some (entry "bank"))
        (some (entry "desk"))
      ≡ none)
    ↔ ((settings.allow_transfers ≡ true)
        × ((◌≡◌ {A = String} "bank" "mint") ⊎ IsCompliant 86400 (some (entry "bank")))
        × ((◌≡◌ {A = String} "desk" "mint")
            ⊎ (◌≡◌ {A = String} "desk" "default")
            ⊎ IsCompliant 86400 (some (entry "desk"))))
transfer_hook-eq-none_example =
    transfer_hook-eq-none 86400 "default" settings "bank" "mint" "desk" (some (entry "bank"))
      (some (entry "desk"))

-- The entries hold until their last second has come.
passes :
    transfer_hook 86399 "default" settings "bank" "mint" "desk"
      (some (entry "bank"))
      (some (entry "desk"))
    ≡ none
unfolding transfer_hook initialize_compliance validate_whitelist_entry
passes = refl

abbrev ledger : Ledger
ledger = record { config = settings; entry_at = λ key. some (entry key) }

abbrev to_desk : Transfer
to_desk = record {
  source_token = "bank-shares";
  source_owner = "bank";
  mint = "mint";
  destination_token = "desk-shares";
  destination_owner = "desk";
  authority = "bank";
}

-- With the addresses of the owners the same transfer passes.
by_owners :
    instruction derive "program" ledger 5 "default" to_desk ("compliance" ∷ "bank" ∷ "desk" ∷ [])
    ≡ none
unfolding instruction transfer_hook initialize_compliance validate_whitelist_entry
by_owners = refl

differ : (a b : String) → (a == b) ≡ false → a ≢ b
differ a b h p = ground (arith, eq_iff a b)

resolved-Refuses_example :
    (resolved derive "program" ledger 5 "default" to_desk ≡ some not_initialized)
    ⊎ (resolved derive "program" ledger 5 "default" to_desk ≡ some constraint)
resolved-Refuses_example =
    resolved-Refuses derive "program" ledger 5 "default" to_desk (λ a b same. same)
      (differ "desk-shares" "program" refl) (differ "desk-shares" "desk" refl)
