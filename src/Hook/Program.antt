-- ===== src/Hook/Program.antt =====
-- programs/cvault-transfer-hook/programs/cvault-transfer-hook/src/lib.rs: the compliance settings, the
-- whitelist, and the check of a transfer. Instants and days are not negative, and an `i64` is taken to
-- hold them.
use oragami.Prelude.{
  ℕ, ◌+◌, ◌*◌, String, Bool, true, ◌||◌, Option, none, some, List, ◌∷◌, find, filter, not, is_some,
  ltb, if◌then◌else◌, ◌otherwise◌, ◌==◌, string_eq,
}

pub data HookError : Type 0 where
  not_whitelisted kyc_not_completed aml_check_failed travel_rule_not_satisfied : HookError
  entry_expired transfer_disabled : HookError
  -- Anchor's, for a check of the accounts, an account that is not there, and too few accounts
  constraint not_initialized missing_account : HookError

pub record WhitelistEntry : Type 0 where
  pub wallet : String
  pub kyc_compliant : Bool
  pub aml_clear : Bool
  pub travel_rule_compliant : Bool
  pub added_at : ℕ
  pub expiry : ℕ

pub record ComplianceConfig : Type 0 where
  pub authority : String
  pub compliance_oracle : String
  pub min_kyc_level : ℕ
  pub allow_transfers : Bool

-- The entries, each at the address of its wallet.
pub record Compliance : Type 0 where
  pub config : ComplianceConfig
  pub entries : List WhitelistEntry

unfoldable pub initialize_compliance : String → String → ComplianceConfig
initialize_compliance authority compliance_oracle = record {
  authority = authority;
  compliance_oracle = compliance_oracle;
  min_kyc_level = 1;
  allow_transfers = true;
}

abbrev pub entry_of : String → List WhitelistEntry → Option WhitelistEntry
entry_of wallet = find (λ e. e.wallet == wallet)

abbrev pub seconds_per_day : ℕ
seconds_per_day = 86400

pub record AddWhitelistParams : Type 0 where
  pub kyc_compliant : Bool
  pub aml_clear : Bool
  pub travel_rule_compliant : Bool
  pub expiry_days : ℕ

-- `none` is a failed transaction: the signer is not the authority, or the entry is there already.
unfoldable pub add_to_whitelist :
    ℕ → String → String → AddWhitelistParams → Compliance → Option Compliance
add_to_whitelist now signer wallet params s =
    if not (s.config.authority == signer) || is_some (entry_of wallet s.entries)
    then none
    else some (record s {
      entries =
          (record {
            wallet = wallet;
            kyc_compliant = params.kyc_compliant;
            aml_clear = params.aml_clear;
            travel_rule_compliant = params.travel_rule_compliant;
            added_at = now;
            expiry = now + params.expiry_days * seconds_per_day;
          })
          ∷ s.entries;
    })

unfoldable pub remove_from_whitelist : String → String → Compliance → Option Compliance
remove_from_whitelist signer wallet s =
    if not (s.config.authority == signer) || not (is_some (entry_of wallet s.entries))
    then none
    else some (record s { entries = filter (λ e. not (e.wallet == wallet)) s.entries })

pub record UpdateWhitelistParams : Type 0 where
  pub kyc_compliant : Option Bool
  pub aml_clear : Option Bool
  pub travel_rule_compliant : Option Bool
  pub extend_expiry_days : Option ℕ

-- An expiry is counted anew from now.
abbrev new_expiry : ℕ → Option ℕ → ℕ → ℕ
new_expiry now none expiry = expiry
new_expiry now (some days) expiry = now + days * seconds_per_day

unfoldable pub update_whitelist : ℕ → UpdateWhitelistParams → WhitelistEntry → WhitelistEntry
update_whitelist now params e = record e {
  kyc_compliant = params.kyc_compliant otherwise e.kyc_compliant;
  aml_clear = params.aml_clear otherwise e.aml_clear;
  travel_rule_compliant = params.travel_rule_compliant otherwise e.travel_rule_compliant;
  expiry = new_expiry now params.extend_expiry_days e.expiry;
}

unfoldable pub update_compliance :
    Option Bool → Option ℕ → Option String → ComplianceConfig → ComplianceConfig
update_compliance allow_transfers min_kyc_level compliance_oracle c = record c {
  allow_transfers = allow_transfers otherwise c.allow_transfers;
  min_kyc_level = min_kyc_level otherwise c.min_kyc_level;
  compliance_oracle = compliance_oracle otherwise c.compliance_oracle;
}

-- The first check that fails.
unfoldable pub validate_whitelist_entry : ℕ → WhitelistEntry → Option HookError
validate_whitelist_entry now e =
    if not e.kyc_compliant
    then some kyc_not_completed
    else if not e.aml_clear
    then some aml_check_failed
    else if not e.travel_rule_compliant
    then some travel_rule_not_satisfied
    else if ltb now e.expiry
    then none
    else some entry_expired

-- One side of a transfer, where its entry was passed or not.
abbrev pub side : ℕ → Option WhitelistEntry → Option HookError
side now none = some not_whitelisted
side now (some e) = validate_whitelist_entry now e

abbrev pub first_error : Option HookError → Option HookError → Option HookError
first_error none rest = rest
first_error (some e) rest = some e

-- The owners of the two token accounts, and the mint; `default_key` is `Pubkey::default()`. The
-- error, or none if the transfer passes.
unfoldable pub transfer_hook :
    ℕ
    → String
    → ComplianceConfig
    → (source_owner mint destination_owner : String) → Option WhitelistEntry
    → Option WhitelistEntry
    → Option HookError
unfolding validate_whitelist_entry
transfer_hook now default_key config source_owner mint destination_owner source destination =
    if not config.allow_transfers
    then some transfer_disabled
    else first_error (if source_owner == mint then none else side now source) (
        if destination_owner == mint || destination_owner == default_key
        then none
        else side now destination)
