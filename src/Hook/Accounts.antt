-- ===== src/Hook/Accounts.antt =====
-- programs/cvault-transfer-hook/programs/cvault-transfer-hook/src/lib.rs: the accounts of the hook. The
-- token program resolves the extra ones from the seeds that were registered for the mint, and Anchor
-- checks those of `TransferHook` before the handler runs. `derive` gives the address of seeds under
-- the hook's program; a seed is a text or the key of an
-- account. The call of the token program itself does not have the discriminator of this instruction
-- and lands in `fallback`, which passes.
use oragami.Prelude.{
  ℕ, zero, suc, String, Bool, ◌||◌, ◌&&◌, not, is_some, Option, none, some, List, [], ◌∷◌,
  if◌then◌else◌, ◌==◌, string_eq,
}
use oragami.Prelude.Options.{◌>>=◌}
use oragami.Hook.Program.{
  HookError, WhitelistEntry, ComplianceConfig, constraint, not_initialized, missing_account,
  transfer_hook,
}

pub data Seed : Type 0 where
  literal : String → Seed
  account_key : ℕ → Seed

-- The seeds of the three extra accounts: the settings, and the entries of source and destination.
unfoldable pub extra_account_metas : List (List Seed)
extra_account_metas =
    (literal "compliance" ∷ [])
    ∷ (literal "whitelist" ∷ account_key 3 ∷ [])
    ∷ (literal "whitelist" ∷ account_key 2 ∷ [])
    ∷ []

-- What the token program passes in order: both token accounts with their owners, the mint, and who
-- signs for the source.
pub record Transfer : Type 0 where
  pub source_token : String
  pub source_owner : String
  pub mint : String
  pub destination_token : String
  pub destination_owner : String
  pub authority : String

-- The key of the account at a position.
abbrev pub key_at : Transfer → ℕ → Option String
key_at t zero = some t.source_token
key_at t (suc zero) = some t.mint
key_at t (suc (suc zero)) = some t.destination_token
key_at t (suc (suc (suc zero))) = some t.authority
key_at t (suc (suc (suc (suc n)))) = none

abbrev seed_text : Transfer → Seed → Option String
seed_text t (literal text) = some text
seed_text t (account_key n) = key_at t n

-- What the seeds stand for in a transfer; none if one names an account that is not passed.
abbrev pub seed_texts : Transfer → List Seed → Option (List String)
seed_texts t [] = some []
seed_texts t (s ∷ seeds) = do text ← seed_text t s; rest ← seed_texts t seeds; some (text ∷ rest)

-- The addresses of extra accounts.
abbrev pub resolve : (List String → String) → Transfer → List (List Seed) → Option (List String)
resolve derive t [] = some []
resolve derive t (seeds ∷ metas) = do
  texts ← seed_texts t seeds
  rest ← resolve derive t metas
  some (derive texts ∷ rest)

-- What the chain holds at the addresses of the hook's program.
pub record Ledger : Type 0 where
  pub config : ComplianceConfig
  pub entry_at : String → Option WhitelistEntry

-- The address of a wallet's entry.
abbrev pub whitelist_pda : (List String → String) → String → String
whitelist_pda derive wallet = derive ("whitelist" ∷ wallet ∷ [])

module _ (derive : List String → String) (program_id : String) (ledger : Ledger) where
  -- An optional account: the program's own address stands for none.
  abbrev pub passed : String → Option WhitelistEntry
  passed key = if key == program_id then none else ledger.entry_at key

  abbrev pub is_missing : String → Bool
  is_missing key = not (key == program_id) && not (is_some (ledger.entry_at key))

  abbrev pub is_misplaced : String → String → Bool
  is_misplaced key wallet = not (key == program_id) && not (key == whitelist_pda derive wallet)

  -- The instruction with the extra accounts at these addresses: the entries are read, then the
  -- addresses are checked, then the handler runs.
  unfoldable pub instruction : ℕ → String → Transfer → List String → Option HookError
  instruction now default_key t (config_key ∷ source_key ∷ destination_key ∷ []) =
      if is_missing source_key || is_missing destination_key
      then some not_initialized
      else if not (config_key == derive ("compliance" ∷ []))
          || is_misplaced source_key t.source_owner
          || is_misplaced destination_key t.destination_owner
      then some constraint
      else transfer_hook now default_key ledger.config t.source_owner t.mint t.destination_owner
          (passed source_key) (passed destination_key)
  instruction now default_key t keys = some missing_account

  abbrev at_keys : ℕ → String → Transfer → Option (List String) → Option HookError
  at_keys now default_key t none = some missing_account
  at_keys now default_key t (some keys) = instruction now default_key t keys

  -- The instruction with the accounts that were registered for the mint.
  unfoldable pub resolved : ℕ → String → Transfer → Option HookError
  resolved now default_key t = at_keys now default_key t (resolve derive t extra_account_metas)
