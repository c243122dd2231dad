-- ===== src/Access/CallsLaws.antt =====
-- The client's calls meet the routes of the backend.
use oragami.Prelude.{
  ◌≡◌, refl, ◌≢◌, String, Bool, true, if◌then◌else◌, ◌==◌, none, some, arith, eq_iff, string_eq,
}
use oragami.Access.Routes.{Reply, reached, unauthorized, dispatch}
use oragami.Access.Calls.{
  Endpoint, request_of, header, target, get_nav_current, get_nav_history, get_yield_history,
  get_vault_stats, get_vault_state, verify_credential, issue_credential, revoke_credential,
  get_all_credentials, preflight_deposit, index_deposit_, get_deposits_for_wallet, get_all_deposits,
  submit_travel_rule_, get_travel_rule_, get_health, get_crank_health, get_multi_vaults,
  verify_multi_vault_credential, multi_vault_faucet, preflight_multi_vault_deposit,
}

-- The reply to a call where the backend expects this key: the guard compares, if it is there.
abbrev pub answer : String → Endpoint → Reply
answer expected e = dispatch (some expected) (request_of e).method (request_of e).path (header e)

-- Whether the call comes without a key, or with the one that is expected.
abbrev pub key_fits : String → Endpoint → Bool
key_fits expected e = elim (request_of e).admin_key [ none ↦ true | some k ↦ k == expected ]

-- where the backend expects a key, every function of the client reaches the method that it is meant
-- to reach, if its admin key is the expected one or it takes none; with another key it is refused.
pub answer-target :
    (expected : String) (e : Endpoint)
    → expected ≢ ""
    → answer expected e ≡ (if key_fits expected e then reached (target e) else unauthorized)
unfolding dispatch header
answer-target x get_nav_current h = refl
answer-target x get_nav_history h = refl
answer-target x get_yield_history h = refl
answer-target x get_vault_stats h = refl
answer-target x get_vault_state h = refl
answer-target x (verify_credential w) h = refl
answer-target x (issue_credential k) h = ground (arith, eq_iff k x, eq_iff k "", eq_iff x "")
answer-target x (revoke_credential w k) h = ground (arith, eq_iff k x, eq_iff k "", eq_iff x "")
answer-target x (get_all_credentials k) h = ground (arith, eq_iff k x, eq_iff k "", eq_iff x "")
answer-target x preflight_deposit h = refl
answer-target x index_deposit_ h = refl
answer-target x (get_deposits_for_wallet w) h = refl
answer-target x (get_all_deposits k) h = ground (arith, eq_iff k x, eq_iff k "", eq_iff x "")
answer-target x submit_travel_rule_ h = refl
answer-target x (get_travel_rule_ n) h = refl
answer-target x get_health h = refl
answer-target x get_crank_health h = refl
answer-target x get_multi_vaults h = refl
answer-target x (verify_multi_vault_credential w) h = refl
answer-target x (multi_vault_faucet m) h = refl
answer-target x (preflight_multi_vault_deposit m) h = refl
