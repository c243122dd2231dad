-- ===== src/Access/Routes.antt =====
-- The controllers under oragami-backend/src and the prefix of oragami-backend/src/main.ts: which
-- handler a request reaches, and whether the guard stands before it. A path is a list of segments.
use oragami.Prelude.{
  String, Bool, true, false, Option, none, some, List, [], ◌∷◌, if◌then◌else◌, ◌==◌, string_eq,
}
use oragami.Access.Guard.{Header, can_activate}

pub data Method : Type 0 where
  get post put : Method

-- The methods of the controllers, with the parameters of their paths.
pub data Handler : Type 0 where
  root health cranks : Handler
  issue list_credentials : Handler
  verify get_credential revoke : String → Handler
  preflight index_deposit list_deposits : Handler
  list_for_wallet : String → Handler
  submit_travel_rule : Handler
  get_travel_rule : String → Handler
  vault_state nav_current nav_history yield_history stats : Handler
  factory asset_vaults issue_asset_credential : Handler
  asset_vault set_asset_nav faucet asset_preflight : String → Handler
  asset_credential : String → Handler

-- The handler, and whether `AdminApiKeyGuard` is on it.
abbrev open_to_all : Handler → Option (Handler × Bool)
open_to_all h = some (h, false)

abbrev guarded : Handler → Option (Handler × Bool)
guarded h = some (h, true)

credentials_route : Method → List String → Option (Handler × Bool)
credentials_route post [] = guarded issue
credentials_route get [] = guarded list_credentials
credentials_route get (w ∷ []) = guarded (get_credential w)
credentials_route get (w ∷ a ∷ []) = if a == "verify" then open_to_all (verify w) else none
credentials_route put (w ∷ a ∷ []) = if a == "revoke" then guarded (revoke w) else none
credentials_route _ _ = none

deposits_route : Method → List String → Option (Handler × Bool)
deposits_route get [] = guarded list_deposits
deposits_route post (a ∷ []) =
    if a == "preflight"
    then open_to_all preflight
    else if a == "index"
    then open_to_all index_deposit
    else none
deposits_route get (a ∷ w ∷ []) =
    if a == "institution" then open_to_all (list_for_wallet w) else none
deposits_route _ _ = none

travel_rule_route : Method → List String → Option (Handler × Bool)
travel_rule_route post [] = open_to_all submit_travel_rule
travel_rule_route get (h ∷ []) = open_to_all (get_travel_rule h)
travel_rule_route _ _ = none

vault_route : Method → List String → Option (Handler × Bool)
vault_route get (a ∷ []) =
    if a == "state"
    then open_to_all vault_state
    else if a == "stats"
    then open_to_all stats
    else none
vault_route get (a ∷ b ∷ []) =
    if a == "nav"
    then (if b == "current"
        then open_to_all nav_current
        else if b == "history"
        then open_to_all nav_history
        else none)
    else if a == "yield"
    then (if b == "history" then open_to_all yield_history else none)
    else none
vault_route _ _ = none

-- The routes under `vaults`.
asset_vaults_route : Method → List String → Option (Handler × Bool)
asset_vaults_route get [] = open_to_all asset_vaults
asset_vaults_route get (m ∷ []) = open_to_all (asset_vault m)
asset_vaults_route post (m ∷ a ∷ []) =
    if a == "nav"
    then guarded (set_asset_nav m)
    else if a == "faucet"
    then open_to_all (faucet m)
    else if a == "preflight"
    then open_to_all (asset_preflight m)
    else none
asset_vaults_route _ _ = none

asset_credentials_route : Method → List String → Option (Handler × Bool)
asset_credentials_route get (w ∷ []) = open_to_all (asset_credential w)
asset_credentials_route post [] = guarded issue_asset_credential
asset_credentials_route _ _ = none

abbrev factory_route : Method → List String → Option (Handler × Bool)
factory_route get [] = open_to_all factory
factory_route _ _ = none

multi_vault_route : Method → List String → Option (Handler × Bool)
unfolding asset_vaults_route asset_credentials_route
multi_vault_route m [] = none
multi_vault_route m (a ∷ path) =
    if a == "vaults"
    then asset_vaults_route m path
    else if a == "credentials"
    then asset_credentials_route m path
    else if a == "factory"
    then factory_route m path
    else none

-- The controllers behind `/api`.
api_route : Method → List String → Option (Handler × Bool)
unfolding credentials_route deposits_route travel_rule_route vault_route multi_vault_route
api_route m [] = none
api_route m (a ∷ path) =
    if a == "credentials"
    then credentials_route m path
    else if a == "deposits"
    then deposits_route m path
    else if a == "travel-rule"
    then travel_rule_route m path
    else if a == "vault"
    then vault_route m path
    else if a == "multi-vault"
    then multi_vault_route m path
    else none

-- The three routes without the prefix.
unfoldable pub route : Method → List String → Option (Handler × Bool)
unfolding api_route
route get [] = open_to_all root
route m [] = none
route get (a ∷ []) = if a == "health" then open_to_all health else none
route get (a ∷ b ∷ []) =
    if a == "health"
    then (if b == "cranks" then open_to_all cranks else none)
    else if a == "api"
    then api_route get (b ∷ [])
    else none
route m (a ∷ path) = if a == "api" then api_route m path else none

pub data Reply : Type 0 where
  reached : Handler → Reply
  unauthorized not_found : Reply

abbrev admitted : Option String → Header → Option (Handler × Bool) → Reply
admitted expected header none = not_found
admitted expected header (some (h, false)) = reached h
admitted expected header (some (h, true)) =
    if can_activate expected header then reached h else unauthorized

-- A request, with the key that the backend expects.
unfoldable pub dispatch : Option String → Method → List String → Header → Reply
unfolding route can_activate
dispatch expected m path header = admitted expected header (route m path)
