-- ===== src/Client/Wallet.antt =====
-- oragami-frontend/features/wallet/model/store.ts: the store of the wallet's connection. A function
-- that signs is known by a name, and answers with the signature in base 58.
use oragami.Prelude.{String, Bool, true, false, ◌&&◌, Option, none, some}
use oragami.Client.Tasks.{Outcome, raised}

pub data ComplianceTier : Type 0 where
  basic enterprise : ComplianceTier

pub record WalletState : Type 0 where
  pub public_key : Option String
  pub connected : Bool
  pub connecting : Bool
  pub compliance_tier : ComplianceTier
  pub sign_message_fn : Option (String → Outcome String)

abbrev pub initial_wallet : WalletState
initial_wallet = record {
  public_key = none;
  connected = false;
  connecting = false;
  compliance_tier = basic;
  sign_message_fn = none;
}

abbrev pub connect : String → (String → Outcome String) → WalletState → WalletState
connect public_key sign w = record w {
  public_key = some public_key;
  connected = true;
  connecting = false;
  sign_message_fn = some sign;
}

abbrev pub disconnect : WalletState → WalletState
disconnect w = record w { public_key = none; connected = false; sign_message_fn = none }

abbrev pub set_connecting : Bool → WalletState → WalletState
set_connecting connecting w = record w { connecting = connecting }

abbrev pub set_compliance_tier : ComplianceTier → WalletState → WalletState
set_compliance_tier tier w = record w { compliance_tier = tier }

abbrev signed_by : Bool → Option (String → Outcome String) → String → Outcome String
signed_by true (some sign) text = sign text
signed_by connected sign text = raised (some "Wallet not connected")

unfoldable pub sign_message : WalletState → String → Outcome String
sign_message w = signed_by w.connected w.sign_message_fn

-- After a reload only the tier is left.
unfoldable pub reload : WalletState → WalletState
reload w = record initial_wallet { compliance_tier = w.compliance_tier }

abbrev is_enterprise : ComplianceTier → Bool
is_enterprise basic = false
is_enterprise enterprise = true

abbrev pub use_can_use_confidential : WalletState → Bool
use_can_use_confidential w = w.connected && is_enterprise w.compliance_tier
