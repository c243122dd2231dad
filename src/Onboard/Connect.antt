-- ===== src/Onboard/Connect.antt =====
-- oragami-frontend/app/onboard/connect/page.tsx: the page that connects a wallet, and sends it on by
-- the status of its credential.
use oragami.Prelude.{
  String, Bool, true, false, Option, none, some, if◌then◌else◌, ◌==◌, ◌otherwise◌, string_eq,
}
use oragami.Six.Service.{truthy}
use oragami.Access.Gate.{Verification, unreachable, refused, says}
use oragami.Client.Tasks.{Outcome, returned, raised}
use oragami.Client.Wallet.{WalletState, connect, set_connecting}

pub record Page : Type 0 where
  pub checking : Bool
  pub revoked : Bool
  pub error : Option String
  -- the page that was opened last by `router.replace`, and whether phantom.app was opened
  pub replaced : Option String
  pub opened : Bool
  pub wallet : WalletState
  -- the value of the cookie `wallet`
  pub cookie : Option String

-- `window.solana`: `isPhantom`, and the key that `connect` answers with or its error.
pub record Phantom : Type 0 where
  pub is_phantom : Bool
  pub connected : Outcome String
  pub sign : String → Outcome String

abbrev pub to_page : String → Page → Page
to_page path p = record p { replaced = some path }

-- The branches on the status of the answer; an answer that is not `ok` is thrown.
abbrev pub sent_on : Verification → Page → Page
sent_on unreachable p = to_page "/onboard/register" p
sent_on refused p = to_page "/onboard/register" p
sent_on (says status) p =
    if status == "active"
    then to_page "/app" p
    else if status == "pending"
    then to_page "/onboard/pending" p
    else if status == "revoked"
    then record p { revoked = true; checking = false }
    else if status == "expired"
    then record p { revoked = true; checking = false }
    else to_page "/onboard/register" p

unfoldable pub check_credential : Verification → Page → Page
check_credential answer p = sent_on answer (record p { checking = true; error = none })

-- The wallet that is connected.
abbrev pub present : WalletState → Option String
present w = if w.connected then truthy w.public_key else none

abbrev pub checked : (String → Verification) → Option String → Page → Page
checked verify_credential none p = p
checked verify_credential (some wallet) p = check_credential (verify_credential wallet) p

-- The effect of the page, where `verify_credential` is what the backend answers on a wallet.
unfoldable pub arrive : (String → Verification) → Page → Page
unfolding check_credential
arrive verify_credential p = checked verify_credential (present p.wallet) p

abbrev pub connected_with : Phantom → Outcome String → Page → Page
connected_with phantom (returned pk) p = record p {
  wallet = connect pk phantom.sign p.wallet;
  cookie = some pk;
}
connected_with phantom (raised e) p = record p {
  error = some (truthy e otherwise "Failed to connect wallet");
  wallet = set_connecting false p.wallet;
}

abbrev pub cleared : Page → Page
cleared p = record p { wallet = set_connecting true p.wallet; revoked = false; error = none }

unfoldable pub handle_connect : Option Phantom → Page → Page
handle_connect none p = record (cleared p) { opened = true; wallet = set_connecting false p.wallet }
handle_connect (some phantom) p =
    if phantom.is_phantom
    then connected_with phantom phantom.connected (cleared p)
    else record (cleared p) { opened = true; wallet = set_connecting false p.wallet }
