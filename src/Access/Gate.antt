-- ===== src/Access/Gate.antt =====
-- oragami-frontend/middleware.ts: the gate in front of the pages under /app. The value of the cookie is
-- put into a URL as it is: `requested` is the path that the backend is asked for, in parts, when
-- '/api/credentials/' + the value + '/verify' is fetched.
use oragami.Prelude.{ℕ, String, Bool, Option, none, some, List, if◌then◌else◌, ◌==◌, string_eq}
use oragami.Six.Service.{truthy}
use oragami.Credentials.Service.{
  Services, Store, VerifiedStatus, active, expired, revoked, missing, verify, status_of,
}
use oragami.Access.Guard.{absent}
use oragami.Access.Routes.{Reply, reached, dispatch, Handler, get}

pub data Passage : Type 0 where
  next : Passage
  redirect : String → Passage

-- What `fetch` and `res.json()` give: a throw, a response that is not `ok`, or the `status`.
pub data Verification : Type 0 where
  unreachable refused : Verification
  says : String → Verification

abbrev pub passage_of : Verification → Passage
passage_of unreachable = next
passage_of refused = redirect "/onboard/connect"
passage_of (says status) =
    if status == "active"
    then next
    else if status == "pending"
    then redirect "/onboard/pending"
    else redirect "/onboard/connect"

-- With the wallet, if there is one; `fetched` is the answer to a GET of a path.
abbrev pub passed : (String → List String) → Option String → (List String → Verification) → Passage
passed requested none fetched = redirect "/onboard/connect"
passed requested (some wallet) fetched = passage_of (fetched (requested wallet))

unfoldable pub middleware :
    (String → List String) → Option String → (List String → Verification) → Passage
middleware requested cookie fetched = passed requested (truthy cookie) fetched

-- The text of the status in the response of the backend.
abbrev pub status_text : VerifiedStatus → String
status_text active = "active"
status_text expired = "expired"
status_text revoked = "revoked"
status_text missing = "not_found"

-- `verify` throws on a wallet that is no key, which is answered with 500, as its other throw is.
abbrev pub spoken : Option VerifiedStatus → Verification
spoken none = refused
spoken (some status) = says (status_text status)

abbrev pub verified : Services → ℕ → Bool → Store → String → Verification
verified services now_ms connected store wallet =
    if services.is_public_key wallet
    then spoken (status_of (verify now_ms connected wallet store))
    else refused

-- The wallet of a request that reaches the handler `verify`.
abbrev asked_for : Reply → Option String
asked_for (reached (Handler.verify wallet)) = some wallet
asked_for _ = none

abbrev pub handled : Services → ℕ → Bool → Store → Option String → Verification
handled services now_ms connected store (some wallet) =
    verified services now_ms connected store wallet
handled services now_ms connected store none = refused

-- The backend behind the gate, which is asked without a header; `connected` is its connection to the
-- chain.
unfoldable pub backend : Services → Option String → ℕ → Bool → Store → List String → Verification
unfolding dispatch
backend services key now_ms connected store path =
    handled services now_ms connected store (asked_for (dispatch key get path absent))
