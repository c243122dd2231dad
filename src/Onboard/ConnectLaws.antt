-- ===== src/Onboard/ConnectLaws.antt =====
-- Where the page that connects a wallet sends it, and what it meets at the gate of /app.
use oragami.Prelude.{ℕ, ◌≡◌, String, true, ◌⊎◌, Option, some, List, string_eq}
use oragami.Credentials.Service.{Services, Store, revoked}
use oragami.Access.Gate.{next, redirect, Verification, backend}
use oragami.Access.GateLaws.{gate}
use oragami.Onboard.Connect.{Page}

module _ (services : Services) (requested : String → List String) (key : Option String) (now_ms : ℕ)
    (wallet : String) (s : Store) where
  -- `verifyCredential` of the page, which puts the wallet into the same URL as the gate.
  abbrev pub verify_credential : String → Verification
  verify_credential w = backend services key now_ms true s (requested w)

  -- The three ends of a visit: the wallet is sent to /app and let in, is told that its credential was
  -- revoked, or is sent to be registered.
  abbrev pub Visited : Page → Page → Type 0
  Visited p end =
      ((end.replaced ≡ some "/app") × (gate services requested key now_ms wallet s ≡ next))
      ⊎ (((end.replaced ≡ p.replaced)
            × (end.revoked ≡ true)
            × (gate services requested key now_ms wallet s ≡ redirect "/onboard/connect"))
          ⊎ ((end.replaced ≡ some "/onboard/register")
              × (end.revoked ≡ p.revoked)
              × (gate services requested key now_ms wallet s ≡ redirect "/onboard/connect")))
