-- ===== src/Research/RouteLaws.antt =====
-- What a client of the research route receives, and what the database has gained by then.
use oragami.Prelude.{◌≡◌, ◌⊎◌, String, Option, none, some, List, [], ◌∷◌, ◌++◌}
use oragami.Js.Json.{Json}
use oragami.Research.Leads.{LeadDb, LeadDocument, response_of}
use oragami.Research.Route.{
  RouteEvent, RouteResponse, Consumed, Server, on_progress, on_stream_url, on_complete, on_error,
  bad_request, server_error, event_stream, closed, through,
}

module _ {F : Type 0} where
  -- One event that says that the research is over, and it is the last.
  abbrev pub EndsOnce : List (RouteEvent F) → Type 0
  EndsOnce [] = ⊥
  EndsOnce (on_progress m ∷ es) = EndsOnce es
  EndsOnce (on_stream_url url ∷ es) = EndsOnce es
  EndsOnce (on_complete lead ∷ es) = es ≡ []
  EndsOnce (on_error m ∷ es) = es ≡ []

  abbrev IsOpen : List (RouteEvent F) → Type 0
  IsOpen [] = Unit
  IsOpen (on_progress m ∷ es) = IsOpen es
  IsOpen (on_stream_url url ∷ es) = IsOpen es
  IsOpen (on_complete lead ∷ es) = ⊥
  IsOpen (on_error m ∷ es) = ⊥

  abbrev Fits : List (RouteEvent F) → Consumed F → Type 0
  Fits es closed = EndsOnce es
  Fits es (through data_) = IsOpen es

  abbrev pub last_event : List (RouteEvent F) → Option (RouteEvent F)
  last_event [] = none
  last_event (e ∷ []) = some e
  last_event (e ∷ f ∷ es) = last_event (f ∷ es)

module _ {F : Type 0} (server : Server F) where
  -- The leads are as before, or there is one more, which the last event shows.
  abbrev pub IsShown : LeadDb F → LeadDb F → Option (RouteEvent F) → Type 0
  IsShown db db' last =
      (db'.leads ≡ db.leads)
      ⊎ ((doc : LeadDocument F) × ((db'.leads ≡ db.leads ++ doc ∷ [])
            × (last ≡ some (on_complete (response_of server.mongo none doc)))))

  -- The last event and what it shows.
  abbrev IsLast : LeadDb F → RouteEvent F × LeadDb F → Type 0
  IsLast db p = EndsOnce (p.0 ∷ []) × IsShown db p.1 (some p.0)

  -- The ends of the route: the request is refused, or its stream closes as it should.
  pub data Closes (db : LeadDb F) (end : RouteResponse F × LeadDb F) : Type 0 where
    refused_400 : (m : String) → end ≡ (bad_request m, db) → Closes db end
    refused_500 : (m : String) → end ≡ (server_error m, db) → Closes db end
    streamed :
        (es : List (RouteEvent F)) (db' : LeadDb F)
        → end ≡ (event_stream es, db')
        → EndsOnce es
        → IsShown db db' (last_event es)
        → Closes db end

  abbrev IsWhole : LeadDb F → List (RouteEvent F) × LeadDb F → Type 0
  IsWhole db end = EndsOnce end.0 × IsShown db end.1 (last_event end.0)
