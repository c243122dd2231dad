-- ===== src/Research/Route.antt =====
-- oragami-frontend/app/api/research/route.ts: the stream of one research. The body of the request has
-- been read, and the client stays connected to the end.
use oragami.Prelude.{String, Option, none, some, List, [], ◌∷◌, ◌++◌, ◌otherwise◌}
use oragami.Js.Json.{Json}
use oragami.Six.Service.{truthy}
use oragami.Client.Tasks.{returned, raised}
use oragami.Research.Events.{
  Agent, TinyFishEvent, TinyFishRequest, started, progress, streaming_url, complete, error,
  stream_tiny_fish_research, truthy_json,
}
use oragami.Research.Lead.{LeadData, Texts, create_lead_research_goal, parse_lead_from_result}
use oragami.Research.Leads.{NewLead, LeadResponse, Mongo, LeadDb, save_lead}

-- What is sent to the client. The first message and those of the server itself are texts.
pub data RouteEvent (F : Type 0) : Type 0 where
  on_progress : Json F → RouteEvent F
  on_stream_url : Option (Json F) → RouteEvent F
  on_complete : LeadResponse F → RouteEvent F
  on_error : Json F → RouteEvent F

pub data RouteResponse (F : Type 0) : Type 0 where
  -- 400 and 500
  bad_request : String → RouteResponse F
  server_error : String → RouteResponse F
  event_stream : List (RouteEvent F) → RouteResponse F

-- What the loop comes to: the stream is closed, or all events are through.
pub data Consumed (F : Type 0) : Type 0 where
  closed : Consumed F
  through : Option (Json F) → Consumed F

pub record Server (F : Type 0) : Type 0 where
  pub agent : Agent F
  pub texts : Texts F
  pub mongo : Mongo F
  pub api_key : Option String
  pub starting : String → String
  pub https : String → String
  -- for a lead that could not be saved
  pub uuid : String
  pub iso_now : String

module _ {F : Type 0} (server : Server F) where
  open server use {agent, texts, mongo}

  abbrev pub shown : Json F → String → Json F
  shown message fallback = truthy_json agent (some message) otherwise Json.str fallback

  -- The `switch` over the events, with the events sent and the data so far.
  unfoldable pub consume :
      Option (Json F) → List (TinyFishEvent F) → List (RouteEvent F) × Consumed F
  consume data_ [] = ([], through data_)
  consume data_ (started ∷ es) =
      let (sent, end) = consume data_ es in (on_progress (Json.str "Agent initialized") ∷ sent, end)
  consume data_ (progress m ∷ es) =
      let (sent, end) = consume data_ es in (on_progress (shown m "Processing...") ∷ sent, end)
  consume data_ (streaming_url url ∷ es) =
      let (sent, end) = consume data_ es in (on_stream_url url ∷ sent, end)
  consume data_ (complete v ∷ es) =
      let (sent, end) = consume (some v) es in
      (on_progress (Json.str "Processing results...") ∷ sent, end)
  consume data_ (error m ∷ es) = (on_error (shown m "Research failed") ∷ [], closed)

  -- An empty list counts as true, so the urls of the lead are taken as they are.
  abbrev pub new_lead : String → LeadData F → NewLead F
  new_lead domain d = record {
    domain = domain;
    company_name = shown d.company_name domain;
    description = shown d.description "";
    industry = shown d.industry "Technology";
    contacts = d.contacts;
    funding = d.funding;
    technologies = d.technologies;
    raw_content = d.raw_content;
    source_urls = d.source_urls;
  }

  abbrev pub unsaved : NewLead F → LeadResponse F
  unsaved lead = record {
    id = server.uuid;
    domain = lead.domain;
    company_name = lead.company_name;
    description = lead.description;
    industry = lead.industry;
    contacts = lead.contacts;
    funding = lead.funding;
    technologies = lead.technologies;
    researched_at = server.iso_now;
    source_urls = lead.source_urls;
    similarity = none;
  }

  -- The lead is sent to the client even if it could not be saved.
  abbrev pub finish_lead : NewLead F → LeadDb F → RouteEvent F × LeadDb F
  finish_lead lead db =
      let (saved, db') = save_lead mongo lead db in
      elim saved [
        | returned answer ↦ (on_complete answer, db')
        | raised e ↦ (on_complete (unsaved lead), db')
      ]

  -- Behind the loop, with the catch for a lead that cannot be parsed.
  unfoldable pub finish : String → Option (Json F) → LeadDb F → RouteEvent F × LeadDb F
  unfolding parse_lead_from_result save_lead
  finish domain none db = (on_error (Json.str "No data extracted from website"), db)
  finish domain (some v) db = elim (truthy_json agent (some v)) [
    | none ↦ (on_error (Json.str "No data extracted from website"), db)
    | some _ ↦ elim (parse_lead_from_result agent texts domain v) [
      | none ↦ (on_error (Json.str texts.type_error), db)
      | some d ↦ finish_lead (new_lead domain d) db
    ]
  ]

  abbrev pub first : String → RouteEvent F
  first domain = on_progress (Json.str (server.starting domain))

  abbrev pub failed : Option String → RouteEvent F
  failed e = on_error (Json.str (e otherwise "Research failed"))

  -- A throw of the stream itself is shown as an error.
  unfoldable pub respond :
      String
      → List (TinyFishEvent F) × Option (Option String)
      → LeadDb F
      → List (RouteEvent F) × LeadDb F
  unfolding consume finish
  respond domain (events, thrown) db =
      let (sent, end) = consume none events in
      elim end [
        | closed ↦ (first domain ∷ sent, db)
        | through data_ ↦ elim thrown [
          | some e ↦ (first domain ∷ sent ++ failed e ∷ [], db)
          | none ↦
              let (last, db') = finish domain data_ db in (first domain ∷ sent ++ last ∷ [], db')
        ]
      ]

  abbrev pub request : String → Option String → TinyFishRequest
  request domain goal = record {
    url = domain;
    goal = create_lead_research_goal texts domain goal;
    max_steps = none;
  }

  abbrev stream : String → List (RouteEvent F) × LeadDb F → RouteResponse F × LeadDb F
  stream domain (events, db) = (event_stream events, db)

  unfoldable pub post : Option String → Option String → LeadDb F → RouteResponse F × LeadDb F
  unfolding respond stream_tiny_fish_research
  post domain goal db = elim (truthy domain) [
    | none ↦ (bad_request "Domain is required", db)
    | some d ↦ elim (truthy server.api_key) [
      | none ↦ (server_error "TinyFish API key not configured", db)
      | some key ↦ stream d (respond d (stream_tiny_fish_research agent (request d goal) key) db)
    ]
  ]
