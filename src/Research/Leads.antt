-- ===== src/Research/Leads.antt =====
-- oragami-frontend/lib/mongodb.ts: the collection of the leads. What MongoDB and the embedding answer
-- are parameters; the `researchedAt` of a document and its id are texts.
use mathlib.Core.Option
use oragami.Prelude.{
  ℕ, ◌*◌, String, Bool, true, Option, none, some, List, [], ◌∷◌, ◌++◌, map, find, if◌then◌else◌,
  ◌==◌, string_eq,
}
use oragami.Js.Json.{Json}
use oragami.Client.Tasks.{Outcome, returned, raised}
use oragami.Research.Lead.{Contact}

-- A lead without its embedding, its id and its date.
pub record NewLead (F : Type 0) : Type 0 where
  pub domain : String
  pub company_name : Json F
  pub description : Json F
  pub industry : Json F
  pub contacts : List (Contact F)
  pub funding : Option (Json F)
  pub technologies : List String
  pub raw_content : String
  pub source_urls : List String

pub record LeadDocument (F : Type 0) : Type 0 where
  pub id : String
  pub lead : NewLead F
  pub embedding : Option (List F)
  pub researched_at : String

-- `raw_content` is left out of an answer.
pub record LeadResponse (F : Type 0) : Type 0 where
  pub id : String
  pub domain : String
  pub company_name : Json F
  pub description : Json F
  pub industry : Json F
  pub contacts : List (Contact F)
  pub funding : Option (Json F)
  pub technologies : List String
  pub researched_at : String
  pub source_urls : List String
  pub similarity : Option F

-- One call on the collection: `insert_id` is the id of the new document, or the throw of
-- `insertOne`.
pub record Mongo (F : Type 0) : Type 0 where
  -- the settings' uri, and the connection
  pub uri : String
  pub connect : Outcome (Unit {0})
  pub now : String
  pub embed_lead : NewLead F → Outcome (List F)
  pub embed_query : String → Outcome (List F)
  pub insert_id : Outcome String
  -- the newest first, the first of them, and the two searches
  pub newest : ℕ → List (LeadDocument F) → Outcome (List (LeadDocument F))
  pub vector_search : List F → ℕ → ℕ → List (LeadDocument F) → Outcome (List (LeadDocument F × F))
  pub text_search : String → ℕ → List (LeadDocument F) → Outcome (List (LeadDocument F))
  -- `new ObjectId(id)`
  pub object_id : String → Outcome String

-- `connected` is the module's `db`. The documents stand in a list of `LeadDb`, the latest last.
pub record LeadDb (F : Type 0) : Type 0 where
  pub connected : Bool
  pub leads : List (LeadDocument F)

module _ {F : Type 0} (mongo : Mongo F) where
  abbrev pub response_of : Option F → LeadDocument F → LeadResponse F
  response_of similarity doc = record {
    id = doc.id;
    domain = doc.lead.domain;
    company_name = doc.lead.company_name;
    description = doc.lead.description;
    industry = doc.lead.industry;
    contacts = doc.lead.contacts;
    funding = doc.lead.funding;
    technologies = doc.lead.technologies;
    researched_at = doc.researched_at;
    source_urls = doc.lead.source_urls;
    similarity = similarity;
  }

  -- `getDb`: the connection is kept once it is there.
  unfoldable pub get_db : LeadDb F → Outcome (Unit {0}) × LeadDb F
  get_db db =
      if db.connected
      then (returned tt, db)
      else if mongo.uri == ""
      then (raised (some "MONGODB_URI environment variable is not set"), db)
      else elim mongo.connect [
        | raised e ↦ (raised e, db)
        | returned _ ↦ (returned tt, record db { connected = true })
      ]

  -- A call that needs the collection.
  abbrev pub with_leads :
      {A : Type 0} → (LeadDb F → Outcome A × LeadDb F) → LeadDb F → Outcome A × LeadDb F
  with_leads k db =
      let (o, db') = get_db db in elim o [ raised e ↦ (raised e, db') | returned _ ↦ k db' ]

  abbrev kept_embedding : Outcome (List F) → Option (List F)
  kept_embedding (returned v) = some v
  kept_embedding (raised e) = none

  abbrev pub document : NewLead F → String → LeadDocument F
  document lead id = record {
    id = id;
    lead = lead;
    embedding = kept_embedding (mongo.embed_lead lead);
    researched_at = mongo.now;
  }

  unfoldable pub save_lead : NewLead F → LeadDb F → Outcome (LeadResponse F) × LeadDb F
  unfolding get_db
  save_lead lead = with_leads λ db. elim mongo.insert_id [
    | raised e ↦ (raised e, db)
    | returned id ↦ (
      returned (response_of none (document lead id)),
      record db { leads = db.leads ++ (document lead id ∷ []) },
    )
  ]

  abbrev answers : Outcome (List (LeadDocument F)) → Outcome (List (LeadResponse F))
  answers (raised e) = raised e
  answers (returned docs) = returned (map (response_of none) docs)

  pub get_leads : ℕ → LeadDb F → Outcome (List (LeadResponse F)) × LeadDb F
  unfolding get_db
  get_leads limit = with_leads λ db. (answers (mongo.newest limit db.leads), db)

  pub text_search_leads : String → ℕ → LeadDb F → Outcome (List (LeadResponse F)) × LeadDb F
  unfolding get_db
  text_search_leads query limit =
      with_leads λ db. (answers (mongo.text_search query limit db.leads), db)

  -- Where the vector search throws, or the query has no embedding, the texts are searched.
  abbrev scored : LeadDocument F × F → LeadResponse F
  scored (doc, score) = response_of (some score) doc

  pub search_leads : String → ℕ → LeadDb F → Outcome (List (LeadResponse F)) × LeadDb F
  unfolding get_db text_search_leads
  search_leads query limit = with_leads λ db. elim (mongo.embed_query query) [
    | raised e ↦ text_search_leads query limit db
    | returned v ↦ elim (mongo.vector_search v (limit * 10) limit db.leads) [
      | raised e ↦ text_search_leads query limit db
      | returned found ↦ (returned (map scored found), db)
    ]
  ]

  abbrev found_lead : Option (LeadDocument F) → Option (LeadResponse F)
  found_lead = Option.map (response_of none)

  pub get_lead_by_id : String → LeadDb F → Outcome (Option (LeadResponse F)) × LeadDb F
  unfolding get_db
  get_lead_by_id id = with_leads λ db. elim (mongo.object_id id) [
    | raised e ↦ (raised e, db)
    | returned key ↦ (returned (found_lead (find (λ d. d.id == key) db.leads)), db)
  ]
