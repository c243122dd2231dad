-- ===== src/Research/Lead.antt =====
-- oragami-frontend/lib/tinyfish.ts: `createLeadResearchGoal` and `parseLeadFromResult`. Casts by `as`
-- check nothing, so most fields may hold any JSON value.
use oragami.Prelude.{
  String, Bool, false, Option, none, some, List, [], ◌∷◌, if◌then◌else◌, ◌==◌, string_eq,
  ◌otherwise◌, ◌<|>◌,
}
use oragami.Js.Json.{Json, Items, nil, cons}
use oragami.Six.Service.{property, truthy}
use oragami.Research.Events.{Agent, truthy_field}

pub record Contact (F : Type 0) : Type 0 where
  pub name : Json F
  pub title : Json F
  pub email : Option (Json F)
  pub linkedin : Option (Json F)

pub record LeadData (F : Type 0) : Type 0 where
  pub company_name : Json F
  pub description : Json F
  pub industry : Json F
  pub contacts : List (Contact F)
  pub funding : Option (Json F)
  pub technologies : List String
  pub source_urls : List String
  pub raw_content : String

-- The functions on texts and JSON that the parser calls.
pub record Texts (F : Type 0) : Type 0 where
  -- `domain` without one of five top-level domains at its end
  pub without_suffix : String → String
  -- `String(value)`, `JSON.stringify(value)`, `text.split(",")` with each part trimmed
  pub show : Json F → String
  pub stringify : Json F → String
  pub split_commas : String → List String
  -- the goal that names the domain
  pub base_goal : String → String
  -- the text of the TypeError for an item that is `null`
  pub type_error : String

-- The goal of the request, if it has one.
abbrev pub create_lead_research_goal : {F : Type 0} → Texts F → String → Option String → String
create_lead_research_goal texts domain custom_goal =
    truthy custom_goal otherwise texts.base_goal domain

module _ {F : Type 0} (agent : Agent F) (texts : Texts F) where
  -- `String` of each item.
  shown : Items F → List String
  shown nil = []
  shown (cons x xs) = texts.show x ∷ shown xs

  abbrev is_unknown : Json F → Bool
  is_unknown (Json.str s) = s == "Unknown"
  is_unknown v = false

  abbrev contact_of : Json F → Contact F
  contact_of c = record {
    name = truthy_field agent "name" c otherwise Json.str "Unknown";
    title =
        (truthy_field agent "title" c
          <|> truthy_field agent "role" c
          <|> truthy_field agent "position" c)
        otherwise Json.str "";
    email = property "email" c;
    linkedin = truthy_field agent "linkedin" c <|> truthy_field agent "linkedin_url" c;
  }

  -- The contacts with a name; `none` for the TypeError on an item that is `null`.
  unfoldable pub contacts_of : Items F → Option (List (Contact F))
  contacts_of nil = some []
  contacts_of (cons Json.null xs) = none
  contacts_of (cons c xs) = elim (contacts_of xs) [
    | none ↦ none
    | some cs ↦ if is_unknown (contact_of c).name then some cs else some (contact_of c ∷ cs)
  ]

  unfoldable pub parse_contacts : Option (Json F) → Option (List (Contact F))
  unfolding contacts_of
  parse_contacts (some (Json.arr xs)) = contacts_of xs
  parse_contacts _ = some []

  parse_technologies : Option (Json F) → List String
  unfolding shown
  parse_technologies (some (Json.arr xs)) = shown xs
  parse_technologies (some (Json.str s)) = texts.split_commas s
  parse_technologies _ = []

  parse_source_urls : Option (Json F) → List String
  unfolding shown
  parse_source_urls (some (Json.arr xs)) = shown xs
  parse_source_urls _ = []

  raw_content_of : Option (Json F) → Json F → String
  raw_content_of (some (Json.str s)) v = s
  raw_content_of _ v = texts.stringify v

  -- `none` where it throws.
  unfoldable pub parse_lead_from_result : String → Json F → Option (LeadData F)
  unfolding parse_contacts parse_technologies parse_source_urls raw_content_of
  parse_lead_from_result domain result =
      let first : String → Option (Json F) = λ k. truthy_field agent k result in
      let extracted = (first "extracted" <|> first "result" <|> first "data") otherwise result in
      let get : String → Option (Json F) = λ k. truthy_field agent k extracted in
      elim (parse_contacts (get "contacts" <|> get "team" <|> get "people")) [
        | none ↦ none
        | some contacts ↦ some (record {
          company_name =
              (get "companyName" <|> get "company_name" <|> get "name")
              otherwise Json.str (texts.without_suffix domain);
          description = (get "description" <|> get "about") otherwise Json.str "";
          industry = (get "industry" <|> get "sector") otherwise Json.str "Technology";
          contacts = contacts;
          funding = get "funding" <|> get "funding_news";
          technologies = parse_technologies (get "technologies" <|> get "tech_stack");
          source_urls = parse_source_urls (get "source_urls" <|> get "urls");
          raw_content = raw_content_of (property "raw" extracted) extracted;
        })
      ]
