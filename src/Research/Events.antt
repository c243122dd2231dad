-- ===== src/Research/Events.antt =====
-- oragami-frontend/lib/tinyfish.ts: `streamTinyFishResearch`. The answers of `fetch`, of the reader
-- and of `JSON.parse`, and the functions on texts are those of an `Agent`.
use oragami.Prelude.{
  ℕ, zero, suc, String, Bool, true, false, not, ◌&&◌, Option, none, some, List, [], ◌∷◌, ◌++◌,
  if◌then◌else◌, ◌==◌, string_eq, nat_eq, ◌otherwise◌, ◌<|>◌,
}
use oragami.Js.Json.{Json}
use oragami.Six.Service.{property}
use oragami.Research.Lines.{Text, Bytes, Decoder, decoded, read_lines}

-- `undefined` messages and urls are `none`.
pub data TinyFishEvent (F : Type 0) : Type 0 where
  started : TinyFishEvent F
  progress : Json F → TinyFishEvent F
  streaming_url : Option (Json F) → TinyFishEvent F
  complete : Json F → TinyFishEvent F
  error : Json F → TinyFishEvent F

-- How the reader ends: with `done`, or by a throw with this text.
pub data Ending : Type 0 where
  done : Ending
  broken : String → Ending

-- `thrown` is a throw of `fetch` itself, with the message of an `Error`.
pub data AgentResponse : Type 0 where
  thrown : Option String → AgentResponse
  not_ok : String → AgentResponse
  no_body : AgentResponse
  body : List Bytes → Ending → AgentResponse

pub record TinyFishRequest : Type 0 where
  pub url : String
  pub goal : String
  pub max_steps : Option ℕ

pub record Agent (F : Type 0) : Type 0 where
  pub starts_with : String → String → Bool
  pub append : String → String → String
  -- the url, the goal, `max_steps` and the key; a refusal comes with its text `API Error: …`
  pub fetch : String → String → ℕ → String → AgentResponse
  pub decoder : Decoder
  pub trim : Text → Text
  pub parse : Text → Option (Json F)
  pub to_upper : String → String
  pub code_units : String → Text
  -- whether a number counts as true
  pub is_true : F → Bool

-- `text.startsWith(prefix)`
abbrev starts : Text → Text → Bool
starts text [] = true
starts [] (p ∷ ps) = false
starts (c ∷ cs) (p ∷ ps) = c == p && starts cs ps

-- `text.slice(n)`
abbrev slice : ℕ → Text → Text
slice zero text = text
slice (suc n) [] = []
slice (suc n) (c ∷ cs) = slice n cs

abbrev same_text : Text → Text → Bool
same_text [] [] = true
same_text (c ∷ cs) (d ∷ ds) = c == d && same_text cs ds
same_text _ _ = false

module _ {F : Type 0} (agent : Agent F) where
  -- The value, if it counts as true.
  abbrev pub truthy_json : Option (Json F) → Option (Json F)
  truthy_json none = none
  truthy_json (some Json.null) = none
  truthy_json (some (Json.bool b)) = if b then some (Json.bool b) else none
  truthy_json (some (Json.num x)) = if agent.is_true x then some (Json.num x) else none
  truthy_json (some (Json.str s)) = if s == "" then none else some (Json.str s)
  truthy_json (some (Json.arr xs)) = some (Json.arr xs)
  truthy_json (some (Json.obj fs)) = some (Json.obj fs)

  -- `data[k] || …` for a property that is asked for by its name
  abbrev pub truthy_field : String → Json F → Option (Json F)
  truthy_field k data_ = truthy_json (property k data_)

  -- `(data.type || data.event || "").toUpperCase()`; `none` where it throws.
  abbrev upper_case : Option (Json F) → Option String
  upper_case none = some (agent.to_upper "")
  upper_case (some (Json.str s)) = some (agent.to_upper s)
  upper_case (some v) = none

  abbrev event_type : Json F → Option String
  event_type Json.null = none
  event_type v = upper_case (truthy_field "type" v <|> truthy_field "event" v)

  abbrev of_type : String → Json F → List (TinyFishEvent F)
  of_type t v =
      if t == "STARTED"
      then started ∷ []
      else if t == "PROGRESS"
      then progress (
          (truthy_field "purpose" v <|> truthy_field "message" v <|> truthy_field "step" v)
          otherwise Json.str "Processing...")
        ∷ []
      else if t == "HEARTBEAT"
      then []
      else if t == "STREAMING_URL"
      then streaming_url (truthy_field "streaming_url" v <|> property "url" v) ∷ []
      else if t == "COMPLETE"
      then complete ((truthy_field "result" v <|> truthy_field "data" v) otherwise v) ∷ []
      else if t == "ERROR"
      then error
          ((truthy_field "message" v <|> truthy_field "error" v) otherwise Json.str "Unknown error")
        ∷ []
      else elim (truthy_field "message" v) [ none ↦ [] | some m ↦ progress m ∷ [] ]

  -- The events of one JSON value: what throws is skipped.
  abbrev events_of : Option (Json F) → List (TinyFishEvent F)
  events_of none = []
  events_of (some v) = elim (event_type v) [ none ↦ [] | some t ↦ of_type t v ]

  -- The events of one line.
  unfoldable pub line_events : Text → List (TinyFishEvent F)
  line_events line =
      if not (starts line (agent.code_units "data:"))
      then []
      else if same_text (agent.trim (slice 5 line)) (agent.code_units "[DONE]")
      then []
      else events_of (agent.parse (agent.trim (slice 5 line)))

  unfoldable pub all_events : List Text → List (TinyFishEvent F)
  unfolding line_events
  all_events [] = []
  all_events (line ∷ lines) = line_events line ++ all_events lines

  abbrev end_events : Ending → List (TinyFishEvent F)
  end_events done = []
  end_events (broken text) = error (Json.str text) ∷ []

  -- What is yielded, and a throw of `fetch` that ends it.
  unfoldable pub events_of_response :
      AgentResponse → List (TinyFishEvent F) × Option (Option String)
  unfolding all_events read_lines decoded
  events_of_response (thrown e) = ([], some e)
  events_of_response (not_ok text) = (error (Json.str text) ∷ [], none)
  events_of_response no_body = (error (Json.str "No response body") ∷ [], none)
  events_of_response (body chunks ending) =
      (all_events (read_lines [] (decoded agent.decoder [] chunks)) ++ end_events ending, none)

  -- `request.maxSteps || 20`
  abbrev steps : Option ℕ → ℕ
  steps none = 20
  steps (some n) = if n == 0 then 20 else n

  unfoldable pub stream_tiny_fish_research :
      TinyFishRequest → String → List (TinyFishEvent F) × Option (Option String)
  unfolding events_of_response
  stream_tiny_fish_research request key =
      let url =
        if agent.starts_with request.url "http"
        then request.url
        else agent.append "https://" request.url in
      events_of_response (agent.fetch url request.goal (steps request.max_steps) key)
