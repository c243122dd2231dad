-- ===== src/Six/Service.antt =====
-- oragami-backend/src/data/six.service.ts: the token cache, the mTLS agent and the market data
-- call. What `ConfigService`, `fs`, `path`, `axios` and the clock answer during one call is a
-- `SixEnv`; `none` from a file or from axios stands for a throw. Logging is left out.
use oragami.Prelude.{
  ℕ, ◌+◌, String, Bool, false, not, ◌&&◌, ◌||◌, Option, none, some, List, ◌∷◌, ltb, leb, find,
  if◌then◌else◌, ◌==◌, string_eq, is_some, ◌<|>◌,
}
use mathlib.Core.Option
use oragami.Prelude.Int.{ℤ, pos, ltb_ℤ, pos_part}
use oragami.Prelude.Results.{ok, err, thrown, Action}
use oragami.Js.Floats.{Floats}
use oragami.Js.Json.{Json, get}

-- `https.Agent`: the PEM files are those of `dir`.
pub record Agent : Type 0 where
  pub dir : String
  pub passphrase : Option String

pub record Token (F : Type 0) : Type 0 where
  pub access_token : String
  pub expires_at_ms : F

-- `mtls_agent` is `none` before the first look, and `some none` for `null`.
pub record SixState (F : Type 0) : Type 0 where
  pub last_success_at : Option ℕ
  pub token_cache : Option (Token F)
  pub mtls_agent : Option (Option Agent)

-- What `axios.get` is called with.
pub record MarketRequest : Type 0 where
  pub scheme : String
  pub valor : String
  pub market_bc : String
  pub authorization : Option String
  pub agent : Option Agent

pub record SixEnv (F : Type 0) : Type 0 where
  -- the settings, by their names
  pub config : String → Option String
  -- `path.join(process.cwd(), …)` of the three fallback folders, `path.join`, `path.resolve`
  pub cwd_folders : List String
  pub join : String → String → String
  pub resolve : String → String
  pub exists : String → Bool
  pub read_file : String → Option String
  pub trim : String → String
  pub includes : String → String → Bool
  pub parse_int : String → Option ℤ
  pub axios_post : Option Agent → Option (ℕ × Json F)
  pub axios_get : MarketRequest → Option (ℕ × Json F)
  -- `Date.now()` at the start of the call, after the token call and after the market call
  pub now : ℕ
  pub token_at : ℕ
  pub data_at : ℕ

-- A text that counts as true: not undefined and not empty.
abbrev pub truthy : Option String → Option String
truthy none = none
truthy (some s) = if s == "" then none else some s

-- `status < 200 || status >= 300` is an error.
abbrev pub is_success : ℕ → Bool
is_success status = not (ltb status 200 || leb 300 status)

-- `raw[key]` of a response body; only an object has properties of these names.
abbrev pub property : {F : Type 0} → String → Json F → Option (Json F)
property key (Json.obj fs) = get key fs
property key _ = none

-- `typeof v === 'string' && v`
abbrev pub as_text : {F : Type 0} → Option (Json F) → Option String
as_text (some (Json.str s)) = truthy (some s)
as_text _ = none

-- `new https.Agent(…)` from the two files of a folder; `none` where reading them throws.
abbrev make_agent : String → Option String → Option String → Option String → Option Agent
make_agent dir passphrase (some cert) (some key) =
    some (record { dir = dir; passphrase = passphrase })
make_agent dir passphrase _ _ = none

module _ (fl : Floats) (env : SixEnv fl.Float) where
  open fl use {Float, of_nat, add, mul, gt, gt_zero}
  open env use {
    config, cwd_folders, join, resolve, exists, read_file, trim, includes, parse_int, axios_post,
    axios_get, now, token_at, data_at,
  }

  has_pems : String → Bool
  has_pems d = exists (join d "signed-certificate.pem") && exists (join d "private-key.pem")

  unfoldable pub resolve_data_cert_dir : Option String
  unfolding has_pems
  resolve_data_cert_dir =
      let candidates : List String = elim (truthy (Option.map trim (config "SIX_DATA_CERT_DIR"))) [
        | none ↦ cwd_folders
        | some d ↦ d ∷ cwd_folders
      ] in
      Option.map resolve (find has_pems candidates)

  -- The value, or `none` where reading the password file throws.
  unfoldable pub read_optional_passphrase : String → String → Option (Option String)
  read_optional_passphrase dir pem =
      if not (includes pem "ENCRYPTED")
      then some none
      else elim (truthy (Option.map trim (config "SIX_KEY_PASSPHRASE"))) [
        | some phrase ↦ some (some phrase)
        | none ↦
            if exists (join dir "password.txt")
            then Option.map (λ s. some (trim s)) (read_file (join dir "password.txt"))
            else some none
      ]

  -- The `try` block of `getMtlsAgent`.
  load_agent : String → Option Agent
  unfolding read_optional_passphrase
  load_agent dir = elim (read_file (join dir "private-key.pem")) [
    | none ↦ none
    | some pem ↦ elim (read_optional_passphrase dir pem) [
      | none ↦ none
      | some phrase ↦
          make_agent dir (truthy phrase) (read_file (join dir "signed-certificate.pem")) (some pem)
    ]
  ]

  unfoldable pub get_mtls_agent : SixState Float → Option Agent × SixState Float
  unfolding resolve_data_cert_dir load_agent
  get_mtls_agent s = elim s.mtls_agent [
    | some known ↦ (known, s)
    | none ↦
        let found : Option Agent = elim resolve_data_cert_dir [
          | none ↦ none
          | some dir ↦ load_agent dir
        ] in
        (found, record s { mtls_agent = some found })
  ]

  -- `expires_in` as a positive number or text, else an hour.
  unfoldable pub ttl_sec : Option (Json Float) → Float
  ttl_sec (some (Json.num x)) = if gt_zero x then x else of_nat 3600
  ttl_sec (some (Json.str t)) = elim (parse_int t) [
    | none ↦ of_nat 3600
    | some z ↦ if ltb_ℤ (pos 0) z then of_nat (pos_part z) else of_nat 3600
  ]
  ttl_sec _ = of_nat 3600

  -- What is kept of a token response.
  unfoldable pub store_token : Option (ℕ × Json Float) → SixState Float → SixState Float
  unfolding ttl_sec
  store_token none s = s
  store_token (some (status, raw)) s =
      if not (is_success status)
      then s
      else elim (as_text (property "access_token" raw) <|> as_text (property "accessToken" raw)) [
        | none ↦ s
        | some token ↦ record s {
          token_cache = some (record {
            access_token = token;
            expires_at_ms =
                add (of_nat now) (mul (ttl_sec (property "expires_in" raw)) (of_nat 1000));
          });
          last_success_at = some token_at;
        }
      ]

  abbrev is_configured : Bool
  is_configured =
      is_some (truthy (config "SIX_TOKEN_URL"))
      && is_some (truthy (config "SIX_CLIENT_ID"))
      && is_some (truthy (config "SIX_CLIENT_SECRET"))

  abbrev is_fresh : Option (Token Float) → Bool
  is_fresh none = false
  is_fresh (some t) = gt t.expires_at_ms (of_nat (now + 60000))

  unfoldable pub ping_token : SixState Float → SixState Float
  unfolding store_token get_mtls_agent
  ping_token s =
      if not is_configured
      then s
      else if is_fresh s.token_cache
      then record s { last_success_at = some token_at }
      else (let (agent, s') = get_mtls_agent s in store_token (axios_post agent) s')

  abbrev bearer : Option (Token Float) → Option String
  bearer none = none
  bearer (some t) = truthy (some t.access_token)

  -- From the token and the agent on.
  unfoldable pub query :
      String → String → String → Option String → Option Agent → Action (SixState Float) (Json Float)
  query scheme valor market_bc token agent s =
      if not (is_some token) && not (is_some agent)
      then (err (thrown "SIX intradaySnapshot needs OAuth token or mTLS PEMs"), s)
      else elim (axios_get (record {
        scheme = scheme;
        valor = valor;
        market_bc = market_bc;
        authorization = token;
        agent = agent;
      })) [
        | none ↦ (err (thrown "SIX intradaySnapshot request failed"), s)
        | some (status, body) ↦
            if not (is_success status)
            then (err (thrown "SIX intradaySnapshot HTTP"), s)
            else (ok body, record s { last_success_at = some data_at })
      ]

  unfoldable pub fetch_intraday_snapshot :
      String → String → String → Action (SixState Float) (Json Float)
  unfolding ping_token query
  fetch_intraday_snapshot scheme valor market_bc s =
      let s' = ping_token s in
      let (agent, s'') = get_mtls_agent s' in
      query scheme valor market_bc (bearer s''.token_cache) agent s''

  -- `getSixStatus().connected`
  unfoldable pub is_connected : SixState Float → Bool
  is_connected s = is_some s.last_success_at
