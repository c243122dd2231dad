-- ===== src/Six/Laws.antt =====
-- What a market data call of oragami-backend/src/data/six.service.ts has done when it answers.
use oragami.Prelude.{
  ℕ, String, ◌≡◌, ◌≤◌, ◌<◌, refl, inl, inr, true, ◌||◌, Option, none, some, arith, Option-cases,
  is_some,
}
use oragami.Prelude.Results.{ok}
use oragami.Js.Floats.{Floats}
use oragami.Js.Json.{Json}
use oragami.Six.Service.{
  Agent, MarketRequest, SixEnv, SixState, fetch_intraday_snapshot, get_mtls_agent, ping_token,
  store_token, query, is_connected,
}

module _ (fl : Floats) (env : SixEnv fl.Float) where
  open fl use {Float}

  -- The answer is the body of a response with a 2xx status to a request for the instrument, which
  -- was authorised by a token or an agent.
  abbrev pub Answers : String → String → String → Json Float → MarketRequest → ℕ → Type 0
  Answers scheme valor market_bc body request status =
      (env.axios_get request ≡ some (status, body))
      × (200 ≤ status)
      × (status < 300)
      × (request.scheme ≡ scheme)
      × (request.valor ≡ valor)
      × (request.market_bc ≡ market_bc)
      × ((is_some request.authorization || is_some request.agent) ≡ true)

  query-Answers :
      (scheme valor market_bc : String) (token : Option String) (agent : Option Agent)
      (s s' : SixState Float) (body : Json Float)
      → query fl env scheme valor market_bc token agent s ≡ (ok body, s')
      → (request : MarketRequest) × (status : ℕ) × (Answers scheme valor market_bc body request
            status
          × (is_connected fl env s' ≡ true))
  unfolding query is_connected
  query-Answers scheme valor market_bc token agent s s' body h =
      let request : MarketRequest = record {
        scheme = scheme;
        valor = valor;
        market_bc = market_bc;
        authorization = token;
        agent = agent;
      } in
      elim (Option-cases (env.axios_get request)) [
        | inl e ↦ absurd (ground arith)
        | inr ((status, answer), e) ↦ (request, status, ground arith)
      ]

  -- A market data call that succeeds has sent a request for its instrument with a bearer token or
  -- an mTLS agent, has returned the body of the response, whose status was 2xx, and leaves the
  -- service connected.
  pub fetch_intraday_snapshot-Answers :
      (scheme valor market_bc : String) (s s' : SixState Float) (body : Json Float)
      → fetch_intraday_snapshot fl env scheme valor market_bc s ≡ (ok body, s')
      → (request : MarketRequest) × (status : ℕ) × (Answers scheme valor market_bc body request
            status
          × (is_connected fl env s' ≡ true))
  unfolding fetch_intraday_snapshot
  fetch_intraday_snapshot-Answers scheme valor market_bc s s' body h =
      query-Answers scheme valor market_bc _ _ _ s' body h

  -- The service has been connected, and has looked up its agent.
  abbrev pub IsSettled : Option Agent → SixState Float → Type 0
  IsSettled known s = (s.mtls_agent ≡ some known) × (is_connected fl env s ≡ true)

  settled_agent :
      (known : Option Agent) (s : SixState Float)
      → s.mtls_agent ≡ some known
      → get_mtls_agent fl env s ≡ (known, s)
  unfolding get_mtls_agent
  settled_agent known s found = rw found refl

  store_token-IsSettled :
      (known : Option Agent) (response : Option (ℕ × Json Float)) (s : SixState Float)
      → IsSettled known s
      → IsSettled known (store_token fl env response s)
  unfolding store_token is_connected
  store_token-IsSettled known none s settled = settled
  store_token-IsSettled known (some (status, raw)) s settled = ground arith

  ping_token-IsSettled :
      (known : Option Agent) (s : SixState Float)
      → IsSettled known s
      → IsSettled known (ping_token fl env s)
  unfolding ping_token is_connected
  ping_token-IsSettled known s settled = ground (
    arith,
    settled_agent known s settled.0,
    store_token-IsSettled known (env.axios_post known) s settled,
  )

  query-IsSettled :
      (known : Option Agent) (request_scheme valor market_bc : String) (token : Option String)
      (agent : Option Agent) (s : SixState Float)
      → IsSettled known s
      → IsSettled known (query fl env request_scheme valor market_bc token agent s).1
  unfolding query is_connected
  query-IsSettled known scheme valor market_bc token agent s settled = ground arith

  -- Once the service has been connected it stays so, and an agent that was looked up, the missing
  -- one included, is never looked up again, whatever a market data call meets.
  fetch_intraday_snapshot-IsSettled :
      (scheme valor market_bc : String) (known : Option Agent) (s : SixState Float)
      → IsSettled known s
      → IsSettled known (fetch_intraday_snapshot fl env scheme valor market_bc s).1
  unfolding fetch_intraday_snapshot
  fetch_intraday_snapshot-IsSettled scheme valor market_bc known s settled =
      let pinged = ping_token-IsSettled known s settled in
      query-IsSettled known scheme valor market_bc _ _
        (get_mtls_agent fl env (ping_token fl env s)).1
        (rw (settled_agent known (ping_token fl env s) pinged.0) pinged)
