-- ===== src/Core/Router/Guarded.antt =====
-- What the router lets through to a handler.
use obmc_webapp.Prelude.{ℕ, ◌≡◌, ◌≢◌, refl, sym, ap, ◌∙◌, Bool, true, false, Option, none}
use obmc_webapp.Prelude.Maps.{string_key}
use obmc_webapp.Helpers.Compare.{OpenSsl}
use obmc_webapp.Core.Exceptions.{Result, ok, err}
use obmc_webapp.Core.Request.{Environment, Request}
use obmc_webapp.Core.Response.{Response}
use obmc_webapp.Service.Json.{JsonReader}
use obmc_webapp.Service.Session.User.{UserSession}
use obmc_webapp.Service.Authorization.{Auth, AuthTimes, authenticate}
use obmc_webapp.Service.Authorization.Grants.{Grant}
use obmc_webapp.Service.Authorization.Outcomes.{authenticate_sound}
use obmc_webapp.Service.Configuration.{ConfigState, read_data}
use obmc_webapp.Core.Router.{RouteHandler, Routes, Router, dispatch, serve, process}

module _ (reader : JsonReader) (ssl : OpenSsl) (readings : ℕ → ℕ) where
  open reader use {Json}

  -- Some session of the store, as it is after the file has been read, is shown by the request.
  abbrev pub Granted : Option (Option Json) → ConfigState → Environment → Type 0
  Granted file c env =
      let store = (read_data reader ssl readings file c).0.store in
      (u : UserSession) × Grant store.auth_methods_config env store.auth_tokens u

  -- What `authenticate` starts from.
  abbrev start : Option (Option Json) → ConfigState → Request → Response → Auth
  start file c request response = record {
    store = (read_data reader ssl readings file c).0.store;
    request = request;
    response = response;
  }

  abbrev verdict : Result Bool → Result (Unit {0})
  verdict (err e) = err e
  verdict (ok _) = ok tt

  -- The configuration, the response and the outcome, if no handler is reached.
  abbrev Denial : Type 0
  Denial = ConfigState × (Response × Result (Unit {0}))

  denied : ConfigState → Auth × Result Bool → Denial
  denied c (a, granted) = (record c { store = a.store }, (a.response, verdict granted))

  after_reading : AuthTimes → Option Bool → Auth → ConfigState → Result (Unit {0}) → Denial
  after_reading t booting a c (err e) = (c, (a.response, err e))
  after_reading t booting a c (ok _) = denied c (authenticate ssl t booting a)

  denial :
      Option (Option Json) → AuthTimes → Option Bool → ConfigState → Request → Response → Denial
  denial file t booting c request response =
      let (c', outcome) = read_data reader ssl readings file c in
      after_reading t booting (start file c request response) c' outcome

  module _ (interface : RouteHandler) (routes : Routes interface) (file : Option (Option Json))
      (t : AuthTimes) (booting : Option Bool) (c : ConfigState) (r : Router interface) where
    dispatch-denied :
        (a : Auth) (granted : Result Bool)
        → granted ≢ ok true
        → let r' = record r { request = a.request; response = a.response } in
          let (r'', outcome) = dispatch interface routes r' granted in
          (r''.response ≡ a.response) × (outcome ≡ verdict granted) × (r''.handler ≡ r.handler)
    unfolding dispatch
    dispatch-denied a (err e) other = (refl, refl, refl)
    dispatch-denied a (ok false) other = (refl, refl, refl)
    dispatch-denied a (ok true) other = absurd (other refl)

    serve-denied :
        (c' : ConfigState) (read : Result (Unit {0}))
        → let a : Auth = record { store = c'.store; request = r.request; response = r.response } in
          (authenticate ssl t booting a).1 ≢ ok true
          → let (c'', (r', outcome)) =
              serve interface reader ssl readings t booting routes c' r read in
            ((c'', (r'.response, outcome)) ≡ after_reading t booting a c' read)
            × (r'.handler ≡ r.handler)
    unfolding serve after_reading denied
    serve-denied c' (err e) other = (refl, refl)
    serve-denied c' (ok _) other =
        let a : Auth = record { store = c'.store; request = r.request; response = r.response } in
        let (response, outcome, handler) =
          dispatch-denied (authenticate ssl t booting a).0 _ other in
        (rw (response, outcome) refl, handler)

    process-denial :
        r.request.user_session ≡ none
        → ¬ Granted file c r.request.environment
        → let (c', (r', outcome)) =
            process interface reader ssl readings file t booting routes c r in
          ((c', (r'.response, outcome)) ≡ denial file t booting c r.request r.response)
          × (r'.handler ≡ r.handler)
    unfolding process denial
    process-denial fresh_request nothing = serve-denied _ _ λ passed.
        let (u, _, grant, _) =
          authenticate_sound ssl t booting (start file c r.request r.response) fresh_request
            passed in
        nothing (u, grant)

  -- A request that starts with no session, and shows none of those that the store has once the file
  -- has been read, reaches no handler: for any two kinds of handlers, any two maps of routes and
  -- any two routers with that request and the same response, the configuration, the response and
  -- the outcome of `process` are the same, and the handler object of each router stays as it was.
  pub process_denied :
      (first second : RouteHandler) (routes : Routes first) (routes' : Routes second)
      (file : Option (Option Json)) (t : AuthTimes) (booting : Option Bool) (c : ConfigState)
      (r : Router first) (r' : Router second)
      → r.request ≡ r'.request
      → r.response ≡ r'.response
      → r.request.user_session ≡ none
      → ¬ Granted file c r.request.environment
      → let (c1, (r1, outcome1)) = process first reader ssl readings file t booting routes c r in
        let (c2, (r2, outcome2)) = process second reader ssl readings file t booting routes' c r' in
        (c1 ≡ c2)
        × (r1.response ≡ r2.response)
        × (outcome1 ≡ outcome2)
        × (r1.handler ≡ r.handler)
        × (r2.handler ≡ r'.handler)
  process_denied first second routes routes' file t booting c r r' e f fresh_request nothing =
      let (one, kept) = process-denial first routes file t booting c r fresh_request nothing in
      let (two, kept') =
        process-denial second routes' file t booting c r' (rw (← e) fresh_request)
          (rw (← e) nothing) in
      let both =
        one
        ∙ ap (λ q. denial file t booting c q r.response) e
        ∙ ap (λ a. denial file t booting c r'.request a) f
        ∙ sym two in
      (ap (λ d. d.0) both, ap (λ d. d.1.0) both, ap (λ d. d.1.1) both, kept, kept')
