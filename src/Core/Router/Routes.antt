-- ===== src/Core/Router/Routes.antt =====
-- Which handler the router runs, and what it answers where there is none.
use obmc_webapp.Prelude.{ℕ, String, ◌≡◌, refl, Bool, true, Option, none, some}
use obmc_webapp.Prelude.Maps.{find, string_key}
use obmc_webapp.Helpers.Compare.{OpenSsl}
use obmc_webapp.Core.Exceptions.{ok}
use obmc_webapp.Core.Request.{Request}
use obmc_webapp.Core.Response.{fresh}
use obmc_webapp.Service.Json.{JsonReader}
use obmc_webapp.Service.Session.Store.{SessionStore}
use obmc_webapp.Service.Authorization.{Auth, AuthTimes, authenticate}
use obmc_webapp.Service.Authorization.Outcomes.{authenticate_accepted}
use obmc_webapp.Service.Configuration.{ConfigState, read_data}
use obmc_webapp.Core.Router.{
  RouteHandler, Routes, Router, built, find_handler, pre_handle, pre_handler, run_handler, dispatch,
  serve, process,
}

module _ (interface : RouteHandler) (routes : Routes interface) (reader : JsonReader)
    (ssl : OpenSsl) (readings : ℕ → ℕ) where
  open reader use {Json}
  open interface use {Handler, run, pre_handlers}

  module _ (t : AuthTimes) (booting : Option Bool) (request : Request)
      (unknown : find request.environment.request_uri routes ≡ none) where
    -- The request with the response as the router has built it.
    abbrev start : SessionStore → Auth
    start store = record { store = store; request = request; response = fresh }

    abbrev after : Auth → Router interface
    after a = record { request = a.request; response = a.response; handler = none }

  module _ (t : AuthTimes) (booting : Option Bool) (r : Router interface)
      (builder : String → Handler)
      (known : find r.request.environment.request_uri routes ≡ some builder) where
    -- The handler object as `preHandlers` leaves it.
    abbrev pub prepared : Handler
    prepared = (pre_handlers (builder r.request.environment.request_uri) r.request).0

    find_handler_lem :
        r.handler ≡ none
        → find_handler interface routes r.request.environment.request_uri r.handler
          ≡ some (builder r.request.environment.request_uri)
    unfolding find_handler built
    find_handler_lem unset = rw (unset, known) refl

    pre_handler_lem :
        r.handler ≡ none → (pre_handler interface routes r).0 ≡ record r { handler = some prepared }
    unfolding pre_handler pre_handle
    pre_handler_lem unset = rw (find_handler_lem unset) refl

    -- After `preHandler` has built the handler of a registered URI, a `process` that reads the file
    -- and lets the request in runs that same handler object, as `preHandlers` has left it, on the
    -- request with its session and on the response as it was; the response, the handler object and
    -- the outcome are those of this run.
    pub process-pre_handler :
        (file : Option (Option Json)) (c : ConfigState)
        → r.handler ≡ none
        → r.request.user_session ≡ none
        → (read_data reader ssl readings file c).1 ≡ ok tt
        → let c' = (read_data reader ssl readings file c).0 in
          let a : Auth = record { store = c'.store; request = r.request; response = r.response } in
          let (a', granted) = authenticate ssl t booting a in
          (granted ≡ ok true)
          → let (c'', (r', outcome)) =
              process interface reader ssl readings file t booting routes c
                (pre_handler interface routes r).0 in
            let ran = run prepared a'.request r.response in
            (r'.response ≡ ran.0.1)
            × (r'.handler ≡ some ran.0.0)
            × (outcome ≡ ran.1)
            × (r'.request ≡ a'.request)
            × (c''.store ≡ a'.store)
    unfolding process serve dispatch run_handler find_handler
    process-pre_handler file c unset none_yet read granted =
        let a : Auth = record {
          store = (read_data reader ssl readings file c).0.store;
          request = r.request;
          response = r.response;
        } in
        let (same, _) = authenticate_accepted ssl t booting a none_yet granted in
        rw (pre_handler_lem unset, read, granted, same) (refl, refl, refl, refl, refl)
