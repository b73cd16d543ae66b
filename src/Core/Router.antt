-- ===== src/Core/Router.antt =====
-- src/core/router.hpp and src/core/router.cpp: from an authenticated request to the handler of its
-- URI. What is logged is left out. The request is shared with the connection, which passes it on
-- here.
pub mod Guarded
pub mod Routes
use obmc_webapp.Prelude.{ℕ, String, Bool, true, false, Option, none, some, List}
use obmc_webapp.Prelude.Maps.{find, emplace, string_key}
use obmc_webapp.Helpers.Compare.{OpenSsl}
use obmc_webapp.Core.Exceptions.{Exception, Result, ok, err}
use obmc_webapp.Core.Request.{Request}
use obmc_webapp.Core.Response.{Response, fresh}
use obmc_webapp.Service.Json.{JsonReader}
use obmc_webapp.Service.Authorization.{Auth, AuthTimes, authenticate}
use obmc_webapp.Service.Configuration.{ConfigState, read_data}

-- `IRouteHandler`: an object that the router builds, with a state that both methods may change.
-- Neither changes the request. What a method has written before it throws stays written.
pub record RouteHandler : Type 1 where
  pub Handler : Type 0
  pub run : Handler → Request → Response → (Handler × Response) × Result (Unit {0})
  pub pre_handlers : Handler → Request → Handler × Result Bool

module _ (interface : RouteHandler) where
  open interface use {Handler, run, pre_handlers}

  -- `RouteMap`
  abbrev pub Routes : Type 0
  Routes = List (String × (String → Handler))

  pub record Router : Type 0 where
    pub request : Request
    pub response : Response
    pub handler : Option Handler

  -- `registerUri`
  unfoldable pub register_uri : String → (String → Handler) → Routes → Routes
  register_uri pattern builder routes = emplace pattern builder routes

  -- the constructor
  abbrev pub new_router : Request → Router
  new_router request = record { request = request; response = fresh; handler = none }

  -- `builder->second(builder->first)`
  unfoldable pub built : String → Option (String → Handler) → Option Handler
  built uri none = none
  built uri (some builder) = some (builder uri)

  -- the handler that the router has, or else the one that the map's entry for the URI builds
  unfoldable pub find_handler : Routes → String → Option Handler → Option Handler
  find_handler routes uri none = built uri (find uri routes)
  find_handler routes uri (some h) = some h

  unfoldable pub pre_handle : Router → Option Handler → Router × Result Bool
  pre_handle r none = (r, ok true)
  pre_handle r (some h) =
      let (h', answer) = pre_handlers h r.request in (record r { handler = some h' }, answer)

  unfoldable pub pre_handler : Routes → Router → Router × Result Bool
  pre_handler routes r =
      pre_handle r (find_handler routes r.request.environment.request_uri r.handler)

  unfoldable pub run_handler : Router → Option Handler → Router × Result (Unit {0})
  run_handler r none = (r, ok tt)
  run_handler r (some h) =
      let ((h', response), outcome) = run h r.request r.response in
      (record r { response = response; handler = some h' }, outcome)

  -- what follows `authenticate`
  unfoldable pub dispatch : Routes → Router → Result Bool → Router × Result (Unit {0})
  dispatch routes r (err e) = (r, err e)
  dispatch routes r (ok false) = (r, ok tt)
  dispatch routes r (ok true) =
      run_handler r (find_handler routes r.request.environment.request_uri r.handler)

  module _ (reader : JsonReader) (ssl : OpenSsl) (readings : ℕ → ℕ) where
    open reader use {Json}

    -- what follows `readData`
    unfoldable pub serve :
        AuthTimes
        → Option Bool
        → Routes
        → ConfigState
        → Router
        → Result (Unit {0})
        → ConfigState × (Router × Result (Unit {0}))
    serve t booting routes c r (err e) = (c, (r, err e))
    serve t booting routes c r (ok _) =
        let start : Auth = record { store = c.store; request = r.request; response = r.response } in
        let (a, granted) = authenticate ssl t booting start in
        (
          record c { store = a.store },
          dispatch routes (record r { request = a.request; response = a.response }) granted,
        )

    unfoldable pub process :
        Option (Option Json)
        → AuthTimes
        → Option Bool
        → Routes
        → ConfigState
        → Router
        → ConfigState × (Router × Result (Unit {0}))
    process file t booting routes c r =
        let (c', outcome) = read_data reader ssl readings file c in
        serve t booting routes c' r outcome
