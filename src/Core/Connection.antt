-- ===== src/Core/Connection.antt =====
-- src/core/connection.hpp and src/core/connection.cpp: one request of the web server, from its
-- first bytes to the text that is sent back. fastcgi++ owns the environment of the request, which
-- the request only refers to: each call of fastcgi++ states the environment of its moment. What is
-- logged and the limit on the body's size, a number that is handed to fastcgi++, are left out.
pub mod Answer
use Prim.Native.String.{◌++◌}
use obmc_webapp.Prelude.{
  ℕ, ◌+◌, ◌%◌, ◌^◌, String, Bool, true, false, not, ◌&&◌, Option, none, some, str_eq, if◌then◌else◌,
}
use obmc_webapp.Prelude.Decimal.{to_string}
use obmc_webapp.Http.Headers.{content_type, application_json, content_length, date, header_status}
use obmc_webapp.Helpers.Compare.{OpenSsl}
use obmc_webapp.Core.Exceptions.{Exception, Result, ok, err}
use obmc_webapp.Core.Request.{Environment, Request, validate}
use obmc_webapp.Core.Response.{Response, set_header, total_size, get_headers}
use obmc_webapp.Core.Router.{RouteHandler, Routes, Router, new_router, pre_handler, process}
use obmc_webapp.Service.Json.{JsonReader}
use obmc_webapp.Service.Authorization.{AuthTimes}
use obmc_webapp.Service.Configuration.{ConfigState}

-- the request as it sees the environment of the moment
abbrev pub seen : Environment → Request → Request
seen env request = record request { environment = env }

module _ (interface : RouteHandler) where
  -- The router and the connection share the request.
  pub record Connection : Type 0 where
    pub total_bytes_recived : ℕ
    pub request : Option Request
    pub router : Option (Router interface)
    pub out : String

  -- the constructor
  abbrev pub new_connection : Connection
  new_connection = record { total_bytes_recived = 0; request = none; router = none; out = "" }

  -- `if (!request)`
  unfoldable pub requested : Environment → Option Request → Option Request
  requested env none = some (record { environment = env; user_session = none })
  requested env (some request) = some request

  -- The sum of `size_t` wraps around. fastcgi++ gives no negative number of bytes.
  unfoldable pub in_handler : Environment → ℕ → Connection → Connection
  in_handler env bytes_received c = record c {
    total_bytes_recived = (c.total_bytes_recived + bytes_received) % 2 ^ 64;
    request = requested env c.request;
  }

  -- `if (!router)`; the router's request is the connection's
  unfoldable pub routed : Request → Option (Router interface) → Router interface
  routed request none = new_router interface request
  routed request (some r) = record r { request = request }

  -- `request->validate() && router->preHandler()`
  unfoldable pub prepare :
      Routes interface → Request → Router interface → Connection → Connection × Result Bool
  prepare routes request r c =
      if validate request
      then (let (r', answer) = pre_handler interface routes r in
          (record c { request = some request; router = some r' }, answer))
      else (record c { request = some request; router = some r }, ok false)

  unfoldable pub in_process :
      Routes interface → Environment → Option Request → Connection → Connection × Result Bool
  in_process routes env none c = (c, ok false)
  in_process routes env (some request) c =
      prepare routes (seen env request) (routed (seen env request) c.router) c

  unfoldable pub in_processor :
      Routes interface → Environment → Connection → Connection × Result Bool
  in_processor routes env c =
      if str_eq env.content_type "" then (c, ok false) else in_process routes env c.request c

-- `std::endl` ends the status line with a line feed alone.
unfoldable pub write_header : String → Response → String → Response × String
write_header now response out =
    let response' = set_header date now (
      set_header content_length (to_string (total_size response))
        (set_header content_type application_json response)) in
    (response', out ++ (header_status response.status ++ "\n") ++ get_headers response')

module _ (interface : RouteHandler) where
  -- `out << *responsePtr`, unless `process` has thrown
  unfoldable pub write :
      String
      → Router interface × Result (Unit {0})
      → Connection interface
      → Connection interface × Result Bool
  write now (r, err e) c = (record c { request = some r.request; router = some r }, err e)
  write now (r, ok _) c =
      let (response', out') = write_header now r.response c.out in
      (
        record c {
          request = some r.request;
          router = some (record r { response = response' });
          out = out' ++ response'.internal_buffer;
        },
        ok true,
      )

  module _ (reader : JsonReader) (ssl : OpenSsl) (readings : ℕ → ℕ) where
    open reader use {Json}

    -- `response` with the router that the connection has; `now` is the formatted date
    unfoldable pub respond :
        Option (Option Json)
        → AuthTimes
        → Option Bool
        → Routes interface
        → String
        → Environment
        → ConfigState
        → Option (Router interface)
        → Connection interface
        → ConfigState × (Connection interface × Result Bool)
    respond file t booting routes now env config none c = (config, (c, ok false))
    respond file t booting routes now env config (some r) c =
        let r' = record r { request = seen env r.request } in
        let (config', answer) =
          process interface reader ssl readings file t booting routes config r' in
        (config', write now answer c)

    unfoldable pub response :
        Option (Option Json)
        → AuthTimes
        → Option Bool
        → Routes interface
        → String
        → Environment
        → ConfigState
        → Connection interface
        → ConfigState × (Connection interface × Result Bool)
    response file t booting routes now env config c =
        respond file t booting routes now env config c.router c
