-- ===== src/Service/Authorization.antt =====
-- src/service/authorization.hpp: who may use the service. The protection against cross-site
-- requests is compiled in (BMC_INSECURE_DISABLE_CSRF_PREVENTION is not defined). The session store,
-- a singleton of the program, is passed on explicitly.
pub mod Csrf
pub mod Grants
pub mod Steps
pub mod Outcomes
use Prim.Native.String.{slice}
use obmc_webapp.Prelude.{
  ℕ, String, len, Bool, true, false, not, ◌&&◌, ◌||◌, Option, none, some, List, str_eq, starts_with,
  ◌==◌, if◌then◌else◌,
}
use obmc_webapp.Prelude.Maps.{find, string_key}
use obmc_webapp.Http.Status.{unauthorized}
use obmc_webapp.Http.Headers.{www_authenticate}
use obmc_webapp.Helpers.Compare.{OpenSsl, constant_time_string_compare}
use obmc_webapp.Core.Exceptions.{Exception, obmc_app_exception, not_implemented, Result, ok, err}
use obmc_webapp.Core.Request.{Environment, Request, set_session, is_session_empty}
use obmc_webapp.Core.Response.{Response, set_status, set_header}
use obmc_webapp.Service.Session.User.{UserSession, session_token_size, is_permitted}
use obmc_webapp.Service.Session.Store.{SessionStore, login_session_by_token}

abbrev pub x_xsrf_token : String
x_xsrf_token = "HTTP_X_XSRF_TOKEN"

abbrev pub x_auth_token : String
x_auth_token = "HTTP_X_Auth_Token"

abbrev pub auth_basic : String
auth_basic = "Basic "

abbrev pub auth_token : String
auth_token = "Token "

abbrev pub cookie_session : String
cookie_session = "SESSION"

-- The two readings of the clock in a login: at the sweep, and when the session is found.
pub record LoginTimes : Type 0 where
  pub now : ℕ
  pub later : ℕ

module _ (ssl : OpenSsl) where
  abbrev pub login : SessionStore → String → LoginTimes → SessionStore × Option UserSession
  login store token t = login_session_by_token ssl store token t.now t.later

  unfoldable pub perform_token_auth :
      SessionStore → String → LoginTimes → SessionStore × Option UserSession
  perform_token_auth store header t = login store (slice header (len auth_token) (len header)) t

  -- the `catch` on `out_of_range`, and the test for an empty token
  unfoldable pub xtoken_auth :
      SessionStore → LoginTimes → Option String → SessionStore × Option UserSession
  xtoken_auth store t none = (store, none)
  xtoken_auth store t (some token) = if str_eq token "" then (store, none) else login store token t

  unfoldable pub perform_xtoken_auth :
      SessionStore → Environment → LoginTimes → SessionStore × Option UserSession
  perform_xtoken_auth store env t = xtoken_auth store t (find x_auth_token env.others)

  -- the header's token against the session's
  unfoldable pub csrf_matches : Option String → UserSession → Bool
  csrf_matches none u = false
  csrf_matches (some csrf) u =
      if str_eq csrf "" || str_eq u.csrf_token ""
      then false
      else if not (len csrf == session_token_size)
      then false
      else constant_time_string_compare ssl csrf u.csrf_token

  -- methods other than GET need the token
  unfoldable pub csrf_accepts : Environment → UserSession → Bool
  csrf_accepts env u =
      if env.method_is_get then true else csrf_matches (find x_xsrf_token env.others) u

  unfoldable pub checked : Environment → Option UserSession → Option UserSession
  checked env none = none
  checked env (some u) = if csrf_accepts env u then some u else none

  unfoldable pub cookie_auth :
      SessionStore → Environment → LoginTimes → Option String → SessionStore × Option UserSession
  cookie_auth store env t none = (store, none)
  cookie_auth store env t (some token) =
      let (store', session) = login store token t in (store', checked env session)

  unfoldable pub perform_cookie_auth :
      SessionStore → Environment → LoginTimes → SessionStore × Option UserSession
  perform_cookie_auth store env t = cookie_auth store env t (find cookie_session env.cookies)

-- What `authenticate` reads and writes: the store, the request and the response.
pub record Auth : Type 0 where
  pub store : SessionStore
  pub request : Request
  pub response : Response

-- The readings of the clock in each of the three logins.
pub record AuthTimes : Type 0 where
  pub xtoken : LoginTimes
  pub cookie : LoginTimes
  pub token : LoginTimes

-- `request->setSession(…)` with what a method answers
abbrev pub accept : Auth → SessionStore × Option UserSession → Auth
accept a (store, session) = record a { store = store; request = set_session session a.request }

abbrev pub basic_error : Exception
basic_error = not_implemented "Basic athorization not supported by BMC WEBAPP"

abbrev pub restricted_error : Exception
restricted_error = obmc_app_exception "authorization temporary restricted"

module _ (ssl : OpenSsl) where
  unfoldable pub try_xtoken : AuthTimes → Auth → Auth
  try_xtoken t a =
      if is_session_empty a.request && a.store.auth_methods_config.xtoken
      then accept a (perform_xtoken_auth ssl a.store a.request.environment t.xtoken)
      else a

  unfoldable pub try_cookie : AuthTimes → Auth → Auth
  try_cookie t a =
      if is_session_empty a.request && a.store.auth_methods_config.cookie
      then accept a (perform_cookie_auth ssl a.store a.request.environment t.cookie)
      else a

  -- any kind of header other than basic or token is passed over
  unfoldable pub try_header : AuthTimes → Auth → Result Auth
  try_header t a =
      let header = a.request.environment.authorization in
      if is_session_empty a.request && not (str_eq header "")
      then (if starts_with header auth_token && a.store.auth_methods_config.session_token
          then ok (accept a (perform_token_auth ssl a.store header t.token))
          else if starts_with header auth_basic && a.store.auth_methods_config.basic
          then err basic_error
          else ok a)
      else ok a

-- the answer to a request without a session
unfoldable pub refuse : Auth → Auth
refuse a =
    let r = set_status unauthorized a.response in
    record a {
      response =
          if str_eq a.request.environment.user_agent ""
          then set_header www_authenticate auth_basic r
          else r;
    }

-- `exists` is what the file system answers about the mark of a starting BMC; `none` if it throws
unfoldable pub conclude : Option Bool → Auth → Auth × Result Bool
conclude booting a =
    if is_session_empty a.request
    then (refuse a, ok false)
    else if not (is_permitted booting)
    then (a, err restricted_error)
    else (a, ok true)

-- What was written before an exception stays written.
unfoldable pub finish : Option Bool → Auth → Result Auth → Auth × Result Bool
finish booting tried (err e) = (tried, err e)
finish booting tried (ok a) = conclude booting a

module _ (ssl : OpenSsl) where
  unfoldable pub authenticate : AuthTimes → Option Bool → Auth → Auth × Result Bool
  authenticate t booting a =
      let tried = try_cookie ssl t (try_xtoken ssl t a) in
      finish booting tried (try_header ssl t tried)
