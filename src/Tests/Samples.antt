-- ===== src/Tests/Samples.antt =====
-- Concrete inputs: a comparison of bytes, a small reader of JSON, a session and requests that show
-- it, and a handler that echoes.
use obmc_webapp.Prelude.{
  ℕ, suc, ◌*◌, String, ◌≡◌, ◌↔◌, refl, Bool, true, false, Option, none, some, List, [], ◌∷◌, str_eq,
  str_eq_iff, if◌then◌else◌, Bool-cases, inl, inr,
}
use obmc_webapp.Prelude.Integers.{ℤ, pos}
use obmc_webapp.Helpers.Compare.{OpenSsl}
use obmc_webapp.Http.Status.{created}
use obmc_webapp.Core.Exceptions.{Result, ok}
use obmc_webapp.Core.Request.{Environment, Request}
use obmc_webapp.Core.Response.{Response, fresh, push, set_status}
use obmc_webapp.Core.Router.{RouteHandler, Routes}
use obmc_webapp.Service.Json.{JsonReader}
use obmc_webapp.Service.Session.User.{UserSession, fresh_session}
use obmc_webapp.Service.Session.Store.{SessionStore, fresh_store, second}
use obmc_webapp.Service.Authorization.{Auth, AuthTimes, LoginTimes}
use obmc_webapp.Service.Configuration.{ConfigState}

abbrev pub compare_bytes : String → String → ℕ → ℕ
compare_bytes a b size = if str_eq a b then 0 else 1

pub compare_bytes_iff : (a b : String) (size : ℕ) → (compare_bytes a b size ≡ 0) ↔ (a ≡ b)
compare_bytes_iff a b size = elim (Bool-cases (str_eq a b)) [
  | inl same ↦ rw same ((λ h. (str_eq_iff a b).0 same), λ h. refl)
  | inr other ↦ rw other ((λ h. cc), λ h. cc (other, (str_eq_iff a b).1 h))
]

abbrev pub ssl : OpenSsl
ssl = record {
  crypto_memcmp = compare_bytes;
  memcmp_zero_iff = λ a b size e f. compare_bytes_iff a b size;
}

mutual
  pub data Value : Type 0 where
    text : String → Value
    flag : Bool → Value
    number : ℕ → Value
    members : Members → Value

  pub data Members : Type 0 where
    nil : Members
    more : String → Value → Members → Members

abbrev to_list : Members → List (String × Value)
to_list nil = []
to_list (more key value rest) = (key, value) ∷ to_list rest

abbrev values : Members → List Value
values nil = []
values (more key value rest) = value ∷ values rest

abbrev items : Value → List (String × Value)
items (members m) = to_list m
items _ = []

abbrev elements : Value → List Value
elements (members m) = values m
elements _ = []

abbrev get_string : Value → Option String
get_string (text t) = some t
get_string _ = none

abbrev get_bool : Value → Option Bool
get_bool (flag b) = some b
get_bool _ = none

abbrev get_uint : Value → Option ℕ
get_uint (number n) = some n
get_uint _ = none

abbrev get_int : Value → Option ℤ
get_int (number n) = some (pos n)
get_int _ = none

abbrev pub reader : JsonReader
reader = record {
  Json = Value;
  items = items;
  elements = elements;
  get_string = get_string;
  get_bool = get_bool;
  get_uint = get_uint;
  get_int = get_int;
}

abbrev pub token : String
token = "abcdefghij0123456789"

abbrev pub csrf : String
csrf = "9876543210jihgfedcba"

abbrev pub session_value : Value
session_value = members (
    more "unique_id" (text "u1") (
      more "session_token" (text token) (
        more "csrf_token" (text csrf)
          (more "username" (text "root") (more "client_ip" (text "::1") nil)))))

-- The file as bmcweb leaves it, with one session.
abbrev pub file : Value
file = members (
    more "system_uuid" (text "0000-1111")
      (more "sessions" (members (more "0" session_value nil)) (more "timeout" (number 60) nil)))

abbrev pub root : UserSession
root = record fresh_session {
  unique_id = "u1";
  session_token = token;
  csrf_token = csrf;
  username = "root";
  last_updated = 5 * second;
}

abbrev pub store : SessionStore
store = record fresh_store { auth_tokens = (token, root) ∷ [] }

abbrev pub post : Environment
post = record {
  others = ("HTTP_X_XSRF_TOKEN", csrf) ∷ [];
  cookies = ("SESSION", token) ∷ [];
  method_is_get = false;
  authorization = "";
  user_agent = "";
  content_type = "application/json";
  request_uri = "/graphql";
  post_buffer = "";
}

-- A cross-site request: it has the cookie, and not the header.
abbrev pub forged : Environment
forged = record post { others = [] }

abbrev pub basic : Environment
basic = record post { cookies = []; authorization = "Basic cm9vdA==" }

abbrev pub request_of : Environment → Request
request_of env = record { environment = env; user_session = none }

abbrev pub times : AuthTimes
times =
    let at : LoginTimes = record { now = 10 * second; later = 10 * second } in
    record { xtoken = at; cookie = at; token = at }

abbrev pub auth_of : Environment → Auth
auth_of env = record { store = store; request = request_of env; response = fresh }

abbrev pub config : ConfigState
config = record { store = store; system_uuid = "0000-1111"; reads = 0 }

abbrev pub readings : ℕ → ℕ
readings n = 10 * second

abbrev answer : ℕ → Request → Response → (ℕ × Response) × Result (Unit {0})
answer n request r = ((n, set_status created (push "{}" r)), ok tt)

-- A handler that counts the requests it has prepared.
abbrev pub echo : RouteHandler
echo = record { Handler = ℕ; run = answer; pre_handlers = λ n request. (suc n, ok true) }

abbrev pub routes : Routes echo
routes = ("/graphql", λ uri. 0) ∷ []
