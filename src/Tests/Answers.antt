-- ===== src/Tests/Answers.antt =====
-- The theorems on the router and the connection at concrete inputs.
use Prim.Native.String.{◌++◌}
use obmc_webapp.Prelude.{len, ◌≡◌, inl, inr, refl, true, false, none, some, []}
use obmc_webapp.Prelude.Decimal.{to_string, read_from}
use obmc_webapp.Prelude.Maps.{find, string_key}
use obmc_webapp.Helpers.Compare.{constant_time_string_compare}
use obmc_webapp.Core.Exceptions.{ok}
use obmc_webapp.Core.Request.{Environment, is_session_empty, set_session}
use obmc_webapp.Core.Response.{fresh}
use obmc_webapp.Core.Router.{
  Router, new_router, find_handler, built, pre_handler, run_handler, dispatch, serve, process,
}
use obmc_webapp.Core.Router.Guarded.{Granted, process_denied}
use obmc_webapp.Core.Router.Routes.{process-pre_handler}
use obmc_webapp.Core.Connection.{Connection, response}
use obmc_webapp.Core.Connection.Answer.{answer_text, response_lem}
use obmc_webapp.Service.Session.User.{is_permitted}
use obmc_webapp.Service.Session.Store.{
  apply_session_timeouts, is_due, is_expired, nanoseconds, has_passed, erase_expired, visit_entry,
  find_token, touch, login_found, login_session_by_token,
}
use obmc_webapp.Service.Authorization.{
  Auth, perform_token_auth, xtoken_auth, perform_xtoken_auth, csrf_matches, csrf_accepts, checked,
  cookie_auth, perform_cookie_auth, try_xtoken, try_cookie, try_header, conclude, finish,
  authenticate,
}
use obmc_webapp.Service.Authorization.Grants.{by_xtoken, by_cookie, by_token}
use obmc_webapp.Service.Configuration.{read_data}
use obmc_webapp.Tests.Samples.{
  ssl, reader, readings, post, forged, basic, request_of, times, config, echo, routes,
}

abbrev denied_router : Router echo
denied_router = new_router echo (request_of forged)

not-Granted : ¬ Granted reader ssl readings none config forged
unfolding read_data find
not-Granted (u, by_xtoken token on found size stems) = cc
not-Granted (u, by_cookie token on found size stems (inl is_get)) = cc
not-Granted (u, by_cookie token on found size stems (inr (shown, _))) = cc
not-Granted (u, by_token token on starts sliced size stems) = cc

process_denied_example :
    let (c1, (r1, outcome1)) =
      process echo reader ssl readings none times (some false) routes config denied_router in
    let (c2, (r2, outcome2)) =
      process echo reader ssl readings none times (some false) [] config denied_router in
    (c1 ≡ c2)
    × (r1.response ≡ r2.response)
    × (outcome1 ≡ outcome2)
    × (r1.handler ≡ none)
    × (r2.handler ≡ none)
process_denied_example =
    process_denied reader ssl readings echo echo routes [] none times (some false) config
      denied_router denied_router refl refl refl not-Granted

abbrev lost : Environment
lost = record post { request_uri = "/lost" }

abbrev posted : Router echo
posted = new_router echo (request_of post)

abbrev posted_auth : Auth
posted_auth = record {
  store = (read_data reader ssl readings none config).0.store;
  request = request_of post;
  response = fresh;
}

posted-read : (read_data reader ssl readings none config).1 ≡ ok tt
unfolding read_data
posted-read = refl

posted-granted : (authenticate ssl times (some false) posted_auth).1 ≡ ok true
unfolding read_data authenticate finish conclude try_header try_cookie try_xtoken perform_token_auth
    xtoken_auth perform_xtoken_auth cookie_auth perform_cookie_auth checked csrf_accepts
    csrf_matches login_session_by_token login_found apply_session_timeouts is_due is_expired
    nanoseconds has_passed erase_expired visit_entry find_token touch constant_time_string_compare
    is_session_empty set_session is_permitted find
posted-granted = refl

posted-known : find "/graphql" routes ≡ some (λ uri. 0)
unfolding find
posted-known = refl

process-pre_handler_example :
    let a' = (authenticate ssl times (some false) posted_auth).0 in
    let (c'', (r', outcome)) =
      process echo reader ssl readings none times
        (some false)
        routes
        config
        (pre_handler echo routes posted).0 in
    let ran = echo.run 1 a'.request fresh in
    (r'.response ≡ ran.0.1)
    × (r'.handler ≡ some ran.0.0)
    × (outcome ≡ ran.1)
    × (r'.request ≡ a'.request)
    × (c''.store ≡ a'.store)
process-pre_handler_example =
    process-pre_handler echo routes reader ssl readings times (some false) posted (λ uri. 0)
      posted-known none config refl refl posted-read posted-granted

abbrev connected : Connection echo
connected = record {
  total_bytes_recived = 2;
  request = some (request_of post);
  router = some posted;
  out = "";
}

posted-processed :
    (process echo reader ssl readings none times (some false) routes config posted).1.1 ≡ ok tt
unfolding process serve dispatch run_handler find_handler built read_data authenticate finish
    conclude try_header try_cookie try_xtoken perform_token_auth xtoken_auth perform_xtoken_auth
    cookie_auth perform_cookie_auth checked csrf_accepts csrf_matches login_session_by_token
    login_found apply_session_timeouts is_due is_expired nanoseconds has_passed erase_expired
    visit_entry find_token touch constant_time_string_compare is_session_empty set_session
    is_permitted find
posted-processed = refl

response_lem_example :
    let r = (process echo reader ssl readings none times (some false) routes config posted).1.0 in
    let (_, (c', answer)) =
      response echo reader ssl readings none times
        (some false)
        routes
        "now"
        post
        config
        connected in
    (answer ≡ ok true)
    × (c'.out ≡ "" ++ answer_text "now" r.response)
    × (read_from 0 (to_string (len r.response.internal_buffer)) ≡ len r.response.internal_buffer)
response_lem_example =
    response_lem echo reader ssl readings none times (some false) routes "now" post config connected
      posted refl posted-processed

-- A connection whose request shows a password, which throws.
abbrev with_password : Router echo
with_password = new_router echo (request_of basic)

abbrev refused : Connection echo
refused = record {
  total_bytes_recived = 0;
  request = some (request_of basic);
  router = some with_password;
  out = "";
}
