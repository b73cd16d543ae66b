-- ===== src/Tests/Access.antt =====
-- The theorems on logins and access at concrete inputs.
use obmc_webapp.Prelude.{
  ◌+◌, ◌*◌, ◌<◌, ◌≤◌, len, ◌≡◌, ◌↔◌, ◌⊎◌, refl, true, false, none, some, arith, starts_with,
}
use obmc_webapp.Prelude.Membership.{In}
use obmc_webapp.Prelude.Maps.{find, string_key}
use obmc_webapp.Helpers.Compare.{constant_time_string_compare}
use obmc_webapp.Prelude.Integers.{pos}
use obmc_webapp.Core.Exceptions.{ok, err}
use obmc_webapp.Core.Request.{is_session_empty, set_session}
use obmc_webapp.Core.Response.{fresh}
use obmc_webapp.Service.Session.User.{UserSession, is_permitted, session_token_size}
use obmc_webapp.Service.Session.Store.{
  second, is_expired, nanoseconds, has_passed, erase_expired, visit_entry, is_due,
  apply_session_timeouts, find_token, touch, login_found, login_session_by_token,
}
use obmc_webapp.Service.Session.Timeouts.{mem-apply_session_timeouts_iff}
use obmc_webapp.Service.Session.Again.{login_again}
use obmc_webapp.Service.Session.Login.{login_idle_bound}
use obmc_webapp.Service.Authorization.{
  x_xsrf_token, basic_error, restricted_error, auth_basic, perform_token_auth, xtoken_auth,
  perform_xtoken_auth, csrf_matches, csrf_accepts, checked, cookie_auth, perform_cookie_auth,
  try_xtoken, try_cookie, try_header, conclude, finish, authenticate,
}
use obmc_webapp.Service.Authorization.Csrf.{csrf_accepts_iff}
use obmc_webapp.Service.Authorization.Grants.{Grant}
use obmc_webapp.Service.Authorization.Outcomes.{
  refusal, authenticate_sound, authenticate_refused, authenticate_thrown,
}
use obmc_webapp.Tests.Samples.{ssl, token, root, store, post, forged, basic, auth_of, times}

-- The computed answers that the examples below rest on.
abbrev Computes : Type 0
Computes =
    ((authenticate ssl times (some false) (auth_of post)).1 ≡ ok true)
    × ((authenticate ssl times (some false) (auth_of forged)).1 ≡ ok false)
    × ((authenticate ssl times (some false) (auth_of basic)).1 ≡ err basic_error)

answers : Computes
unfolding authenticate finish conclude try_header try_cookie try_xtoken perform_token_auth
    xtoken_auth perform_xtoken_auth cookie_auth perform_cookie_auth checked csrf_accepts
    csrf_matches login_session_by_token login_found apply_session_timeouts is_due is_expired
    nanoseconds has_passed erase_expired visit_entry find_token touch constant_time_string_compare
    is_session_empty set_session is_permitted find
answers = (refl, refl, refl)

authenticate_sound_example :
    (u : UserSession) × ((authenticate ssl times (some false) (auth_of post)).0.request.user_session
      ≡ some u)
    × Grant store.auth_methods_config post store.auth_tokens u
    × (is_permitted (some false) ≡ true)
authenticate_sound_example = authenticate_sound ssl times (some false) (auth_of post) refl answers.0

authenticate_refused_example :
    ((authenticate ssl times (some false) (auth_of forged)).0.request.user_session ≡ none)
    × ((authenticate ssl times (some false) (auth_of forged)).0.response ≡ refusal forged fresh)
authenticate_refused_example =
    authenticate_refused ssl times (some false) (auth_of forged) refl answers.1

authenticate_thrown_example :
    ((authenticate ssl times (some false) (auth_of basic)).0.response ≡ fresh)
    × (((basic_error ≡ basic_error)
          × (store.auth_methods_config.basic ≡ true)
          × (starts_with basic.authorization auth_basic ≡ true))
        ⊎ ((basic_error ≡ restricted_error) × (is_permitted (some false) ≡ false)))
authenticate_thrown_example =
    authenticate_thrown ssl times (some false) (auth_of basic) basic_error refl answers.2

csrf_accepts_iff_example : (csrf_accepts ssl forged root ≡ true) ↔ (
    (forged.method_is_get ≡ true)
    ⊎ ((find x_xsrf_token forged.others ≡ some root.csrf_token)
        × (len root.csrf_token ≡ session_token_size)))
csrf_accepts_iff_example = csrf_accepts_iff ssl forged root

mem-apply_session_timeouts_iff_example :
    In (token, root) (apply_session_timeouts store (4000 * second)).auth_tokens ↔ (
      In (token, root) store.auth_tokens
      × ((4000 * second ≤ store.last_timeout_update + second)
          ⊎ (4000 * second < root.last_updated + 3600 * second)))
mem-apply_session_timeouts_iff_example =
    mem-apply_session_timeouts_iff store (4000 * second) 3600 (token, root) refl (omega arith)

login_idle_bound_example :
    (old : UserSession) × In (token, old) store.auth_tokens
    × (record root { last_updated = 10 * second } ≡ record old { last_updated = 10 * second })
    × ((10 * second ≤ store.last_timeout_update + second)
        ⊎ (10 * second < old.last_updated + 3600 * second))
unfolding login_session_by_token login_found apply_session_timeouts erase_expired visit_entry is_due
    is_expired nanoseconds has_passed find_token constant_time_string_compare
login_idle_bound_example =
    login_idle_bound ssl store token (10 * second) (10 * second) 3600
      (record root { last_updated = 10 * second }) refl (omega arith) refl

login_again_example :
    (login_session_by_token ssl
      (login_session_by_token ssl store token (10 * second) (11 * second)).0
      token
      (3000 * second)
      (3001 * second)).1
    ≡ some (record root { last_updated = 3001 * second })
unfolding login_session_by_token login_found apply_session_timeouts erase_expired visit_entry is_due
    is_expired nanoseconds has_passed find_token constant_time_string_compare
login_again_example =
    login_again ssl store token (10 * second) (11 * second) (3000 * second) (3001 * second) 3600
      (record root { last_updated = 11 * second }) refl (omega arith) refl (omega arith)

-- With a timeout whose nanoseconds exceed 2 ^ 63, a session that has just been used has expired.
timeout_wraps_around : is_expired (pos 9_223_372_037) (10 * second) (10 * second) ≡ true
unfolding is_expired nanoseconds has_passed
timeout_wraps_around = refl
