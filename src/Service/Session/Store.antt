-- ===== src/Service/Session/Store.antt =====
-- src/service/session.hpp: `SessionStore`. The map of tokens is a list of its entries in the order
-- of a loop over them, which the program leaves to the hash; a new entry stands first. A session is
-- shared by its pointer and changed only here, so a caller's copy and the entry hold the same data.
use obmc_webapp.Prelude.{
  ℕ, ◌+◌, ◌-◌, ◌*◌, ◌%◌, ◌^◌, suc, String, len, Bool, true, false, not, ◌||◌, Option, none, some,
  List, [], ◌∷◌, str_eq, ◌==◌, leb, ltb, ◌++◌, if◌then◌else◌,
}
use obmc_webapp.Prelude.Integers.{ℤ, pos, negsuc}
use obmc_webapp.Helpers.Compare.{OpenSsl, constant_time_string_compare}
use obmc_webapp.Service.Session.User.{
  UserSession, PersistenceType, timeout, single_request, session_token_size,
}
use obmc_webapp.Service.Session.Methods.{AuthConfigMethods, default_methods}

pub record SessionStore : Type 0 where
  pub auth_tokens : List (String × UserSession)
  pub last_timeout_update : ℕ
  pub timeout_in_seconds : ℤ
  pub auth_methods_config : AuthConfigMethods

-- the constructor `SessionStore()`
abbrev pub fresh_store : SessionStore
fresh_store = record {
  auth_tokens = [];
  last_timeout_update = 0;
  timeout_in_seconds = pos 3600;
  auth_methods_config = default_methods;
}

-- a second, in nanoseconds
abbrev pub second : ℕ
second = 1_000_000_000

-- the number that a bit pattern of `int64_t` stands for
abbrev pub signed64 : ℕ → ℤ
signed64 w = if ltb w (2 ^ 63) then pos w else negsuc (2 ^ 64 - w - 1)

-- The conversion of seconds to nanoseconds multiplies within `int64_t`. An overflow, which the
-- standard leaves undefined, wraps around.
unfoldable pub nanoseconds : ℤ → ℤ
nanoseconds (pos n) = signed64 (n * second % 2 ^ 64)
nanoseconds (negsuc n) = signed64 ((2 ^ 64 - suc n * second % 2 ^ 64) % 2 ^ 64)

-- that from `last` to `now` at least so many nanoseconds have passed
unfoldable pub has_passed : ℤ → ℕ → ℕ → Bool
has_passed (pos n) now last = leb (last + n) now
has_passed (negsuc n) now last = leb last (now + suc n)

-- `timeNow - lastUpdated >= timeoutInSeconds`
unfoldable pub is_expired : ℤ → ℕ → ℕ → Bool
is_expired seconds now last = has_passed (nanoseconds seconds) now last

-- `timeNow - lastTimeoutUpdate > std::chrono::seconds(1)`
unfoldable pub is_due : SessionStore → ℕ → Bool
is_due s now = ltb (s.last_timeout_update + second) now

-- One turn of the loop: an entry that the iterator comes to is erased or passed.
unfoldable pub visit_entry :
    ℤ → ℕ → String × UserSession → List (String × UserSession) → List (String × UserSession)
visit_entry seconds now e passed =
    if is_expired seconds now e.1.last_updated then passed else passed ++ (e ∷ [])

-- the loop, by the entries that the iterator has passed and those from it on
unfoldable pub erase_expired :
    ℤ → ℕ → List (String × UserSession) → List (String × UserSession) → List (String × UserSession)
erase_expired seconds now passed [] = passed
erase_expired seconds now passed (e ∷ rest) =
    erase_expired seconds now (visit_entry seconds now e passed) rest

unfoldable pub apply_session_timeouts : SessionStore → ℕ → SessionStore
unfolding is_due
apply_session_timeouts s now =
    if is_due s now
    then record s {
      last_timeout_update = now;
      auth_tokens = erase_expired s.timeout_in_seconds now [] s.auth_tokens;
    }
    else s

module _ (ssl : OpenSsl) where
  -- `authTokens.find`, which compares keys in constant time
  unfoldable pub find_token : String → List (String × UserSession) → Option UserSession
  find_token token [] = none
  find_token token ((key, s) ∷ rest) =
      if constant_time_string_compare ssl key token then some s else find_token token rest

  -- the write through the pointer that `find` gave
  unfoldable pub touch : String → ℕ → List (String × UserSession) → List (String × UserSession)
  touch token now [] = []
  touch token now ((key, s) ∷ rest) =
      if constant_time_string_compare ssl key token
      then (key, record s { last_updated = now }) ∷ rest
      else (key, s) ∷ touch token now rest

  -- `authTokens.emplace`: an entry that is there stays
  unfoldable pub emplace_token :
      String → UserSession → List (String × UserSession) → List (String × UserSession)
  unfolding find_token
  emplace_token token s tokens = elim (find_token token tokens) [
    | none ↦ (token, s) ∷ tokens
    | some _ ↦ tokens
  ]

  unfoldable pub login_found :
      String → ℕ → SessionStore → Option UserSession → SessionStore × Option UserSession
  login_found token later s none = (s, none)
  login_found token later s (some u) = (
    record s { auth_tokens = touch token later s.auth_tokens },
    some (record u { last_updated = later }),
  )

  -- `now` is what `applySessionTimeouts` reads of the clock, and `later` the time of the login
  unfoldable pub login_session_by_token :
      SessionStore → String → ℕ → ℕ → SessionStore × Option UserSession
  unfolding login_found
  login_session_by_token s token now later =
      let swept = apply_session_timeouts s now in
      if not (len token == session_token_size)
      then (swept, none)
      else login_found token later swept (find_token token swept.auth_tokens)

find_uid : String → List (String × UserSession) → Option UserSession
find_uid uid [] = none
find_uid uid ((_, u) ∷ rest) = if str_eq u.unique_id uid then some u else find_uid uid rest

unfoldable pub get_session_by_uid : SessionStore → String → ℕ → SessionStore × Option UserSession
unfolding find_uid apply_session_timeouts
get_session_by_uid s uid now =
    let swept = apply_session_timeouts s now in (swept, find_uid uid swept.auth_tokens)

abbrev same_persistence : PersistenceType → PersistenceType → Bool
same_persistence timeout timeout = true
same_persistence single_request single_request = true
same_persistence _ _ = false

unique_ids : Bool → PersistenceType → List (String × UserSession) → List String
unique_ids all type [] = []
unique_ids all type ((_, u) ∷ rest) =
    if all || same_persistence type u.persistence
    then u.unique_id ∷ unique_ids all type rest
    else unique_ids all type rest

unfoldable pub get_unique_ids :
    SessionStore → Bool → PersistenceType → ℕ → SessionStore × List String
unfolding unique_ids apply_session_timeouts
get_unique_ids s all type now =
    let swept = apply_session_timeouts s now in (swept, unique_ids all type swept.auth_tokens)

unfoldable pub update_auth_methods_config : AuthConfigMethods → SessionStore → SessionStore
update_auth_methods_config config s = record s { auth_methods_config = config }

unfoldable pub update_session_timeout : ℤ → SessionStore → SessionStore
update_session_timeout seconds s = record s { timeout_in_seconds = seconds }
