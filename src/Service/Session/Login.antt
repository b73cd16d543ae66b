-- ===== src/Service/Session/Login.antt =====
-- A login by token: what it answers, and for how long the session may have been idle.
use obmc_webapp.Prelude.{
  ℕ, ◌+◌, ◌*◌, ◌≤◌, ◌<◌, ◌^◌, ◌⊎◌, String, len, ◌≡◌, ◌↔◌, inl, inr, some, List, [], ◌∷◌, arith,
  Bool-cases, Option-cases,
}
use obmc_webapp.Prelude.Membership.{In}
use obmc_webapp.Prelude.Integers.{pos}
use obmc_webapp.Helpers.Compare.{
  OpenSsl, constant_time_string_compare, constant_time_string_compare_iff,
}
use obmc_webapp.Service.Session.User.{UserSession, session_token_size}
use obmc_webapp.Service.Session.Store.{
  SessionStore, second, apply_session_timeouts, find_token, login_session_by_token,
}
use obmc_webapp.Service.Session.Timeouts.{mem-apply_session_timeouts_iff}

module _ (ssl : OpenSsl) where
  pub In-find_token :
      (token : String) (entries : List (String × UserSession)) (u : UserSession)
      → find_token ssl token entries ≡ some u
      → In (token, u) entries
  unfolding find_token
  In-find_token token [] u h = cc
  In-find_token token ((key, s) ∷ rest) u h =
      elim (Bool-cases (constant_time_string_compare ssl key token)) [
        | inl same ↦
            let h' : some s ≡ some u = rw same at h in
            inl (cc ((constant_time_string_compare_iff ssl key token).0 same, h'))
        | inr other ↦ inr (In-find_token token rest u (rw other at h))
      ]

  -- A login succeeds exactly when the token has 20 bytes and the swept store has an entry for it.
  -- It returns that entry's session, with the time of the login as its last use.
  pub login-eq-some_iff :
      (s : SessionStore) (token : String) (now later : ℕ) (u : UserSession)
      → ((login_session_by_token ssl s token now later).1 ≡ some u) ↔ (
          (len token ≡ session_token_size)
          × (old : UserSession) × (find_token ssl token (apply_session_timeouts s now).auth_tokens
              ≡ some old)
          × (u ≡ record old { last_updated = later }))
  unfolding login_session_by_token
  login-eq-some_iff s token now later u =
      elim (Option-cases (find_token ssl token (apply_session_timeouts s now).auth_tokens)) [
        | inl missing ↦ (λ h. absurd (ground arith), λ h. absurd (cc (missing, h.2)))
        | inr (old, found) ↦ (λ h. (ground arith, old, found, ground arith), λ h. ground arith)
      ]

  -- With a timeout of so many seconds, not negative and below 2 ^ 63 nanoseconds, a login returns
  -- only the session of an entry of the store under the token, whose last use it sets to the time of
  -- the login; and unless the last sweep was at most a second ago, the session had been idle for less
  -- than the timeout.
  pub login_idle_bound :
      (s : SessionStore) (token : String) (now later seconds : ℕ) (u : UserSession)
      → s.timeout_in_seconds ≡ pos seconds
      → seconds * second < 2 ^ 63
      → (login_session_by_token ssl s token now later).1 ≡ some u
      → (old : UserSession) × In (token, old) s.auth_tokens
        × (u ≡ record old { last_updated = later })
        × ((now ≤ s.last_timeout_update + second) ⊎ (now < old.last_updated + seconds * second))
  login_idle_bound s token now later seconds u whole fits h =
      let (_, old, found, used) = (login-eq-some_iff s token now later u).0 h in
      let (there, live) =
        (mem-apply_session_timeouts_iff s now seconds (token, old) whole fits).0
          (In-find_token token _ old found) in
      (old, there, used, live)
