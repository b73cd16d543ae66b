-- ===== src/Service/Session/Again.antt =====
-- src/service/session.hpp: a token that has been used is accepted again within the timeout.
use obmc_webapp.Prelude.{
  ◌∙◌, ℕ, ◌+◌, ◌*◌, ◌^◌, ◌<◌, String, ◌≡◌, refl, ap, sym, Bool, true, false, not, inl, inr, some,
  List, [], ◌∷◌, arith, Bool-cases, select,
}
use obmc_webapp.Prelude.Integers.{pos}
use obmc_webapp.Helpers.Compare.{OpenSsl, constant_time_string_compare}
use obmc_webapp.Service.Session.User.{UserSession}
use obmc_webapp.Service.Session.Store.{
  SessionStore, second, is_expired, is_due, apply_session_timeouts, touch, find_token, login_found,
  login_session_by_token,
}
use obmc_webapp.Service.Session.Timeouts.{
  Entry, is_kept, erase_expired-select, is_expired-eq-false_iff,
}
use obmc_webapp.Service.Session.Login.{login-eq-some_iff}

module _ (ssl : OpenSsl) where
  -- What the token finds is found among the entries that a test keeps, if it is kept.
  find_token-select :
      (p : Entry → Bool) (token : String) (u : UserSession) (entries : List Entry)
      → find_token ssl token entries ≡ some u
      → ((key : String) → p (key, u) ≡ true)
      → find_token ssl token (select p entries) ≡ some u
  unfolding find_token
  find_token-select p token u [] h live = h
  find_token-select p token u ((key, s) ∷ rest) h live =
      elim (Bool-cases (constant_time_string_compare ssl key token)) [
        | inl same ↦
            let e : some s ≡ some u = rw same at h in
            let same_user : s ≡ u = cc in
            let kept : p (key, s) ≡ true = ap (λ v. p (key, v)) same_user ∙ live key in
            rw (kept, same) e
        | inr other ↦
            let later = find_token-select p token u rest (rw other at h) live in
            elim (Bool-cases (p (key, s))) [
              | inl kept ↦ rw (kept, other) later
              | inr dropped ↦ rw dropped later
            ]
      ]

  find_token-touch :
      (token : String) (now : ℕ) (u : UserSession) (entries : List Entry)
      → find_token ssl token entries ≡ some u
      → find_token ssl token (touch ssl token now entries) ≡ some (record u { last_updated = now })
  unfolding find_token touch
  find_token-touch token now u [] h = absurd (cc h)
  find_token-touch token now u ((key, s) ∷ rest) h =
      elim (Bool-cases (constant_time_string_compare ssl key token)) [
        | inl same ↦
            let e : some s ≡ some u = rw same at h in
            let same_user : s ≡ u = cc in
            rw (same, same)
              (ap (λ (v : UserSession). some (record v { last_updated = now })) same_user)
        | inr other ↦ rw (other, other) (find_token-touch token now u rest (rw other at h))
      ]

  find_token-apply_session_timeouts :
      (s : SessionStore) (token : String) (now : ℕ) (u : UserSession)
      → find_token ssl token s.auth_tokens ≡ some u
      → is_expired s.timeout_in_seconds now u.last_updated ≡ false
      → find_token ssl token (apply_session_timeouts s now).auth_tokens ≡ some u
  unfolding apply_session_timeouts
  find_token-apply_session_timeouts s token now u h live = elim (Bool-cases (is_due s now)) [
    | inl due ↦
        rw (due, erase_expired-select s.timeout_in_seconds now [] s.auth_tokens)
          (find_token-select (is_kept s.timeout_in_seconds now) token u s.auth_tokens h
            (λ key. ap not live))
    | inr fresh ↦ rw fresh h
  ]

  timeout-apply_session_timeouts :
      (s : SessionStore) (now : ℕ)
      → (apply_session_timeouts s now).timeout_in_seconds ≡ s.timeout_in_seconds
  unfolding apply_session_timeouts
  timeout-apply_session_timeouts s now = ground arith

  -- What a login leaves in the store: the session with its new time, under the same timeout.
  login_store :
      (s : SessionStore) (token : String) (now later : ℕ) (u : UserSession)
      → (login_session_by_token ssl s token now later).1 ≡ some u
      → let after = (login_session_by_token ssl s token now later).0 in
        (find_token ssl token after.auth_tokens ≡ some u)
        × (after.timeout_in_seconds ≡ s.timeout_in_seconds)
  unfolding login_session_by_token login_found
  login_store s token now later u h =
      let (size, old, found, used) = (login-eq-some_iff ssl s token now later u).0 h in
      rw (size, found)
        (
          find_token-touch token later old _ found ∙ ap some (sym used),
          timeout-apply_session_timeouts s now,
        )

  -- A token with which a login has succeeded is accepted again, with the same session and its new
  -- time, by the next login whose sweep comes less than the timeout after the first, whichever other
  -- sessions that sweep removes. The timeout is a number of seconds, not negative and below 2 ^ 63
  -- nanoseconds.
  pub login_again :
      (s : SessionStore) (token : String) (now later next after seconds : ℕ) (u : UserSession)
      → s.timeout_in_seconds ≡ pos seconds
      → seconds * second < 2 ^ 63
      → (login_session_by_token ssl s token now later).1 ≡ some u
      → next < later + seconds * second
      → (login_session_by_token ssl
          (login_session_by_token ssl s token now later).0
          token
          next
          after).1
        ≡ some (record u { last_updated = after })
  login_again s token now later next after seconds u whole fits h soon =
      let once = (login_session_by_token ssl s token now later).0 in
      let (size, old, _, used) = (login-eq-some_iff ssl s token now later u).0 h in
      let (there, same) = login_store s token now later u h in
      let time : later ≡ u.last_updated = ap (λ (v : UserSession). v.last_updated) (sym used) in
      let live =
        (is_expired-eq-false_iff once.timeout_in_seconds seconds next u.last_updated (same ∙ whole)
            fits).1
          (omega (arith, soon, time)) in
      (login-eq-some_iff ssl once token next after (record u { last_updated = after })).1
        (size, u, find_token-apply_session_timeouts once token next u there live, refl)
