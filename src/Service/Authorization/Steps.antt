-- ===== src/Service/Authorization/Steps.antt =====
-- The three steps of `authenticate`, one by one.
use obmc_webapp.Prelude.{
  ◌≡◌, refl, sym, ◌∙◌, inl, inr, ◌⊎◌, Bool, true, false, not, ◌&&◌, Option, none, some, arith,
  Bool-cases, if◌then◌else◌, str_eq, starts_with,
}
use obmc_webapp.Prelude.Maps.{string_key}
use obmc_webapp.Helpers.Compare.{OpenSsl}
use obmc_webapp.Core.Exceptions.{Result, ok, err, ok-injective}
use obmc_webapp.Core.Request.{is_session_empty, set_session}
use obmc_webapp.Service.Session.User.{UserSession}
use obmc_webapp.Service.Session.Store.{SessionStore}
use obmc_webapp.Service.Session.Stems.{StemFrom}
use obmc_webapp.Service.Authorization.{
  basic_error, auth_basic, auth_token, perform_token_auth, perform_xtoken_auth, perform_cookie_auth,
  Auth, AuthTimes, accept, try_xtoken, try_cookie, try_header,
}
use obmc_webapp.Service.Authorization.Grants.{
  by_token, Grant, Grant-StemFrom, Attempt, Attempt-login, xtoken_auth-Attempt, cookie_auth-Attempt,
}

-- What the three steps keep: the response, the request's data and the enabled methods, sessions
-- that stem from those at the start, and a grant for the session, if there is one.
pub record Tracks (a0 a : Auth) : Type 0 where
  pub response : a.response ≡ a0.response
  pub environment : a.request.environment ≡ a0.request.environment
  pub methods : a.store.auth_methods_config ≡ a0.store.auth_methods_config
  pub entries : StemFrom a.store.auth_tokens a0.store.auth_tokens
  pub granted :
      (a.request.user_session ≡ none)
      ⊎ ((u : UserSession) × (a.request.user_session ≡ some u)
          × Grant a0.store.auth_methods_config a0.request.environment a0.store.auth_tokens u)

Tracks-accept :
    (a0 a : Auth) (r : SessionStore × Option UserSession)
    → Tracks a0 a
    → Attempt a.request.environment a.store r
    → Tracks a0 (accept a r)
unfolding set_session
Tracks-accept a0 a r k attempt = record {
  response = k.response;
  environment = k.environment;
  methods = attempt.methods ∙ k.methods;
  entries = λ token u h. k.entries token u (attempt.entries token u h);
  granted = elim attempt.granted [
    | inl e ↦ inl e
    | inr (u, e, grant) ↦
        inr (u, e, rw (← k.methods, ← k.environment) (Grant-StemFrom k.entries grant))
  ];
}

module _ (ssl : OpenSsl) (t : AuthTimes) (a0 a : Auth) where
  pub Tracks-try_xtoken : Tracks a0 a → Tracks a0 (try_xtoken ssl t a)
  unfolding try_xtoken
  Tracks-try_xtoken k =
      elim (Bool-cases (is_session_empty a.request && a.store.auth_methods_config.xtoken)) [
        | inl tried ↦ rw tried (
            Tracks-accept a0 a _ k (
              unfold perform_xtoken_auth in
              xtoken_auth-Attempt ssl a.request.environment a.store t.xtoken _ (ground arith) refl))
        | inr skipped ↦ rw skipped k
      ]

  pub Tracks-try_cookie : Tracks a0 a → Tracks a0 (try_cookie ssl t a)
  unfolding try_cookie
  Tracks-try_cookie k =
      elim (Bool-cases (is_session_empty a.request && a.store.auth_methods_config.cookie)) [
        | inl tried ↦ rw tried (
            Tracks-accept a0 a _ k (
              unfold perform_cookie_auth in
              cookie_auth-Attempt ssl a.request.environment a.store t.cookie _ (ground arith) refl))
        | inr skipped ↦ rw skipped k
      ]

  token_auth-Attempt :
      a.store.auth_methods_config.session_token ≡ true
      → starts_with a.request.environment.authorization auth_token ≡ true
      → Attempt a.request.environment a.store
          (perform_token_auth ssl a.store a.request.environment.authorization t.token)
  unfolding perform_token_auth
  token_auth-Attempt on starts =
      Attempt-login ssl a.request.environment a.store t.token _
        (λ u size stems. by_token _ on starts refl size stems)

  -- The third step: it tries a token, throws at the basic method, or passes the request on.
  pub data HeaderStep (r : Result Auth) : Type 0 where
    tries :
        a.store.auth_methods_config.session_token ≡ true
        → starts_with a.request.environment.authorization auth_token ≡ true
        → r
          ≡ ok (
              accept a (perform_token_auth ssl a.store a.request.environment.authorization t.token))
        → HeaderStep r
    throws :
        a.store.auth_methods_config.basic ≡ true
        → starts_with a.request.environment.authorization auth_basic ≡ true
        → r ≡ err basic_error
        → HeaderStep r
    passes : r ≡ ok a → HeaderStep r

  pub try_header-step : HeaderStep (try_header ssl t a)
  unfolding try_header
  try_header-step =
      let header = a.request.environment.authorization in
      elim (Bool-cases (is_session_empty a.request && not (str_eq header ""))) [
        | inr skipped ↦ rw skipped (passes refl)
        | inl wanted ↦ rw wanted (
            header_cases
              (starts_with header auth_token && a.store.auth_methods_config.session_token)
              (starts_with header auth_basic && a.store.auth_methods_config.basic) refl refl)
      ]
    where
      header_cases :
          (token basic : Bool)
          → (starts_with a.request.environment.authorization auth_token
              && a.store.auth_methods_config.session_token)
            ≡ token
          → (starts_with a.request.environment.authorization auth_basic
              && a.store.auth_methods_config.basic)
            ≡ basic
          → HeaderStep (
              if token
              then ok (
                  accept a
                    (perform_token_auth ssl a.store a.request.environment.authorization t.token))
              else if basic
              then err basic_error
              else ok a)
      header_cases true basic e f = tries (ground arith) (ground arith) refl
      header_cases false true e f = throws (ground arith) (ground arith) refl
      header_cases false false e f = passes refl

  pub Tracks-try_header : Tracks a0 a → (a' : Auth) → try_header ssl t a ≡ ok a' → Tracks a0 a'
  Tracks-try_header k a' e = from_step try_header-step
    where
      from_step : HeaderStep (try_header ssl t a) → Tracks a0 a'
      from_step (tries on starts r) =
          rw (ok-injective (sym e ∙ r)) (Tracks-accept a0 a _ k (token_auth-Attempt on starts))
      from_step (throws on starts r) = cc (e, r)
      from_step (passes r) = rw (ok-injective (sym e ∙ r)) k
