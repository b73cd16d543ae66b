-- ===== src/Service/Authorization/Grants.antt =====
-- What a request has shown when `authenticate` lets it in.
use Prim.Native.String.{slice}
use obmc_webapp.Prelude.{
  String, len, ◌≡◌, refl, inl, inr, ◌⊎◌, true, Option, none, some, List, Bool-cases, Option-cases,
  str_eq, starts_with,
}
use obmc_webapp.Prelude.Maps.{find, string_key}
use obmc_webapp.Helpers.Compare.{OpenSsl}
use obmc_webapp.Core.Request.{Environment}
use obmc_webapp.Service.Session.User.{UserSession, session_token_size}
use obmc_webapp.Service.Session.Methods.{AuthConfigMethods}
use obmc_webapp.Service.Session.Store.{SessionStore}
use obmc_webapp.Service.Session.Stems.{Stems, StemFrom, StemFrom-login, login-Stems, methods-login}
use obmc_webapp.Service.Authorization.{
  x_xsrf_token, x_auth_token, auth_token, cookie_session, LoginTimes, login, xtoken_auth,
  csrf_accepts, checked, cookie_auth,
}
use obmc_webapp.Service.Authorization.Csrf.{csrf_accepts_iff}

-- How a request may show that it belongs to the session `u` of the store's entries: by the header
-- X-Auth-Token, by the cookie SESSION, or by the header Authorization with a token, each if its
-- method is enabled. By the cookie, a method other than GET must also show the session's own token.
pub data Grant (methods : AuthConfigMethods) (env : Environment)
    (entries : List (String × UserSession)) (u : UserSession) : Type 0 where
  by_xtoken :
      (token : String)
      → methods.xtoken ≡ true
      → find x_auth_token env.others ≡ some token
      → len token ≡ session_token_size
      → Stems token u entries
      → Grant methods env entries u
  by_cookie :
      (token : String)
      → methods.cookie ≡ true
      → find cookie_session env.cookies ≡ some token
      → len token ≡ session_token_size
      → Stems token u entries
      → ((env.method_is_get ≡ true)
          ⊎ ((find x_xsrf_token env.others ≡ some u.csrf_token)
              × (len u.csrf_token ≡ session_token_size)))
      → Grant methods env entries u
  by_token :
      (token : String)
      → methods.session_token ≡ true
      → starts_with env.authorization auth_token ≡ true
      → slice env.authorization (len auth_token) (len env.authorization) ≡ token
      → len token ≡ session_token_size
      → Stems token u entries
      → Grant methods env entries u

-- What an attempt gives: a store with the same methods whose sessions stem from those before, and
-- no session or one for which there is a grant.
pub record Attempt (env : Environment) (s : SessionStore) (r : SessionStore × Option UserSession)
    : Type 0 where
  pub methods : r.0.auth_methods_config ≡ s.auth_methods_config
  pub entries : StemFrom r.0.auth_tokens s.auth_tokens
  pub granted :
      (r.1 ≡ none)
      ⊎ ((u : UserSession) × (r.1 ≡ some u) × Grant s.auth_methods_config env s.auth_tokens u)

module _ (ssl : OpenSsl) (env : Environment) (s : SessionStore) (t : LoginTimes) where
  Attempt-none : Attempt env s (s, none)
  Attempt-none = record { methods = refl; entries = λ token u h. h; granted = inl refl }

  pub Attempt-login :
      (token : String)
      → ((u : UserSession)
          → len token ≡ session_token_size
          → Stems token u s.auth_tokens
          → Grant s.auth_methods_config env s.auth_tokens u)
      → Attempt env s (login ssl s token t)
  Attempt-login token grant = record {
    methods = methods-login ssl s token t.now t.later;
    entries = StemFrom-login ssl s token t.now t.later;
    granted = elim (Option-cases (login ssl s token t).1) [
      | inl e ↦ inl e
      | inr (u, e) ↦
          let (size, stems) = login-Stems ssl s token t.now t.later u e in
          inr (u, e, grant u size stems)
    ];
  }

  pub xtoken_auth-Attempt :
      (o : Option String)
      → s.auth_methods_config.xtoken ≡ true
      → find x_auth_token env.others ≡ o
      → Attempt env s (xtoken_auth ssl s t o)
  unfolding xtoken_auth
  xtoken_auth-Attempt none on e = Attempt-none
  xtoken_auth-Attempt (some token) on e = elim (Bool-cases (str_eq token "")) [
    | inl blank ↦ rw blank Attempt-none
    | inr other ↦ rw other (Attempt-login token (λ u size stems. by_xtoken token on e size stems))
  ]

  checked-granted :
      (o : Option UserSession)
      → ((u : UserSession)
          → o ≡ some u
          → (env.method_is_get ≡ true)
            ⊎ ((find x_xsrf_token env.others ≡ some u.csrf_token)
                × (len u.csrf_token ≡ session_token_size))
          → Grant s.auth_methods_config env s.auth_tokens u)
      → (checked ssl env o ≡ none)
        ⊎ ((u : UserSession) × (checked ssl env o ≡ some u)
            × Grant s.auth_methods_config env s.auth_tokens u)
  unfolding checked
  checked-granted none grant = inl refl
  checked-granted (some u) grant = elim (Bool-cases (csrf_accepts ssl env u)) [
    | inl accepted ↦
        rw accepted (inr (u, refl, grant u refl ((csrf_accepts_iff ssl env u).0 accepted)))
    | inr refused ↦ rw refused (inl refl)
  ]

  pub cookie_auth-Attempt :
      (o : Option String)
      → s.auth_methods_config.cookie ≡ true
      → find cookie_session env.cookies ≡ o
      → Attempt env s (cookie_auth ssl s env t o)
  unfolding cookie_auth
  cookie_auth-Attempt none on e = Attempt-none
  cookie_auth-Attempt (some token) on e = record {
    methods = methods-login ssl s token t.now t.later;
    entries = StemFrom-login ssl s token t.now t.later;
    granted = checked-granted (login ssl s token t).1 λ u h csrf.
        let (size, stems) = login-Stems ssl s token t.now t.later u h in
        by_cookie token on e size stems csrf;
  }

pub Grant-StemFrom :
    {methods : AuthConfigMethods} {env : Environment} {entries from : List (String × UserSession)}
    {u : UserSession}
    → StemFrom entries from
    → Grant methods env entries u
    → Grant methods env from u
Grant-StemFrom f (by_xtoken token on found size stems) = by_xtoken token on found size (f _ _ stems)
Grant-StemFrom f (by_cookie token on found size stems csrf) =
    by_cookie token on found size (f _ _ stems) csrf
Grant-StemFrom f (by_token token on starts sliced size stems) =
    by_token token on starts sliced size (f _ _ stems)
