-- ===== src/Service/Authorization/Outcomes.antt =====
-- What `authenticate` answers, on each of its outcomes.
use obmc_webapp.Prelude.{
  ◌≡◌, refl, sym, ap, ◌∙◌, inl, inr, ◌⊎◌, Bool, true, false, Option, none, some, arith,
  if◌then◌else◌, str_eq, starts_with,
}
use obmc_webapp.Helpers.Compare.{OpenSsl}
use obmc_webapp.Http.Status.{unauthorized}
use obmc_webapp.Http.Headers.{www_authenticate}
use obmc_webapp.Core.Exceptions.{Exception, Result, ok, err, err-injective, Result-cases}
use obmc_webapp.Core.Request.{Environment, Request, is_session_empty}
use obmc_webapp.Core.Response.{Response, set_status, set_header}
use obmc_webapp.Service.Session.User.{UserSession, is_permitted}
use obmc_webapp.Service.Authorization.{
  auth_basic, basic_error, restricted_error, Auth, AuthTimes, try_xtoken, try_cookie, try_header,
  refuse, conclude, authenticate, finish,
}
use obmc_webapp.Service.Authorization.Grants.{Grant}
use obmc_webapp.Service.Authorization.Steps.{
  Tracks, Tracks-try_xtoken, Tracks-try_cookie, Tracks-try_header, try_header-step, HeaderStep,
  tries, throws, passes,
}

is_session_empty_of_none : (r : Request) → r.user_session ≡ none → is_session_empty r ≡ true
unfolding is_session_empty
is_session_empty_of_none r e = ground arith

none_of_is_session_empty : (r : Request) → is_session_empty r ≡ true → r.user_session ≡ none
unfolding is_session_empty
none_of_is_session_empty r e = ground arith

-- The answer to a request without a session.
abbrev pub refusal : Environment → Response → Response
refusal env r =
    let refused = set_status unauthorized r in
    if str_eq env.user_agent "" then set_header www_authenticate auth_basic refused else refused

module _ (ssl : OpenSsl) (t : AuthTimes) (booting : Option Bool) (a : Auth) where
  -- The request after the first two steps.
  abbrev tried : Auth
  tried = try_cookie ssl t (try_xtoken ssl t a)

  authenticate_of_ok :
      (a' : Auth)
      → try_header ssl t tried ≡ ok a'
      → authenticate ssl t booting a ≡ conclude booting a'
  unfolding authenticate finish
  authenticate_of_ok a' e = ap (finish booting tried) e

  authenticate_of_err :
      (x : Exception)
      → try_header ssl t tried ≡ err x
      → authenticate ssl t booting a ≡ (tried, err x)
  unfolding authenticate finish
  authenticate_of_err x e = ap (finish booting tried) e

  Tracks-start : a.request.user_session ≡ none → Tracks a a
  Tracks-start fresh = record {
    response = refl;
    environment = refl;
    methods = refl;
    entries = λ token u h. h;
    granted = inl fresh;
  }

  Tracks-tried : a.request.user_session ≡ none → Tracks a tried
  Tracks-tried fresh =
      Tracks-try_cookie ssl t a _ (Tracks-try_xtoken ssl t a a (Tracks-start fresh))

  conclude-ok_true :
      (a' : Auth)
      → (conclude booting a').1 ≡ ok true
      → ((conclude booting a').0 ≡ a')
        × (is_session_empty a'.request ≡ false)
        × (is_permitted booting ≡ true)
  unfolding conclude
  conclude-ok_true a' h = ground arith

  -- Whoever `authenticate` lets in, starting with no session, has a session of the store, and has
  -- shown it by an enabled method; and the BMC is known not to be starting.
  pub authenticate_sound :
      a.request.user_session ≡ none
      → (authenticate ssl t booting a).1 ≡ ok true
      → (u : UserSession) × ((authenticate ssl t booting a).0.request.user_session ≡ some u)
        × Grant a.store.auth_methods_config a.request.environment a.store.auth_tokens u
        × (is_permitted booting ≡ true)
  authenticate_sound fresh h = elim (Result-cases (try_header ssl t tried)) [
    | inl (x, e) ↦ cc (h, ap (λ (r : Auth × Result Bool). r.1) (authenticate_of_err x e))
    | inr (a', e) ↦ rw (authenticate_of_ok a' e) (
        let_in a' (Tracks-try_header ssl t a tried (Tracks-tried fresh) a' e)
          (rw (authenticate_of_ok a' e) at h))
  ]
    where
      let_in :
          (a' : Auth)
          → Tracks a a'
          → (conclude booting a').1 ≡ ok true
          → (u : UserSession) × ((conclude booting a').0.request.user_session ≡ some u)
            × Grant a.store.auth_methods_config a.request.environment a.store.auth_tokens u
            × (is_permitted booting ≡ true)
      let_in a' k h' =
          let (same, present, permitted) = conclude-ok_true a' h' in
          elim k.granted [
            | inl missing ↦ absurd (cc (is_session_empty_of_none a'.request missing, present))
            | inr (u, found, grant) ↦ (u, rw same found, grant, permitted)
          ]

  -- A request that is let in keeps its environment, and the response is as it was.
  pub authenticate_accepted :
      a.request.user_session ≡ none
      → (authenticate ssl t booting a).1 ≡ ok true
      → ((authenticate ssl t booting a).0.response ≡ a.response)
        × ((authenticate ssl t booting a).0.request.environment ≡ a.request.environment)
  authenticate_accepted fresh h = elim (Result-cases (try_header ssl t tried)) [
    | inl (x, e) ↦ cc (h, ap (λ (r : Auth × Result Bool). r.1) (authenticate_of_err x e))
    | inr (a', e) ↦
        let k = Tracks-try_header ssl t a tried (Tracks-tried fresh) a' e in
        let (same, _, _) = conclude-ok_true a' (rw (authenticate_of_ok a' e) at h) in
        rw (authenticate_of_ok a' e, same) (k.response, k.environment)
  ]

  conclude-ok_false :
      (a' : Auth)
      → (conclude booting a').1 ≡ ok false
      → (is_session_empty a'.request ≡ true)
        × ((conclude booting a').0
            ≡ record a' { response = refusal a'.request.environment a'.response })
  unfolding conclude refuse
  conclude-ok_false a' h = ground arith

  -- Whoever `authenticate` turns away, starting with no session, has none afterwards. The answer
  -- has the status Unauthorized, and the header WWW-Authenticate exactly if the request names no
  -- user agent; its body is as it was.
  pub authenticate_refused :
      a.request.user_session ≡ none
      → (authenticate ssl t booting a).1 ≡ ok false
      → ((authenticate ssl t booting a).0.request.user_session ≡ none)
        × ((authenticate ssl t booting a).0.response ≡ refusal a.request.environment a.response)
  authenticate_refused fresh h = elim (Result-cases (try_header ssl t tried)) [
    | inl (x, e) ↦ cc (h, ap (λ (r : Auth × Result Bool). r.1) (authenticate_of_err x e))
    | inr (a', e) ↦
        let k = Tracks-try_header ssl t a tried (Tracks-tried fresh) a' e in
        let (empty, same) = conclude-ok_false a' (rw (authenticate_of_ok a' e) at h) in
        rw (authenticate_of_ok a' e, same)
          (none_of_is_session_empty a'.request empty, rw (k.environment, k.response) refl)
  ]

  conclude-err :
      (a' : Auth) (x : Exception)
      → (conclude booting a').1 ≡ err x
      → (x ≡ restricted_error) × (is_permitted booting ≡ false) × ((conclude booting a').0 ≡ a')
  unfolding conclude
  conclude-err a' x h = ground arith

  -- If `authenticate` throws, starting with no session, the response is as it was. Either the basic
  -- method is enabled and the header Authorization asks for it, or the BMC is not known to have
  -- started.
  pub authenticate_thrown :
      (x : Exception)
      → a.request.user_session ≡ none
      → (authenticate ssl t booting a).1 ≡ err x
      → ((authenticate ssl t booting a).0.response ≡ a.response)
        × (((x ≡ basic_error)
              × (a.store.auth_methods_config.basic ≡ true)
              × (starts_with a.request.environment.authorization auth_basic ≡ true))
            ⊎ ((x ≡ restricted_error) × (is_permitted booting ≡ false)))
  authenticate_thrown x fresh h = elim (Result-cases (try_header ssl t tried)) [
    | inl (y, e) ↦
        let k = Tracks-tried fresh in
        let same = err-injective (rw (authenticate_of_err y e) at h) in
        rw (authenticate_of_err y e)
          (k.response, inl (basic_only k (rw (← same) e) (try_header-step ssl t a tried)))
    | inr (a', e) ↦
        let k = Tracks-try_header ssl t a tried (Tracks-tried fresh) a' e in
        let (restricted, starting, same) = conclude-err a' x (rw (authenticate_of_ok a' e) at h) in
        rw (authenticate_of_ok a' e, same) (k.response, inr (restricted, starting))
  ]
    where
      basic_only :
          Tracks a tried
          → try_header ssl t tried ≡ err x
          → HeaderStep ssl t a tried (try_header ssl t tried)
          → (x ≡ basic_error)
            × (a.store.auth_methods_config.basic ≡ true)
            × (starts_with a.request.environment.authorization auth_basic ≡ true)
      basic_only k e (tries on starts r) = cc (e, r)
      basic_only k e (throws on starts r) =
          (err-injective (sym e ∙ r), rw (← k.methods) on, rw (← k.environment) starts)
      basic_only k e (passes r) = cc (e, r)
