-- ===== src/Service/Authorization/Csrf.antt =====
-- Which requests pass the check against cross-site requests.
use obmc_webapp.Prelude.{
  String, len, ◌≡◌, ◌↔◌, ◌⊎◌, inl, inr, true, false, Option, none, some, ap, arith, str_eq,
  str_eq_iff, Bool-cases,
}
use obmc_webapp.Prelude.Maps.{find, string_key}
use obmc_webapp.Helpers.Compare.{OpenSsl, constant_time_string_compare_iff}
use obmc_webapp.Core.Request.{Environment}
use obmc_webapp.Service.Session.User.{UserSession, session_token_size}
use obmc_webapp.Service.Authorization.{x_xsrf_token, csrf_accepts, csrf_matches}

len-ne-zero : (s : String) → len s ≡ session_token_size → str_eq s "" ≡ false
len-ne-zero s h = elim (Bool-cases (str_eq s "")) [
  | inl blank ↦ let e : len s ≡ 0 = ap len ((str_eq_iff s "").0 blank) in absurd (omega arith)
  | inr other ↦ other
]

module _ (ssl : OpenSsl) where
  csrf_matches_iff :
      (o : Option String) (u : UserSession)
      → (csrf_matches ssl o u ≡ true)
        ↔ ((o ≡ some u.csrf_token) × (len u.csrf_token ≡ session_token_size))
  unfolding csrf_matches
  csrf_matches_iff none u = ((λ h. cc), λ h. cc h.0)
  csrf_matches_iff (some csrf) u = (
    (λ h. ground (arith, constant_time_string_compare_iff ssl csrf u.csrf_token)),
    λ h.
        let e : csrf ≡ u.csrf_token = cc h.0 in
        let same = (constant_time_string_compare_iff ssl csrf u.csrf_token).1 e in
        rw (e, len-ne-zero u.csrf_token h.1) (ground (arith, same)),
  )

  -- A request passes exactly when it is a GET, or its X-XSRF-TOKEN header is the session's token,
  -- which has 20 bytes.
  pub csrf_accepts_iff :
      (env : Environment) (u : UserSession)
      → (csrf_accepts ssl env u ≡ true) ↔ (
          (env.method_is_get ≡ true)
          ⊎ ((find x_xsrf_token env.others ≡ some u.csrf_token)
              × (len u.csrf_token ≡ session_token_size)))
  unfolding csrf_accepts
  csrf_accepts_iff env u = ground (arith, csrf_matches_iff (find x_xsrf_token env.others) u)
