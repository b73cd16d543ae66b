-- ===== src/Service/Session/Stems.antt =====
-- Where the session that a login returns comes from, up to the time of its last use.
use obmc_webapp.Prelude.{
  ℕ, String, len, ◌≡◌, refl, ap, sym, ◌∙◌, inl, inr, Option, none, some, List, [], ◌∷◌, arith,
  Bool-cases, ◌==◌,
}
use obmc_webapp.Prelude.Membership.{In}
use obmc_webapp.Helpers.Compare.{OpenSsl, constant_time_string_compare}
use obmc_webapp.Service.Session.User.{UserSession, session_token_size}
use obmc_webapp.Service.Session.Store.{
  SessionStore, apply_session_timeouts, touch, find_token, login_found, login_session_by_token,
}
use obmc_webapp.Service.Session.Timeouts.{mem-apply_session_timeouts}
use obmc_webapp.Service.Session.Login.{In-find_token, login-eq-some_iff}

-- `u` is the session of an entry under this token, but for the time of its last use.
abbrev pub Stems : String → UserSession → List (String × UserSession) → Type 0
Stems token u entries =
    (old : UserSession) × (t : ℕ) × In (token, old) entries × (u ≡ record old { last_updated = t })

-- Every session of the first list stems from one of the second, under the same token.
abbrev pub StemFrom : List (String × UserSession) → List (String × UserSession) → Type 0
StemFrom entries from =
    (token : String) (u : UserSession) → Stems token u entries → Stems token u from

pub StemFrom-apply_session_timeouts :
    (s : SessionStore) (now : ℕ) → StemFrom (apply_session_timeouts s now).auth_tokens s.auth_tokens
StemFrom-apply_session_timeouts s now token u (old, t, there, e) =
    (old, t, ((mem-apply_session_timeouts s now (token, old)).0 there).0, e)

touched :
    (key k : String) (later : ℕ) (s v : UserSession) (rest : List (String × UserSession))
    → In (k, v) ((key, record s { last_updated = later }) ∷ rest)
    → Stems k v ((key, s) ∷ rest)
touched key k later s v rest (inl e) =
    let keys : key ≡ k = ap (λ (p : String × UserSession). p.0) e in
    let sessions : record s { last_updated = later } ≡ v =
      ap (λ (p : String × UserSession). p.1) e in
    (s, later, inl (λ i. (keys i, s)), sym sessions)
touched key k later s v rest (inr there) = (v, v.last_updated, inr there, refl)

untouched :
    (key k : String) (s v : UserSession) (rest before : List (String × UserSession))
    → (In (k, v) rest → Stems k v before)
    → In (k, v) ((key, s) ∷ rest)
    → Stems k v ((key, s) ∷ before)
untouched key k s v rest before later (inl e) = (v, v.last_updated, inl e, refl)
untouched key k s v rest before later (inr there) =
    let (old, t, old_there, e) = later there in (old, t, inr old_there, e)

module _ (ssl : OpenSsl) where
  In-touch :
      (token : String) (later : ℕ) (entries : List (String × UserSession)) (k : String)
      (v : UserSession)
      → In (k, v) (touch ssl token later entries)
      → Stems k v entries
  unfolding touch
  In-touch token later [] k v m = absurd m
  In-touch token later ((key, s) ∷ rest) k v m =
      elim (Bool-cases (constant_time_string_compare ssl key token)) [
        | inl same ↦ touched key k later s v rest (rw same at m)
        | inr other ↦
            untouched key k s v (touch ssl token later rest) rest (In-touch token later rest k v)
              (rw other at m)
      ]

  StemFrom-touch :
      (token : String) (later : ℕ) (entries : List (String × UserSession))
      → StemFrom (touch ssl token later entries) entries
  StemFrom-touch token later entries k u (old, t, there, e) =
      let (older, _, older_there, e') = In-touch token later entries k old there in
      (older, t, older_there, e ∙ ap (λ (s : UserSession). record s { last_updated = t }) e')

  StemFrom-login_found :
      (token : String) (later : ℕ) (s : SessionStore) (found : Option UserSession)
      → StemFrom (login_found ssl token later s found).0.auth_tokens s.auth_tokens
  unfolding login_found
  StemFrom-login_found token later s none k u h = h
  StemFrom-login_found token later s (some _) k u h = StemFrom-touch token later s.auth_tokens k u h

  -- After a login, whatever it answers, the sessions of the store stem from those before.
  pub StemFrom-login :
      (s : SessionStore) (token : String) (now later : ℕ)
      → StemFrom (login_session_by_token ssl s token now later).0.auth_tokens s.auth_tokens
  unfolding login_session_by_token
  StemFrom-login s token now later k u h =
      StemFrom-apply_session_timeouts s now k u
        (elim (Bool-cases (len token == session_token_size)) [
          | inl right ↦ StemFrom-login_found token later _ _ k u (rw right at h)
          | inr wrong ↦ rw wrong at h
        ])

  -- What a login returns stems from the entry under its token, which has the size of a token.
  pub login-Stems :
      (s : SessionStore) (token : String) (now later : ℕ) (u : UserSession)
      → (login_session_by_token ssl s token now later).1 ≡ some u
      → (len token ≡ session_token_size) × Stems token u s.auth_tokens
  login-Stems s token now later u h =
      let (size, old, found, e) = (login-eq-some_iff ssl s token now later u).0 h in
      (
        size,
        StemFrom-apply_session_timeouts s now token u
            (old, later, In-find_token ssl token _ old found, e),
      )

  methods-login_found :
      (token : String) (later : ℕ) (s : SessionStore) (found : Option UserSession)
      → (login_found ssl token later s found).0.auth_methods_config ≡ s.auth_methods_config
  unfolding login_found
  methods-login_found token later s none = refl
  methods-login_found token later s (some u) = refl

  pub methods-login :
      (s : SessionStore) (token : String) (now later : ℕ)
      → (login_session_by_token ssl s token now later).0.auth_methods_config ≡ s.auth_methods_config
  unfolding login_session_by_token apply_session_timeouts
  methods-login s token now later = ground (
    arith,
    methods-login_found token later (apply_session_timeouts s now)
        (find_token ssl token (apply_session_timeouts s now).auth_tokens),
  )
