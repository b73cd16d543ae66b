-- ===== src/Service/Session/User/Restored.antt =====
-- Which session `UserSession::fromJson` restores from a JSON value.
use obmc_webapp.Prelude.{
  ℕ, String, ◌≡◌, ◌≢◌, arith, refl, Bool, ◌||◌, Option, none, some, List, [], ◌∷◌, str_eq,
  str_eq_iff, arith, inl, inr, Bool-cases, if◌then◌else◌, ◌∙◌, ap,
}
use obmc_webapp.Service.Json.{JsonReader}
use obmc_webapp.Service.Session.User.{
  UserSession, fresh_session, set_property, read_property, read_properties, from_json,
}

-- The text of a member, if it has this key and its value is a string.
abbrev text_or : Option String → Bool → String → String
text_or none named d = d
text_or (some text) named d = if named then text else d

-- A session with the fields without which none is restored.
abbrev pub IsComplete : UserSession → Type 0
IsComplete u = (u.unique_id ≢ "") × (u.username ≢ "") × (u.session_token ≢ "") × (u.csrf_token ≢ "")

module _ (reader : JsonReader) where
  open reader use {Json, get_string}

  -- The last string value under a key, or `d` where there is none.
  abbrev pub last_text : String → List (String × Json) → String → String
  last_text key [] d = d
  last_text key ((k, value) ∷ rest) d =
      last_text key rest (text_or (get_string value) (str_eq k key) d)

  -- The session that holds the last texts of the five known keys.
  abbrev pub with_texts : List (String × Json) → UserSession → UserSession
  with_texts members s = record s {
    unique_id = last_text "unique_id" members s.unique_id;
    session_token = last_text "session_token" members s.session_token;
    username = last_text "username" members s.username;
    csrf_token = last_text "csrf_token" members s.csrf_token;
    client_ip = last_text "client_ip" members s.client_ip;
  }

set_property_lem :
    (key value : String) (s : UserSession)
    → set_property key value s ≡ record s {
      unique_id = if str_eq key "unique_id" then value else s.unique_id;
      session_token = if str_eq key "session_token" then value else s.session_token;
      username = if str_eq key "username" then value else s.username;
      csrf_token = if str_eq key "csrf_token" then value else s.csrf_token;
      client_ip = if str_eq key "client_ip" then value else s.client_ip;
    }
unfolding set_property
set_property_lem key value s = elim (Bool-cases (str_eq key "unique_id")) [
  | inl e ↦ rw ((str_eq_iff key "unique_id").0 e)
  | inr e0 ↦ elim (Bool-cases (str_eq key "session_token")) [
    | inl e ↦ rw ((str_eq_iff key "session_token").0 e)
    | inr e1 ↦ elim (Bool-cases (str_eq key "csrf_token")) [
      | inl e ↦ rw ((str_eq_iff key "csrf_token").0 e)
      | inr e2 ↦ elim (Bool-cases (str_eq key "username")) [
        | inl e ↦ rw ((str_eq_iff key "username").0 e)
        | inr e3 ↦ elim (Bool-cases (str_eq key "client_ip")) [
          | inl e ↦ rw ((str_eq_iff key "client_ip").0 e)
          | inr e4 ↦ rw (e0, e1, e2, e3, e4)
        ]
      ]
    ]
  ]
]

read_property_lem :
    (o : Option String) (key : String) (s : UserSession)
    → read_property o key s ≡ record s {
      unique_id = text_or o (str_eq key "unique_id") s.unique_id;
      session_token = text_or o (str_eq key "session_token") s.session_token;
      username = text_or o (str_eq key "username") s.username;
      csrf_token = text_or o (str_eq key "csrf_token") s.csrf_token;
      client_ip = text_or o (str_eq key "client_ip") s.client_ip;
    }
unfolding read_property
read_property_lem none key s = refl
read_property_lem (some text) key s = set_property_lem key text s

module _ (reader : JsonReader) where
  open reader use {Json, items, get_string}

  pub read_properties-eq-with_texts :
      (members : List (String × Json)) (s : UserSession)
      → read_properties reader members s ≡ with_texts reader members s
  unfolding read_properties
  read_properties-eq-with_texts [] s = refl
  read_properties-eq-with_texts ((key, value) ∷ rest) s =
      read_properties-eq-with_texts rest (read_property (get_string value) key s)
      ∙ ap (with_texts reader rest) (read_property_lem (get_string value) key s)

  -- `fromJson` restores a session exactly when the last string values of "unique_id", "username",
  -- "session_token" and "csrf_token" are not empty. The session holds these and the last
  -- "client_ip"; it was last used now, expires by timeout, and lives in the service's memory.
  pub from_json_lem :
      (j : Json) (now : ℕ)
      → from_json reader j now ≡ (
          if str_eq (last_text reader "unique_id" (items j) "") ""
            || str_eq (last_text reader "username" (items j) "") ""
            || str_eq (last_text reader "session_token" (items j) "") ""
            || str_eq (last_text reader "csrf_token" (items j) "") ""
          then none
          else some (record (with_texts reader (items j) fresh_session) { last_updated = now }))
  unfolding from_json
  from_json_lem j now = rw (read_properties-eq-with_texts (items j) fresh_session) refl

  pub from_json-IsComplete :
      (j : Json) (now : ℕ) (u : UserSession) → from_json reader j now ≡ some u → IsComplete u
  unfolding from_json
  from_json-IsComplete j now u h =
      let s = read_properties reader (items j) fresh_session in
      ground (
        arith,
        str_eq_iff s.unique_id "",
        str_eq_iff s.username "",
        str_eq_iff s.session_token "",
        str_eq_iff s.csrf_token "",
      )
