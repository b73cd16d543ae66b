-- ===== src/Service/Configuration/Sessions.antt =====
-- What reading the configuration file leaves of the sessions.
use obmc_webapp.Prelude.{
  ℕ, String, ◌≡◌, refl, inl, inr, ◌⊎◌, Option, none, some, List, [], ◌∷◌, arith, Bool-cases,
  Option-cases, All,
}
use obmc_webapp.Helpers.Compare.{
  OpenSsl, constant_time_string_compare, constant_time_string_compare_iff,
}
use obmc_webapp.Service.Json.{JsonReader}
use obmc_webapp.Service.Session.User.{
  UserSession, ConfigFileStorageType, config_current_bmc_session, from_json,
}
use obmc_webapp.Service.Session.User.Restored.{IsComplete, from_json-IsComplete}
use obmc_webapp.Service.Session.Store.{
  emplace_token, find_token, update_session_timeout, update_auth_methods_config,
}
use obmc_webapp.Service.Configuration.{
  ConfigState, restore, restore_all, read_item, read_items, read_content, read_data,
}

module _ (ssl : OpenSsl) where
  -- Every session that the first store finds, the second finds unchanged.
  abbrev pub Keeps : ConfigState → ConfigState → Type 0
  Keeps c c' =
      (token : String) (u : UserSession)
      → find_token ssl token c.store.auth_tokens ≡ some u
      → find_token ssl token c'.store.auth_tokens ≡ some u

  find_token-emplace_token :
      (token k : String) (s u : UserSession) (entries : List (String × UserSession))
      → find_token ssl token entries ≡ some u
      → find_token ssl token (emplace_token ssl k s entries) ≡ some u
  unfolding emplace_token find_token
  find_token-emplace_token token k s u entries h = elim (Option-cases (find_token ssl k entries)) [
    | inr (old, e) ↦ rw (e, emplace_token) h
    | inl missing ↦
        rw (missing, emplace_token)
          (elim (Bool-cases (constant_time_string_compare ssl k token)) [
            | inl same ↦
                absurd (cc ((constant_time_string_compare_iff ssl k token).0 same, missing, h))
            | inr other ↦ rw other h
          ])
  ]

-- Each session stands under its own token, and has the fields without which none is restored.
abbrev pub IsKeyed : ConfigState → Type 0
IsKeyed c = All (λ e. (e.0 ≡ e.1.session_token) × IsComplete e.1) c.store.auth_tokens

module _ (reader : JsonReader) (ssl : OpenSsl) (readings : ℕ → ℕ)
    (storage : ConfigFileStorageType) where
  open reader use {Json, items, elements, get_string, get_int}

  restore-Keeps :
      (o : Option UserSession) (c : ConfigState)
      → Keeps ssl c (restore reader ssl readings storage o c)
  unfolding restore
  restore-Keeps none c token u h = h
  restore-Keeps (some s) c token u h = find_token-emplace_token ssl token _ _ u _ h

  restore_all-Keeps :
      (elems : List Json) (c : ConfigState)
      → Keeps ssl c (restore_all reader ssl readings storage elems c)
  unfolding restore_all
  restore_all-Keeps [] c token u h = h
  restore_all-Keeps (elem ∷ rest) c token u h =
      restore_all-Keeps rest _ token u
        (restore-Keeps (from_json reader elem (readings c.reads)) c token u h)

  read_item-Keeps :
      (key : String) (value : Json) (c : ConfigState)
      → Keeps ssl c (read_item reader ssl readings storage key value c)
  unfolding read_item update_session_timeout update_auth_methods_config
  read_item-Keeps key value c token u h =
      ground (arith, restore_all-Keeps (elements value) c token u h)

  read_items-Keeps :
      (members : List (String × Json)) (c : ConfigState)
      → Keeps ssl c (read_items reader ssl readings storage members c)
  unfolding read_items
  read_items-Keeps [] c token u h = h
  read_items-Keeps ((key, value) ∷ rest) c token u h =
      read_items-Keeps rest _ token u (read_item-Keeps key value c token u h)

  restore-IsKeyed :
      (o : Option UserSession) (c : ConfigState)
      → ((u : UserSession) → o ≡ some u → IsComplete u)
      → IsKeyed c
      → IsKeyed (restore reader ssl readings storage o c)
  unfolding restore emplace_token
  restore-IsKeyed none c complete k = k
  restore-IsKeyed (some u) c complete k =
      elim (Option-cases (find_token ssl u.session_token c.store.auth_tokens)) [
        | inl missing ↦ rw (missing, emplace_token) ((refl, complete u refl), k)
        | inr (old, found) ↦ rw (found, emplace_token) k
      ]

  restore_all-IsKeyed :
      (elems : List Json) (c : ConfigState)
      → IsKeyed c
      → IsKeyed (restore_all reader ssl readings storage elems c)
  unfolding restore_all
  restore_all-IsKeyed [] c k = k
  restore_all-IsKeyed (elem ∷ rest) c k = restore_all-IsKeyed rest _ (
      restore-IsKeyed (from_json reader elem (readings c.reads)) c
        (from_json-IsComplete reader elem (readings c.reads)) k)

  read_item-tokens :
      (key : String) (value : Json) (c : ConfigState)
      → ((read_item reader ssl readings storage key value c).store.auth_tokens
          ≡ c.store.auth_tokens)
        ⊎ ((read_item reader ssl readings storage key value c).store.auth_tokens
            ≡ (restore_all reader ssl readings storage (elements value) c).store.auth_tokens)
  unfolding read_item update_session_timeout update_auth_methods_config
  read_item-tokens key value c = ground arith

  read_item-IsKeyed :
      (key : String) (value : Json) (c : ConfigState)
      → IsKeyed c
      → IsKeyed (read_item reader ssl readings storage key value c)
  read_item-IsKeyed key value c k = elim (read_item-tokens key value c) [
    | inl same ↦ rw same k
    | inr restored ↦ rw restored (restore_all-IsKeyed (elements value) c k)
  ]

  read_items-IsKeyed :
      (members : List (String × Json)) (c : ConfigState)
      → IsKeyed c
      → IsKeyed (read_items reader ssl readings storage members c)
  unfolding read_items
  read_items-IsKeyed [] c k = k
  read_items-IsKeyed ((key, value) ∷ rest) c k =
      read_items-IsKeyed rest _ (read_item-IsKeyed key value c k)

module _ (reader : JsonReader) (ssl : OpenSsl) (readings : ℕ → ℕ) where
  open reader use {Json}

  -- Reading the file neither drops nor changes a session that the store has.
  pub read_data-Keeps :
      (file : Option (Option Json)) (c : ConfigState) (token : String) (u : UserSession)
      → find_token ssl token c.store.auth_tokens ≡ some u
      → find_token ssl token (read_data reader ssl readings file c).0.store.auth_tokens ≡ some u
  unfolding read_data read_content
  read_data-Keeps none c token u h = h
  read_data-Keeps (some none) c token u h = h
  read_data-Keeps (some (some j)) c token u h =
      read_items-Keeps reader ssl readings config_current_bmc_session (reader.items j) c token u h

  -- Reading the file, whatever it holds, keeps every session under its own token and complete.
  pub read_data-IsKeyed :
      (file : Option (Option Json)) (c : ConfigState)
      → IsKeyed c
      → IsKeyed (read_data reader ssl readings file c).0
  unfolding read_data read_content
  read_data-IsKeyed none c k = k
  read_data-IsKeyed (some none) c k = k
  read_data-IsKeyed (some (some j)) c k =
      read_items-IsKeyed reader ssl readings config_current_bmc_session (reader.items j) c k
