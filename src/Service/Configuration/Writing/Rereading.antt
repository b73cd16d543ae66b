-- ===== src/Service/Configuration/Writing/Rereading.antt =====
-- src/service/configuration.hpp: what the handlers of `configPopulatHandlersDict` write, and the
-- state that reading it back leaves.
use obmc_webapp.Prelude.{
  ℕ, ◌+◌, String, ◌≡◌, refl, sym, ap, subst, ◌∙◌, arith, Option, none, some, List, [], ◌∷◌, map,
  select, length, All,
}
use obmc_webapp.Prelude.Maps.{insert_or_assign, emplace, find, string_key}
use obmc_webapp.Prelude.Membership.{All-select}
use obmc_webapp.Service.Session.User.Restored.{IsComplete}
use obmc_webapp.Helpers.Compare.{OpenSsl}
use obmc_webapp.Service.Json.{JsonWriter}
use obmc_webapp.Service.Session.User.{
  UserSession, ConfigFileStorageType, config_long_term_storage, config_current_bmc_session,
}
use obmc_webapp.Service.Session.Methods.{AuthConfigMethods, methods_from_json}
use obmc_webapp.Service.Session.Store.{
  find_token, update_session_timeout, update_auth_methods_config,
}
use obmc_webapp.Service.Configuration.{
  ConfigState, set_uuid, set_timeout, restore_all, read_item, read_items, read_content,
}
use obmc_webapp.Service.Session.Tokens.{find_token-empty}
use obmc_webapp.Service.Configuration.Sessions.{IsKeyed}
use obmc_webapp.Service.Configuration.Writing.{
  is_written, json_revision, methods_json, session_json, populate_revision, populate_system_uuid,
  populate_auth_config, populate_timeout, populate_sessions, config_populate_handlers,
}
use obmc_webapp.Service.Configuration.Writing.Restoring.{
  IsDistinct, IsDistinct-select, IsFound, restored_all-IsFound, length-restored_all, with_restored,
  restore_all-session_json,
}

module _ (writer : JsonWriter) where
  open writer use {
    reader, null, from_string, from_bool, from_uint, from_int, array, assign,
    get_string-from_string, get_bool-from_bool, get_int-from_int, elements-array, items-null,
    items-object, items-assign,
  }
  open reader use {Json, items, elements, get_string, get_int}

  -- Every handler in its turn, from an empty value on.
  abbrev pub populate_all : List (ConfigState → Json → Json) → ConfigState → Json → Json
  populate_all [] c config = config
  populate_all (handler ∷ rest) c config = populate_all rest c (handler c config)

  abbrev pub populated : Option (List (ConfigState → Json → Json)) → ConfigState → Json
  populated none c = null
  populated (some handlers) c = populate_all handlers c null

  -- the entries of the store that are written
  abbrev pub written : ConfigFileStorageType → ConfigState → List (String × UserSession)
  written storage c = select (is_written storage) c.store.auth_tokens

  abbrev pub sessions_json : ConfigFileStorageType → ConfigState → Json
  sessions_json storage c = array (map (session_json writer) (written storage c))

  items-assign_of :
      (key : String) (v j : Json) (m : List (String × Json))
      → items j ≡ m
      → items (assign key v j) ≡ insert_or_assign key v m
  items-assign_of key v j m e = items-assign key v j ∙ ap (insert_or_assign key v) e

  items-long_term :
      (c : ConfigState)
      → items (populated (config_populate_handlers writer config_long_term_storage) c)
        ≡ ("auth_config", methods_json writer c.store.auth_methods_config)
          ∷ ("revision", from_uint json_revision)
          ∷ ("sessions", sessions_json config_long_term_storage c)
          ∷ ("system_uuid", from_string c.system_uuid)
          ∷ ("timeout", from_int c.store.timeout_in_seconds)
          ∷ []
  unfolding config_populate_handlers populate_revision populate_auth_config populate_system_uuid
      populate_timeout populate_sessions insert_or_assign
  items-long_term c = items-assign_of "sessions" _ _ _ (
      items-assign_of "timeout" _ _ _ (
        items-assign_of "system_uuid" _ _ _
          (items-assign_of "auth_config" _ _ _ (items-assign_of "revision" _ _ _ items-null))))

  pub items-current_bmc :
      (c : ConfigState)
      → items (populated (config_populate_handlers writer config_current_bmc_session) c)
        ≡ ("revision", from_uint json_revision)
          ∷ ("sessions", sessions_json config_current_bmc_session c)
          ∷ []
  unfolding config_populate_handlers populate_revision populate_sessions insert_or_assign
  items-current_bmc c =
      items-assign_of "sessions" _ _ _ (items-assign_of "revision" _ _ _ items-null)

  methods_from_json-methods_json :
      (m old : AuthConfigMethods) → methods_from_json reader (methods_json writer m) old ≡ m
  unfolding methods_from_json emplace find insert_or_assign
  methods_from_json-methods_json m old =
      rw
        (
          items-object,
          get_bool-from_bool m.basic,
          get_bool-from_bool m.cookie,
          get_bool-from_bool m.session_token,
          get_bool-from_bool m.tls,
          get_bool-from_bool m.xtoken,
        )
        refl

  module _ (ssl : OpenSsl) (readings : ℕ → ℕ) (storage : ConfigFileStorageType) where
    pub read_items-sessions :
        (source c : ConfigState)
        → IsKeyed source
        → IsDistinct source.store.auth_tokens
        → c.store.auth_tokens ≡ []
        → restore_all reader ssl readings storage (reader.elements (sessions_json storage source)) c
          ≡ with_restored ssl readings storage
              (written storage source)
              (length (written storage source) + c.reads)
              c
    read_items-sessions source c k d e =
        let p = is_written storage in
        let tokens = source.store.auth_tokens in
        ap (λ elems. restore_all reader ssl readings storage elems c) (elements-array _)
        ∙ restore_all-session_json ssl readings storage writer (written storage source) c
            (All-select p (λ f. (f.0 ≡ f.1.session_token) × IsComplete f.1) tokens k)
            (IsDistinct-select p tokens d)
            (subst (λ l. All (λ f. find_token ssl f.0 l ≡ none) (written storage source)) (sym e)
              (find_token-empty ssl (written storage source)))

    -- A store has each session that was written of another, and no other session.
    abbrev pub HasWritten : ConfigState → ConfigState → Type 0
    HasWritten source c =
        All (IsFound ssl readings storage c.store.auth_tokens) (written storage source)
        × (length c.store.auth_tokens ≡ length (written storage source))

    pub HasWritten-with_restored :
        (source c : ConfigState) (reads : ℕ)
        → IsDistinct source.store.auth_tokens
        → c.store.auth_tokens ≡ []
        → HasWritten source (with_restored ssl readings storage (written storage source) reads c)
    HasWritten-with_restored source c reads d e =
        let tokens = source.store.auth_tokens in
        (
          restored_all-IsFound ssl readings storage c.reads (written storage source)
              c.store.auth_tokens (IsDistinct-select (is_written storage) tokens d),
          length-restored_all ssl readings storage c.reads (written storage source)
                c.store.auth_tokens
              ∙ ap (λ l. length (written storage source) + length l) e
              ∙ omega arith,
        )

  module _ (ssl : OpenSsl) (readings : ℕ → ℕ) where
    pub read_items-long_term :
        (source c : ConfigState)
        → IsKeyed source
        → IsDistinct source.store.auth_tokens
        → c.store.auth_tokens ≡ []
        → read_content reader ssl readings config_long_term_storage
            (some
              (some (populated (config_populate_handlers writer config_long_term_storage) source)))
            c
          ≡ (let s =
                with_restored ssl readings config_long_term_storage
                  (written config_long_term_storage source)
                  (length (written config_long_term_storage source) + c.reads)
                  c in
              record s {
                store = record s.store {
                  auth_methods_config = source.store.auth_methods_config;
                  timeout_in_seconds = source.store.timeout_in_seconds;
                };
                system_uuid = source.system_uuid;
              })
    unfolding read_content read_items read_item update_session_timeout update_auth_methods_config
    read_items-long_term source c k d e =
        let storage = config_long_term_storage in
        let methods = source.store.auth_methods_config in
        let uuid = from_string source.system_uuid in
        let timeout = from_int source.store.timeout_in_seconds in
        let c1 : ConfigState = record c {
          store = record c.store { auth_methods_config = methods };
        } in
        let c2 : ConfigState =
          with_restored ssl readings storage (written storage source)
            (length (written storage source) + c.reads) c1 in
        ap (λ members. read_items reader ssl readings storage members c) (items-long_term source)
        ∙ ap
            (λ m. set_timeout reader ssl readings (get_int timeout) (
              set_uuid reader ssl readings (get_string uuid) (
                restore_all reader ssl readings storage (elements (sessions_json storage source))
                  (record c { store = record c.store { auth_methods_config = m } }))))
            (methods_from_json-methods_json methods c.store.auth_methods_config)
        ∙ ap
            (λ s.
              set_timeout reader ssl readings (get_int timeout)
                (set_uuid reader ssl readings (get_string uuid) s))
            (read_items-sessions ssl readings storage source c1 k d e)
        ∙ ap
            (λ o.
              set_timeout reader ssl readings (get_int timeout) (set_uuid reader ssl readings o c2))
            (get_string-from_string source.system_uuid)
        ∙ ap
            (λ o.
              set_timeout reader ssl readings o (record c2 { system_uuid = source.system_uuid }))
            (get_int-from_int source.store.timeout_in_seconds)
