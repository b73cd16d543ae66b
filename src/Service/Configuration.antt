-- ===== src/Service/Configuration.antt =====
-- src/service/configuration.hpp: `ConfigFile::readData`, which takes sessions and settings from the
-- file that bmcweb writes. The file's content is an argument: `none` if it cannot be opened, `some
-- none` if it is no JSON. The child Writing has the other direction.
pub mod Sessions
pub mod Writing
use obmc_webapp.Prelude.{
  ℕ, suc, String, Bool, Option, none, some, List, [], ◌∷◌, str_eq, if◌then◌else◌,
}
use obmc_webapp.Prelude.Integers.{ℤ}
use obmc_webapp.Helpers.Compare.{OpenSsl}
use obmc_webapp.Core.Exceptions.{Exception, obmc_app_exception, Result, ok, err}
use obmc_webapp.Service.Json.{JsonReader}
use obmc_webapp.Service.Session.User.{
  UserSession, ConfigFileStorageType, config_current_bmc_session, from_json,
}
use obmc_webapp.Service.Session.Methods.{methods_from_json}
use obmc_webapp.Service.Session.Store.{
  SessionStore, apply_session_timeouts, emplace_token, update_session_timeout,
  update_auth_methods_config,
}

-- The session store, the system's UUID, and how often a session's restoring has read the clock.
pub record ConfigState : Type 0 where
  pub store : SessionStore
  pub system_uuid : String
  pub reads : ℕ

abbrev pub uuid_error : Exception
uuid_error = obmc_app_exception "The actual Sysyten UUID is not captured."

module _ (reader : JsonReader) (ssl : OpenSsl) (readings : ℕ → ℕ) where
  open reader use {Json, items, elements, get_string, get_int}

  -- `authTokens.emplace` of a session that could be restored
  restore : ConfigFileStorageType → Option UserSession → ConfigState → ConfigState
  restore storage none c = c
  restore storage (some u) c = record c {
    store = record c.store {
      auth_tokens =
          emplace_token ssl u.session_token (record u { storage_type = storage })
            c.store.auth_tokens;
    };
    reads = suc c.reads;
  }

  -- the loop over the value of "sessions"
  pub restore_all : ConfigFileStorageType → List Json → ConfigState → ConfigState
  restore_all storage [] c = c
  restore_all storage (elem ∷ rest) c =
      restore_all storage rest (restore storage (from_json reader elem (readings c.reads)) c)

  abbrev set_uuid : Option String → ConfigState → ConfigState
  set_uuid none c = c
  set_uuid (some uuid) c = record c { system_uuid = uuid }

  abbrev set_timeout : Option ℤ → ConfigState → ConfigState
  set_timeout none c = c
  set_timeout (some seconds) c = record c { store = update_session_timeout seconds c.store }

  -- the chain of tests on `item.key()`; what is read of "revision" is used nowhere
  read_item : ConfigFileStorageType → String → Json → ConfigState → ConfigState
  read_item storage key value c =
      if str_eq key "revision"
      then c
      else if str_eq key "system_uuid"
      then set_uuid (get_string value) c
      else if str_eq key "auth_config"
      then record c {
        store =
            update_auth_methods_config (methods_from_json reader value c.store.auth_methods_config)
              c.store;
      }
      else if str_eq key "sessions"
      then restore_all storage (elements value) c
      else if str_eq key "timeout"
      then set_timeout (get_int value) c
      else c

  read_items : ConfigFileStorageType → List (String × Json) → ConfigState → ConfigState
  read_items storage [] c = c
  read_items storage ((key, value) ∷ rest) c =
      read_items storage rest (read_item storage key value c)

  pub read_content : ConfigFileStorageType → Option (Option Json) → ConfigState → ConfigState
  read_content storage none c = c
  read_content storage (some none) c = c
  read_content storage (some (some j)) c = read_items storage (items j) c

  -- `configFilePathDict` has one entry, for the sessions of the running BMC. What was read before
  -- the exception stays.
  unfoldable pub read_data : Option (Option Json) → ConfigState → ConfigState × Result (Unit {0})
  unfolding read_content read_items read_item restore_all restore
  read_data file c =
      let c' = read_content config_current_bmc_session file c in
      (c', if str_eq c'.system_uuid "" then err uuid_error else ok tt)

-- `~ConfigFile`, at a reading of the clock
unfoldable pub destroy : ConfigState → ℕ → ConfigState
destroy c now = record c { store = apply_session_timeouts c.store now }
