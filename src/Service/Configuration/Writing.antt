-- ===== src/Service/Configuration/Writing.antt =====
-- src/service/configuration.hpp: `ConfigFile::populate…`, which write the revision, the UUID, the
-- methods of authentication, the timeout and the sessions into a JSON value, the dictionary of them
-- by the type of a storage, and `createConfigPath`.
pub mod Restoring
pub mod Rereading
pub mod RoundTrip
use obmc_webapp.Prelude.{
  ℕ, ◌+◌, String, Bool, true, false, not, ◌&&◌, Option, none, some, List, [], ◌∷◌, map, select,
}
use obmc_webapp.Service.Json.{JsonReader, JsonWriter}
use obmc_webapp.Service.Session.User.{
  UserSession, PersistenceType, timeout, single_request, ConfigFileStorageType,
  config_long_term_storage, config_current_bmc_session, config_current_service_session,
}
use obmc_webapp.Service.Session.Methods.{AuthConfigMethods}
use obmc_webapp.Service.Configuration.{ConfigState}

abbrev same_storage : ConfigFileStorageType → ConfigFileStorageType → Bool
same_storage config_long_term_storage config_long_term_storage = true
same_storage config_current_bmc_session config_current_bmc_session = true
same_storage config_current_service_session config_current_service_session = true
same_storage _ _ = false

abbrev is_single_request : PersistenceType → Bool
is_single_request timeout = false
is_single_request single_request = true

-- the condition under which a session is written
unfoldable pub is_written : ConfigFileStorageType → String × UserSession → Bool
is_written storage (_, u) =
    not (is_single_request u.persistence) && same_storage u.storage_type storage

-- `jsonRevision`
abbrev pub json_revision : ℕ
json_revision = 1

module _ (writer : JsonWriter) where
  open writer use {reader, from_string, from_bool, from_uint, from_int, array, object, assign}
  open reader use {Json}

  unfoldable pub populate_revision : ConfigState → Json → Json
  populate_revision c config = assign "revision" (from_uint json_revision) config

  unfoldable pub populate_system_uuid : ConfigState → Json → Json
  populate_system_uuid c config = assign "system_uuid" (from_string c.system_uuid) config

  abbrev pub methods_json : AuthConfigMethods → Json
  methods_json m = object (
      ("XToken", from_bool m.xtoken)
      ∷ ("Cookie", from_bool m.cookie)
      ∷ ("SessionToken", from_bool m.session_token)
      ∷ ("BasicAuth", from_bool m.basic)
      ∷ ("TLS", from_bool m.tls)
      ∷ [])

  unfoldable pub populate_auth_config : ConfigState → Json → Json
  populate_auth_config c config =
      assign "auth_config" (methods_json c.store.auth_methods_config) config

  unfoldable pub populate_timeout : ConfigState → Json → Json
  populate_timeout c config = assign "timeout" (from_int c.store.timeout_in_seconds) config

  -- the value that is pushed back for a session
  abbrev pub session_json : String × UserSession → Json
  session_json (_, u) = object (
      ("unique_id", from_string u.unique_id)
      ∷ ("session_token", from_string u.session_token)
      ∷ ("username", from_string u.username)
      ∷ ("csrf_token", from_string u.csrf_token)
      ∷ ("client_ip", from_string u.client_ip)
      ∷ [])

  unfoldable pub populate_sessions : ConfigFileStorageType → ConfigState → Json → Json
  populate_sessions storage c config =
      let written = select (is_written storage) c.store.auth_tokens in
      assign "sessions" (array (map session_json written)) config

  -- `configPopulatHandlersDict`
  unfoldable pub config_populate_handlers :
      ConfigFileStorageType → Option (List (ConfigState → Json → Json))
  config_populate_handlers config_long_term_storage = some (
      populate_revision
      ∷ populate_auth_config
      ∷ populate_system_uuid
      ∷ populate_timeout
      ∷ populate_sessions config_long_term_storage
      ∷ [])
  config_populate_handlers config_current_bmc_session =
      some (populate_revision ∷ populate_sessions config_current_bmc_session ∷ [])
  config_populate_handlers config_current_service_session = none

-- What `createConfigPath` asks of the file system.
pub data PathChange : Type 0 where
  create_directories : String → PathChange
  set_permissions : String → ℕ → PathChange

-- `configPermission`: the owner reads and writes, the group reads
abbrev pub config_permission : ℕ
config_permission = 256 + 128 + 32

unfoldable pub create_config_path : Bool → String → List PathChange
create_config_path true path = []
create_config_path false path =
    create_directories path ∷ set_permissions path config_permission ∷ []
