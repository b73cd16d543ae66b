-- ===== src/Service/Session/User.antt =====
-- src/service/session.hpp: `UserSession` and `UserSession::fromJson`.
pub mod Restored
use obmc_webapp.Prelude.{
  ℕ, String, Bool, false, not, ◌||◌, Option, none, some, List, [], ◌∷◌, str_eq, if◌then◌else◌,
}
use obmc_webapp.Service.Json.{JsonReader}

-- `sessionTokenSize`
abbrev pub session_token_size : ℕ
session_token_size = 20

pub data PersistenceType : Type 0 where
  timeout single_request : PersistenceType

pub data ConfigFileStorageType : Type 0 where
  config_long_term_storage config_current_bmc_session : ConfigFileStorageType
  config_current_service_session : ConfigFileStorageType

pub record UserSession : Type 0 where
  pub unique_id : String
  pub session_token : String
  pub username : String
  pub csrf_token : String
  pub client_id : String
  pub client_ip : String
  pub last_updated : ℕ
  pub persistence : PersistenceType
  pub cookie_auth : Bool
  pub is_configure_self_only : Bool
  pub storage_type : ConfigFileStorageType

-- `std::make_shared<UserSession>()`
abbrev pub fresh_session : UserSession
fresh_session = record {
  unique_id = "";
  session_token = "";
  username = "";
  csrf_token = "";
  client_id = "";
  client_ip = "";
  last_updated = 0;
  persistence = timeout;
  cookie_auth = false;
  is_configure_self_only = false;
  storage_type = config_current_service_session;
}

-- `isPermitted`: what the file system answers about the mark of a starting BMC, `none` if the call
-- throws
unfoldable pub is_permitted : Option Bool → Bool
is_permitted none = false
is_permitted (some booting) = not booting

-- the chain of tests on `element.key()`; an unexpected key changes nothing
set_property : String → String → UserSession → UserSession
set_property key value s =
    if str_eq key "unique_id"
    then record s { unique_id = value }
    else if str_eq key "session_token"
    then record s { session_token = value }
    else if str_eq key "csrf_token"
    then record s { csrf_token = value }
    else if str_eq key "username"
    then record s { username = value }
    else if str_eq key "client_ip"
    then record s { client_ip = value }
    else s

-- the fields without which a session is not restored
unfoldable pub is_incomplete : UserSession → Bool
is_incomplete s =
    str_eq s.unique_id ""
    || str_eq s.username ""
    || str_eq s.session_token ""
    || str_eq s.csrf_token ""

-- one round of the loop over `j.items()`; a value that is no string is skipped
read_property : Option String → String → UserSession → UserSession
unfolding set_property
read_property none key s = s
read_property (some text) key s = set_property key text s

module _ (reader : JsonReader) where
  open reader use {Json, items, get_string}

  pub read_properties : List (String × Json) → UserSession → UserSession
  read_properties [] s = s
  read_properties ((key, value) ∷ rest) s =
      read_properties rest (read_property (get_string value) key s)

  unfoldable pub from_json : Json → ℕ → Option UserSession
  unfolding read_properties read_property is_incomplete
  from_json j now =
      let s = read_properties (items j) fresh_session in
      if is_incomplete s
      then none
      else some (record s { last_updated = now; persistence = timeout })
