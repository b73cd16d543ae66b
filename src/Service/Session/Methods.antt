-- ===== src/Service/Session/Methods.antt =====
-- src/service/session.hpp: `AuthConfigMethods` and its `fromJson`.
use obmc_webapp.Prelude.{
  String, Bool, true, false, none, some, List, [], ◌∷◌, str_eq, if◌then◌else◌,
}
use obmc_webapp.Service.Json.{JsonReader}

pub record AuthConfigMethods : Type 0 where
  pub xtoken : Bool
  pub cookie : Bool
  pub session_token : Bool
  pub basic : Bool
  pub tls : Bool

abbrev pub default_methods : AuthConfigMethods
default_methods = record {
  xtoken = true;
  cookie = true;
  session_token = true;
  basic = true;
  tls = false;
}

set_method : String → Bool → AuthConfigMethods → AuthConfigMethods
set_method key value m =
    if str_eq key "XToken"
    then record m { xtoken = value }
    else if str_eq key "Cookie"
    then record m { cookie = value }
    else if str_eq key "SessionToken"
    then record m { session_token = value }
    else if str_eq key "BasicAuth"
    then record m { basic = value }
    else if str_eq key "TLS"
    then record m { tls = value }
    else m

module _ (reader : JsonReader) where
  open reader use {Json, items, get_bool}

  read_methods : List (String × Json) → AuthConfigMethods → AuthConfigMethods
  read_methods [] m = m
  read_methods ((key, value) ∷ rest) m = elim (get_bool value) [
    | none ↦ read_methods rest m
    | some flag ↦ read_methods rest (set_method key flag m)
  ]

  unfoldable pub methods_from_json : Json → AuthConfigMethods → AuthConfigMethods
  unfolding read_methods set_method
  methods_from_json j m = read_methods (items j) m
