-- ===== src/Tests/Stored.antt =====
-- The theorems on writing the configuration and reading it back, at a small JSON library.
use obmc_webapp.Prelude.{
  ℕ, String, ◌≡◌, refl, ap, Bool, Option, none, some, List, [], ◌∷◌, str_eq, if◌then◌else◌,
}
use obmc_webapp.Prelude.Integers.{ℤ, pos}
use obmc_webapp.Prelude.Maps.{insert_or_assign, string_key}
use obmc_webapp.Core.Exceptions.{ok, err}
use obmc_webapp.Service.Json.{JsonReader, JsonWriter, emplace_all}
use obmc_webapp.Service.Session.User.{
  UserSession, config_long_term_storage, config_current_bmc_session,
}
use obmc_webapp.Service.Session.Store.{fresh_store}
use obmc_webapp.Service.Configuration.{ConfigState, uuid_error, read_content, read_data}
use obmc_webapp.Service.Configuration.Sessions.{IsKeyed}
use obmc_webapp.Service.Configuration.Writing.{config_populate_handlers}
use obmc_webapp.Service.Configuration.Writing.Restoring.{IsDistinct}
use obmc_webapp.Service.Configuration.Writing.Rereading.{populated, HasWritten}
use obmc_webapp.Service.Configuration.Writing.RoundTrip.{
  read_content-populated, read_data-populated,
}
use obmc_webapp.Tests.Samples.{ssl, readings, root}

mutual
  data Stored : Type 0 where
    nothing : Stored
    text : String → Stored
    flag : Bool → Stored
    count : ℕ → Stored
    number : ℤ → Stored
    array : Entries → Stored
    object : Entries → Stored

  data Entries : Type 0 where
    nil : Entries
    entry : String → Stored → Entries → Entries

abbrev to_list : Entries → List (String × Stored)
to_list nil = []
to_list (entry key value rest) = (key, value) ∷ to_list rest

abbrev of_list : List (String × Stored) → Entries
of_list [] = nil
of_list ((key, value) ∷ rest) = entry key value (of_list rest)

to_list-of_list : (l : List (String × Stored)) → to_list (of_list l) ≡ l
to_list-of_list [] = refl
to_list-of_list ((key, value) ∷ rest) = ap (λ l. (key, value) ∷ l) (to_list-of_list rest)

abbrev values : Entries → List Stored
values nil = []
values (entry key value rest) = value ∷ values rest

abbrev of_values : List Stored → Entries
of_values [] = nil
of_values (value ∷ rest) = entry "" value (of_values rest)

values-of_values : (l : List Stored) → values (of_values l) ≡ l
values-of_values [] = refl
values-of_values (value ∷ rest) = ap (λ l. value ∷ l) (values-of_values rest)

abbrev items : Stored → List (String × Stored)
items (object m) = to_list m
items _ = []

abbrev elements : Stored → List Stored
elements (array m) = values m
elements _ = []

abbrev get_string : Stored → Option String
get_string (text t) = some t
get_string _ = none

abbrev get_bool : Stored → Option Bool
get_bool (flag b) = some b
get_bool _ = none

abbrev get_uint : Stored → Option ℕ
get_uint (count n) = some n
get_uint _ = none

abbrev get_int : Stored → Option ℤ
get_int (number z) = some z
get_int _ = none

abbrev stored_reader : JsonReader
stored_reader = record {
  Json = Stored;
  items = items;
  elements = elements;
  get_string = get_string;
  get_bool = get_bool;
  get_uint = get_uint;
  get_int = get_int;
}

abbrev writer : JsonWriter
writer = record {
  reader = stored_reader;
  null = nothing;
  from_string = text;
  from_bool = flag;
  from_uint = count;
  from_int = number;
  array = λ values. array (of_values values);
  object = λ members. object (of_list (emplace_all members []));
  assign = λ key value json. object (of_list (insert_or_assign key value (items json)));
  get_string-from_string = λ s. refl;
  get_bool-from_bool = λ b. refl;
  get_int-from_int = λ z. refl;
  elements-array = values-of_values;
  items-null = refl;
  items-object = λ members. to_list-of_list (emplace_all members []);
  items-assign = λ key value json. to_list-of_list (insert_or_assign key value (items json));
}

-- A session of each storage, and a timeout that is not the default.
abbrev kept : UserSession
kept = record root {
  unique_id = "u2";
  session_token = "2";
  storage_type = config_long_term_storage;
}

abbrev running : UserSession
running = record root { storage_type = config_current_bmc_session }

abbrev source : ConfigState
source = record {
  store = record fresh_store {
    auth_tokens = (running.session_token, running) ∷ (kept.session_token, kept) ∷ [];
    timeout_in_seconds = pos 60;
  };
  system_uuid = "0000-1111";
  reads = 0;
}

abbrev empty : ConfigState
empty = record { store = fresh_store; system_uuid = ""; reads = 0 }

source-IsKeyed : IsKeyed source
source-IsKeyed = (
  (refl, ((λ h. cc), (λ h. cc), (λ h. cc), λ h. cc)),
  ((refl, ((λ h. cc), (λ h. cc), (λ h. cc), λ h. cc)), tt),
)

source-IsDistinct : IsDistinct source.store.auth_tokens
source-IsDistinct = (((λ h. cc), tt), (tt, tt))

read_content-populated_example :
    let c' =
      read_content stored_reader ssl readings config_long_term_storage
        (some (
          some
            (populated writer (config_populate_handlers writer config_long_term_storage) source)))
        empty in
    HasWritten writer ssl readings config_long_term_storage source c'
    × (c'.store.auth_methods_config ≡ source.store.auth_methods_config)
    × (c'.store.timeout_in_seconds ≡ source.store.timeout_in_seconds)
    × (c'.system_uuid ≡ source.system_uuid)
read_content-populated_example =
    read_content-populated writer ssl readings source empty source-IsKeyed source-IsDistinct refl

read_data-populated_example :
    let (c', outcome) =
      read_data stored_reader ssl readings
        (some (
          some
            (populated writer (config_populate_handlers writer config_current_bmc_session) source)))
        empty in
    HasWritten writer ssl readings config_current_bmc_session source c'
    × (c'.store.auth_methods_config ≡ empty.store.auth_methods_config)
    × (c'.store.timeout_in_seconds ≡ empty.store.timeout_in_seconds)
    × (c'.system_uuid ≡ empty.system_uuid)
    × (outcome ≡ (if str_eq empty.system_uuid "" then err uuid_error else ok tt))
read_data-populated_example =
    read_data-populated writer ssl readings source empty source-IsKeyed source-IsDistinct refl
