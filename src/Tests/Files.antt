-- ===== src/Tests/Files.antt =====
-- The theorems on the configuration file, the status codes and the headers at concrete inputs.
use obmc_webapp.Prelude.{◌*◌, ◌≡◌, refl, ◌||◌, none, some, str_eq, if◌then◌else◌}
use obmc_webapp.Service.Session.User.{fresh_session, from_json}
use obmc_webapp.Service.Session.User.Restored.{last_text, with_texts, from_json_lem}
use obmc_webapp.Service.Session.Store.{second, find_token}
use obmc_webapp.Service.Configuration.{read_data}
use obmc_webapp.Service.Configuration.Sessions.{IsKeyed, read_data-Keeps, read_data-IsKeyed}
use obmc_webapp.Helpers.Compare.{constant_time_string_compare}
use obmc_webapp.Tests.Samples.{ssl, reader, readings, token, root, session_value, file, config}

from_json_lem_example : from_json reader session_value (5 * second) ≡ (
    if str_eq (last_text reader "unique_id" (reader.items session_value) "") ""
      || str_eq (last_text reader "username" (reader.items session_value) "") ""
      || str_eq (last_text reader "session_token" (reader.items session_value) "") ""
      || str_eq (last_text reader "csrf_token" (reader.items session_value) "") ""
    then none
    else some (record (with_texts reader (reader.items session_value) fresh_session) {
      last_updated = 5 * second;
    }))
from_json_lem_example = from_json_lem reader session_value (5 * second)

read_data-Keeps_example :
    find_token ssl token
      (read_data reader ssl readings (some (some file)) config).0.store.auth_tokens
    ≡ some root
unfolding find_token constant_time_string_compare
read_data-Keeps_example =
    read_data-Keeps reader ssl readings (some (some file)) config token root refl

config-IsKeyed : IsKeyed config
config-IsKeyed = ((refl, ((λ h. cc), (λ h. cc), (λ h. cc), λ h. cc)), tt)

read_data-IsKeyed_example : IsKeyed (read_data reader ssl readings (some (some file)) config).0
read_data-IsKeyed_example =
    read_data-IsKeyed reader ssl readings (some (some file)) config config-IsKeyed
