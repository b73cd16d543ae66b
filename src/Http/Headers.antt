-- ===== src/Http/Headers.antt =====
-- src/http/headers.hpp: header names, header lines and the status line.
use Prim.Native.String.{String, ◌++◌}
use obmc_webapp.Prelude.Decimal.{to_string}
use obmc_webapp.Http.Status.{Code, to_int}
use obmc_webapp.Http.Phrase.{reason_phrase}

abbrev pub http : String
http = "HTTP/1.1"

abbrev pub content_type : String
content_type = "Content-Type"

abbrev pub content_length : String
content_length = "Content-Length"

abbrev pub date : String
date = "Date"

abbrev pub location : String
location = "Location"

abbrev pub www_authenticate : String
www_authenticate = "WWW-Authenticate"

abbrev pub application_json : String
application_json = "application/json; charset=UTF-8"

unfoldable pub header : String → String → String
header name value = name ++ ": " ++ value

unfoldable pub header_status : Code → String
unfolding to_string to_int reason_phrase
header_status code = http ++ " " ++ to_string (to_int code) ++ " " ++ reason_phrase code
