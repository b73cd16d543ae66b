-- ===== src/Http/Status.antt =====
-- src/http/headers.hpp: the status codes (`statuses::Code`), their numbers and their classes. An
-- `int` code is a natural number; the program makes one only from a `Code`.
use obmc_webapp.Prelude.{ℕ, Bool, ◌&&◌, leb, ltb}

pub data Code : Type 0 where
  continue switching_protocols processing early_hints ok created accepted : Code
  non_authoritative_information no_content reset_content partial_content multi_status : Code
  already_reported im_used multiple_choices moved_permanently found see_other not_modified : Code
  use_proxy temporary_redirect permanent_redirect bad_request unauthorized payment_required : Code
  forbidden not_found method_not_allowed not_acceptable proxy_authentication_required : Code
  request_timeout conflict gone length_required precondition_failed payload_too_large : Code
  uri_too_long unsupported_media_type range_not_satisfiable expectation_failed im_a_teapot : Code
  unprocessable_entity locked failed_dependency upgrade_required precondition_required : Code
  too_many_requests request_header_fields_too_large unavailable_for_legal_reasons : Code
  internal_server_error not_implemented bad_gateway service_unavailable gateway_timeout : Code
  http_version_not_supported variant_also_negotiates insufficient_storage loop_detected : Code
  not_extended network_authentication_required : Code

-- `toInt`, and each `static_cast<int>(code)`
unfoldable pub to_int : Code → ℕ
to_int continue = 100
to_int switching_protocols = 101
to_int processing = 102
to_int early_hints = 103
to_int ok = 200
to_int created = 201
to_int accepted = 202
to_int non_authoritative_information = 203
to_int no_content = 204
to_int reset_content = 205
to_int partial_content = 206
to_int multi_status = 207
to_int already_reported = 208
to_int im_used = 226
to_int multiple_choices = 300
to_int moved_permanently = 301
to_int found = 302
to_int see_other = 303
to_int not_modified = 304
to_int use_proxy = 305
to_int temporary_redirect = 307
to_int permanent_redirect = 308
to_int bad_request = 400
to_int unauthorized = 401
to_int payment_required = 402
to_int forbidden = 403
to_int not_found = 404
to_int method_not_allowed = 405
to_int not_acceptable = 406
to_int proxy_authentication_required = 407
to_int request_timeout = 408
to_int conflict = 409
to_int gone = 410
to_int length_required = 411
to_int precondition_failed = 412
to_int payload_too_large = 413
to_int uri_too_long = 414
to_int unsupported_media_type = 415
to_int range_not_satisfiable = 416
to_int expectation_failed = 417
to_int im_a_teapot = 418
to_int unprocessable_entity = 422
to_int locked = 423
to_int failed_dependency = 424
to_int upgrade_required = 426
to_int precondition_required = 428
to_int too_many_requests = 429
to_int request_header_fields_too_large = 431
to_int unavailable_for_legal_reasons = 451
to_int internal_server_error = 500
to_int not_implemented = 501
to_int bad_gateway = 502
to_int service_unavailable = 503
to_int gateway_timeout = 504
to_int http_version_not_supported = 505
to_int variant_also_negotiates = 506
to_int insufficient_storage = 507
to_int loop_detected = 508
to_int not_extended = 510
to_int network_authentication_required = 511

unfoldable pub is_informational : ℕ → Bool
is_informational code = leb 100 code && ltb code 200

unfoldable pub is_successful : ℕ → Bool
is_successful code = leb 200 code && ltb code 300

unfoldable pub is_redirection : ℕ → Bool
is_redirection code = leb 300 code && ltb code 400

unfoldable pub is_client_error : ℕ → Bool
is_client_error code = leb 400 code && ltb code 500

unfoldable pub is_server_error : ℕ → Bool
is_server_error code = leb 500 code && ltb code 600

unfoldable pub is_error : ℕ → Bool
is_error code = leb 400 code
