-- ===== src/Core/Response.antt =====
-- src/core/response.hpp and src/core/response.cpp: the status, the header buffer and the body of an
-- answer. A `std::string` is a text, and its `length()` the number of bytes of its UTF-8.
pub mod Laws
use Prim.Native.String.{String, ◌++◌, len}
use Prim.Native.Nat.{ℕ}
use obmc_webapp.Http.Status.{Code, not_found}
use obmc_webapp.Http.Headers.{header}

pub record Response : Type 0 where
  pub header_buffer : String
  pub internal_buffer : String
  pub status : Code

abbrev pub end_header_line : String
end_header_line = "\r\n"

-- the constructor `Response()`
abbrev pub fresh : Response
fresh = record { header_buffer = ""; internal_buffer = ""; status = not_found }

unfoldable pub total_size : Response → ℕ
total_size r = len r.internal_buffer

unfoldable pub set_status : Code → Response → Response
set_status code r = record r { status = code }

unfoldable pub set_header : String → String → Response → Response
set_header name value r = record r {
  header_buffer = r.header_buffer ++ (header name value ++ end_header_line);
}

unfoldable pub get_headers : Response → String
get_headers r = r.header_buffer ++ end_header_line

unfoldable pub push : String → Response → Response
push buffer r = record r { internal_buffer = r.internal_buffer ++ buffer }

unfoldable pub clear : Response → Response
clear r = record r { internal_buffer = "" }
