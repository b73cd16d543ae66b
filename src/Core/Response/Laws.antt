-- ===== src/Core/Response/Laws.antt =====
-- What the header buffer and the body hold after any sequence of calls.
use Prim.Native.String.{String, ◌++◌}
use text.Mathlib.TextLemmas.{nil-append, append_assoc}
use obmc_webapp.Prelude.{◌≡◌, refl, List, [], ◌∷◌, sym, ap, ◌∙◌}
use obmc_webapp.Http.Headers.{header}
use obmc_webapp.Core.Response.{Response, end_header_line, set_header, get_headers}

-- The header lines that the pairs of a name and a value stand for, in their order.
abbrev pub header_lines : List (String × String) → String
header_lines [] = ""
header_lines ((name, value) ∷ rest) = header name value ++ end_header_line ++ header_lines rest

abbrev pub set_headers : List (String × String) → Response → Response
set_headers [] r = r
set_headers ((name, value) ∷ rest) r = set_headers rest (set_header name value r)

-- After any calls of `setHeader` the headers are those that were there, then one line for each
-- call, in the order of the calls, then an empty line; the body and the status stay.
pub get_headers-set_headers :
    (calls : List (String × String)) (r : Response)
    → (get_headers (set_headers calls r)
        ≡ r.header_buffer ++ (header_lines calls ++ end_header_line))
      × ((set_headers calls r).internal_buffer ≡ r.internal_buffer)
      × ((set_headers calls r).status ≡ r.status)
unfolding get_headers set_header
get_headers-set_headers [] r = (ap (λ t. r.header_buffer ++ t) (sym (nil-append _)), refl, refl)
get_headers-set_headers ((name, value) ∷ rest) r =
    let (lines, body, status) = get_headers-set_headers rest (set_header name value r) in
    (lines ∙ simp append_assoc, body, status)
