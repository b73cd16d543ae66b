-- ===== src/Core/Connection/Answer.antt =====
-- The text that a connection sends.
use Prim.Native.String.{◌++◌, len}
use text.Mathlib.TextLemmas.{append_assoc}
use obmc_webapp.Prelude.{
  ℕ, String, ◌≡◌, refl, ap, Bool, true, false, Option, none, some, List, [], ◌∷◌,
}
use obmc_webapp.Prelude.Decimal.{to_string, read_from, read_from-to_string}
use obmc_webapp.Http.Headers.{content_type, application_json, content_length, date, header_status}
use obmc_webapp.Helpers.Compare.{OpenSsl}
use obmc_webapp.Core.Exceptions.{Result, ok, err}
use obmc_webapp.Core.Request.{Environment}
use obmc_webapp.Core.Response.{Response, end_header_line, total_size}
use obmc_webapp.Core.Response.Laws.{header_lines, get_headers-set_headers}
use obmc_webapp.Core.Router.{RouteHandler, Routes, Router, process}
use obmc_webapp.Core.Connection.{Connection, seen, write_header, write, respond, response}
use obmc_webapp.Service.Json.{JsonReader}
use obmc_webapp.Service.Authorization.{AuthTimes}
use obmc_webapp.Service.Configuration.{ConfigState}

-- The headers that each answer has after those of its handler.
abbrev pub last_headers : String → ℕ → List (String × String)
last_headers now size =
    (content_type, application_json) ∷ (content_length, to_string size) ∷ (date, now) ∷ []

-- The whole answer: the status line, the headers, an empty line and the body.
abbrev pub answer_text : String → Response → String
answer_text now r =
    (header_status r.status ++ "\n")
    ++ ((r.header_buffer
          ++ (header_lines (last_headers now (len r.internal_buffer)) ++ end_header_line))
        ++ r.internal_buffer)

write_header_lem :
    (now : String) (r : Response) (out : String)
    → (write_header now r out).1 ++ (write_header now r out).0.internal_buffer
      ≡ out ++ answer_text now r
unfolding write_header total_size
write_header_lem now r out =
    let (lines, body, _) = get_headers-set_headers (last_headers now (len r.internal_buffer)) r in
    rw (lines, body) (simp append_assoc)

module _ (interface : RouteHandler) (reader : JsonReader) (ssl : OpenSsl) (readings : ℕ → ℕ) where
  open reader use {Json}

  module _ (file : Option (Option Json)) (t : AuthTimes) (booting : Option Bool)
      (routes : Routes interface) (now : String) (env : Environment) (config : ConfigState)
      (c : Connection interface) where
    -- What the connection's router comes to.
    abbrev processed : Router interface → Router interface × Result (Unit {0})
    processed r =
        (process interface reader ssl readings file t booting routes config
          (record r { request = seen env r.request })).1

    write-ok :
        (p : Router interface × Result (Unit {0}))
        → p.1 ≡ ok tt
        → ((write interface now p c).1 ≡ ok true)
          × ((write interface now p c).0.out ≡ c.out ++ answer_text now p.0.response)
    unfolding write
    write-ok (r, ok _) e = (refl, write_header_lem now r.response c.out)
    write-ok (r, err x) e = cc

    response_of_router :
        (r : Router interface)
        → c.router ≡ some r
        → (response interface reader ssl readings file t booting routes now env config c).1
          ≡ write interface now (processed r) c
    unfolding response respond
    response_of_router r found =
        ap (λ o. (respond interface reader ssl readings file t booting routes now env config o c).1)
          found

    response_of_none :
        c.router ≡ none
        → (response interface reader ssl readings file t booting routes now env config c).1
          ≡ (c, ok false)
    unfolding response respond
    response_of_none missing =
        ap (λ o. (respond interface reader ssl readings file t booting routes now env config o c).1)
          missing

    -- If the connection has a router, and processing its request throws nothing, `response` answers
    -- true and appends to what is sent the status line of the response, the header lines of its
    -- handler, those of Content-Type, Content-Length and Date, an empty line, and the body, each
    -- once and in this order; and what Content-Length states reads back as the length of that body.
    pub response_lem :
        (r : Router interface)
        → c.router ≡ some r
        → (processed r).1 ≡ ok tt
        → let (_, (c', answer)) =
            response interface reader ssl readings file t booting routes now env config c in
          (answer ≡ ok true)
          × (c'.out ≡ c.out ++ answer_text now (processed r).0.response)
          × (read_from 0 (to_string (len (processed r).0.response.internal_buffer))
              ≡ len (processed r).0.response.internal_buffer)
    response_lem r found e =
        let (answer, out) = write-ok (processed r) e in
        rw (response_of_router r found) (answer, out, read_from-to_string _)
