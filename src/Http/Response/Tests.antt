-- ===== src/Http/Response/Tests.antt =====
-- Runs of http_response.cpp, and the theorems at concrete inputs.
use liblw.Prelude.{◌≡◌, refl, arith, [], ◌∷◌, ◌++◌, ◌+◌, ◌%◌, if◌then◌else◌}
use liblw.Prelude.Int.{ℤ, pos, negsuc}
use liblw.Base.Chars.{Bytes, codes, to_upper}
use liblw.Base.OrderedMap.{find, insert}
use liblw.Base.Strings.{equal, less}
use liblw.Err.{ok, throws, invalid_argument}
use liblw.Http.Headers.{Headers}
use liblw.Http.Request.{HttpRequest}
use liblw.Http.Request.Line.{parse_headers}
use liblw.Http.Request.Line.Fields.{AreLines}
use liblw.Http.Response.{
  HttpResponse, fresh, header, set_header, set_status, status, status_message, set_body, has_header,
  header_lines, serialize, end,
}
use liblw.Http.Response.Headers.{header-set_header, HasOrderedHeaders}
use liblw.Http.Response.ReadBack.{lines_of, written, with_length, parse_headers-serialize}

abbrev two_headers : Headers
two_headers = (codes "Host", codes "x") ∷ (codes "Tag", []) ∷ []

abbrev with_headers : HttpResponse
with_headers = record fresh { headers = two_headers }

header-set_header_example :
    HasOrderedHeaders (set_header (codes "A") (codes "b") fresh)
    × (header (codes "a") (set_header (codes "A") (codes "b") fresh)
        ≡ (if equal (codes "A") (codes "a") then ok (codes "b") else header (codes "a") fresh))
header-set_header_example =
    header-set_header (codes "A") (codes "b") (codes "a") fresh (omega arith) (omega arith) tt

abbrev empty_request : HttpRequest
empty_request = record {
  raw_header = [];
  http_version = [];
  method = [];
  path = [];
  raw_path = [];
  headers = [];
  query_params = [];
  route_params = [];
  content_length = pos 0;
}

-- a response with two headers and a body of four bytes
abbrev answered : HttpResponse
answered = set_body (codes "body") with_headers

abbrev in_digits : ℤ → Bytes
in_digits (pos n) = (b'0' + n % 10) ∷ []
in_digits (negsuc n) = codes "-"

answered-HasOrderedHeaders : HasOrderedHeaders answered
unfolding set_body less to_upper
answered-HasOrderedHeaders = (omega arith, (refl, tt), (omega arith, tt, tt))

answered-AreLines : AreLines (lines_of answered.headers)
unfolding set_body
answered-AreLines = ground arith

length_runs : written in_digits answered ≡ codes "Host: x\r\nTag: \r\nContent-Length: 4\r\n\r\nbody"
unfolding set_body header_lines has_header find less to_upper
length_runs = refl

answered_runs :
    (status_message answered ≡ ok (codes "OK"))
    × (with_length in_digits answered
        ≡ (codes "Content-Length", codes "4") ∷ (codes "Host", codes "x") ∷ (codes "Tag", []) ∷ [])
unfolding status_message set_body has_header find insert less to_upper
answered_runs = (refl, refl)

parse_headers-serialize_example :
    (serialize in_digits answered
      ≡ ok (
          codes "HTTP/1.1 "
          ++ (in_digits (status answered)
              ++ (codes " " ++ (codes "OK" ++ (end ++ written in_digits answered))))))
    × (parse_headers 9 (written in_digits answered) empty_request
        ≡ (ok tt, record empty_request { headers = with_length in_digits answered }))
unfolding set_body
parse_headers-serialize_example =
    parse_headers-serialize in_digits answered (codes "OK") 9 empty_request answered_runs.0
      answered-HasOrderedHeaders answered-AreLines (ground arith) refl (omega arith)

-- A code without a message does not serialize.
unknown_status : status_message (set_status (pos 299) fresh) ≡ throws invalid_argument
unfolding status_message set_status
unknown_status = refl
