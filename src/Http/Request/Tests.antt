-- ===== src/Http/Request/Tests.antt =====
-- Runs of `read_header`, and instances of what is proved of it.
use liblw.Prelude.{◌≡◌, refl, List, [], ◌∷◌, arith}
use liblw.Prelude.Int.{pos, negsuc}
use liblw.Base.Chars.{Bytes, codes, to_upper}
use liblw.Base.Numbers.{from_chars_signed}
use liblw.Base.Strings.{less}
use liblw.Base.Views.{substr, find_from, starts_with}
use liblw.Err.{ok, throws, invalid_argument}
use liblw.Base.OrderedMap as Map
use liblw.Http.Request.{HttpRequest}
use liblw.Http.Request.Field.{parse_header_line}
use liblw.Http.Request.Line.{parse_method_line, parse_headers, read_header}
use liblw.Http.Request.Line.Fields.{
  Line, print_line, print_lines, fields, parse_header_line-print, parse_headers-print,
}
use liblw.Http.Request.Line.Methods.{IsTarget, plain_line, query_line}
use liblw.Http.Request.Line.Queries.{last_value_gains_space}
use liblw.Http.Request.Query.{parse_query_params}
use liblw.Http.Request.Query.RoundTrip.{insert_all}
use liblw.Http.Request.Scan.{check_is_space, to_space, to_path_end, to_colon, skip_blanks}

abbrev fresh : HttpRequest
fresh = record {
  raw_header = [];
  http_version = [];
  method = [];
  path = [];
  raw_path = [];
  headers = [];
  query_params = [];
  route_params = [];
  content_length = negsuc 0;
}

abbrev raw : Bytes
raw = codes "GET /foo?a=b&c=d HTTP/1.1\r\nHost: test.com\r\nContent-Length: 42\r\n\r\n"

read_header_runs : read_header raw fresh ≡ (
  ok tt,
  record fresh {
    raw_header = raw;
    http_version = codes "HTTP/1.1";
    method = codes "GET";
    path = codes "/foo";
    raw_path = codes "/foo?a=b&c=d";
    headers = (codes "Content-Length", codes "42") ∷ (codes "Host", codes "test.com") ∷ [];
    query_params = (codes "a", codes "b") ∷ (codes "c", codes "d ") ∷ [];
    content_length = pos 42;
  },
)
unfolding read_header check_is_space to_space to_path_end to_colon skip_blanks parse_query_params
    parse_header_line substr find_from starts_with less to_upper from_chars_signed Map.insert
    Map.find
read_header_runs = refl

negative_length_runs :
    (read_header (codes "GET / HTTP/1.1\r\nContent-Length: -1\r\n\r\n") fresh).0
    ≡ throws invalid_argument
unfolding read_header check_is_space to_space to_path_end to_colon skip_blanks parse_query_params
    parse_header_line substr find_from starts_with less to_upper from_chars_signed Map.insert
    Map.find
negative_length_runs = refl

abbrev three : List (Bytes × Bytes)
three = (codes "a", codes "b") ∷ (codes "c", codes "") ∷ (codes "e", codes "f=g") ∷ []

abbrev get_line : Bytes
get_line = plain_line (codes "GET") (codes "/foo/bar") (codes "HTTP/1.1") (codes "Host: x\r\n\r\n")

get-IsTarget : IsTarget (codes "GET") (codes "/foo/bar") (codes "HTTP/1.1")
get-IsTarget = record {
  method_lacks_spaces = (refl, (refl, (refl, tt)));
  path_lacks_spaces = ground arith;
  path_lacks_mark = ground arith;
  version_lacks_spaces = ground arith;
}

abbrev life_line : Bytes
life_line = query_line (codes "GET") (codes "/foo/bar") (codes "life") (codes "HTTP/1.1") []

last_value_gains_space_example :
    (parse_method_line
      (query_line (codes "GET") (codes "/foo/bar") (codes "a=b") (codes "HTTP/1.1") [])
      fresh).1.query_params
    ≡ (codes "a", codes "b ") ∷ []
unfolding Map.insert
last_value_gains_space_example =
    last_value_gains_space (codes "GET") (codes "/foo/bar") (codes "HTTP/1.1") [] (codes "a")
      (codes "b") [] fresh get-IsTarget (ground arith) (ground arith)

abbrev host_line : Line
host_line = record { name = codes "Host"; blanks = codes " \t"; value = codes "test.com" }

abbrev empty_line : Line
empty_line = record { name = codes "A-Header"; blanks = []; value = [] }

parse_header_line-print_example :
    parse_header_line (print_line host_line (codes "rest"))
    ≡ ok ((codes "Host", codes "test.com"), codes "rest")
parse_header_line-print_example = parse_header_line-print host_line (codes "rest") (ground arith)

parse_headers-print_example :
    parse_headers 3 (print_lines (host_line ∷ empty_line ∷ []) (codes "body")) fresh
    ≡ (ok tt, record fresh { headers = insert_all (fields (host_line ∷ empty_line ∷ [])) [] })
parse_headers-print_example =
    parse_headers-print (host_line ∷ empty_line ∷ []) (codes "body") 3 fresh (ground arith)
      (omega arith)
