-- ===== src/Http/Request/Line.antt =====
-- The method line, the header lines and the content length of http_request.cpp, as methods that
-- change the request.
pub mod Methods
pub mod Queries
pub mod Fields
pub mod Ends
pub mod Accepts
use liblw.Prelude.{
  ℕ, zero, suc, ◌+◌, ◌-◌, Bool, true, false, not, ◌&&◌, ◌||◌, Option, none, some, [], length,
  get_elem?, drop, leb, ◌==◌, if◌then◌else◌,
}
use liblw.Prelude.Int.{ℤ, pos, is_negative}
use liblw.Base.Chars.{Bytes, codes}
use liblw.Base.Numbers.{Conversion, converted, from_chars_signed}
use liblw.Base.Views.{substr, starts_with, remove_prefix}
use liblw.Err.{Result, ok, throws, undefined, invalid_argument, failed_precondition}
use liblw.Err.Action.{Action, pure, lift, modify, ◌>>=◌, ◌>>◌}
use liblw.Http.Headers.{Headers, find, insert}
use liblw.Http.Request.{HttpRequest}
use liblw.Http.Request.Field.{crlf, parse_header_line}
use liblw.Http.Request.Query.{parse_query_params}
use liblw.Http.Request.Scan.{check_is_space, to_space, to_path_end}

-- the byte at `i` is there and is `c`
abbrev pub is_at : Bytes → ℕ → ℕ → Bool
is_at view i c = elim (get_elem? view i) [ none ↦ false | some d ↦ d == c ]

-- `parse_query_params(params, &_query_params)`
store_query : Bytes → Action HttpRequest (Unit {0})
store_query params req = elim (parse_query_params params req.query_params) [
  | ok pairs ↦ (ok tt, record req { query_params = pairs })
  | throws e ↦ (throws e, req)
  | undefined ↦ (undefined, req)
]

-- The query string, from its '?' at `end`; the result is the index behind it.
unfoldable pub read_query : Bytes → ℕ → Action HttpRequest ℕ
unfolding store_query
read_query view end =
    if is_at view end b'?'
    then (do
      let i = to_space (drop end view) end
      lift (check_is_space view i)
      params ← lift (substr view (end + 1) (i - end))
      store_query params
      pure i)
    else pure end

-- The version, from `start` to the line end; the result is the index behind that.
unfoldable pub read_version : Bytes → ℕ → Action HttpRequest ℕ
read_version view start =
    let i = to_space (drop start view) start in
    if leb (length view) (i + 1) || not (is_at view i b'\r' && is_at view (i + 1) b'\n')
    then lift (throws invalid_argument)
    else do
      version ← lift (substr view start (i - start))
      modify (λ req. record req { http_version = version })
      pure (i + 2)

unfoldable pub parse_method_line : Bytes → Action HttpRequest ℕ
unfolding read_query read_version
parse_method_line view = do
  let i = to_space view 0
  lift (check_is_space view i)
  method ← lift (substr view 0 i)
  modify (λ req. record req { method = method })
  let start = i + 1
  let end = to_path_end (drop start view) start
  j ← read_query view end
  lift (check_is_space view j)
  path ← lift (substr view start (end - start))
  raw_path ← lift (substr view start (j - start))
  modify (λ req. record req { path = path; raw_path = raw_path })
  read_version view (j + 1)

-- The loop takes at least one byte of the view in each round: `suc (length view)` rounds are
-- enough, and without fuel the result is `undefined`.
unfoldable pub parse_headers : ℕ → Bytes → Action HttpRequest (Unit {0})
parse_headers zero view req = (undefined, req)
parse_headers (suc fuel) view req = elim (starts_with view crlf) [
  | true ↦ (ok tt, req)
  | false ↦ elim (parse_header_line view) [
    | ok ((key, value), rest) ↦
        parse_headers fuel rest (record req { headers = insert key value req.headers })
    | throws e ↦ (throws e, req)
    | undefined ↦ (undefined, req)
  ]
]

abbrev content_length_name : Bytes
content_length_name = codes "content-length"

-- `_content_length` keeps its value if nothing was converted.
abbrev written : Conversion ℤ → ℤ → ℤ
written (converted z) old = z
written _ old = old

-- `res.ptr` is behind the last byte, and the length is not negative
unfoldable pub store_length : Bytes → ℕ × Conversion ℤ → Action HttpRequest (Unit {0})
store_length str (end, conversion) req =
    let z = written conversion req.content_length in
    let req' = record req { content_length = z } in
    if not (end == length str) || is_negative z
    then (throws invalid_argument, req')
    else (ok tt, req')

unfoldable pub parse_content_length : Action HttpRequest (Unit {0})
unfolding store_length
parse_content_length req = elim (find content_length_name req.headers) [
  | none ↦ (ok tt, record req { content_length = pos 0 })
  | some str ↦ store_length str (from_chars_signed 64 str) req
]

-- `raw` is what `_connection.read_until("\r\n\r\n")` gives.
unfoldable pub load_header : Bytes → Action HttpRequest (Unit {0})
unfolding remove_prefix parse_method_line parse_headers parse_content_length
load_header raw = do
  modify (λ r. record r { raw_header = raw })
  method_line_end ← parse_method_line raw
  rest ← lift (remove_prefix raw method_line_end)
  parse_headers (suc (length rest)) rest
  parse_content_length

-- It throws if a header has been loaded, one that is not empty.
unfoldable pub read_header : Bytes → Action HttpRequest (Unit {0})
unfolding load_header
read_header raw req =
    if leb (length req.raw_header) 0 then load_header raw req else (throws failed_precondition, req)
