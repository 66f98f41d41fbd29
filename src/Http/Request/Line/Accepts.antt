-- ===== src/Http/Request/Line/Accepts.antt =====
-- `read_header` on any bytes: it ends, no step of it is undefined, and the length of a header that
-- it accepts is not negative.
use liblw.Prelude.{ℕ, ◌+◌, ◌≡◌, ◌≢◌, false, [], ◌∷◌, arith}
use liblw.Prelude.Int.{is_negative}
use liblw.Base.Chars.{Bytes}
use liblw.Base.Views.{substr}
use liblw.Err.{ok, undefined}
use liblw.Err.Action.Rules.{
  IsDefined, Leaves, IsDefined-pure, IsDefined-lift, IsDefined-throws, IsDefined-if,
  IsDefined-modify, IsDefined-bind, Leaves-bind,
}
use liblw.Err.Laws.{>>=-ne-undefined}
use liblw.Http.Headers.{Headers}
use liblw.Http.Request.{HttpRequest}
use liblw.Http.Request.Line.{store_query, parse_content_length, load_header, read_header}
use liblw.Http.Request.Query.{
  Cursor, fresh, insert_view_pairs, track_key, scan_params, parse_query_params,
}
use liblw.Http.Request.Scan.{check_is_space}

substr-ne-undefined : (view : Bytes) (i n : ℕ) → substr view i n ≢ undefined
unfolding substr
substr-ne-undefined view i n = ground arith

check_is_space-ne-undefined : (header : Bytes) (i : ℕ) → check_is_space header i ≢ undefined
unfolding check_is_space
check_is_space-ne-undefined header i = ground arith

insert_view_pairs-ne-undefined :
    (view : Bytes) (a b c d : ℕ) (pairs : Headers)
    → insert_view_pairs view a b c d pairs ≢ undefined
unfolding insert_view_pairs substr
insert_view_pairs-ne-undefined view a b c d pairs = ground arith

scan_params-ne-undefined :
    (params rest : Bytes) (i : ℕ) (s : Cursor) (pairs : Headers)
    → scan_params params rest i s pairs ≢ undefined
unfolding scan_params
scan_params-ne-undefined params [] i s pairs =
    ground
      (arith, insert_view_pairs-ne-undefined params s.key_start s.key_end s.value_start i pairs)
scan_params-ne-undefined params (c ∷ rest) i s pairs =
    let t = track_key s c i in
    ground (
      arith,
      >>=-ne-undefined (insert_view_pairs params t.key_start t.key_end t.value_start i pairs)
          (λ (pairs' : Headers). scan_params params rest (i + 1) (fresh (i + 1)) pairs')
          (insert_view_pairs-ne-undefined params t.key_start t.key_end t.value_start i pairs)
          (λ pairs'. scan_params-ne-undefined params rest (i + 1) (fresh (i + 1)) pairs'),
      scan_params-ne-undefined params rest (i + 1) t pairs,
    )

store_query-IsDefined : (params : Bytes) → IsDefined (store_query params)
unfolding store_query parse_query_params
store_query-IsDefined params = record {
  at = λ req. ground (arith, scan_params-ne-undefined params params 0 (fresh 0) req.query_params);
}

ruleset defined_rules = (
  IsDefined-pure, IsDefined-lift, IsDefined-throws, IsDefined-if, IsDefined-modify, IsDefined-bind,
  substr-ne-undefined, check_is_space-ne-undefined, store_query-IsDefined,
)

parse_content_length-Leaves :
    Leaves (λ (req : HttpRequest). is_negative req.content_length ≡ false) parse_content_length
unfolding parse_content_length
parse_content_length-Leaves = record { at = λ req h. ground arith }

load_header-Leaves :
    (raw : Bytes)
    → Leaves (λ (req : HttpRequest). is_negative req.content_length ≡ false) (load_header raw)
unfolding load_header
load_header-Leaves raw = search (Leaves-bind, parse_content_length-Leaves) depth 8

-- A header that `read_header` accepts leaves a content length that is not negative.
pub read_header-length :
    (raw : Bytes) (req : HttpRequest)
    → (read_header raw req).0 ≡ ok tt
    → is_negative (read_header raw req).1.content_length ≡ false
unfolding read_header
read_header-length raw req h = ground (arith, (load_header-Leaves raw).at req {a = tt})
