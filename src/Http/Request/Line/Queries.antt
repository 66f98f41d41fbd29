-- ===== src/Http/Request/Line/Queries.antt =====
-- `_parse_method_line` on a line with a query string.
use liblw.Prelude.{
  ℕ, ◌+◌, ◌-◌, ◌≡◌, refl, ap, ◌∙◌, List, [], ◌∷◌, ◌++◌, append_assoc, arith, length, length-append,
  append-nil,
}
use liblw.Base.Chars.{Bytes}
use liblw.Base.Views.Cut.{substr-append, drop-prefix, get_elem?-append}
use liblw.Err.{ok}
use liblw.Http.Headers.{Headers}
use liblw.Http.Request.{HttpRequest}
use liblw.Http.Request.Line.{read_query, parse_method_line}
use liblw.Http.Request.Line.Methods.{IsTarget, line_end, query_line, read_version-ok}
use liblw.Http.Request.Query.{parse_query_params}
use liblw.Http.Request.Query.RoundTrip.{
  print_params, print_rest, insert_all, ArePairs, parse_query_params-print,
}
use liblw.Http.Request.Scan.Runs.{
  NoSpaces, to_space-append, to_path_end-append, check_is_space-space,
}

-- The text that is parsed has the space behind the query as its last byte.
read_query-ok :
    (pre query post view : Bytes) (end : ℕ) (req : HttpRequest) {pairs : Headers}
    → NoSpaces query
    → view ≡ pre ++ (b'?' ∷ (query ++ (32 ∷ post)))
    → end ≡ length pre
    → parse_query_params (query ++ (32 ∷ [])) req.query_params ≡ ok pairs
    → read_query view end req ≡ (ok (end + (1 + length query)), record req { query_params = pairs })
unfolding read_query
read_query-ok pre query post view end req n e f parsed = ground (
  arith,
  get_elem?-append pre (query ++ (32 ∷ post)) view b'?' end e f,
  drop-prefix pre (b'?' ∷ (query ++ (32 ∷ post))) view end e f,
  to_space-append (b'?' ∷ query) post 32 end (refl, n) refl,
  get_elem?-append (pre ++ (b'?' ∷ query)) post view 32 (end + length (b'?' ∷ query))
      (e ∙ simp append_assoc) (omega (arith, length-append pre (b'?' ∷ query))),
  check_is_space-space view (end + length (b'?' ∷ query)),
  substr-append (pre ++ (b'?' ∷ [])) (query ++ (32 ∷ [])) post view (end + 1)
      (end + length (b'?' ∷ query) - end) (e ∙ simp append_assoc)
      (omega (arith, length-append pre (b'?' ∷ []))) (omega (arith, length-append query (32 ∷ []))),
)

-- A line with a query gives back its method, its path, its path with the query, and its version.
-- The parameters are those of the query with a space behind it.
pub parse_method_line-query :
    (method path query version rest : Bytes) (req : HttpRequest) {pairs : Headers}
    → IsTarget method path version
    → NoSpaces query
    → parse_query_params (query ++ (32 ∷ [])) req.query_params ≡ ok pairs
    → parse_method_line (query_line method path query version rest) req ≡ (
      ok (length method + 1 + length path + (1 + length query) + 1 + length version + 2),
      record req {
        method = method;
        path = path;
        raw_path = path ++ (b'?' ∷ query);
        query_params = pairs;
        http_version = version;
      },
    )
unfolding parse_method_line
parse_method_line-query method path query version rest req {pairs} t n parsed = ground (
  arith,
  to_space-append method (path ++ (b'?' ∷ behind)) 32 0 t.method_lacks_spaces refl,
  get_elem?-append method (path ++ (b'?' ∷ behind)) view 32 (length method) refl refl,
  check_is_space-space view (length method),
  substr-append [] method (32 ∷ (path ++ (b'?' ∷ behind))) view 0 (length method) refl refl refl,
  drop-prefix (method ++ (32 ∷ [])) (path ++ (b'?' ∷ behind)) view (length method + 1)
      (simp append_assoc) (omega (arith, length-append method (32 ∷ []))),
  to_path_end-append path behind b'?' (length method + 1) t.path_lacks_spaces t.path_lacks_mark
      refl,
  read_query-ok (method ++ (32 ∷ path)) query (line_end version rest) view
      (length method + 1 + length path) (record req { method = method }) n (simp append_assoc)
      (omega (arith, length-append method (32 ∷ path))) parsed,
  get_elem?-append (method ++ (32 ∷ (path ++ (b'?' ∷ query)))) (line_end version rest) view 32
      (length method + 1 + length path + (1 + length query)) (simp append_assoc)
      (omega (
        arith,
        length-append method (32 ∷ (path ++ (b'?' ∷ query))),
        length-append path (b'?' ∷ query),
      )),
  check_is_space-space view (length method + 1 + length path + (1 + length query)),
  substr-append (method ++ (32 ∷ [])) path (b'?' ∷ behind) view (length method + 1)
      (length method + 1 + length path - (length method + 1)) (simp append_assoc)
      (omega (arith, length-append method (32 ∷ []))) (omega arith),
  substr-append (method ++ (32 ∷ [])) (path ++ (b'?' ∷ query)) (32 ∷ line_end version rest) view
      (length method + 1)
      (length method + 1 + length path + (1 + length query) - (length method + 1))
      (simp append_assoc) (omega (arith, length-append method (32 ∷ [])))
      (omega (arith, length-append path (b'?' ∷ query))),
  read_version-ok (method ++ (32 ∷ (path ++ (b'?' ∷ (query ++ (32 ∷ [])))))) version rest view
      (length method + 1 + length path + (1 + length query) + 1)
      (record req {
        method = method;
        path = path;
        raw_path = path ++ (b'?' ∷ query);
        query_params = pairs;
      })
      t.version_lacks_spaces (simp append_assoc)
      (omega (
        arith,
        length-append method (32 ∷ (path ++ (b'?' ∷ (query ++ (32 ∷ []))))),
        length-append path (b'?' ∷ (query ++ (32 ∷ []))),
        length-append query (32 ∷ []),
      )),
)
  where
    behind : Bytes
    behind = query ++ (32 ∷ line_end version rest)

    view : Bytes
    view = query_line method path query version rest

print_rest-last :
    (ps : List (Bytes × Bytes)) (k v w : Bytes)
    → print_rest (ps ++ ((k, v) ∷ [])) ++ w ≡ print_rest (ps ++ ((k, v ++ w) ∷ []))
print_rest-last [] k v w = simp (append_assoc, append-nil)
print_rest-last ((j, u) ∷ ps) k v w = simp (append_assoc, print_rest-last ps k v w)

print_params-last :
    (ps : List (Bytes × Bytes)) (k v w : Bytes)
    → print_params (ps ++ ((k, v) ∷ [])) ++ w ≡ print_params (ps ++ ((k, v ++ w) ∷ []))
print_params-last [] k v w = simp (append_assoc, append-nil)
print_params-last ((j, u) ∷ ps) k v w = simp (append_assoc, print_rest-last ps k v w)

-- Where each parameter of the query has a value, the last value is stored with the space that
-- follows the query in the line. The others are stored as they stand.
pub last_value_gains_space :
    (method path version rest k v : Bytes) (ps : List (Bytes × Bytes)) (req : HttpRequest)
    → IsTarget method path version
    → NoSpaces (print_params (ps ++ ((k, v) ∷ [])))
    → ArePairs (ps ++ ((k, v ++ (32 ∷ [])) ∷ []))
    → (parse_method_line
        (query_line method path (print_params (ps ++ ((k, v) ∷ []))) version rest)
        req).1.query_params
      ≡ insert_all (ps ++ ((k, v ++ (32 ∷ [])) ∷ [])) req.query_params
last_value_gains_space method path version rest k v ps req t n a =
    ap (λ r. r.1.query_params)
      (parse_method_line-query method path (print_params (ps ++ ((k, v) ∷ []))) version rest req t n
        (rw (print_params-last ps k v (32 ∷ []))
          (parse_query_params-print (ps ++ ((k, v ++ (32 ∷ [])) ∷ [])) req.query_params a)))
