-- ===== src/Http/Router/Serves.antt =====
-- A request with no query from its bytes to the answer, where the endpoints have no parameters.
use liblw.Prelude.{
  ℕ, suc, ◌+◌, ◌≤◌, ◌≡◌, refl, ap, ◌∙◌, Bool, true, false, List, [], ◌∷◌, ◌++◌, append_assoc,
  Option, none, some, length, length-append, arith, if◌then◌else◌,
}
use liblw.Prelude.Int.{ℤ, pos}
use liblw.Base.Chars.{Bytes, codes}
use liblw.Base.Numbers.{from_chars_signed}
use liblw.Base.Views.{remove_prefix}
use liblw.Base.Views.Cut.{remove_prefix-append}
use liblw.Err.{Result, ok, ◌>>=◌}
use liblw.Http.Headers.{Headers}
use liblw.Http.Headers as Map
use liblw.Http.Request.{HttpRequest, initial}
use liblw.Http.Request.Line.{
  read_header, load_header, parse_method_line, parse_headers, parse_content_length, store_length,
}
use liblw.Http.Request.Line.Methods.{IsTarget, plain_line, parse_method_line-plain}
use liblw.Http.Request.Line.Fields.{Line, print_lines, AreLines, fields, parse_headers-print}
use liblw.Http.Request.Query.RoundTrip.{insert_all}
use liblw.Http.Response as Response
use liblw.Http.Response.{HttpResponse, serialize, set_status, set_header, set_body}
use liblw.Http.Trie as Trie
use liblw.Http.Trie.{Node, fresh}
use liblw.Http.Trie.Literals.{add_all, HaveParts, names_one, match-add_all}
use liblw.Http.Router as Router
use liblw.Http.Router.{
  Answer, Handlers, Method, del, get, head, options, patch, post, put, method_of, closes,
  respond_failure,
}
use liblw.Http.Router.Answers.{
  Names, Names-method_of, failure, respond_failure_lem, ends_after, closes_lem,
}

length-print_lines : (ls : List Line) (body : Bytes) → length ls ≤ length (print_lines ls body)
length-print_lines [] body = omega arith
length-print_lines (l ∷ ls) body = omega (
  arith,
  length-print_lines ls body,
  length-append l.name (b':' ∷ (l.blanks ++ (l.value ++ (b'\r' ∷ b'\n' ∷ print_lines ls body)))),
  length-append l.blanks (l.value ++ (b'\r' ∷ b'\n' ∷ print_lines ls body)),
  length-append l.value (b'\r' ∷ b'\n' ∷ print_lines ls body),
)

-- the request that the text stands for
abbrev pub request_of : Bytes → Bytes → Bytes → List Line → Bytes → HttpRequest
request_of method path version ls body = record initial {
  raw_header = plain_line method path version (print_lines ls body);
  method = method;
  path = path;
  raw_path = path;
  http_version = version;
  headers = insert_all (fields ls) [];
  content_length = pos 0;
}

abbrev line_length : Bytes → Bytes → Bytes → ℕ
line_length method path version = length method + 1 + length path + 1 + length version + 2

remove_prefix-plain_line :
    (method path version rest : Bytes)
    → remove_prefix (plain_line method path version rest) (line_length method path version)
      ≡ ok rest
remove_prefix-plain_line method path version rest =
    remove_prefix-append (plain_line method path version []) rest
      (plain_line method path version rest) _ (simp append_assoc)
      (omega (
        arith,
        length-append method (32 ∷ (path ++ (32 ∷ (version ++ (b'\r' ∷ b'\n' ∷ []))))),
        length-append path (32 ∷ (version ++ (b'\r' ∷ b'\n' ∷ []))),
        length-append version (b'\r' ∷ b'\n' ∷ []),
      ))

-- the steps of a header, each with what the one before it has left
load_header-steps :
    (raw rest : Bytes) (end : ℕ) (req req1 req2 req3 : HttpRequest)
    → parse_method_line raw (record req { raw_header = raw }) ≡ (ok end, req1)
    → remove_prefix raw end ≡ ok rest
    → parse_headers (suc (length rest)) rest req1 ≡ (ok tt, req2)
    → parse_content_length req2 ≡ (ok tt, req3)
    → load_header raw req ≡ (ok tt, req3)
unfolding load_header
load_header-steps raw rest end req req1 req2 req3 line dropped headers content =
    rw line (rw dropped (rw headers (rw content refl)))

parse_content_length-none :
    (req : HttpRequest)
    → Map.find (codes "content-length") req.headers ≡ none
    → parse_content_length req ≡ (ok tt, record req { content_length = pos 0 })
unfolding parse_content_length
parse_content_length-none req n = ap (λ o. by_length o) n
  where
    by_length : Option Bytes → Result (Unit {0}) × HttpRequest
    by_length none = (ok tt, record req { content_length = pos 0 })
    by_length (some str) = store_length str (from_chars_signed 64 str) req

read_header-plain :
    (method path version : Bytes) (ls : List Line) (body : Bytes)
    → IsTarget method path version
    → AreLines ls
    → Map.find (codes "content-length") (insert_all (fields ls) []) ≡ none
    → read_header (plain_line method path version (print_lines ls body)) initial
      ≡ (ok tt, request_of method path version ls body)
unfolding read_header
read_header-plain method path version ls body t a n =
    load_header-steps _ (print_lines ls body) _ initial _ _ _
      (parse_method_line-plain method path version (print_lines ls body) _ t)
      (remove_prefix-plain_line method path version (print_lines ls body))
      (parse_headers-print ls body (suc (length (print_lines ls body))) _ a
        (omega (arith, length-print_lines ls body)))
      (parse_content_length-none _ n)

module _ (regex_match : Bytes → Bytes → Option Bytes) (to_string : ℕ → Bytes) (print : ℤ → Bytes)
    (handle : Handlers) (what : Bytes → Bytes) where
  -- The answer to a request for `path`, where the flag says whether the path is an endpoint.
  abbrev code_answer : Bool → Bytes → HttpRequest → Result Answer
  code_answer true path req =
      let req' = record req { route_params = [] } in
      Router.dispatch regex_match to_string print handle what path req' >>= λ res.
      Router.finish_request regex_match to_string print handle what req' res
  code_answer false path req =
      Router.finish_request regex_match to_string print handle what req
        (respond_failure 404 (codes "Not Found.") Response.fresh)

  run_request-answer :
      (trie : Node) (raw : Bytes) (req : HttpRequest) (found : Bool)
      → read_header raw initial ≡ (ok tt, req)
      → Trie.match regex_match to_string trie req.path
        ≡ some (ok (if found then some ([], req.path) else none))
      → Router.run_request regex_match to_string print handle what trie raw
        ≡ some (code_answer found req.path req)
  unfolding Router.run_request Router.run_read Router.run_found Router.run_matched
  run_request-answer trie raw req found read matched =
      ap (Router.run_read regex_match to_string print handle what trie raw) read
      ∙ ap (Router.run_found regex_match to_string print handle what req) matched
      ∙ by_found found
    where
      by_found :
          (b : Bool)
          → Router.run_found regex_match to_string print handle what req
              (some (ok (if b then some ([], req.path) else none)))
            ≡ some (code_answer b req.path req)
      by_found true = refl
      by_found false = refl

  -- What the handler of a route makes of a new response, where a method of HTTP is named.
  abbrev pub made : Option Method → Bytes → HttpRequest → Result HttpResponse
  made none route req = ok (failure 400 (codes "Unknown method."))
  made (some m) route req = handle route m req Response.fresh

  -- The answer to a request, with the method that it names: the flag says whether its path is an
  -- endpoint.
  abbrev pub answer : Bool → Option Method → Bytes → HttpRequest → Result Answer
  answer found known path req =
      let closed = ends_after (Map.find (codes "connection") req.headers) in
      let response =
        if found
        then made known path (record req { route_params = [] })
        else ok (failure 404 (codes "Not Found.")) in
      response >>= λ res.
      serialize print res >>= λ text. ok (record { written = text; closed = closed })

  dispatch_lem :
      (known : Option Method) (path : Bytes) (req : HttpRequest)
      → Names req.method known
      → Router.dispatch regex_match to_string print handle what path req ≡ made known path req
  unfolding Router.dispatch
  dispatch_lem known path req n =
      ap (λ o. by_method o) (Names-method_of req.method known n) ∙ by_known known
    where
      by_method : Option Method → Result HttpResponse
      by_method o = elim o [
        | none ↦ ok (respond_failure 400 (codes "Unknown method.") Response.fresh)
        | some m ↦ handle path m req Response.fresh
      ]

      by_known : (o : Option Method) → by_method o ≡ made o path req
      by_known none = ap ok (respond_failure_lem 400 (codes "Unknown method."))
      by_known (some m) = refl

  code_answer_lem :
      (found : Bool) (known : Option Method) (path : Bytes) (req : HttpRequest)
      → Names req.method known
      → code_answer found path req ≡ answer found known path req
  unfolding Router.finish_request
  code_answer_lem true known path req n =
      rw (dispatch_lem known path (record req { route_params = [] }) n, closes_lem) refl
  code_answer_lem false known path req n = rw (respond_failure_lem, closes_lem) refl

  -- Let the endpoints have no parameters, and let a request have a method, a path, a version and
  -- header lines in their form, with no query and no content length. If its path is the text of an
  -- endpoint and its method is one of the seven, the handler of that method is called for that
  -- endpoint, with the request that the bytes stand for, and the answer is the response that it
  -- leaves; an exception that it throws is the result. Another method is answered with the status
  -- 400 and "Unknown method.", a path that is no endpoint with the status 404 and "Not Found.". The
  -- connection is kept if the header "connection" says "keep-alive", and closed otherwise.
  pub run_request-add_all :
      (rs : List (List Bytes)) (method : Bytes) (known : Option Method) (c : ℕ)
      (path version : Bytes) (ls : List Line) (body : Bytes)
      → HaveParts rs
      → IsTarget method (c ∷ path) version
      → Names method known
      → AreLines ls
      → Map.find (codes "content-length") (insert_all (fields ls) []) ≡ none
      → Router.run_request regex_match to_string print handle what
          (add_all rs fresh)
          (plain_line method (c ∷ path) version (print_lines ls body))
        ≡ some (
            answer
              (names_one (c ∷ path) rs)
              known
              (c ∷ path)
              (request_of method (c ∷ path) version ls body))
  run_request-add_all rs method known c path version ls body h t named a n =
      run_request-answer _ _ _ _ (read_header-plain method (c ∷ path) version ls body t a n)
        (match-add_all regex_match to_string rs c path h)
      ∙ ap (λ r. some r)
          (code_answer_lem (names_one (c ∷ path) rs) known (c ∷ path)
            (request_of method (c ∷ path) version ls body) named)
