-- ===== src/Http/Router.antt =====
-- lw/http/http.cpp and http_handler.cpp: a request from its bytes to the bytes of its response.
-- What the application's handlers do is a parameter; the lines of the log are left out.
pub mod Answers
pub mod Serves
pub mod Attach
mod Tests
use liblw.Prelude.{
  ℕ, Bool, true, false, not, ◌||◌, List, [], ◌∷◌, Option, none, some, if◌then◌else◌,
}
use liblw.Prelude.Int.{ℤ, pos}
use liblw.Base.Chars.{Bytes, codes}
use liblw.Base.Views.{same_bytes}
use liblw.Err.{
  Result, ok, throws, undefined, Error, invalid_argument, std_out_of_range, std_regex_error, ◌>>=◌,
}
use liblw.Http.Headers.{Headers}
use liblw.Http.Headers as Map
use liblw.Http.Request.{HttpRequest, initial}
use liblw.Http.Request.Line.{read_header}
use liblw.Http.Response.{HttpResponse, set_status, set_header, set_body, serialize}
use liblw.Http.Response as Response
use liblw.Http.MountPath.Parse.{parse_into_matchers}
use liblw.Http.Trie.{Node, Outcome}
use liblw.Http.Trie as Trie

-- the member of `HttpHandler` that a method calls
pub data Method : Type 0 where
  del get head options patch post put : Method

unfoldable pub method_of : Bytes → Option Method
method_of method =
    if same_bytes method (codes "DELETE")
    then some del
    else if same_bytes method (codes "GET")
    then some get
    else if same_bytes method (codes "HEAD")
    then some head
    else if same_bytes method (codes "OPTIONS")
    then some options
    else if same_bytes method (codes "PATCH")
    then some patch
    else if same_bytes method (codes "POST")
    then some post
    else if same_bytes method (codes "PUT")
    then some put
    else none

unfoldable pub respond_failure : ℕ → Bytes → HttpResponse → HttpResponse
respond_failure status body res =
    set_body body
      (set_header (codes "Content-Type") (codes "text/plain") (set_status (pos status) res))

-- `_default_behavior`
unfoldable pub default_behavior : HttpResponse → HttpResponse
default_behavior res = set_status (pos 404) res

-- Whether an exception derives from `lw::Error`.
abbrev is_library_error : Error → Bool
is_library_error std_out_of_range = false
is_library_error std_regex_error = false
is_library_error _ = true

-- What is done with the connection: the text that is written to it, and whether it is closed.
pub record Answer : Type 0 where
  pub written : Bytes
  pub closed : Bool

-- !req.has_header("connection") || req.header("connection") != "keep-alive"
unfoldable pub closes : HttpRequest → Bool
closes req = elim (Map.find (codes "connection") req.headers) [
  | none ↦ true
  | some value ↦ not (same_bytes value (codes "keep-alive"))
]

-- The handler of a route: what it makes of the response, or what it throws.
abbrev pub Handlers : Type 0
Handlers = Bytes → Method → HttpRequest → HttpResponse → Result HttpResponse

-- The parameters are those of the trie, the text of a number, the handlers, and the text of the
-- exception for a header that is malformed.
module _ (regex_match : Bytes → Bytes → Option Bytes) (to_string : ℕ → Bytes) (print : ℤ → Bytes)
    (handle : Handlers) (what : Bytes → Bytes) where
  unfoldable pub finish_request : HttpRequest → HttpResponse → Result Answer
  unfolding closes
  finish_request req res =
      serialize print res >>= λ text. ok (record { written = text; closed = closes req })

  -- The call of the handler that the method names.
  unfoldable pub dispatch : Bytes → HttpRequest → Result HttpResponse
  unfolding method_of respond_failure
  dispatch route req = elim (method_of req.method) [
    | none ↦ ok (respond_failure 400 (codes "Unknown method.") Response.fresh)
    | some m ↦ handle route m req Response.fresh
  ]

  -- what follows the match of the path
  unfoldable pub run_matched : HttpRequest → Option (Headers × Bytes) → Result Answer
  unfolding dispatch finish_request respond_failure
  run_matched req none =
      finish_request req (respond_failure 404 (codes "Not Found.") Response.fresh)
  run_matched req (some (parameters, route)) =
      let req' = record req { route_params = parameters } in
      dispatch route req' >>= λ res. finish_request req' res

  -- what follows the match of the path, where the walk has a result
  unfoldable pub run_found :
      HttpRequest → Option (Result (Option (Headers × Bytes))) → Option (Result Answer)
  unfolding run_matched
  run_found req none = none
  run_found req (some matched) = some (matched >>= run_matched req)

  -- what follows `try_read_header`, with what that gave and the request it left
  unfoldable pub run_read : Node → Bytes → Result (Unit {0}) × HttpRequest → Option (Result Answer)
  unfolding run_found finish_request respond_failure
  run_read trie raw (undefined, req) = some undefined
  run_read trie raw (throws invalid_argument, req) =
      some (finish_request req (respond_failure 400 (what raw) Response.fresh))
  run_read trie raw (throws e, req) = some (throws e)
  run_read trie raw (ok _, req) = run_found req (Trie.match regex_match to_string trie req.path)

  -- `run_request`, where `raw` is what the connection gives up to the blank line. There is no
  -- result only if the walk of the trie has none.
  unfoldable pub run_request : Node → Bytes → Option (Result Answer)
  unfolding run_read
  run_request trie raw = run_read trie raw (read_header raw initial)

  -- `HttpRouter::run`, on the headers that come while the connection is good. An
  -- error of the library closes the connection, any other exception leaves the task.
  unfoldable pub run : Node → List Bytes → Option (Result (List Answer))
  unfolding run_request
  run trie [] = some (ok [])
  run trie (raw ∷ raws) =
      let rest = run trie raws in
      elim (run_request trie raw) [
        | none ↦ none
        | some undefined ↦ some undefined
        | some (throws e) ↦ some (if is_library_error e then ok [] else throws e)
        | some (ok answer) ↦
            if answer.closed
            then some (ok (answer ∷ []))
            else elim rest [ none ↦ none | some r ↦ some (r >>= λ answers. ok (answer ∷ answers)) ]
      ]
