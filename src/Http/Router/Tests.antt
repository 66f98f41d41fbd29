-- ===== src/Http/Router/Tests.antt =====
-- Requests that are answered, and the theorems at concrete inputs.
use liblw.Prelude.{ℕ, ◌≡◌, refl, arith, Bool, true, List, [], ◌∷◌, Option, some}
use liblw.Prelude.Int.{ℤ, pos}
use liblw.Base.Chars.{Bytes, codes, to_upper}
use liblw.Base.OrderedMap as Map
use liblw.Base.Strings.{less}
use liblw.Base.Views.{same_bytes}
use liblw.Err.{ok}
use liblw.Http.Request.Line.Methods.{IsTarget}
use liblw.Http.Request.Line.Fields.{Line}
use liblw.Http.Response.{set_body, set_status}
use liblw.Http.Trie.{fresh}
use liblw.Http.Trie.Literals.{add_all}
use liblw.Http.Router.{Handlers, get, run_request}
use liblw.Http.Router.Serves.{answer, request_of, run_request-add_all}

abbrev any_match : Bytes → Bytes → Option Bytes
any_match _ part = some part

abbrev any_pattern : Bytes → Bool
any_pattern _ = true

abbrev no_digits : ℕ → Bytes
no_digits _ = codes "1"

abbrev no_number : ℤ → Bytes
no_number _ = codes "2"

abbrev no_text : Bytes → Bytes
no_text _ = codes "bad header"

-- answers with the route
abbrev say_route : Handlers
say_route route _ _ res = ok (set_body route (set_status (pos 200) res))

abbrev two_routes : List (List Bytes)
two_routes = (codes "a" ∷ []) ∷ (codes "a" ∷ codes "b" ∷ []) ∷ []

abbrev host : Line
host = record { name = codes "Host"; blanks = codes " "; value = codes "x" }

get_ab : IsTarget (codes "GET") (codes "/a/b") (codes "HTTP/1.1")
get_ab = record {
  method_lacks_spaces = ground arith;
  path_lacks_spaces = ground arith;
  path_lacks_mark = ground arith;
  version_lacks_spaces = ground arith;
}

run_request-add_all_example :
    run_request any_match no_digits no_number say_route no_text
      (add_all two_routes fresh)
      (codes "GET /a/b HTTP/1.1\r\nHost: x\r\n\r\n")
    ≡ some (
        answer any_match no_digits no_number say_route no_text true
          (some get)
          (codes "/a/b")
          (request_of (codes "GET") (codes "/a/b") (codes "HTTP/1.1") (host ∷ []) []))
unfolding same_bytes Map.find less to_upper Map.insert
run_request-add_all_example =
    run_request-add_all any_match no_digits no_number say_route no_text two_routes (codes "GET")
      (some get) b'/' (codes "a/b") (codes "HTTP/1.1") (host ∷ []) [] tt get_ab refl (ground arith)
      refl
