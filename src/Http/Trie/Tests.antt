-- ===== src/Http/Trie/Tests.antt =====
-- Tries of a few endpoints, and the theorems at concrete inputs.
use liblw.Prelude.{ℕ, ◌≡◌, refl, arith, List, [], ◌∷◌, Option, none, some}
use liblw.Base.Chars.{Bytes, codes, to_upper}
use liblw.Base.OrderedMap.{assign}
use liblw.Base.Strings.{equal}
use liblw.Base.Views.{same_bytes}
use liblw.Err.{Result, ok, throws, undefined, already_exists}
use liblw.Http.Headers.{Headers}
use liblw.Http.MountPath.{Matcher, literal, parameter, match_path, match_part, name_of}
use liblw.Http.Trie.{Node, fresh, insert, match, count, part_of}
use liblw.Http.Trie.Ends.{match-ends}
use liblw.Http.Trie.Literals.{add_all, match-add_all}
use liblw.Http.Trie.Chains.{match-match_path}

-- a pattern that takes every part
abbrev any_match : Bytes → Bytes → Option Bytes
any_match _ part = some part

abbrev no_digits : ℕ → Bytes
no_digits _ = codes "1"

abbrev x : Matcher
x = parameter (codes ":x") (codes "x") []

abbrev foo_bar : List Matcher
foo_bar = literal (codes "foo") ∷ literal (codes "bar") ∷ []

abbrev two_routes : Node
two_routes = (insert (x ∷ []) (codes "/:x") (insert foo_bar (codes "/foo/bar") fresh).1).1

match-ends_example :
    (r : Result (Option (Headers × Bytes))) × (match any_match no_digits two_routes
        (codes "/foo/baz")
      ≡ some r)
match-ends_example = match-ends any_match no_digits two_routes (codes "/foo/baz")

match-add_all_example :
    match any_match no_digits
      (add_all ((codes "a" ∷ []) ∷ (codes "a" ∷ codes "b" ∷ []) ∷ []) fresh)
      (codes "/a/b")
    ≡ some (ok (some ([], codes "/a/b")))
unfolding same_bytes
match-add_all_example =
    match-add_all any_match no_digits ((codes "a" ∷ []) ∷ (codes "a" ∷ codes "b" ∷ []) ∷ []) b'/'
      (codes "a/b") tt

match-match_path_example :
    (parameters : Headers) × ((match_path any_match no_digits
          (literal (codes "a") ∷ x ∷ [])
          (codes "/a/v")
        ≡ ok (some parameters))
      × (match any_match no_digits
            (insert (literal (codes "a") ∷ x ∷ []) (codes "/a/:x") fresh).1
            (codes "/a/v")
          ≡ some (ok (some (parameters, codes "/a/:x")))))
unfolding match_part
match-match_path_example =
    match-match_path any_match no_digits (literal (codes "a")) (x ∷ []) (codes "a") (codes "v" ∷ [])
      (codes "/a/:x") ((refl, (omega arith, tt)), ((refl, (omega arith, tt)), tt))

-- A path that is the beginning of a literal endpoint ends on a node without endpoint, and the
-- wildcards that were passed are not tried.
match_shadowed : match any_match no_digits two_routes (codes "/foo") ≡ some (ok none)
unfolding match insert count
match_shadowed = refl

match_beside :
    match any_match no_digits two_routes (codes "/fob")
    ≡ some (ok (some ((codes "x", codes "fob") ∷ [], codes "/:x")))
unfolding match insert match_part name_of count part_of assign
match_beside = refl

-- Literals are told apart by case in the trie.
match_case : match any_match no_digits two_routes (codes "/FOO/bar") ≡ some (ok none)
unfolding match insert match_part name_of count part_of
match_case = refl

match_path_case : match_path any_match no_digits foo_bar (codes "/FOO/bar") ≡ ok (some [])
unfolding match_path equal to_upper match_part name_of
match_path_case = refl

-- The endpoint "/" has no parts.
insert_root : (insert [] (codes "/") fresh).0 ≡ undefined
unfolding insert
insert_root = refl

insert_twice : (insert (x ∷ []) (codes "/:x") two_routes).0 ≡ throws already_exists
unfolding insert same_bytes
insert_twice = refl
