-- ===== src/Http/MountPath/Tests.antt =====
-- Endpoints and paths of http_mount_path.cpp, and the theorems at concrete inputs.
use liblw.Prelude.{ℕ, ◌≡◌, refl, arith, Bool, true, List, [], ◌∷◌, Option, some}
use liblw.Base.Chars.{Bytes, codes, to_upper}
use liblw.Base.Strings.{equal}
use liblw.Base.Views.{same_bytes}
use liblw.Base.OrderedMap.{assign}
use liblw.Err.{ok, throws, undefined, invalid_argument}
use liblw.Http.MountPath.{
  Matcher, literal, parameter, validated, int_validator, match_path, match_part, name_of,
  validator_for,
}
use liblw.Http.MountPath.Parse.{parse_into_matchers}
use liblw.Http.MountPath.Segments.{match_path-parts, match_parts}
use liblw.Http.MountPath.Endpoints.{Segment, plain, param, typed}
use liblw.Http.MountPath.RoundTrip.{parse_into_matchers-endpoint_of}

-- a pattern that takes every part
abbrev any_match : Bytes → Bytes → Option Bytes
any_match _ part = some part

abbrev any_pattern : Bytes → Bool
any_pattern _ = true

abbrev no_digits : ℕ → Bytes
no_digits _ = codes "1"

abbrev three_segments : List Segment
three_segments =
    plain (codes "a") ∷ typed int_validator (codes "n") [] ∷ param (codes "f") (codes ".js") ∷ []

parse_into_matchers-endpoint_of_example :
    parse_into_matchers any_pattern (codes "/a/:[int]n/:f.js")
    ≡ ok (
        literal (codes "a")
        ∷ validated (codes ":[int]n") (codes "n") [] int_validator
        ∷ validated (codes ":f.js") (codes "f") (codes ".js") int_validator
        ∷ [])
parse_into_matchers-endpoint_of_example =
    parse_into_matchers-endpoint_of any_pattern three_segments (
      (omega arith, (omega arith, tt)),
      (((refl, tt), tt), (((refl, tt), (refl, (refl, (refl, tt)))), tt)),
    )

abbrev two_matchers : List Matcher
two_matchers = literal (codes "a") ∷ parameter (codes ":b") (codes "b") [] ∷ []

match_path-parts_example :
    match_path any_match no_digits two_matchers (codes "/a/xy")
    ≡ match_parts any_match no_digits two_matchers [] (codes "a" ∷ codes "xy" ∷ [])
match_path-parts_example =
    match_path-parts any_match no_digits two_matchers (codes "a" ∷ codes "xy" ∷ [])
      ((omega arith, tt), ((omega arith, (omega arith, tt)), tt))

match_path_stored :
    match_path any_match no_digits two_matchers (codes "/A/xy")
    ≡ ok (some ((codes "b", codes "xy") ∷ []))
unfolding match_path equal to_upper match_part assign name_of
match_path_stored = refl

-- Two separators in a row: a view that begins at a null pointer.
match_path_double : match_path any_match no_digits two_matchers (codes "//a/xy") ≡ undefined
unfolding match_path
match_path_double = refl

-- Behind a pattern, a parameter without type has the type "re".
parse_behind_pattern :
    parse_into_matchers any_pattern (codes "/:[re]x/:b") ≡ throws invalid_argument
unfolding parse_into_matchers same_bytes validator_for
parse_behind_pattern = refl

-- An endpoint that ends in a backslash loses its pattern.
parse_escaped_end : parse_into_matchers any_pattern (codes "/:[re]x\\") ≡ ok []
unfolding parse_into_matchers same_bytes
parse_escaped_end = refl

-- A sign alone is an int.
int_sign :
    match_part any_match no_digits
      (validated (codes ":[int]n") (codes "n") [] int_validator)
      (codes "-")
    ≡ ok (some (codes "-"))
unfolding match_part
int_sign = refl
