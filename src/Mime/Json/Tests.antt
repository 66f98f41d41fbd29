-- ===== src/Mime/Json/Tests.antt =====
-- Runs of the formatter and the parser of lw/mime/json.cpp, and the theorems at concrete inputs.
use liblw.Prelude.{arith, ◌≡◌, refl, [], ◌∷◌, ◌++◌, some, List, none}
use liblw.Base.Chars.{Bytes, codes}
use liblw.Err.{Result, ok, throws, undefined, invalid_argument}
use liblw.Mime.Json.Escape.{quote, decode_string, escape_all}
use liblw.Mime.Json.Escape.RoundTrip.{decode_string-escape_all}
use liblw.Mime.Json.Formatter.{start, put_string}
use liblw.Mime.Json.Formatter.Flat.{put_list}
use liblw.Mime.Json.Tokens.{Value, list_of, nil, Fields, field, end, make_scalar, push_back}
use liblw.Mime.Json.Parser.{parse, pop_top}
use liblw.Mime.Json.Parser.Scan.{read_number, read_keyword}
use liblw.Mime.Json.Parser.Strings.{parse-written_quote}
use liblw.Mime.Json.Parser.Lists.{parse-put_list, items}
use liblw.Mime.Json.Parser.Ends.{parse-ends}

abbrev pair_text : List (Bytes × Bytes)
pair_text = (codes "a", codes "1") ∷ []

abbrev two_numbers : List Bytes
two_numbers = codes "10" ∷ codes "2" ∷ []

parse_list : parse none (codes "[1, 2]") ≡ some (ok (list_of (items (codes "1" ∷ codes "2" ∷ []))))
unfolding parse read_number make_scalar pop_top push_back
parse_list = refl

-- Commas are not asked for.
parse_no_comma :
    parse none (codes "[1 2]") ≡ some (ok (list_of (items (codes "1" ∷ codes "2" ∷ []))))
unfolding parse read_number make_scalar pop_top push_back
parse_no_comma = refl

parse_leading_zero : parse none (codes "01") ≡ some (throws invalid_argument)
unfolding parse read_number
parse_leading_zero = refl

parse_open : parse none (codes "[1") ≡ some (throws invalid_argument)
unfolding parse read_number make_scalar pop_top
parse_open = refl

parse_stray : parse none (codes "]") ≡ some undefined
unfolding parse
parse_stray = refl

parse_keyword_end : parse none (codes "null") ≡ some undefined
unfolding parse read_keyword
parse_keyword_end = refl

decode_string-escape_all_example :
    decode_string (quote ∷ (escape_all (codes "a/b") ++ (quote ∷ []))) ≡ ok (codes "a/b")
decode_string-escape_all_example = decode_string-escape_all (codes "a/b")

parse-written_quote_example :
    parse none (put_string (codes "a\"b") start).1.output ≡ some (throws invalid_argument)
parse-written_quote_example = parse-written_quote none (codes "a") (codes "b") (omega arith, tt)

parse-put_list_example :
    parse none (put_list two_numbers start).1.output ≡ some (ok (list_of (items two_numbers)))
parse-put_list_example =
    parse-put_list none two_numbers ((refl, (omega arith, (refl, tt))), (refl, tt))

parse-ends_example : (r : Result Value) × (parse none (codes "{\"a\":[]}") ≡ some r)
parse-ends_example = parse-ends none (codes "{\"a\":[]}")

abbrev one_field : Fields
one_field = field (codes "a") (list_of nil) end
