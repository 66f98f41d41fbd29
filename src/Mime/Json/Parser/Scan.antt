-- ===== src/Mime/Json/Parser/Scan.antt =====
-- `_parse_string`, `_parse_keyword` and `_parse_number` of lw/mime/json.cpp. Each is given what is
-- left of the view, and gives the token and what is left behind it.
use liblw.Prelude.{
  ℕ, Bool, true, false, ◌||◌, [], ◌∷◌, ◌++◌, Option, none, some, take, drop, ◌==◌, if◌then◌else◌,
}
use liblw.Base.Chars.{Bytes, codes, is_digit, is_alnum}
use liblw.Base.Views.{starts_with}
use liblw.Err.{Result, ok, throws, undefined, invalid_argument, ◌>>=◌}
use liblw.Mime.Json.Escape.{quote, backslash}
use liblw.Mime.Json.Tokens.{JsonType, nul, boolean, string, integer, float, Scalar, make_scalar}

-- The loop of `_parse_string`, behind the first quotation mark: what it passes over, and what is
-- left behind the mark that ends it. A backslash is passed over like any other byte.
unfoldable pub to_quote : Bytes → Bytes → Option (Bytes × Bytes)
to_quote seen [] = none
to_quote seen (c ∷ rest) =
    let more = to_quote (seen ++ (c ∷ [])) rest in
    if c == backslash then more else if c == quote then some (seen, rest) else more

unfoldable pub string_token : Option (Bytes × Bytes) → Result (Scalar × Bytes)
string_token none = throws invalid_argument
string_token (some (text, rest)) = do
  s ← make_scalar string (quote ∷ (text ++ (quote ∷ [])))
  ok (s, rest)

unfoldable pub read_string : Bytes → Result (Scalar × Bytes)
unfolding to_quote string_token
read_string rest = string_token (to_quote [] rest)

-- `substr[0]`: behind the end of the view it is the byte in memory there.
abbrev pub first_or : Option ℕ → Bytes → Option ℕ
first_or behind [] = behind
first_or behind (c ∷ _) = some c

-- What follows the keyword must not go on as a name does.
unfoldable pub keyword_token : Option ℕ → JsonType → Bytes → Bytes → Result (Scalar × Bytes)
keyword_token behind type_ text rest = elim (first_or behind rest) [
  | none ↦ undefined
  | some c ↦
      if is_alnum c || c == b'_'
      then throws invalid_argument
      else make_scalar type_ text >>= λ s. ok (s, rest)
]

unfoldable pub read_keyword : Option ℕ → Bytes → Result (Scalar × Bytes)
unfolding keyword_token starts_with
read_keyword behind str =
    if starts_with str (codes "true")
    then keyword_token behind boolean (take 4 str) (drop 4 str)
    else if starts_with str (codes "false")
    then keyword_token behind boolean (take 5 str) (drop 5 str)
    else if starts_with str (codes "null")
    then keyword_token behind nul (take 4 str) (drop 4 str)
    else throws invalid_argument

-- the byte before `pos`, which has been read
unfoldable pub ends_in_dot : Bytes → Bool
ends_in_dot [] = false
ends_in_dot (c ∷ []) = c == b'.'
ends_in_dot (_ ∷ d ∷ cs) = ends_in_dot (d ∷ cs)

unfoldable pub number_token : JsonType → Bytes → Bytes → Result (Scalar × Bytes)
unfolding ends_in_dot
number_token type_ text rest =
    if ends_in_dot text
    then throws invalid_argument
    else make_scalar type_ text >>= λ s. ok (s, rest)

abbrev pub is_float : JsonType → Bool
is_float float = true
is_float _ = false

-- The digits and the point; `text` is what has been read of the number.
unfoldable pub digits_loop : JsonType → Bytes → Bytes → Result (Scalar × Bytes)
unfolding number_token
digits_loop type_ text [] = number_token type_ text []
digits_loop type_ text (c ∷ rest) =
    let point = digits_loop float (text ++ (c ∷ [])) rest in
    let digit = digits_loop type_ (text ++ (c ∷ [])) rest in
    if c == b'.'
    then (if is_float type_ then throws invalid_argument else point)
    else if is_digit c
    then digit
    else number_token type_ text (c ∷ rest)

abbrev pub digit_first : Bytes → Bool
digit_first [] = false
digit_first (c ∷ _) = is_digit c

-- behind the sign
unfoldable pub after_sign : Bytes → Bytes → Result (Scalar × Bytes)
unfolding digits_loop
after_sign sign [] = throws invalid_argument
after_sign sign (c ∷ rest) =
    if c == b'0'
    then (if digit_first rest
        then throws invalid_argument
        else digits_loop integer (sign ++ (c ∷ [])) rest)
    else if is_digit c
    then digits_loop integer sign (c ∷ rest)
    else throws invalid_argument

unfoldable pub read_number : Bytes → Result (Scalar × Bytes)
unfolding after_sign
read_number [] = undefined
read_number (c ∷ rest) =
    if c == b'+' || c == b'-' then after_sign (c ∷ []) rest else after_sign [] (c ∷ rest)

-- the labels of the `switch` of `update`
abbrev pub starts_keyword : ℕ → Bool
starts_keyword c = c == b't' || (c == b'f' || c == b'n')

abbrev pub starts_number : ℕ → Bool
starts_number c = c == b'+' || (c == b'-' || is_digit c)
