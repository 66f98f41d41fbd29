-- ===== src/Mime/Json/Tokens/Queries.antt =====
-- The accessors of the tokens: what each class answers.
use liblw.Prelude.{
  ℕ, suc, zero, Bool, true, false, not, ◌&&◌, [], ◌∷◌, Option, none, some, length, ltb, ◌==◌,
  if◌then◌else◌,
}
use liblw.Prelude.Int.{ℤ}
use liblw.Base.Chars.{Bytes, codes}
use liblw.Base.Numbers.{Conversion, converted, from_chars_signed, from_chars_unsigned}
use liblw.Base.Views.{same_bytes}
use liblw.Err.{Result, ok, throws, failed_precondition, invalid_argument, out_of_range}
use liblw.Mime.Json.Tokens.{
  JsonType, boolean, string, integer, Value, scalar, list_of, object_of, Items, nil, cons, Fields,
  end, field, find_field,
}

-- The type tests of a scalar, which lists and objects answer with false.
abbrev type_is_string : JsonType → Bool
type_is_string string = true
type_is_string _ = false

abbrev type_is_integer : JsonType → Bool
type_is_integer integer = true
type_is_integer _ = false

abbrev type_is_boolean : JsonType → Bool
type_is_boolean boolean = true
type_is_boolean _ = false

abbrev pub is_string : Value → Bool
is_string (scalar s) = type_is_string s.type_
is_string _ = false

abbrev pub is_char : Value → Bool
is_char (scalar s) = type_is_string s.type_ && length s.decoded == 1
is_char _ = false

abbrev starts_minus : Bytes → Bool
starts_minus [] = false
starts_minus (c ∷ _) = c == b'-'

abbrev pub is_signed_integer : Value → Bool
is_signed_integer (scalar s) = type_is_integer s.type_
is_signed_integer _ = false

abbrev pub is_unsigned_integer : Value → Bool
is_unsigned_integer (scalar s) = type_is_integer s.type_ && not (starts_minus s.token)
is_unsigned_integer _ = false

unfoldable pub length_items : Items → ℕ
length_items nil = 0
length_items (cons _ xs) = suc (length_items xs)

length_fields : Fields → ℕ
length_fields end = 0
length_fields (field _ _ fs) = suc (length_fields fs)

unfoldable pub size : Value → Result ℕ
unfolding length_items length_fields
size (scalar s) =
    if type_is_string s.type_ then ok (length s.decoded) else throws failed_precondition
size (list_of xs) = ok (length_items xs)
size (object_of fs) = ok (length_fields fs)

unfoldable pub get_boolean : Value → Result Bool
get_boolean (scalar s) =
    if type_is_boolean s.type_
    then ok (same_bytes s.token (codes "true"))
    else throws failed_precondition
get_boolean _ = throws failed_precondition

unfoldable pub get_string : Value → Result Bytes
get_string (scalar s) = if type_is_string s.type_ then ok s.decoded else throws failed_precondition
get_string _ = throws failed_precondition

-- if (*begin == '+') ++begin;
skip_plus : Bytes → Bytes
skip_plus [] = []
skip_plus (c ∷ cs) = if c == b'+' then cs else c ∷ cs

-- `end` must be the end of the token.
whole : {A : Type 0} → Bytes → ℕ × Conversion A → Result A
whole digits (n, converted a) = if n == length digits then ok a else throws invalid_argument
whole digits (n, _) = throws invalid_argument

unfoldable pub get_signed_integer : Value → Result ℤ
unfolding skip_plus whole
get_signed_integer (scalar s) =
    if type_is_integer s.type_
    then whole (skip_plus s.token) (from_chars_signed 64 (skip_plus s.token))
    else throws failed_precondition
get_signed_integer _ = throws failed_precondition

unfoldable pub get_unsigned_integer : Value → Result ℕ
unfolding skip_plus whole
get_unsigned_integer (scalar s) =
    if is_unsigned_integer (scalar s)
    then whole (skip_plus s.token) (from_chars_unsigned 64 (skip_plus s.token))
    else throws failed_precondition
get_unsigned_integer _ = throws failed_precondition

unfoldable pub get_item : Items → ℕ → Option Value
get_item nil _ = none
get_item (cons x _) zero = some x
get_item (cons _ xs) (suc i) = get_item xs i

abbrev pub or_out_of_range : Option Value → Result Value
or_out_of_range none = throws out_of_range
or_out_of_range (some v) = ok v

unfoldable pub has_index : Value → ℕ → Bool
unfolding length_items
has_index (list_of xs) i = ltb i (length_items xs)
has_index _ i = false

unfoldable pub get_index : Value → ℕ → Result Value
unfolding get_item
get_index (list_of xs) i = or_out_of_range (get_item xs i)
get_index _ i = throws failed_precondition

unfoldable pub has_key : Value → Bytes → Bool
has_key (object_of fs) key = elim (find_field key fs) [ none ↦ false | some _ ↦ true ]
has_key _ key = false

unfoldable pub get_key : Value → Bytes → Result Value
get_key (object_of fs) key = or_out_of_range (find_field key fs)
get_key _ key = throws failed_precondition
