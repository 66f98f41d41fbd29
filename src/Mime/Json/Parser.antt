-- ===== src/Mime/Json/Parser.antt =====
-- `JSONParse` of lw/mime/json.cpp. The view is what is left of it: positions stand in messages
-- alone. `behind` is the byte that stands in memory behind the view, if one can be read there:
-- `_parse_keyword` looks at it when a keyword ends the view.
pub mod Scan
pub mod Strings
pub mod Lists
pub mod Ends
pub mod Rounds
use liblw.Prelude.{
  ℕ, zero, suc, Bool, true, false, ◌||◌, List, [], ◌∷◌, ◌++◌, Option, none, some, drop, length,
  ◌==◌, if◌then◌else◌,
}
use liblw.Base.Chars.{Bytes, is_digit, is_space}
use liblw.Err.{Result, ok, throws, undefined, invalid_argument, unimplemented, ◌>>=◌}
use liblw.Mime.Json.Escape.{quote}
use liblw.Mime.Json.Tokens.{
  JsonType, string, Scalar, Value, scalar, list_of, object_of, Items, nil, Fields, end, push_back,
  insert,
}
use liblw.Mime.Json.Parser.Scan.{
  read_string, read_keyword, read_number, starts_number, starts_keyword,
}

-- `JSONToken`: a mark, which is always ':', or a token
pub data Token : Type 0 where
  mark : ℕ → Token
  tree : Value → Token

pub record Parse : Type 0 where
  pub stack : List Token
  pub final_value : Option Token

abbrev pub empty : Parse
empty = record { stack = []; final_value = none }

abbrev is_string_scalar : Token → Bool
is_string_scalar (tree (scalar s)) = elim s.type_ [ string ↦ true | _ ↦ false ]
is_string_scalar _ = false

remove_last : Bytes → Bytes
remove_last [] = []
remove_last (_ ∷ []) = []
remove_last (c ∷ d ∷ cs) = c ∷ remove_last (d ∷ cs)

-- key.remove_prefix(1); key.remove_suffix(1);
key_of : Bytes → Bytes
unfolding remove_last
key_of token = remove_last (drop 1 token)

-- The pair of `lhs` and `rhs` goes into the object on top. Another `lhs` than a scalar, and an empty
-- stack, are not reached: a ':' is pushed on scalars alone, and those stand on objects.
add_pair : Token → Value → List Token → Result (List Token)
unfolding key_of
add_pair (tree (scalar key)) rhs (tree (object_of fs) ∷ rest) = do
  fs' ← insert (key_of key.token) rhs fs
  ok (tree (object_of fs') ∷ rest)
add_pair _ rhs [] = undefined
add_pair (tree (scalar key)) rhs (_ ∷ rest) = throws invalid_argument
add_pair _ rhs (_ ∷ rest) = undefined

-- `rhs` is off the stack, and what is given is what was below it.
below_top : Value → List Token → Result (List Token)
unfolding add_pair
below_top rhs [] = undefined
below_top rhs (tree (object_of fs) ∷ rest) =
    if is_string_scalar (tree rhs)
    then ok (tree rhs ∷ tree (object_of fs) ∷ rest)
    else throws invalid_argument
below_top rhs (tree (list_of xs) ∷ rest) = ok (tree (list_of (push_back xs rhs)) ∷ rest)
below_top rhs (mark c ∷ []) = if c == b':' then undefined else throws unimplemented
below_top rhs (mark c ∷ lhs ∷ rest) =
    if c == b':' then add_pair lhs rhs rest else throws unimplemented
below_top rhs (tree (scalar _) ∷ rest) = throws unimplemented

unfoldable pub pop_top : Parse → Result Parse
unfolding below_top
pop_top p = elim p.stack [
  | [] ↦ undefined
  | rhs ∷ [] ↦ ok (record p { stack = []; final_value = some rhs })
  | mark _ ∷ _ ∷ _ ↦ throws invalid_argument
  | tree rhs ∷ t ∷ rest ↦ below_top rhs (t ∷ rest) >>= λ stack. ok (record p { stack = stack })
]

abbrev push : Token → Parse → Parse
push t p = record p { stack = t ∷ p.stack }

-- `case '}'` and `case ']'`: the test of the top, which is undefined on an empty stack
close_object : List Token → Parse → Result Parse
close_object [] p = undefined
close_object (tree (object_of _) ∷ _) p = pop_top p
close_object _ p = throws invalid_argument

close_list : List Token → Parse → Result Parse
close_list [] p = undefined
close_list (tree (list_of _) ∷ _) p = pop_top p
close_list _ p = throws invalid_argument

colon : List Token → Parse → Result Parse
colon (tree (scalar _) ∷ _) p = ok (push (mark b':') p)
colon _ p = throws invalid_argument

comma : List Token → Parse → Result Parse
comma [] p = undefined
comma (tree (list_of _) ∷ _) p = ok p
comma (tree (object_of _) ∷ _) p = ok p
comma _ p = throws invalid_argument

-- A scalar that was read goes on the stack, and is popped into what is below.
unfoldable pub read_scalar : Result (Scalar × Bytes) → Parse → Result (Bytes × Parse)
read_scalar r p = do read ← r; p' ← pop_top (push (tree (scalar read.0)) p); ok (read.1, p')

-- One round of the loop of `update` at the byte `c`, which is no space.
unfoldable pub token_step : Option ℕ → ℕ → Bytes → Parse → Result (Bytes × Parse)
unfolding close_object close_list colon comma read_scalar
token_step behind c rest p =
    if c == b'{'
    then ok (rest, push (tree (object_of end)) p)
    else if c == b'}'
    then (close_object p.stack p >>= λ p'. ok (rest, p'))
    else if c == b'['
    then ok (rest, push (tree (list_of nil)) p)
    else if c == b']'
    then (close_list p.stack p >>= λ p'. ok (rest, p'))
    else if c == b':'
    then (colon p.stack p >>= λ p'. ok (rest, p'))
    else if c == b','
    then (comma p.stack p >>= λ p'. ok (rest, p'))
    else if c == quote
    then read_scalar (read_string rest) p
    else if starts_keyword c
    then read_scalar (read_keyword behind (c ∷ rest)) p
    else if starts_number c
    then read_scalar (read_number (c ∷ rest)) p
    else throws invalid_argument

abbrev pub has_final : Option Token → Bool
has_final none = false
has_final (some _) = true

unfoldable pub step : Option ℕ → ℕ → Bytes → Parse → Result (Bytes × Parse)
unfolding token_step
step behind c rest p =
    if is_space c
    then ok (rest, p)
    else if has_final p.final_value
    then throws invalid_argument
    else token_step behind c rest p

-- Each round takes a byte at least, so as many rounds as bytes are enough; without fuel, and with
-- bytes left, there is no result.
unfoldable pub loop : ℕ → Option ℕ → Bytes → Parse → Option (Result Parse)
unfolding step
loop fuel behind [] p = some (ok p)
loop zero behind (c ∷ rest) p = none
loop (suc fuel) behind (c ∷ rest) p = elim (step behind c rest p) [
  | ok (rest', p') ↦ loop fuel behind rest' p'
  | throws e ↦ some (throws e)
  | undefined ↦ some undefined
]

-- behind the loop of `update`, and `JSONDeserializationParser::parse`
unfoldable pub finish : Parse → Result Value
finish p = elim p.stack [
  | _ ∷ _ ↦ throws invalid_argument
  | [] ↦ elim p.final_value [
    | none ↦ throws invalid_argument
    | some (mark _) ↦ throws invalid_argument
    | some (tree v) ↦ ok v
  ]
]

unfoldable pub parse : Option ℕ → Bytes → Option (Result Value)
unfolding loop finish
parse behind str = elim (loop (length str) behind str empty) [
  | none ↦ none
  | some r ↦ some (r >>= finish)
]
