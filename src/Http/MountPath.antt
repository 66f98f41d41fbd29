-- ===== src/Http/MountPath.antt =====
-- lw/http/internal/http_mount_path.cpp: the matchers of the parts of a path, and
-- `MountPath::match`. `std::regex` and `std::to_string` are parameters.
pub mod Parse
pub mod Segments
pub mod Endpoints
pub mod Runs
pub mod RoundTrip
mod Tests
use liblw.Prelude.{
  ℕ, ◌-◌, Bool, true, false, ◌&&◌, List, [], ◌∷◌, ◌++◌, Option, none, some, length, take, drop, leb,
  ◌==◌, if◌then◌else◌,
}
use liblw.Base.Chars.{Bytes, codes, is_digit}
use liblw.Base.Views.{same_bytes}
use liblw.Base.Strings.{equal}
use liblw.Err.{Result, ok, throws, undefined, invalid_argument, ◌>>=◌}
use liblw.Http.Headers.{Headers, assign}

abbrev pub separator : ℕ
separator = b'/'

-- `_int_validator` and `_uint_validator`
pub data Validator : Type 0 where
  int_validator uint_validator : Validator

-- `PathMatcher`, by its class. `_name` and `_extension` of a parameter view a copy of the chunk
-- where the arguments of its constructor view the chunk, so they have the same bytes.
pub data Matcher : Type 0 where
  literal : Bytes → Matcher
  parameter : (chunk name extension : Bytes) → Matcher
  validated : (chunk name extension : Bytes) → Validator → Matcher
  regex : (index : ℕ) → Bytes → Matcher

abbrev pub is_literal : Matcher → Bool
is_literal (literal _) = true
is_literal _ = false

-- `validator_for`
unfoldable pub validator_for : Bytes → Result Validator
validator_for type_ =
    if same_bytes type_ (codes "int")
    then ok int_validator
    else if same_bytes type_ (codes "uint")
    then ok uint_validator
    else throws invalid_argument

unfoldable pub all_digits : Bytes → Bool
all_digits [] = true
all_digits (c ∷ cs) = is_digit c && all_digits cs

-- `url_part[0]` is undefined for an empty part.
unfoldable pub validate : Validator → Bytes → Result Bool
unfolding all_digits
validate uint_validator part = ok (all_digits part)
validate int_validator [] = undefined
validate int_validator (c ∷ cs) = ok (if c == b'-' then all_digits cs else all_digits (c ∷ cs))

-- `ParameterPathMatcher::match`
unfoldable pub match_extension : Bytes → Bytes → Option Bytes
match_extension [] part = some part
match_extension (e ∷ xs) part =
    let extension = e ∷ xs in
    let size = length part - length extension in
    if leb (length part) (length extension)
    then none
    else if equal extension (drop size part)
    then some (take size part)
    else none

-- `ValidatedParameterPathMatcher::match`, from the match of the parameter
unfoldable pub check_valid : Validator → Option Bytes → Result (Option Bytes)
unfolding validate
check_valid v none = ok none
check_valid v (some part) = validate v part >>= λ b. ok (if b then some part else none)

abbrev pub seen : Option Bytes → Bytes
seen none = []
seen (some part) = part

-- `std::regex_match` gives for a pattern and a part what the match captures, and `std::to_string`
-- prints the number of an unnamed parameter.
module _ (regex_match : Bytes → Bytes → Option Bytes) (to_string : ℕ → Bytes) where
  -- `name()`
  unfoldable pub name_of : Matcher → Bytes
  name_of (literal chunk) = chunk
  name_of (parameter _ name _) = name
  name_of (validated _ name _ _) = name
  name_of (regex index _) = to_string index

  -- `match()`. A pattern begins behind the five bytes ":[re]" of its chunk.
  unfoldable pub match_part : Matcher → Bytes → Result (Option Bytes)
  unfolding match_extension check_valid
  match_part (literal chunk) part = ok (if equal chunk part then some part else none)
  match_part (parameter _ _ extension) part = ok (match_extension extension part)
  match_part (validated _ _ extension v) part = check_valid v (match_extension extension part)
  match_part (regex _ chunk) part = ok (regex_match (drop 5 chunk) part)

  -- if (!(*match_itr)->is_literal()) parameters[(*match_itr)->name()] = *value;
  abbrev pub store : Matcher → Bytes → Headers → Headers
  store m value parameters =
      if is_literal m then parameters else assign (name_of m) value parameters

  -- The matcher at `match_itr` on a part that is not empty, and what is done where it matches.
  unfoldable pub take_part :
      Matcher → Headers → Bytes → (Headers → Result (Option Headers)) → Result (Option Headers)
  take_part m parameters part next = match_part m part >>= λ value. elim value [
    | none ↦ ok none
    | some v ↦ next (store m v parameters)
  ]

  -- The loop of `MountPath::match` and the test behind it. `part` is what lies between `part_start`
  -- and `i`, and `none` where `part_start` is null: a view that begins there is undefined.
  unfoldable pub match_from :
      List Matcher → Headers → Option Bytes → Bytes → Result (Option Headers)
  unfolding take_part
  match_from [] parameters part [] = ok (some parameters)
  match_from [] parameters part (_ ∷ _) = ok none
  match_from (m ∷ ms) parameters none [] = undefined
  match_from (m ∷ ms) parameters (some []) [] = ok none
  match_from (m ∷ ms) parameters (some (c ∷ part)) [] =
      take_part m parameters (c ∷ part)
        (λ parameters'. elim ms [ [] ↦ ok (some parameters') | _ ∷ _ ↦ ok none ])
  match_from (m ∷ ms) parameters part (c ∷ rest) = elim (c == separator) [
    | false ↦ match_from (m ∷ ms) parameters (some (seen part ++ (c ∷ []))) rest
    | true ↦ elim part [
      | none ↦ undefined
      | some [] ↦ match_from (m ∷ ms) parameters none rest
      | some (d ∷ p) ↦
          take_part m parameters (d ∷ p) (λ parameters'. match_from ms parameters' none rest)
    ]
  ]

  -- `MountPath::match`
  unfoldable pub match_path : List Matcher → Bytes → Result (Option Headers)
  unfolding match_from
  match_path ms url_path = match_from ms [] (some []) url_path
