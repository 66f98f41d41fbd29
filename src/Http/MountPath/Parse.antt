-- ===== src/Http/MountPath/Parse.antt =====
-- `parse_into_matchers`: the state machine that reads an endpoint. The views into the endpoint that
-- begin at a pointer are kept as the bytes from there to the one before the current.
use liblw.Prelude.{
  ℕ, suc, Bool, true, false, not, ◌&&◌, ◌||◌, List, [], ◌∷◌, ◌++◌, Option, none, some, length, drop,
  ◌==◌, if◌then◌else◌,
}
use liblw.Base.Chars.{Bytes, codes, is_alnum}
use liblw.Base.Views.{same_bytes}
use liblw.Err.{Result, ok, throws, invalid_argument, std_regex_error, ◌>>=◌}
use liblw.Http.MountPath.{
  Matcher, literal, parameter, validated, regex, separator, validator_for, seen,
}

pub data State : Type 0 where
  start literal_part parameter_start parameter_type parameter_name : State
  parameter_extension parameter_end regex_part : State

-- `chunk_seen`, `name_seen`, `extension_seen` and `type_seen` stand for the pointers
-- `chunk_start`, `name_start`, `extension_start` and `type_start`; of these `name_start` alone is
-- tested for null.
pub record Machine : Type 0 where
  pub state : State
  pub chunk_seen : Bytes
  pub name_seen : Option Bytes
  pub extension_seen : Bytes
  pub type_seen : Bytes
  pub name : Bytes
  pub extension : Bytes
  pub type_ : Bytes
  pub escaping : Bool
  pub unnamed_counter : ℕ
  pub matchers : List Matcher

abbrev pub initial : Machine
initial = record {
  state = start;
  chunk_seen = [];
  name_seen = none;
  extension_seen = [];
  type_seen = [];
  name = [];
  extension = [];
  type_ = [];
  escaping = false;
  unnamed_counter = 0;
  matchers = [];
}

-- if (i == endpoint.size() || c == SEP)
abbrev ends_part : Option ℕ → Bool
ends_part none = true
ends_part (some c) = c == separator

abbrev is_byte : ℕ → Option ℕ → Bool
is_byte b none = false
is_byte b (some c) = c == b

abbrev byte_of : Option ℕ → Bytes
byte_of none = []
byte_of (some c) = c ∷ []

abbrev with_chunk : Option ℕ → Machine → Machine
with_chunk c m = record m { chunk_seen = m.chunk_seen ++ byte_of c }

-- `case PARAMETER_END` up to its fall through, and the same code behind the loop
unfoldable pub add_parameter : Machine → Result Machine
add_parameter m = elim m.type_ [
  | [] ↦ ok (record m {
    name_seen = none;
    matchers = m.matchers ++ (parameter m.chunk_seen m.name m.extension ∷ []);
    state = start;
  })
  | _ ∷ _ ↦ validator_for m.type_ >>= λ v. ok (record m {
    name_seen = none;
    matchers = m.matchers ++ (validated m.chunk_seen m.name m.extension v ∷ []);
    state = start;
  })
]

unfoldable pub at_start : Option ℕ → Machine → Machine
at_start none m = m
at_start (some c) m = if c == separator then m else record m {
  chunk_seen = c ∷ [];
  state = if c == b':' then parameter_start else literal_part;
}

unfoldable pub in_literal : Option ℕ → Machine → Machine
in_literal c m =
    if ends_part c
    then record m { matchers = m.matchers ++ (literal m.chunk_seen ∷ []); state = start }
    else with_chunk c m

unfoldable pub at_parameter_start : Option ℕ → Machine → Result Machine
at_parameter_start none m = throws invalid_argument
at_parameter_start (some c) m =
    let m' = with_chunk (some c) m in
    if c == b'['
    then ok (record m' { type_seen = []; state = parameter_type })
    else if not (is_alnum c)
    then throws invalid_argument
    else ok (record m' { name_seen = some (c ∷ []); state = parameter_name })

-- `type` has been cut at the ']'.
end_type : Machine → Result Machine
end_type m = elim m.type_ [
  | [] ↦ throws invalid_argument
  | _ ∷ _ ↦
      if same_bytes m.type_ (codes "re")
      then ok (record m { unnamed_counter = suc m.unnamed_counter; state = regex_part })
      else ok (record m { state = parameter_name })
]

unfoldable pub in_type : Option ℕ → Machine → Result Machine
unfolding end_type
in_type none m = throws invalid_argument
in_type (some c) m =
    let m' = with_chunk (some c) m in
    if c == b']'
    then end_type (record m' { type_ = m.type_seen })
    else ok (record m' { type_seen = m.type_seen ++ (c ∷ []) })

-- `name` has been cut at `c`.
end_name : Option ℕ → Machine → Result Machine
end_name c m = elim m.name [
  | [] ↦ throws invalid_argument
  | _ ∷ _ ↦
      if is_byte b'.' c
      then ok (with_chunk c (record m { extension_seen = byte_of c; state = parameter_extension }))
      else ok (record m { extension = []; state = parameter_end })
]

unfoldable pub in_name : Option ℕ → Machine → Result Machine
unfolding end_name
in_name c m =
    let so_far = seen m.name_seen in
    if ends_part c || is_byte b'.' c
    then end_name c (record m { name_seen = some so_far; name = so_far })
    else elim c [
      | none ↦ ok m
      | some d ↦
          if not (is_alnum d)
          then throws invalid_argument
          else ok (with_chunk (some d) (record m { name_seen = some (so_far ++ (d ∷ [])) }))
    ]

unfoldable pub in_extension : Option ℕ → Machine → Result Machine
in_extension c m =
    if ends_part c
    then (if length m.extension_seen == 1
        then throws invalid_argument
        else ok (record m { extension = m.extension_seen; state = parameter_end }))
    else elim c [
      | none ↦ ok m
      | some d ↦
          if not (d == b'.') && not (is_alnum d)
          then throws invalid_argument
          else ok (with_chunk (some d) (record m { extension_seen = m.extension_seen ++ (d ∷ []) }))
    ]

-- Whether `std::regex` takes a pattern is a parameter.
module _ (is_pattern : Bytes → Bool) where
  unfoldable pub in_regex : Option ℕ → Machine → Result Machine
  in_regex c m =
      if m.escaping
      then ok (with_chunk c (record m { escaping = false }))
      else if is_byte 92 c
      then ok (with_chunk c (record m { escaping = true }))
      else if ends_part c
      then (if is_pattern (drop 5 m.chunk_seen)
          then ok (record m {
            matchers = m.matchers ++ (regex m.unnamed_counter m.chunk_seen ∷ []);
            state = start;
          })
          else throws std_regex_error)
      else ok (with_chunk c m)

  -- One round of the loop at a byte, or at the end.
  unfoldable pub step : Option ℕ → Machine → Result Machine
  unfolding add_parameter at_start in_literal at_parameter_start in_type in_name in_extension
      in_regex
  step c m = elim m.state [
    | parameter_end ↦ add_parameter m >>= λ m'. ok (at_start c m')
    | start ↦ ok (at_start c m)
    | literal_part ↦ ok (in_literal c m)
    | parameter_start ↦ at_parameter_start c m
    | parameter_type ↦ in_type c m
    | parameter_name ↦ in_name c m
    | parameter_extension ↦ in_extension c m
    | regex_part ↦ in_regex c m
  ]

  unfoldable pub run : Bytes → Machine → Result Machine
  unfolding step
  run [] m = step none m
  run (c ∷ rest) m = step (some c) m >>= run rest

  -- We might have reached the end while parsing a parameter.
  unfoldable pub conclude : Machine → Result (List Matcher)
  unfolding add_parameter
  conclude m = elim m.state [
    | parameter_end ↦ add_parameter m >>= λ m'. ok m'.matchers
    | _ ↦ ok m.matchers
  ]

  unfoldable pub parse_into_matchers : Bytes → Result (List Matcher)
  unfolding run conclude
  parse_into_matchers endpoint = run endpoint initial >>= conclude
