-- ===== src/Flags.antt =====
-- lw/flags/flags.h and flags.cpp: the flags of the command line, in a table under the hash of their
-- names, and how a flag is set. `std::hash` is an argument. `print_flags` is not modelled.
pub mod Format
pub mod Init
pub mod Values
pub mod Settings
mod Tests
use liblw.Prelude.{
  ℕ, ◌+◌, Bool, true, false, ◌&&◌, ◌||◌, List, [], ◌∷◌, ◌++◌, map, Option, none, some, length, drop,
  ltb, ◌==◌, if◌then◌else◌,
}
use liblw.Prelude.Int.{ℤ}
use liblw.Base.Chars.{Bytes, codes}
use liblw.Base.Numbers.Decimal.{to_string, digits_of}
use liblw.Base.Views.{same_bytes, starts_with}
use liblw.Err.{Result, ok, throws, undefined, invalid_argument, already_exists}
use liblw.Err.Action.{Action}
use liblw.Flags.Format.{
  format_bool, parse_bool, parse_signed, parse_unsigned, format_text, parse_text, format_duration,
  parse_duration,
}

-- The types of flags that `parse` knows, with the width of the integers, but for `float`, `double`
-- and `long double`, which are left out.
pub data Kind : Type 0 where
  boolean text duration : Kind
  signed unsigned : ℕ → Kind

abbrev pub Value : Kind → Type 0
Value boolean = Bool
Value text = Bytes
Value duration = ℤ
Value (signed _) = ℤ
Value (unsigned _) = ℕ

-- The loop over a duration always has a result.
unfoldable pub result_of : {A : Type 0} → Option (Result A) → Result A
result_of none = undefined
result_of (some r) = r

-- `FlagTraits`
unfoldable pub format_method : (k : Kind) → Value k → Bytes
format_method boolean value = format_bool value
format_method text value = format_text value
format_method duration value = format_duration value
format_method (signed _) value = to_string value
format_method (unsigned _) value = digits_of value

unfoldable pub parse_method : (k : Kind) → Bytes → Result (Value k)
unfolding result_of
parse_method boolean value = parse_bool value
parse_method text value = ok (parse_text value)
parse_method duration value = result_of (parse_duration value)
parse_method (signed w) value = parse_signed w value
parse_method (unsigned w) value = parse_unsigned w value

pub record Flag : Type 0 where
  pub kind : Kind
  pub type_name : Bytes
  pub name : Bytes
  pub description : Bytes
  pub default : Value kind
  pub stored : Option (Value kind)

unfoldable pub value : (flag : Flag) → Value flag.kind
value flag = elim flag.stored [ none ↦ flag.default | some v ↦ v ]

unfoldable pub default_value_string : Flag → Bytes
default_value_string flag = format_method flag.kind flag.default

unfoldable pub set_value : (flag : Flag) → Value flag.kind → Flag
set_value flag v = record flag { stored = some v }

abbrev pub Flags : Type 0
Flags = List (ℕ × Flag)

unfoldable pub find : ℕ → Flags → Option Flag
find key [] = none
find key ((k, flag) ∷ flags) = let later = find key flags in if k == key then some flag else later

-- the flag under a key that is there
unfoldable pub put : ℕ → Flag → Flags → Flags
put key flag [] = []
put key flag ((k, old) ∷ flags) =
    let later = (k, old) ∷ put key flag flags in if k == key then (k, flag) ∷ flags else later

-- what was parsed is stored, or thrown
unfoldable pub store : ℕ → (flag : Flag) → Result (Value flag.kind) → Action Flags (Unit {0})
unfolding put set_value
store key flag (ok v) flags = (ok tt, put key (set_value flag v) flags)
store key flag (throws e) flags = (throws e, flags)
store key flag undefined flags = (undefined, flags)

-- `parse_value`, of the flag that is found under `key`
unfoldable pub parse_value : ℕ → Flag → Bytes → Action Flags (Unit {0})
unfolding store parse_method
parse_value key flag value_str flags = store key flag (parse_method flag.kind value_str) flags

-- what is left behind "no", "no-" or "no_"
unfoldable pub without_no : Bytes → Bytes
without_no [] = []
without_no (c ∷ []) = c ∷ []
without_no (c ∷ d ∷ cs) = if c == b'-' || c == b'_' then d ∷ cs else c ∷ d ∷ cs

-- The name to look for when a flag without a value is not there.
unfoldable pub alternate_name : Bytes → Bytes
unfolding without_no starts_with
alternate_name flag_name =
    if ltb 2 (length flag_name) && starts_with flag_name (codes "no")
    then without_no (drop 2 flag_name)
    else if ltb 7 (length flag_name) && starts_with flag_name (codes "disable")
    then codes "en" ++ drop 3 flag_name
    else flag_name

-- a flag without a value whose type is "bool" has the value "yes"
unfoldable pub or_yes : Flag → Option Bytes → Option Bytes
unfolding same_bytes
or_yes flag (some value) = some value
or_yes flag none = if same_bytes flag.type_name (codes "bool") then some (codes "yes") else none

-- The result of a call of `parse_value`, and then of the function.
unfoldable pub and_return : Bool → Result (Unit {0}) × Flags → Result Bool × Flags
and_return used (ok _, flags) = (ok used, flags)
and_return used (throws e, flags) = (throws e, flags)
and_return used (undefined, flags) = (undefined, flags)

-- The part behind the search: the flag has the value, or the next argument unless that is a flag.
unfoldable pub set_found : ℕ → Flag → Option Bytes → List Bytes → Action Flags Bool
unfolding and_return parse_value starts_with
set_found key flag (some value) rest_args flags =
    and_return false (parse_value key flag value flags)
set_found key flag none [] flags = (throws invalid_argument, flags)
set_found key flag none (next_arg ∷ _) flags =
    if starts_with next_arg (codes "--")
    then (throws invalid_argument, flags)
    else and_return true (parse_value key flag next_arg flags)

unfoldable pub set_if_found : ℕ → Option Flag → Option Bytes → List Bytes → Action Flags Bool
unfolding set_found or_yes
set_if_found key none value rest_args flags = (throws invalid_argument, flags)
set_if_found key (some flag) value rest_args flags =
    set_found key flag (or_yes flag value) rest_args flags

module _ (hash : Bytes → ℕ) where
  unfoldable pub hash_flag_name : Bytes → ℕ
  hash_flag_name flag_name = hash (map (λ c. if c == b'_' then b'-' else c) flag_name)

  unfoldable pub flags_register : Flag → Action Flags (Unit {0})
  unfolding find hash_flag_name
  flags_register flag flags = elim (find (hash_flag_name flag.name) flags) [
    | some _ ↦ (throws already_exists, flags)
    | none ↦ (ok tt, (hash_flag_name flag.name, flag) ∷ flags)
  ]

  unfoldable pub flags_exists : Bytes → Flags → Bool
  unfolding find hash_flag_name
  flags_exists flag_name flags = elim (find (hash_flag_name flag_name) flags) [
    | none ↦ false
    | some _ ↦ true
  ]

  -- the name and the value that are used, where `found` says what is under the name
  unfoldable pub to_set : (found : Option Flag) → Bytes → Option Bytes → Bytes × Option Bytes
  unfolding alternate_name
  to_set none flag_name none = (alternate_name flag_name, some (codes "no"))
  to_set found flag_name value = (flag_name, value)

  -- `rest_args` are the `argc` arguments behind the flag.
  unfoldable pub flags_cli_set : Bytes → Option Bytes → (rest_args : List Bytes) → Action Flags Bool
  unfolding to_set set_if_found find hash_flag_name
  flags_cli_set flag_name value rest_args flags =
      let (name, value') = to_set (find (hash_flag_name flag_name) flags) flag_name value in
      set_if_found (hash_flag_name name) (find (hash_flag_name name) flags) value' rest_args flags
