-- ===== src/Flags/Tests.antt =====
-- Flags that are set, and the theorems at concrete inputs.
use liblw.Prelude.{false, ◌≢◌, ℕ, ◌+◌, ◌*◌, ◌≡◌, refl, true, List, [], ◌∷◌, none, some, length}
use liblw.Prelude.Int.{ℤ, pos, negsuc}
use liblw.Base.Chars.{Bytes, codes}
use liblw.Base.Numbers.{from_chars_signed}
use liblw.Err.{Result, ok}
use liblw.Flags.{
  boolean, duration, signed, Flag, Flags, find, set_value, format_method, parse_method,
  hash_flag_name, flags_cli_set, flags_exists,
}
use liblw.Flags.Format.{
  hours, minutes, milliseconds, parse_duration, unit_of, to_digit, parse_signed, parse_bool,
}
use liblw.Flags.Format.Durations.{Term}
use liblw.Flags.Format.Ends.{parse_duration-ends}
use liblw.Flags.Init.{init, Run}
use liblw.Flags.Init.Arguments.{init-argc}
use liblw.Flags.Settings.{flags_cli_set-format_method}
use liblw.Flags.Values.{parse_method-format_method}

-- a hash that tells texts apart by length and first bytes
abbrev toy_hash : Bytes → ℕ
toy_hash [] = 0
toy_hash (c ∷ cs) = c + 256 * toy_hash cs

abbrev a_flag : Flag
a_flag = record {
  kind = signed 32;
  type_name = codes "int";
  name = codes "a";
  description = [];
  default = pos 1;
  stored = none;
}

abbrev b_flag : Flag
b_flag = record {
  kind = boolean;
  type_name = codes "bool";
  name = codes "b";
  description = [];
  default = true;
  stored = none;
}

abbrev two_flags : Flags
two_flags = (toy_hash (codes "a"), a_flag) ∷ (toy_hash (codes "b"), b_flag) ∷ []

parse_method-format_method_example :
    parse_method duration (format_method duration (negsuc 59999999999)) ≡ ok (negsuc 59999999999)
parse_method-format_method_example = parse_method-format_method duration (negsuc 59999999999) refl

abbrev three_terms : List Term
three_terms = (negsuc 0, hours) ∷ (pos 2, minutes) ∷ (pos 4, milliseconds) ∷ []

parse_duration-ends_example : (r : Result ℤ) × (parse_duration (codes "1h x") ≡ some r)
parse_duration-ends_example = parse_duration-ends (codes "1h x")

parse_duration_runs : parse_duration (codes "1h2m3s4ms") ≡ some (ok (pos 3723004000000))
unfolding parse_duration from_chars_signed unit_of to_digit
parse_duration_runs = refl

flags_cli_set-format_method_example :
    (after : Flags) × ((flags_cli_set toy_hash
          (codes "a")
          (some (format_method (signed 32) (negsuc 41)))
          []
          two_flags
        ≡ (ok false, after))
      × ((find (hash_flag_name toy_hash (codes "a")) after ≡ some (set_value a_flag (negsuc 41)))
          × ((other : ℕ)
              → hash_flag_name toy_hash (codes "a") ≢ other
              → find other after ≡ find other two_flags)))
unfolding find hash_flag_name
flags_cli_set-format_method_example =
    flags_cli_set-format_method toy_hash (codes "a") [] two_flags a_flag (negsuc 41) refl refl

abbrev arguments : List Bytes
arguments = codes "file" ∷ codes "--a" ∷ codes "7" ∷ codes "--b" ∷ codes "--other" ∷ []

abbrev after : Run
after = record {
  flags =
      (toy_hash (codes "a"), set_value a_flag (pos 7))
      ∷ (toy_hash (codes "b"), set_value b_flag true)
      ∷ [];
  kept = codes "file" ∷ codes "--other" ∷ [];
  argc = 3;
}

init_runs : init toy_hash arguments two_flags ≡ (ok tt, after)
unfolding init flags_exists flags_cli_set parse_signed from_chars_signed parse_bool
init_runs = refl

init-argc_example : after.argc ≡ 1 + length after.kept
init-argc_example = init-argc toy_hash arguments two_flags after init_runs

-- `init` asks for the flag as it is written, so it does not switch off a flag by "no" or "disable".
init_disable : (init toy_hash (codes "--nob" ∷ []) two_flags).1.kept ≡ codes "--nob" ∷ []
unfolding init flags_exists
init_disable = refl
