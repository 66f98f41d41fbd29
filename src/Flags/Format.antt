-- ===== src/Flags/Format.antt =====
-- lw/flags/format.h and format.cpp: the text of the values of flags, and how it is read. The
-- floating point types are not modelled.
pub mod Durations
pub mod Exact
pub mod RoundTrip
pub mod Ends
use liblw.Prelude.{
  ℕ, zero, suc, ◌+◌, ◌*◌, ◌^◌, ◌≡◌, Bool, true, false, ◌&&◌, ◌||◌, List, [], ◌∷◌, ◌++◌, Option,
  none, some, length, take, drop, leb, ◌==◌, if◌then◌else◌,
}
use liblw.Prelude.Int.{ℤ, pos, ◌+ℤ◌, scale, quot, same_ℤ}
use liblw.Base.Chars.{Bytes, codes, is_digit, is_space}
use liblw.Base.Numbers.{
  Conversion, converted, not_a_number, result_out_of_range, from_chars_signed, from_chars_unsigned,
}
use liblw.Base.Numbers.Decimal.{to_string, digits_of, fits}
use liblw.Base.Views.{same_bytes}
use liblw.Err.{Result, ok, throws, undefined, invalid_argument, ◌>>=◌}

-- whether a text is one of several
unfoldable pub is_one_of : Bytes → List Bytes → Bool
unfolding same_bytes
is_one_of value [] = false
is_one_of value (text ∷ texts) = same_bytes value text || is_one_of value texts

abbrev true_texts : List Bytes
true_texts =
    codes "y"
    ∷ codes "Y"
    ∷ codes "yes"
    ∷ codes "Yes"
    ∷ codes "t"
    ∷ codes "T"
    ∷ codes "true"
    ∷ codes "True"
    ∷ codes "1"
    ∷ []

abbrev false_texts : List Bytes
false_texts =
    codes "n"
    ∷ codes "N"
    ∷ codes "no"
    ∷ codes "No"
    ∷ codes "f"
    ∷ codes "F"
    ∷ codes "false"
    ∷ codes "False"
    ∷ codes "0"
    ∷ []

-- `parse<bool>`
unfoldable pub parse_bool : Bytes → Result Bool
unfolding is_one_of
parse_bool value =
    if is_one_of value true_texts
    then ok true
    else if is_one_of value false_texts
    then ok false
    else throws invalid_argument

unfoldable pub format_bool : Bool → Bytes
format_bool value = if value then codes "true" else codes "false"

-- What `parse` of an integer type makes of what `std::from_chars` gives.
unfoldable pub to_number : {A : Type 0} → ℕ → ℕ × Conversion A → Result A
to_number size (end, converted n) = if end == size then ok n else throws invalid_argument
to_number size (end, _) = throws invalid_argument

-- `parse` of the integer types of `w` bits
unfoldable pub parse_signed : ℕ → Bytes → Result ℤ
unfolding to_number
parse_signed w value = to_number (length value) (from_chars_signed w value)

unfoldable pub parse_unsigned : ℕ → Bytes → Result ℕ
unfolding to_number
parse_unsigned w value = to_number (length value) (from_chars_unsigned w value)

-- a byte that `format` escapes
abbrev pub is_escaped : ℕ → Bool
is_escaped c = c == b'\\' || (c == b'"' || is_space c)

unfoldable pub format_text : Bytes → Bytes
format_text [] = []
format_text (c ∷ value) =
    let rest = format_text value in if is_escaped c then b'\\' ∷ c ∷ rest else c ∷ rest

-- the loop of `parse<std::string>`
unfoldable pub parse_text_from : (escaped : Bool) → Bytes → Bytes
parse_text_from escaped [] = []
parse_text_from true (c ∷ value) = c ∷ parse_text_from false value
parse_text_from false (c ∷ value) =
    let skipped = parse_text_from true value in
    let taken = c ∷ parse_text_from false value in if c == b'\\' then skipped else taken

-- `parse<std::string>`
unfoldable pub parse_text : Bytes → Bytes
unfolding parse_text_from
parse_text value = parse_text_from false value

-- The units of <chrono>, each with its text and its nanoseconds.
pub data TimeUnit : Type 0 where
  years days hours minutes seconds milliseconds microseconds nanoseconds : TimeUnit

unfoldable pub symbol : TimeUnit → Bytes
symbol years = codes "y"
symbol days = codes "d"
symbol hours = codes "h"
symbol minutes = codes "m"
symbol seconds = codes "s"
symbol milliseconds = codes "ms"
symbol microseconds = codes "us"
symbol nanoseconds = codes "ns"

unfoldable pub ticks : TimeUnit → ℕ
ticks years = 31556952000000000
ticks days = 86400000000000
ticks hours = 3600000000000
ticks minutes = 60000000000
ticks seconds = 1000000000
ticks milliseconds = 1000000
ticks microseconds = 1000
ticks nanoseconds = 1

abbrev all_units : List TimeUnit
all_units =
    years ∷ days ∷ hours ∷ minutes ∷ seconds ∷ milliseconds ∷ microseconds ∷ nanoseconds ∷ []

-- the tests `units == "y"` and the ones behind it
unfoldable pub find_unit : Bytes → List TimeUnit → Option TimeUnit
unfolding same_bytes symbol
find_unit units [] = none
find_unit units (u ∷ us) =
    let later = find_unit units us in if same_bytes units (symbol u) then some u else later

unfoldable pub unit_of : Bytes → Option TimeUnit
unfolding find_unit
unit_of units = find_unit units all_units

-- `sum += years(count)`, where an overflow of the 64 bits is undefined
unfoldable pub add_count : ℤ → ℤ → TimeUnit → Result ℤ
unfolding ticks
add_count sum count unit =
    let term = scale count (ticks unit) in
    if fits 64 term && fits 64 (sum +ℤ term) then ok (sum +ℤ term) else undefined

-- how many bytes stand before the next digit
unfoldable pub to_digit : Bytes → ℕ
to_digit [] = 0
to_digit (c ∷ cs) = let more = suc (to_digit cs) in if is_digit c then 0 else more

-- `rest` is what the prefix leaves of the view.
unfoldable pub add_unit : (sum count : ℤ) → Option TimeUnit → (rest : Bytes) → Result (ℤ × Bytes)
unfolding add_count
add_unit sum count none rest = throws invalid_argument
add_unit sum count (some unit) rest = add_count sum count unit >>= λ s. ok (s, rest)

-- What follows the number, of `num_end` bytes, with `sum` and `v` as the loop has them.
unfoldable pub parse_unit : ℤ → Bytes → ℕ → ℤ → Result (ℤ × Bytes)
unfolding add_unit
parse_unit sum v num_end count =
    let unit_length = 1 + to_digit (drop (num_end + 1) v) in
    add_unit sum count (unit_of (take unit_length (drop num_end v)))
      (drop (num_end + unit_length) v)

unfoldable pub parse_count : ℤ → Bytes → ℕ × Conversion ℤ → Result (ℤ × Bytes)
unfolding parse_unit
parse_count sum v (num_end, conversion) =
    if num_end == length v || num_end == 0 then throws invalid_argument else elim conversion [
      | not_a_number ↦ throws invalid_argument
      | result_out_of_range ↦ throws invalid_argument
      | converted count ↦ parse_unit sum v num_end count
    ]

-- What follows a round of the loop.
unfoldable pub after_round :
    (ℤ → Bytes → Option (Result ℤ)) → Result (ℤ × Bytes) → Option (Result ℤ)
after_round loop (ok (sum, v)) = loop sum v
after_round loop (throws e) = some (throws e)
after_round loop undefined = some undefined

-- The loop of `parse<std::chrono::nanoseconds>`. Each round takes a byte of the view at least, so
-- as many rounds as bytes are enough; there is no result only without them.
unfoldable pub parse_counts : ℕ → ℤ → Bytes → Option (Result ℤ)
unfolding parse_count after_round
parse_counts _ sum [] = some (ok sum)
parse_counts zero sum (_ ∷ _) = none
parse_counts (suc fuel) sum (c ∷ cs) =
    after_round (parse_counts fuel) (parse_count sum (c ∷ cs) (from_chars_signed 64 (c ∷ cs)))

unfoldable pub parse_duration : Bytes → Option (Result ℤ)
unfolding parse_counts
parse_duration value = parse_counts (length value) (pos 0) value

-- `impl::can_convert_duration`, of nanoseconds
unfoldable pub can_convert_duration : TimeUnit → ℤ → Bool
unfolding ticks
can_convert_duration unit duration =
    same_ℤ (scale (quot duration (ticks unit)) (ticks unit)) duration

abbrev pub printed_units : List TimeUnit
printed_units = years ∷ days ∷ hours ∷ minutes ∷ seconds ∷ milliseconds ∷ []

unfoldable pub unit_for : ℤ → List TimeUnit → TimeUnit
unfolding can_convert_duration
unit_for duration [] = nanoseconds
unit_for duration (u ∷ us) =
    let later = unit_for duration us in if can_convert_duration u duration then u else later

-- `format` of a duration in nanoseconds
unfoldable pub format_duration : ℤ → Bytes
unfolding unit_for ticks symbol
format_duration duration =
    let unit = unit_for duration printed_units in
    to_string (quot duration (ticks unit)) ++ symbol unit
