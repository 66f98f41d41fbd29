-- ===== src/Flags/Values.antt =====
-- The text of a flag's value is read back as that value, whatever the type of the flag.
use liblw.Prelude.{◌^◌, ◌-◌, ◌≡◌, ap, ◌∙◌, true, leb, if◌then◌else◌}
use liblw.Base.Numbers.Decimal.{fits}
use liblw.Err.{ok, throws, invalid_argument}
use liblw.Flags.{
  Kind, boolean, text, duration, signed, unsigned, Value, format_method, parse_method, result_of,
}
use liblw.Flags.Format.Exact.{parse_duration-format_duration}
use liblw.Flags.Format.RoundTrip.{
  parse_bool-format_bool, parse_signed-to_string, parse_unsigned-digits_of, parse_text-format_text,
}

-- The values that a type has: those of its width.
abbrev pub IsValue : (k : Kind) → Value k → Type 0
IsValue boolean v = Unit
IsValue text v = Unit
IsValue duration v = fits 64 v ≡ true
IsValue (signed w) v = fits w v ≡ true
IsValue (unsigned w) v = leb v (2 ^ w - 1) ≡ true

-- For every type of flag but the floating point types, the text that is printed for one of its
-- values is read back as that value.
pub parse_method-format_method :
    (k : Kind) (v : Value k) → IsValue k v → parse_method k (format_method k v) ≡ ok v
unfolding parse_method format_method result_of
parse_method-format_method boolean v h = parse_bool-format_bool v
parse_method-format_method text v h = ap ok (parse_text-format_text v)
parse_method-format_method duration v h = ap result_of (parse_duration-format_duration v h)
parse_method-format_method (signed w) v h =
    parse_signed-to_string w v ∙ ap (λ b. if b then ok v else throws invalid_argument) h
parse_method-format_method (unsigned w) v h =
    parse_unsigned-digits_of w v ∙ ap (λ b. if b then ok v else throws invalid_argument) h
