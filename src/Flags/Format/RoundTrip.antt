-- ===== src/Flags/Format/RoundTrip.antt =====
-- What `format` prints for a value is read back by `parse`: Booleans, integers and strings.
use liblw.Prelude.{
  ℕ, ◌-◌, ◌^◌, ◌≡◌, refl, sym, ap, ◌∙◌, Bool, true, false, [], ◌∷◌, append-nil, arith, length, leb,
  ◌==◌, if◌then◌else◌, Bool-cases, inl, inr,
}
use liblw.Prelude.Int.{ℤ}
use liblw.Base.Chars.{Bytes}
use liblw.Base.Numbers.{converted, result_out_of_range, from_chars_signed, from_chars_unsigned}
use liblw.Base.Numbers.Decimal.{
  to_string, digits_of, fits, from_chars_signed-to_string, from_chars_unsigned-digits_of,
}
use liblw.Base.Views.{same_bytes}
use liblw.Err.{ok, throws, invalid_argument}
use liblw.Flags.Format.{
  parse_bool, format_bool, is_one_of, to_number, parse_signed, parse_unsigned, is_escaped,
  format_text, parse_text, parse_text_from,
}

pub parse_bool-format_bool : (b : Bool) → parse_bool (format_bool b) ≡ ok b
unfolding parse_bool format_bool is_one_of same_bytes
parse_bool-format_bool true = refl
parse_bool-format_bool false = refl

to_number-fitting :
    {A : Type 0} (size : ℕ) (b : Bool) (a : A)
    → to_number size (size, if b then converted a else result_out_of_range)
      ≡ (if b then ok a else throws invalid_argument)
unfolding to_number
to_number-fitting size true a = ground arith
to_number-fitting size false a = refl

-- The text of a number is read as that number if the type has it, else it is refused.
pub parse_signed-to_string :
    (w : ℕ) (z : ℤ)
    → parse_signed w (to_string z) ≡ (if fits w z then ok z else throws invalid_argument)
unfolding parse_signed
parse_signed-to_string w z =
    ap (to_number (length (to_string z))) (
      ap (from_chars_signed w) (sym (append-nil (to_string z)))
      ∙ from_chars_signed-to_string w z [] tt)
    ∙ to_number-fitting (length (to_string z)) (fits w z) z

pub parse_unsigned-digits_of :
    (w n : ℕ)
    → parse_unsigned w (digits_of n) ≡ (if leb n (2 ^ w - 1) then ok n else throws invalid_argument)
unfolding parse_unsigned
parse_unsigned-digits_of w n =
    ap (to_number (length (digits_of n))) (
      ap (from_chars_unsigned w) (sym (append-nil (digits_of n)))
      ∙ from_chars_unsigned-digits_of w n [] tt)
    ∙ to_number-fitting (length (digits_of n)) (leb n (2 ^ w - 1)) n

-- Escaping a string and reading it gives the string back.
pub parse_text-format_text : (s : Bytes) → parse_text (format_text s) ≡ s
unfolding parse_text parse_text_from format_text
parse_text-format_text [] = refl
parse_text-format_text (c ∷ s) = elim (Bool-cases (is_escaped c)) [
  | inl escaped ↦ rw escaped (ap (λ r. c ∷ r) (parse_text-format_text s))
  | inr plain ↦
      let other : (c == b'\\') ≡ false = ground (arith, plain) in
      rw plain (rw other (ap (λ r. c ∷ r) (parse_text-format_text s)))
]
