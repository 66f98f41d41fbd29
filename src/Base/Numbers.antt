-- ===== src/Base/Numbers.antt =====
-- `std::from_chars` in base ten, for the integer types that the program reads.
pub mod Decimal
use liblw.Prelude.{
  ℕ, zero, suc, ◌+◌, ◌-◌, ◌*◌, ◌^◌, Option, none, some, [], ◌∷◌, leb, ◌==◌, if◌then◌else◌,
}
use liblw.Prelude.Int.{ℤ, pos, sub_ℕ}
use liblw.Base.Chars.{Bytes, is_digit}

-- the value, which is written if there is no error, or the `errc`
pub data Conversion (A : Type 0) : Type 0 where
  converted : A → Conversion A
  not_a_number : Conversion A
  result_out_of_range : Conversion A

-- The digits at the front: how many they are, and the number that they write behind `acc`.
unfoldable pub digits_from : Bytes → ℕ → ℕ → ℕ × ℕ
digits_from [] n acc = (n, acc)
digits_from (c ∷ cs) n acc =
    let more = digits_from cs (n + 1) (acc * 10 + (c - b'0')) in
    if is_digit c then more else (n, acc)

-- `end - begin`, and the outcome, of the digits read from the `skipped`th byte on
unfoldable pub conversion : {A : Type 0} → (ℕ → Option A) → ℕ → ℕ × ℕ → ℕ × Conversion A
conversion value skipped (zero, acc) = (0, not_a_number)
conversion value skipped (suc n, acc) =
    (skipped + suc n, elim (value acc) [ none ↦ result_out_of_range | some a ↦ converted a ])

abbrev pub at_most : {A : Type 0} → ℕ → (ℕ → A) → ℕ → Option A
at_most limit f n = if leb n limit then some (f n) else none

-- an unsigned type of `w` bits
unfoldable pub from_chars_unsigned : ℕ → Bytes → ℕ × Conversion ℕ
unfolding digits_from conversion
from_chars_unsigned w str = conversion (at_most (2 ^ w - 1) (λ n. n)) 0 (digits_from str 0 0)

-- a signed type of `w` bits: a '-' may stand in front, and no '+'
unfoldable pub from_chars_signed : ℕ → Bytes → ℕ × Conversion ℤ
unfolding digits_from conversion
from_chars_signed w [] = (0, not_a_number)
from_chars_signed w (c ∷ cs) =
    if c == b'-'
    then conversion (at_most (2 ^ (w - 1)) (sub_ℕ 0)) 1 (digits_from cs 0 0)
    else conversion (at_most (2 ^ (w - 1) - 1) pos) 0 (digits_from (c ∷ cs) 0 0)
