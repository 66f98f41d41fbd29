-- ===== src/Flags/Format/Ends.antt =====
-- Reading a duration comes to a result on every text.
use liblw.Prelude.{
  ℕ, zero, suc, ◌+◌, ◌≤◌, ◌<◌, ◌≡◌, refl, false, ◌||◌, [], ◌∷◌, Option, none, some, arith, length,
  length-drop, drop, ◌==◌, Bool-cases, inl, inr,
}
use liblw.Prelude.Int.{ℤ, pos}
use liblw.Base.Chars.{Bytes}
use liblw.Base.Numbers.{Conversion, converted, not_a_number, result_out_of_range, from_chars_signed}
use liblw.Err.{Result, ok, throws, undefined, invalid_argument, ◌>>=◌}
use liblw.Flags.Format.{
  TimeUnit, to_digit, add_count, add_unit, parse_unit, parse_count, after_round, parse_counts,
  parse_duration,
}

-- what a round leaves is shorter
abbrev IsShorter : ℕ → Result (ℤ × Bytes) → Type 0
IsShorter size (ok (_, v)) = length v < size
IsShorter size _ = Unit

add_unit-IsShorter :
    (size : ℕ) (sum count : ℤ) (unit : Option TimeUnit) (rest : Bytes)
    → length rest < size
    → IsShorter size (add_unit sum count unit rest)
unfolding add_unit
add_unit-IsShorter size sum count none rest lt = tt
add_unit-IsShorter size sum count (some unit) rest lt = by_sum (add_count sum count unit)
  where
    by_sum : (r : Result ℤ) → IsShorter size (r >>= λ s. ok (s, rest))
    by_sum (ok s) = lt
    by_sum (throws e) = tt
    by_sum undefined = tt

parse_count-IsShorter :
    (sum : ℤ) (v : Bytes) (end : ℕ) (conversion : Conversion ℤ)
    → 0 < length v
    → IsShorter (length v) (parse_count sum v (end, conversion))
unfolding parse_count parse_unit
parse_count-IsShorter sum v end conversion some_bytes =
    elim (Bool-cases (end == length v || end == 0)) [
      | inl bad ↦ rw bad tt
      | inr good ↦ rw good (by_conversion conversion good)
    ]
  where
    by_conversion :
        (conversion : Conversion ℤ)
        → (end == length v || end == 0) ≡ false
        → IsShorter (length v) (elim conversion [
          | not_a_number ↦ throws invalid_argument
          | result_out_of_range ↦ throws invalid_argument
          | converted count ↦ parse_unit sum v end count
        ])
    by_conversion not_a_number good = tt
    by_conversion result_out_of_range good = tt
    by_conversion (converted count) good =
        add_unit-IsShorter (length v) sum count _ (drop (end + (1 + to_digit (drop (end + 1) v))) v)
          (omega (arith, length-drop (end + (1 + to_digit (drop (end + 1) v))) v))

parse_counts-ends :
    (fuel : ℕ) (sum : ℤ) (v : Bytes)
    → length v ≤ fuel
    → (r : Result ℤ) × (parse_counts fuel sum v ≡ some r)
unfolding parse_counts after_round
parse_counts-ends fuel sum [] le = (ok sum, refl)
parse_counts-ends zero sum (c ∷ cs) le = absurd (omega arith)
parse_counts-ends (suc fuel) sum (c ∷ cs) le =
    by_round (parse_count sum (c ∷ cs) (from_chars_signed 64 (c ∷ cs)))
      (parse_count-IsShorter sum (c ∷ cs) _ _ (omega arith))
      (λ sum v le. parse_counts-ends fuel sum v le)
  where
    by_round :
        (r : Result (ℤ × Bytes))
        → IsShorter (length (c ∷ cs)) r
        → ((sum : ℤ) (v : Bytes)
            → length v ≤ fuel
            → (r : Result ℤ) × (parse_counts fuel sum v ≡ some r))
        → (s : Result ℤ) × (after_round (parse_counts fuel) r ≡ some s)
    by_round (ok (sum, v)) lt ends = ends sum v (omega arith)
    by_round (throws e) lt ends = (throws e, refl)
    by_round undefined lt ends = (undefined, refl)

-- Reading a duration comes to a result on every text: the rounds of the loop are enough.
pub parse_duration-ends : (value : Bytes) → (r : Result ℤ) × (parse_duration value ≡ some r)
unfolding parse_duration
parse_duration-ends value = parse_counts-ends (length value) (pos 0) value (omega arith)
