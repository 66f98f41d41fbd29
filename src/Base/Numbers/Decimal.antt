-- ===== src/Base/Numbers/Decimal.antt =====
-- `std::to_string` of integers, and how `std::from_chars` reads its text back.
use liblw.Prelude.{
  ℕ, zero, suc, ◌+◌, ◌-◌, ◌*◌, ◌/◌, ◌%◌, ◌^◌, ◌<◌, ◌≡◌, refl, sym, ap, ◌∙◌, Bool, true, false, [],
  ◌∷◌, ◌++◌, append_assoc, none, some, arith, length, length-append, leb, ltb, ◌==◌, if◌then◌else◌,
  Bool-cases, inl, inr,
}
use native.Mathlib.Nat.{pow-suc, mul_assoc}
use liblw.Prelude.Int.{ℤ, pos, negsuc, sub_ℕ}
use liblw.Base.Chars.{Bytes, is_digit}
use liblw.Base.Numbers.{
  Conversion, converted, result_out_of_range, digits_from, conversion, at_most, from_chars_signed,
  from_chars_unsigned,
}

-- The digits of `n`: one round for each, so `suc n` rounds are enough.
unfoldable pub decimal : ℕ → ℕ → Bytes
decimal zero n = []
decimal (suc fuel) n =
    let front = decimal fuel (n / 10) in
    if ltb n 10 then (b'0' + n) ∷ [] else front ++ ((b'0' + n % 10) ∷ [])

unfoldable pub digits_of : ℕ → Bytes
unfolding decimal
digits_of n = decimal (suc n) n

unfoldable pub to_string : ℤ → Bytes
to_string (pos n) = digits_of n
to_string (negsuc n) = b'-' ∷ digits_of (suc n)

-- the values of a signed type of `w` bits
abbrev pub fits : ℕ → ℤ → Bool
fits w (pos n) = leb n (2 ^ (w - 1) - 1)
fits w (negsuc n) = leb (suc n) (2 ^ (w - 1))

-- the text does not go on with a digit
abbrev pub EndsDigits : Bytes → Type 0
EndsDigits [] = Unit
EndsDigits (c ∷ _) = is_digit c ≡ false

digits_from-digit :
    (d : ℕ) (rest : Bytes) (k acc : ℕ)
    → d < 10
    → digits_from ((b'0' + d) ∷ rest) k acc ≡ digits_from rest (k + 1) (acc * 10 + d)
unfolding digits_from
digits_from-digit d rest k acc lt = ground arith

digits_from-decimal :
    (fuel n : ℕ) (rest : Bytes) (k acc : ℕ)
    → n < fuel
    → digits_from (decimal fuel n ++ rest) k acc
      ≡ digits_from rest (k + length (decimal fuel n)) (acc * 10 ^ length (decimal fuel n) + n)
unfolding decimal
digits_from-decimal zero n rest k acc lt = absurd (omega arith)
digits_from-decimal (suc fuel) n rest k acc lt = elim (Bool-cases (ltb n 10)) [
  | inl small ↦
      rw (small, decimal)
        (digits_from-digit n rest k acc (ground (arith, small))
          ∙ ap (λ x. digits_from rest (k + 1) (x + n)) (one acc))
  | inr large ↦
      rw (large, decimal)
        (behind (λ x. digits_from-decimal fuel (n / 10) x k acc (ground (arith, large))))
]
  where
    front : Bytes
    front = decimal fuel (n / 10)

    last : ℕ
    last = b'0' + n % 10

    longer : length (front ++ (last ∷ [])) ≡ length front + 1
    longer = length-append front (last ∷ [])

    one : (a : ℕ) → a * 10 ≡ a * 10 ^ 1
    one a = omega arith

    pow : (l : ℕ) → 10 ^ (l + 1) ≡ 10 ^ l * 10
    pow l = ap (λ x. 10 ^ x) (omega arith) ∙ pow-suc 10 l

    shift : (l : ℕ) → (acc * 10 ^ l + n / 10) * 10 + n % 10 ≡ acc * 10 ^ (l + 1) + n
    shift l = omega (arith, mul_assoc acc (10 ^ l) 10, ap (λ x. acc * x) (pow l))

    behind :
        ((x : Bytes)
          → digits_from (front ++ x) k acc
            ≡ digits_from x (k + length front) (acc * 10 ^ length front + n / 10))
        → digits_from ((front ++ (last ∷ [])) ++ rest) k acc
          ≡ digits_from rest
              (k + length (front ++ (last ∷ [])))
              (acc * 10 ^ length (front ++ (last ∷ [])) + n)
    behind by_front =
        ap (λ x. digits_from x k acc) (simp append_assoc)
        ∙ by_front (last ∷ rest)
        ∙ digits_from-digit (n % 10) rest _ _ (omega arith)
        ∙ ap (λ x. digits_from rest x ((acc * 10 ^ length front + n / 10) * 10 + n % 10))
            (omega (arith, longer))
        ∙ ap (digits_from rest (k + length (front ++ (last ∷ []))))
            (shift (length front) ∙ ap (λ l. acc * 10 ^ l + n) (sym longer))

digits_from-end : (rest : Bytes) (k acc : ℕ) → EndsDigits rest → digits_from rest k acc ≡ (k, acc)
unfolding digits_from
digits_from-end [] k acc h = refl
digits_from-end (c ∷ rest) k acc h = rw h refl

decimal-head :
    (fuel n : ℕ)
    → n < fuel
    → (d : ℕ) × ((d < 10) × ((t : Bytes) × (decimal fuel n ≡ (b'0' + d) ∷ t)))
unfolding decimal
decimal-head zero n lt = absurd (omega arith)
decimal-head (suc fuel) n lt = elim (Bool-cases (ltb n 10)) [
  | inl small ↦ (n, (ground (arith, small), ([], rw (small, decimal) refl)))
  | inr large ↦
      let (d, (ten, (t, e))) = decimal-head fuel (n / 10) (ground (arith, large)) in
      (d, (ten, (t ++ ((b'0' + n % 10) ∷ []), rw (large, decimal, e) refl)))
]

pub digits_of-head : (n : ℕ) → (d : ℕ) × ((d < 10) × ((t : Bytes) × (digits_of n ≡ (b'0' + d) ∷ t)))
unfolding digits_of
digits_of-head n = decimal-head (suc n) n (omega arith)

digits_from-digits_of :
    (n : ℕ) (rest : Bytes)
    → EndsDigits rest
    → digits_from (digits_of n ++ rest) 0 0 ≡ (length (digits_of n), n)
unfolding digits_of
digits_from-digits_of n rest h =
    digits_from-decimal (suc n) n rest 0 0 (omega arith)
    ∙ digits_from-end rest _ _ h
    ∙ ap (λ x. (x, 0 * 10 ^ length (decimal (suc n) n) + n)) (omega arith)
    ∙ ap (λ x. (length (decimal (suc n) n), x)) (omega arith)

module _ {A : Type 0} (limit : ℕ) (f : ℕ → A) where
  conversion-digits_of :
      (skipped n : ℕ) (rest : Bytes)
      → EndsDigits rest
      → conversion (at_most limit f) skipped (digits_from (digits_of n ++ rest) 0 0) ≡ (
        skipped + length (digits_of n),
        if leb n limit then converted (f n) else result_out_of_range,
      )
  unfolding conversion
  conversion-digits_of skipped n rest h =
      let (d, (ten, (t, e))) = digits_of-head n in
      rw (digits_from-digits_of n rest h) (rw e (by_test (length t) (leb n limit)))
    where
      by_test :
          (l : ℕ) (b : Bool)
          → ◌≡◌ {A = ℕ × Conversion A}
              (
                skipped + suc l,
                elim (if b then some (f n) else none) [
                  | none ↦ result_out_of_range
                  | some a ↦ converted a
                ],
              )
              (skipped + suc l, if b then converted (f n) else result_out_of_range)
      by_test l true = refl
      by_test l false = refl

-- The text of a number, with anything behind it that is no digit, is read back if the number fits.
pub from_chars_signed-to_string :
    (w : ℕ) (z : ℤ) (rest : Bytes)
    → EndsDigits rest
    → from_chars_signed w (to_string z ++ rest)
      ≡ (length (to_string z), if fits w z then converted z else result_out_of_range)
unfolding from_chars_signed to_string conversion
from_chars_signed-to_string w (pos n) rest h =
    let (d, (ten, (t, e))) = digits_of-head n in
    front d t ten e
    ∙ conversion-digits_of (2 ^ (w - 1) - 1) pos 0 n rest h
    ∙ ap (λ x. (x, if fits w (pos n) then converted (pos n) else result_out_of_range)) (omega arith)
  where
    front :
        (d : ℕ) (t : Bytes)
        → d < 10
        → digits_of n ≡ (b'0' + d) ∷ t
        → from_chars_signed w (digits_of n ++ rest)
          ≡ conversion (at_most (2 ^ (w - 1) - 1) pos) 0 (digits_from (digits_of n ++ rest) 0 0)
    front d t ten e =
        let other : ((b'0' + d) == b'-') ≡ false = ground arith in rw e (rw other refl)
from_chars_signed-to_string w (negsuc n) rest h =
    conversion-digits_of (2 ^ (w - 1)) (sub_ℕ 0) 1 (suc n) rest h
    ∙ ap (λ x. (x, if fits w (negsuc n) then converted (sub_ℕ 0 (suc n)) else result_out_of_range))
        (omega arith)
    ∙ ap
        (λ x. (
          length (to_string (negsuc n)),
          if fits w (negsuc n) then converted x else result_out_of_range,
        ))
        (below n)
  where
    below : (n : ℕ) → sub_ℕ 0 (suc n) ≡ negsuc n
    below n = ground arith

pub from_chars_unsigned-digits_of :
    (w n : ℕ) (rest : Bytes)
    → EndsDigits rest
    → from_chars_unsigned w (digits_of n ++ rest)
      ≡ (length (digits_of n), if leb n (2 ^ w - 1) then converted n else result_out_of_range)
unfolding from_chars_unsigned
from_chars_unsigned-digits_of w n rest h =
    conversion-digits_of (2 ^ w - 1) (λ x. x) 0 n rest h
    ∙ ap (λ x. (x, if leb n (2 ^ w - 1) then converted n else result_out_of_range)) (omega arith)
