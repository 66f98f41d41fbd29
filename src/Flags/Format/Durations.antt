-- ===== src/Flags/Format/Durations.antt =====
-- How `parse` of a duration reads the text of counts with their units.
use liblw.Prelude.{
  ℕ, zero, suc, ◌+◌, ◌≤◌, ◌≡◌, refl, sym, ap, ◌∙◌, true, false, List, [], ◌∷◌, ◌++◌, append_assoc,
  some, arith, length, length-append, take, drop, ◌==◌, if◌then◌else◌,
}
use liblw.Prelude.Int.{ℤ, pos, negsuc, ◌+ℤ◌, scale}
use liblw.Base.Chars.{Bytes, is_digit}
use liblw.Base.Numbers.{converted, result_out_of_range, from_chars_signed}
use liblw.Base.Numbers.Decimal.{
  to_string, digits_of, digits_of-head, fits, from_chars_signed-to_string,
}
use liblw.Base.Views.{same_bytes}
use liblw.Base.Views.Cut.{drop-prefix, drop-append, take-append}
use liblw.Err.{ok, ◌>>=◌}
use liblw.Flags.Format.{
  TimeUnit, years, days, hours, minutes, seconds, milliseconds, microseconds, nanoseconds, symbol,
  ticks, find_unit, unit_of, to_digit, add_count, add_unit, parse_unit, parse_count, after_round,
  parse_counts, parse_duration,
}

-- a count of a unit
abbrev pub Term : Type 0
Term = ℤ × TimeUnit

abbrev pub print_terms : List Term → Bytes
print_terms [] = []
print_terms ((count, unit) ∷ ts) = to_string count ++ (symbol unit ++ print_terms ts)

unfoldable pub term_value : Term → ℤ
term_value (count, unit) = scale count (ticks unit)

abbrev pub total : ℤ → List Term → ℤ
total sum [] = sum
total sum (t ∷ ts) = total (sum +ℤ term_value t) ts

-- The next count begins with a digit, for it has no sign.
abbrev pub BeginsDigit : List Term → Type 0
BeginsDigit [] = Unit
BeginsDigit ((pos _, _) ∷ _) = Unit
BeginsDigit ((negsuc _, _) ∷ _) = ⊥

-- Each count, its nanoseconds, and each sum on the way, fit in 64 bits, and no count but the first
-- is negative.
abbrev pub AreTerms : (sum : ℤ) → List Term → Type 0
AreTerms sum [] = Unit
AreTerms sum (t ∷ ts) =
    (fits 64 t.0 ≡ true)
    × ((fits 64 (term_value t) ≡ true)
        × ((fits 64 (sum +ℤ term_value t) ≡ true)
            × (BeginsDigit ts × AreTerms (sum +ℤ term_value t) ts)))

-- the bytes up to the next digit
abbrev StartsDigit : Bytes → Type 0
StartsDigit [] = Unit
StartsDigit (c ∷ _) = is_digit c ≡ true

to_digit-start : (rest : Bytes) → StartsDigit rest → to_digit rest ≡ 0
unfolding to_digit
to_digit-start [] h = refl
to_digit-start (c ∷ rest) h = rw h refl

symbol-to_digit :
    (unit : TimeUnit) (rest : Bytes)
    → StartsDigit rest
    → (c : ℕ) × ((cs : Bytes) × ((symbol unit ≡ c ∷ cs)
          × ((is_digit c ≡ false) × (to_digit (cs ++ rest) ≡ length cs))))
unfolding symbol to_digit
symbol-to_digit years rest h = (b'y', ([], (refl, (refl, to_digit-start rest h))))
symbol-to_digit days rest h = (b'd', ([], (refl, (refl, to_digit-start rest h))))
symbol-to_digit hours rest h = (b'h', ([], (refl, (refl, to_digit-start rest h))))
symbol-to_digit minutes rest h = (b'm', ([], (refl, (refl, to_digit-start rest h))))
symbol-to_digit seconds rest h = (b's', ([], (refl, (refl, to_digit-start rest h))))
symbol-to_digit milliseconds rest h =
    (b'm', (b's' ∷ [], (refl, (refl, ap suc (to_digit-start rest h)))))
symbol-to_digit microseconds rest h =
    (b'u', (b's' ∷ [], (refl, (refl, ap suc (to_digit-start rest h)))))
symbol-to_digit nanoseconds rest h =
    (b'n', (b's' ∷ [], (refl, (refl, ap suc (to_digit-start rest h)))))

unit_of-symbol : (unit : TimeUnit) → unit_of (symbol unit) ≡ some unit
unfolding unit_of symbol find_unit same_bytes
unit_of-symbol years = refl
unit_of-symbol days = refl
unit_of-symbol hours = refl
unit_of-symbol minutes = refl
unit_of-symbol seconds = refl
unit_of-symbol milliseconds = refl
unit_of-symbol microseconds = refl
unit_of-symbol nanoseconds = refl

to_string-ne-nil : (z : ℤ) → (c : ℕ) × ((cs : Bytes) × (to_string z ≡ c ∷ cs))
unfolding to_string
to_string-ne-nil (pos n) = let (d, (ten, (t, e))) = digits_of-head n in (b'0' + d, (t, e))
to_string-ne-nil (negsuc n) = (b'-', (digits_of (suc n), refl))

-- The text of a number, then a unit, then what begins with a digit.
parse_unit-symbol :
    (sum count : ℤ) (unit : TimeUnit) (front rest : Bytes)
    → StartsDigit rest
    → parse_unit sum (front ++ (symbol unit ++ rest)) (length front) count
      ≡ (add_count sum count unit >>= λ s. ok (s, rest))
unfolding parse_unit add_unit
parse_unit-symbol sum count unit front rest h =
    let (c, (cs, (e, (other, digit)))) = symbol-to_digit unit rest h in
    let unit_length = length_lem c cs e digit in
    ap
      (λ n.
        add_unit sum count (unit_of (take n (drop (length front) view)))
          (drop (length front + n) view))
      unit_length
    ∙ ap
        (λ v.
          add_unit sum count (unit_of (take (length (symbol unit)) v))
            (drop (length front + length (symbol unit)) view))
        (drop-append front (symbol unit ++ rest))
    ∙ ap (λ u. add_unit sum count (unit_of u) (drop (length front + length (symbol unit)) view))
        (take-append (symbol unit) rest)
    ∙ ap (λ u. add_unit sum count u (drop (length front + length (symbol unit)) view))
        (unit_of-symbol unit)
    ∙ ap (add_unit sum count (some unit)) (
        drop-prefix (front ++ symbol unit) rest view (length front + length (symbol unit))
          (simp append_assoc) (omega (arith, length-append front (symbol unit))))
  where
    view : Bytes
    view = front ++ (symbol unit ++ rest)

    length_lem :
        (c : ℕ) (cs : Bytes)
        → symbol unit ≡ c ∷ cs
        → to_digit (cs ++ rest) ≡ length cs
        → 1 + to_digit (drop (length front + 1) view) ≡ length (symbol unit)
    length_lem c cs e digit =
        let behind : drop (length front + 1) view ≡ cs ++ rest =
          drop-prefix (front ++ (c ∷ [])) (cs ++ rest) view (length front + 1)
            (rw e (simp append_assoc)) (omega (arith, length-append front (c ∷ []))) in
        rw behind (rw digit (rw e (omega arith)))

parse_count-term :
    (sum count : ℤ) (unit : TimeUnit) (rest : Bytes)
    → StartsDigit rest
    → fits 64 count ≡ true
    → parse_count sum
        (to_string count ++ (symbol unit ++ rest))
        (from_chars_signed 64 (to_string count ++ (symbol unit ++ rest)))
      ≡ (add_count sum count unit >>= λ s. ok (s, rest))
unfolding parse_count
parse_count-term sum count unit rest h fit =
    let (c, (cs, (e, (other, digit)))) = symbol-to_digit unit rest h in
    let (d, (ds, f)) = to_string-ne-nil count in
    let more : length view ≡ length (to_string count) + suc (length cs + length rest) = omega (
      arith,
      length-append (to_string count) (symbol unit ++ rest),
      length-append (symbol unit) rest,
      ap length e,
    ) in
    let some_digits : length (to_string count) ≡ suc (length ds) = ap length f in
    ap (parse_count sum view) (
      from_chars_signed-to_string 64 count (symbol unit ++ rest) (rw e other)
      ∙ ap (λ b. (length (to_string count), if b then converted count else result_out_of_range))
          fit)
    ∙ sized (length cs + length rest) (length ds) more some_digits
    ∙ parse_unit-symbol sum count unit (to_string count) rest h
  where
    view : Bytes
    view = to_string count ++ (symbol unit ++ rest)

    sized :
        (k n : ℕ)
        → length view ≡ length (to_string count) + suc k
        → length (to_string count) ≡ suc n
        → parse_count sum view (length (to_string count), converted count)
          ≡ parse_unit sum view (length (to_string count)) count
    sized k n more some_digits =
        let not_all : (length (to_string count) == length view) ≡ false = ground (arith, more) in
        let not_none : (length (to_string count) == 0) ≡ false = ground (arith, some_digits) in
        rw not_all (rw not_none refl)

add_count-fitting :
    (sum : ℤ) (t : Term)
    → fits 64 (term_value t) ≡ true
    → fits 64 (sum +ℤ term_value t) ≡ true
    → add_count sum t.0 t.1 ≡ ok (sum +ℤ term_value t)
unfolding add_count term_value
add_count-fitting sum t f g = rw f (rw g refl)

print_terms-StartsDigit : (ts : List Term) → BeginsDigit ts → StartsDigit (print_terms ts)
unfolding to_string
print_terms-StartsDigit [] h = tt
print_terms-StartsDigit ((pos n, u) ∷ ts) h =
    let (d, (ten, (t, e))) = digits_of-head n in rw e (ground arith)
print_terms-StartsDigit ((negsuc n, u) ∷ ts) h = absurd h

parse_counts-round :
    (fuel : ℕ) (sum sum' : ℤ) (v v' : Bytes) (c : ℕ) (cs : Bytes)
    → v ≡ c ∷ cs
    → parse_count sum v (from_chars_signed 64 v) ≡ ok (sum', v')
    → parse_counts (suc fuel) sum v ≡ parse_counts fuel sum' v'
unfolding parse_counts after_round
parse_counts-round fuel sum sum' v v' c cs e round =
    ap (parse_counts (suc fuel) sum) e
    ∙ ap (after_round (parse_counts fuel))
        (sym (ap (λ x. parse_count sum x (from_chars_signed 64 x)) e) ∙ round)

parse_counts-print_terms :
    (ts : List Term) (fuel : ℕ) (sum : ℤ)
    → length (print_terms ts) ≤ fuel
    → AreTerms sum ts
    → parse_counts fuel sum (print_terms ts) ≡ some (ok (total sum ts))
unfolding parse_counts
parse_counts-print_terms [] fuel sum le h = refl
parse_counts-print_terms (t ∷ ts) zero sum le h =
    let (c, (cs, e)) = to_string-ne-nil t.0 in
    absurd
      (omega (arith, length-append (to_string t.0) (symbol t.1 ++ print_terms ts), ap length e))
parse_counts-print_terms (t ∷ ts) (suc fuel) sum le h =
    let (c, (cs, e)) = to_string-ne-nil t.0 in
    let rest = print_terms ts in
    parse_counts-round fuel sum (sum +ℤ term_value t) _ rest c (cs ++ (symbol t.1 ++ rest))
      (rw e refl)
      (parse_count-term sum t.0 t.1 rest (print_terms-StartsDigit ts h.1.1.1.0) h.0
        ∙ ap (λ r. r >>= λ s. ok (s, rest)) (add_count-fitting sum t h.1.0 h.1.1.0))
    ∙ parse_counts-print_terms ts fuel (sum +ℤ term_value t)
        (omega (
          arith,
          length-append (to_string t.0) (symbol t.1 ++ rest),
          length-append (symbol t.1) rest,
          ap length e,
        ))
        h.1.1.1.1

-- Counts with their units, of which no one but the first is negative, are read as their sum where
-- the nanoseconds of each and the sums on the way fit in 64 bits.
pub parse_duration-print_terms :
    (ts : List Term)
    → AreTerms (pos 0) ts
    → parse_duration (print_terms ts) ≡ some (ok (total (pos 0) ts))
unfolding parse_duration
parse_duration-print_terms ts h =
    parse_counts-print_terms ts (length (print_terms ts)) (pos 0) (omega arith) h
