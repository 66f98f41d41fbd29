-- ===== src/Flags/Format/Exact.antt =====
-- Every duration is printed so that its text is read back.
use liblw.Prelude.{
  ℕ, zero, suc, ◌-◌, ◌/◌, ◌^◌, ◌≤◌, ◌≡◌, sym, ap, ◌∙◌, true, List, [], ◌∷◌, ◌++◌, append-nil, some,
  arith, Bool-cases, inl, inr,
}
use native.Mathlib.Nat.{div-le_self}
use liblw.Prelude.Int.{ℤ, pos, negsuc, ◌+ℤ◌, scale, quot, same_ℤ, sub_ℕ}
use liblw.Base.Numbers.Decimal.{to_string, fits}
use liblw.Err.{ok}
use liblw.Flags.Format.{
  TimeUnit, symbol, ticks, parse_duration, can_convert_duration, unit_for, printed_units,
  format_duration,
}
use liblw.Flags.Format.Durations.{term_value, parse_duration-print_terms}

sub_ℕ-fits : (w m : ℕ) → m ≤ 2 ^ (w - 1) → fits w (sub_ℕ 0 m) ≡ true
sub_ℕ-fits w zero le = ground arith
sub_ℕ-fits w (suc m) le = ground arith

quot-fits : (w : ℕ) (z : ℤ) (n : ℕ) → fits w z ≡ true → fits w (quot z n) ≡ true
quot-fits w (pos a) n h = ground (arith, div-le_self a n, h)
quot-fits w (negsuc a) n h = sub_ℕ-fits w (suc a / n) (ground (arith, div-le_self (suc a) n, h))

same_ℤ→eq : (x y : ℤ) → same_ℤ x y ≡ true → x ≡ y
same_ℤ→eq (pos a) (pos b) h = ap pos (ground arith)
same_ℤ→eq (pos a) (negsuc b) h = absurd (cc)
same_ℤ→eq (negsuc a) (pos b) h = absurd (cc)
same_ℤ→eq (negsuc a) (negsuc b) h = ap negsuc (ground arith)

zero-add : (z : ℤ) → pos 0 +ℤ z ≡ z
zero-add (pos a) = ground arith
zero-add (negsuc a) = ground arith

unit_for-exact :
    (z : ℤ) (us : List TimeUnit)
    → scale (quot z (ticks (unit_for z us))) (ticks (unit_for z us)) ≡ z
unfolding unit_for can_convert_duration
unit_for-exact (pos a) [] = ground arith
unit_for-exact (negsuc a) [] = ground arith
unit_for-exact z (u ∷ us) = elim (Bool-cases (can_convert_duration u z)) [
  | inl exact ↦ rw exact (same_ℤ→eq _ _ exact)
  | inr inexact ↦ rw inexact (unit_for-exact z us)
]

-- Every duration of 64 bits is printed so that it is read back.
pub parse_duration-format_duration :
    (z : ℤ) → fits 64 z ≡ true → parse_duration (format_duration z) ≡ some (ok z)
unfolding format_duration term_value
parse_duration-format_duration z h =
    let unit = unit_for z printed_units in
    let count = quot z (ticks unit) in
    let exact : term_value (count, unit) ≡ z = unit_for-exact z printed_units in
    ap parse_duration (sym (ap (λ s. to_string count ++ s) (append-nil (symbol unit))))
    ∙ parse_duration-print_terms ((count, unit) ∷ []) (
      quot-fits 64 z (ticks unit) h,
      (ap (fits 64) exact ∙ h, (ap (fits 64) (zero-add _ ∙ exact) ∙ h, (tt, tt))),
    )
    ∙ ap (λ x. some (ok x)) (zero-add _ ∙ exact)
