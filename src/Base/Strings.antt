-- ===== src/Base/Strings.antt =====
-- lw/base/strings.h: `CaseInsensitiveHash`, `CaseInsensitiveEqual`, `CaseInsensitiveCompare` and
-- `CaseInsensitiveLess`. A `std::string_view` is the list of its bytes.
pub mod Equality
pub mod Order
use liblw.Prelude.{
  ℕ, ◌+◌, ◌-◌, ◌*◌, ◌%◌, ◌^◌, Bool, true, false, ◌&&◌, [], ◌∷◌, length, ltb, ◌==◌, if◌then◌else◌,
}
use liblw.Prelude.Int.{ℤ, pos, sub_ℕ, is_negative}
use liblw.Base.Chars.{Bytes, to_upper}

-- `std::numeric_limits<std::size_t>::max()`
abbrev pub size_max : ℕ
size_max = 2 ^ 64 - 1

-- What `std::toupper` gives for a `char`, as a `std::size_t`: a byte above 127 is a negative `char`,
-- which a C library with a table from -128 on gives back.
abbrev pub sign_extended : ℕ → ℕ
sign_extended upper =
    if ltb upper 128 then upper else if ltb upper 256 then upper + 2 ^ 64 - 256 else upper

-- `(upper + 1) * multiplier` and the sum are of `std::size_t`, and wrap before the `%`.
hash_from : Bytes → ℕ → ℕ → ℕ
hash_from [] multiplier hash = hash
hash_from (c ∷ str) multiplier hash =
    hash_from str ((multiplier * 251) % 2 ^ 64 % size_max)
      ((hash + (sign_extended (to_upper c) + 1) * multiplier) % 2 ^ 64 % size_max)

unfoldable pub hash : Bytes → ℕ
unfolding hash_from
hash str = hash_from str 1 0

-- The loop over `length` equal positions.
unfoldable pub equal_upto : Bytes → Bytes → Bool
equal_upto (a ∷ lhs) (b ∷ rhs) = (to_upper a == to_upper b) && equal_upto lhs rhs
equal_upto _ _ = true

unfoldable pub equal : Bytes → Bytes → Bool
unfolding equal_upto
equal lhs rhs = if length lhs == length rhs then equal_upto lhs rhs else false

-- The conversion of a `std::size_t` to `int`: the low 32 bits, read in two's complement.
abbrev pub to_int : ℕ → ℤ
to_int n = let m = n % 2 ^ 32 in if ltb m (2 ^ 31) then pos m else sub_ℕ m (2 ^ 32)

-- `lhs.size() - rhs.size()` wraps at 2^64 before it is narrowed to the `int` returned.
unfoldable pub size_difference : Bytes → Bytes → ℤ
size_difference lhs rhs = to_int ((length lhs + 2 ^ 64 - length rhs) % 2 ^ 64)

-- What `std::toupper` gives for a `char`, plus 128. A `char` is signed and is passed as it is, so
-- that a byte above 127 is a negative argument: the standard leaves that undefined, and a C library
-- with a table from -128 on, such as glibc, gives it back.
abbrev pub signed_upper : ℕ → ℕ
signed_upper c = if ltb c 128 then to_upper c + 128 else if ltb c 256 then c - 128 else c

-- the loop, and the sizes after it
compare_from : ℤ → Bytes → Bytes → ℤ
compare_from sizes (l ∷ lhs) (r ∷ rhs) =
    if to_upper l == to_upper r
    then compare_from sizes lhs rhs
    else sub_ℕ (signed_upper l) (signed_upper r)
compare_from sizes _ _ = sizes

unfoldable pub compare : Bytes → Bytes → ℤ
unfolding compare_from size_difference
compare [] [] = pos 0
compare lhs rhs = compare_from (size_difference lhs rhs) lhs rhs

unfoldable pub less : Bytes → Bytes → Bool
unfolding compare
less lhs rhs = is_negative (compare lhs rhs)
