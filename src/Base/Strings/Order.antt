-- ===== src/Base/Strings/Order.antt =====
-- `CaseInsensitiveLess` as the order of `std::map`: a dictionary order, for views whose sizes an
-- `int` holds.
use liblw.Prelude.{
  ℕ, suc, ◌^◌, ◌<◌, ◌≡◌, refl, ◌↔◌, ◌⊎◌, inl, inr, true, false, [], ◌∷◌, arith, length, map,
}
use liblw.Prelude.Int.{ℤ, sub_ℕ, is_negative}
use liblw.Base.Chars.{Bytes, to_upper}
use liblw.Base.Strings.{equal, compare, compare_from, less, signed_upper, size_difference}
use liblw.Base.OrderedMap.{StrictWeakOrder}
use liblw.Base.Strings.Equality.{upper, equal_iff}

-- Dictionary order.
abbrev pub Precedes : Bytes → Bytes → Type 0
Precedes _ [] = ⊥
Precedes [] (_ ∷ _) = Unit
Precedes (x ∷ a) (y ∷ b) = (x < y) ⊎ ((x ≡ y) × Precedes a b)

-- the bytes in upper case, as `CaseInsensitiveCompare` orders them
abbrev ranks : Bytes → Bytes
ranks = map signed_upper

rank_iff : (x y : ℕ) → (signed_upper x ≡ signed_upper y) ↔ (to_upper x ≡ to_upper y)
unfolding to_upper
rank_iff x y = ground arith

ranks_iff : (a b : Bytes) → (ranks a ≡ ranks b) ↔ (upper a ≡ upper b)
ranks_iff [] [] = ground arith
ranks_iff [] (y ∷ b) = ground arith
ranks_iff (x ∷ a) [] = ground arith
ranks_iff (x ∷ a) (y ∷ b) = ground (arith, ranks_iff a b, rank_iff x y)

-- A size that `int` holds.
abbrev pub IsShort : Bytes → Type 0
IsShort a = length a < 2 ^ 31

size_difference_lem :
    (a b : Bytes) → IsShort a → IsShort b → size_difference a b ≡ sub_ℕ (length a) (length b)
unfolding size_difference
size_difference_lem a b p q = ground arith

sub_suc : (m n : ℕ) → sub_ℕ (suc m) (suc n) ≡ sub_ℕ m n
sub_suc m n = ground arith

Precedes-of_less :
    (s : ℤ) (a b : Bytes)
    → s ≡ sub_ℕ (length a) (length b)
    → is_negative (compare_from s a b) ≡ true
    → Precedes (ranks a) (ranks b)
unfolding compare_from
Precedes-of_less s [] [] e h = ground arith
Precedes-of_less s [] (y ∷ b) e h = tt
Precedes-of_less s (x ∷ a) [] e h = ground arith
Precedes-of_less s (x ∷ a) (y ∷ b) e h =
    ground (arith, Precedes-of_less s a b, sub_suc (length a) (length b), rank_iff x y)

less_of_Precedes :
    (s : ℤ) (a b : Bytes)
    → s ≡ sub_ℕ (length a) (length b)
    → Precedes (ranks a) (ranks b)
    → is_negative (compare_from s a b) ≡ true
unfolding compare_from
less_of_Precedes s [] [] e h = absurd h
less_of_Precedes s [] (y ∷ b) e h = ground arith
less_of_Precedes s (x ∷ a) [] e h = absurd h
less_of_Precedes s (x ∷ a) (y ∷ b) e h =
    ground (arith, less_of_Precedes s a b, sub_suc (length a) (length b), rank_iff x y)

compare_lem : (a b : Bytes) → compare a b ≡ compare_from (size_difference a b) a b
unfolding compare size_difference
compare_lem [] [] = refl
compare_lem [] (y ∷ b) = refl
compare_lem (x ∷ a) b = refl

-- For views whose sizes an `int` holds, `CaseInsensitiveLess` is a dictionary order.
less_lem : (a b : Bytes) → IsShort a → IsShort b → (less a b ≡ true) ↔ Precedes (ranks a) (ranks b)
unfolding less
less_lem a b p q = rw compare_lem (
  Precedes-of_less _ a b (size_difference_lem a b p q),
  less_of_Precedes _ a b (size_difference_lem a b p q),
)

-- Every byte is an ASCII character.
abbrev pub IsAscii : Bytes → Type 0
IsAscii [] = Unit
IsAscii (c ∷ a) = (c < 128) × IsAscii a

ranks-Precedes :
    (a b : Bytes)
    → IsAscii a
    → IsAscii b
    → Precedes (ranks a) (ranks b) ↔ Precedes (upper a) (upper b)
ranks-Precedes [] [] h k = (λ e. e, λ e. e)
ranks-Precedes [] (y ∷ b) h k = (λ e. e, λ e. e)
ranks-Precedes (x ∷ a) [] h k = (λ e. e, λ e. e)
ranks-Precedes (x ∷ a) (y ∷ b) (h, h') (k, k') = ground (arith, h, k, ranks-Precedes a b h' k')

-- For ASCII views whose sizes an `int` holds, `CaseInsensitiveLess` holds exactly when the left
-- view stands first in the dictionary order of the bytes in upper case.
pub less_iff :
    (a b : Bytes)
    → IsShort a
    → IsShort b
    → IsAscii a
    → IsAscii b
    → (less a b ≡ true) ↔ Precedes (upper a) (upper b)
less_iff a b p q h k =
    let (to, from) = less_lem a b p q in
    let (to', from') = ranks-Precedes a b h k in (λ e. to' (to e), λ e. from (from' e))

Precedes-trans : (a b c : Bytes) → Precedes a b → Precedes b c → Precedes a c
Precedes-trans _ _ [] h k = absurd k
Precedes-trans _ [] (z ∷ c) h k = absurd h
Precedes-trans [] (y ∷ b) (z ∷ c) h k = tt
Precedes-trans (x ∷ a) (y ∷ b) (z ∷ c) h k = ground (arith, Precedes-trans a b c)

Precedes-irrefl : (a : Bytes) → ¬ Precedes a a
Precedes-irrefl [] h = h
Precedes-irrefl (x ∷ a) h = ground (arith, Precedes-irrefl a)

Precedes-total : (a b : Bytes) → (Precedes a b ⊎ Precedes b a) ⊎ (a ≡ b)
Precedes-total [] [] = inr refl
Precedes-total [] (y ∷ b) = inl (inl tt)
Precedes-total (x ∷ a) [] = inl (inr tt)
Precedes-total (x ∷ a) (y ∷ b) = ground (arith, Precedes-total a b)

-- On such views `CaseInsensitiveLess` is transitive.
pub less_trans :
    (a b c : Bytes)
    → IsShort a
    → IsShort b
    → IsShort c
    → less a b ≡ true
    → less b c ≡ true
    → less a c ≡ true
less_trans a b c p q r h k =
    (less_lem a c p r).1 (
      Precedes-trans (ranks a) (ranks b) (ranks c) ((less_lem a b p q).0 h)
        ((less_lem b c q r).0 k))

-- On such views neither is less than the other exactly when `CaseInsensitiveEqual` holds, so a
-- `std::map` keeps one entry for each class of equal names.
pub incomparable_iff :
    (a b : Bytes)
    → IsShort a
    → IsShort b
    → ((less a b ≡ false) × (less b a ≡ false)) ↔ (equal a b ≡ true)
incomparable_iff a b p q = (same, apart)
  where
    same : (less a b ≡ false) × (less b a ≡ false) → equal a b ≡ true
    same h = ground (
      arith,
      less_lem a b p q,
      less_lem b a q p,
      equal_iff a b,
      ranks_iff a b,
      Precedes-total (ranks a) (ranks b),
    )

    apart : equal a b ≡ true → (less a b ≡ false) × (less b a ≡ false)
    apart h = ground (
      arith,
      less_lem a b p q,
      less_lem b a q p,
      equal_iff a b,
      ranks_iff a b,
      Precedes-irrefl (ranks a),
    )

Precedes-cotrans : (a b c : Bytes) → Precedes a c → Precedes a b ⊎ Precedes b c
Precedes-cotrans a b c h = ground (arith, Precedes-total b c, Precedes-trans a c b h)

-- What `std::map` requires of the comparator.
pub less-StrictWeakOrder : StrictWeakOrder IsShort less
less-StrictWeakOrder = record {
  asym = λ a b p q h. ground (
    arith,
    less_lem a b p q,
    less_lem b a q p,
    Precedes-trans (ranks a) (ranks b) (ranks a),
    Precedes-irrefl (ranks a),
  );
  cotrans = λ a b c p q r h. ground (
    arith,
    less_lem a c p r,
    less_lem a b p q,
    less_lem b c q r,
    Precedes-cotrans (ranks a) (ranks b) (ranks c),
  );
}
