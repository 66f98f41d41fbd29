-- ===== src/Base/Strings/Equality.antt =====
-- `CaseInsensitiveEqual` and `CaseInsensitiveHash`, as an unordered container needs them.
use liblw.Prelude.{ℕ, ◌+◌, ◌*◌, ◌%◌, ◌^◌, ◌≡◌, refl, ◌↔◌, true, [], ◌∷◌, map, arith, length}
use liblw.Base.Chars.{Bytes, to_upper}
use liblw.Base.Strings.{equal, equal_upto, hash, hash_from, sign_extended, size_max}

abbrev pub upper : Bytes → Bytes
upper = map to_upper

upper_of_equal : (a b : Bytes) → length a ≡ length b → equal_upto a b ≡ true → upper a ≡ upper b
unfolding equal_upto
upper_of_equal [] [] l h = refl
upper_of_equal [] (_ ∷ _) l h = absurd (omega arith)
upper_of_equal (_ ∷ _) [] l h = absurd (omega arith)
upper_of_equal (x ∷ a) (y ∷ b) l h = ground (arith, upper_of_equal a b)

equal_of_upper : (a b : Bytes) → upper a ≡ upper b → (length a ≡ length b) × (equal_upto a b ≡ true)
unfolding equal_upto
equal_of_upper [] [] h = (refl, refl)
equal_of_upper [] (_ ∷ _) h = cc
equal_of_upper (_ ∷ _) [] h = cc
equal_of_upper (x ∷ a) (y ∷ b) h = ground (arith, equal_of_upper a b)

-- Two views compare equal exactly when their bytes are the same in upper case.
pub equal_iff : (a b : Bytes) → (equal a b ≡ true) ↔ (upper a ≡ upper b)
unfolding equal
equal_iff a b = (λ h. ground (arith, upper_of_equal a b), λ h. ground (arith, equal_of_upper a b h))

hash_from-upper : (a b : Bytes) (m h : ℕ) → upper a ≡ upper b → hash_from a m h ≡ hash_from b m h
unfolding hash_from
hash_from-upper [] [] m h e = refl
hash_from-upper [] (_ ∷ _) m h e = cc
hash_from-upper (_ ∷ _) [] m h e = cc
hash_from-upper (x ∷ a) (y ∷ b) m h e = ground (
  arith,
  hash_from-upper a b ((m * 251) % 2 ^ 64 % size_max)
      ((h + (sign_extended (to_upper x) + 1) * m) % 2 ^ 64 % size_max),
)

-- Views that compare equal have one hash.
pub hash-equal : (a b : Bytes) → equal a b ≡ true → hash a ≡ hash b
unfolding hash
hash-equal a b h = hash_from-upper a b 1 0 ((equal_iff a b).0 h)
