-- ===== src/Co/Future/Chain/Walk.antt =====
-- Counting the places that a walk visits.
use liblw.Prelude.{
  ℕ, zero, suc, ◌≤◌, ◌<◌, ◌≡◌, ◌≢◌, some, List, [], ◌∷◌, length, get_elem?, arith, ◌==◌,
  if◌then◌else◌,
}

pub get_elem?-in {ℓ} :
    {A : Type ℓ} (xs : List A) (i : ℕ) {x : A} → get_elem? xs i ≡ some x → i < length xs
get_elem?-in [] i h = absurd (cc)
get_elem?-in (x ∷ xs) zero h = omega arith
get_elem?-in (x ∷ xs) (suc i) h = omega (arith, get_elem?-in xs i h)

-- `f`, with `y` in place of `n`
avoid : ℕ → ℕ → ℕ → ℕ
avoid n y x = if x == n then y else x

-- Different places below `n` are at most `n`.
pub pigeonhole :
    (n m : ℕ) (f : ℕ → ℕ)
    → ((i : ℕ) → i < m → f i < n)
    → ((i j : ℕ) → i < m → j < m → f i ≡ f j → i ≡ j)
    → m ≤ n
unfolding avoid
pigeonhole n zero f below apart = omega arith
pigeonhole zero (suc m) f below apart = absurd (omega (arith, below m (omega arith)))
pigeonhole (suc n) (suc m) f below apart = omega (
  arith,
  pigeonhole n m (λ i. avoid n (f m) (f i))
      (λ i lt. ground (arith, below i (omega arith), below m (omega arith), last i lt))
      (λ i j p q e. ground (arith, apart i j (omega arith) (omega arith), last i p, last j q)),
)
  where
    last : (i : ℕ) → i < m → f i ≢ f m
    last i lt e = omega (arith, apart i m (omega arith) (omega arith) e)
