-- ===== src/Co/Future/Chain.antt =====
-- Chains of states: where one ends, and that the loop of `_get_state` gets there.
pub mod Walk
use liblw.Prelude.{
  ℕ, zero, suc, ◌+◌, ◌-◌, ◌≤◌, ◌<◌, ◌≡◌, refl, sym, Option, none, some, List, length, get_elem?,
  arith,
}
use liblw.Err.{ok}
use liblw.Co.Future.{State, follow}
use liblw.Co.Future.Chain.Walk.{pigeonhole, get_elem?-in}

module _ {T : Type 0} (states : List (State T)) where
  -- `n` links lead from the state `a` to the state `b`, which is not chained.
  abbrev pub Ends : ℕ → ℕ → ℕ → Type 0
  Ends zero a b = (s : State T) × (get_elem? states a ≡ some s) × (s.chain_state ≡ none) × (a ≡ b)
  Ends (suc n) a b =
      (s : State T) × (c : ℕ) × (get_elem? states a ≡ some s)
      × (s.chain_state ≡ some c)
      × Ends n c b

  -- As many rounds as there are links, and one more, are enough.
  pub follow-Ends : (n fuel a b : ℕ) → Ends n a b → n < fuel → follow fuel states a ≡ ok b
  unfolding follow
  follow-Ends zero zero a b h lt = absurd (omega arith)
  follow-Ends (suc n) zero a b h lt = absurd (omega arith)
  follow-Ends zero (suc fuel) a b (s, e, k, same) lt = ground (arith, e, k, same)
  follow-Ends (suc n) (suc fuel) a b (s, c, e, k, rest) lt =
      ground (arith, e, k, follow-Ends n fuel c b rest (omega arith))

  Ends-unique : (n m a b c : ℕ) → Ends n a b → Ends m a c → n ≡ m
  Ends-unique zero zero a b d h k = refl
  Ends-unique zero (suc m) a b d (s, e, k, same) (s', c', e', l', h') = absurd (cc)
  Ends-unique (suc n) zero a b d (s, c, e, l, h) (s', e', k', same) = absurd (cc)
  Ends-unique (suc n) (suc m) a b d (s, c, e, l, h) (s', c', e', l', h') =
      let same : c ≡ c' = cc in omega (arith, Ends-unique n m c b d h (rw same h'))

  -- the state that the link of `a` leads to
  link : ℕ → ℕ
  link a = elim (get_elem? states a) [
    | none ↦ 0
    | some s ↦ elim s.chain_state [ none ↦ 0 | some b ↦ b ]
  ]

  link_lem :
      (a c : ℕ) (s : State T) → get_elem? states a ≡ some s → s.chain_state ≡ some c → link a ≡ c
  unfolding link
  link_lem a c s e l = ground (arith, e, l)

  walk : ℕ → ℕ → ℕ
  walk zero a = a
  walk (suc k) a = walk k (link a)

  walk-Ends : (k n m a b : ℕ) → n ≡ k + m → Ends n a b → Ends m (walk k a) b
  unfolding walk
  walk-Ends zero n m a b e h = let same : n ≡ m = omega arith in rw (sym same) h
  walk-Ends (suc k) zero m a b e h = absurd (omega arith)
  walk-Ends (suc k) (suc n) m a b e (s, c, at, l, h) =
      rw (link_lem a c s at l) (walk-Ends k n m c b (omega arith) h)

  Ends-in : (n a b : ℕ) → Ends n a b → a < length states
  Ends-in zero a b (s, e, _, _) = get_elem?-in states a e
  Ends-in (suc n) a b (s, c, e, _, _) = get_elem?-in states a e

  walked : (n a b i : ℕ) → i ≤ n → Ends n a b → Ends (n - i) (walk i a) b
  walked n a b i le h = walk-Ends i n (n - i) a b (omega arith) h

  -- A chain that ends has fewer links than there are states.
  pub Ends-lt : (n a b : ℕ) → Ends n a b → n < length states
  Ends-lt n a b h =
      pigeonhole (length states) (suc n) (λ k. walk k a)
        (λ k lt. Ends-in (n - k) (walk k a) b (walked n a b k (omega arith) h))
        (λ i j p q same.
          let le : i ≤ n = omega arith in
          let le' : j ≤ n = omega arith in
          omega (
            arith,
            Ends-unique (n - i) (n - j) (walk i a) b b (walked n a b i le h)
                (rw same (walked n a b j le' h)),
          ))
