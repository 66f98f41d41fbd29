-- ===== src/Memory/CircularQueue/Refine.antt =====
-- The queue against a first-in first-out list of at most `capacity` values, oldest first.
use liblw.Prelude.{
  ℕ, suc, ◌+◌, ◌-◌, ◌%◌, ◌≤◌, ◌<◌, ◌≡◌, ◌≢◌, refl, some, List, [], ◌∷◌, ◌++◌, arith, length,
  length-append, ap, sym, ◌∙◌, zero,
}
use native.Mathlib.Nat.{mod-add-mod, mod-eq_of_lt, mod-eq-sub-mod}
use native.Mathlib.Decide.{dec_lt}
use liblw.Err.{Result, ok, throws, failed_precondition, resource_exhausted}
use liblw.Memory.Store.{Slots, update}
use liblw.Memory.CircularQueue.{CircularQueue, make, push_back, pop_front}

module _ {ℓ} {A : Type ℓ} where
  -- Going round at `cap` from slot `t`, the slots hold `xs`.
  abbrev pub Holds : Slots A → ℕ → ℕ → List A → Type ℓ
  Holds buf cap t [] = Unit
  Holds buf cap t (x ∷ xs) = (buf t ≡ some x) × Holds buf cap ((t + 1) % cap) xs

  -- `q` stores exactly the values `xs`, and its indices stay inside the storage.
  pub record Represents (q : CircularQueue A) (xs : List A) : Type ℓ where
    pub size_is : q.size ≡ length xs
    pub fits : q.size ≤ q.capacity
    pub tail_in : 0 < q.capacity → q.tail < q.capacity
    pub head_is : 0 < q.capacity → q.head ≡ (q.tail + q.size) % q.capacity
    pub holds : Holds q.buffer q.capacity q.tail xs

-- Fewer than `cap` steps round the storage do not lead back to the start.
around-ne : (cap t k : ℕ) → t < cap → suc k < cap → (t + suc k) % cap ≢ t
around-ne cap t k p q = elim (dec_lt (t + suc k) cap) [
  | yes h ↦ omega (arith, mod-eq_of_lt h)
  | no h ↦ omega (
    arith,
    mod-eq-sub-mod {n = t + suc k} {m = cap} (omega arith),
    mod-eq_of_lt {n = t + suc k - cap} {m = cap} (omega arith),
  )
]

around_step : (cap t k : ℕ) → (t + suc k) % cap ≡ ((t + 1) % cap + k) % cap
around_step cap t k = rw mod-add-mod (ap (λ n. n % cap) (omega arith))

around_size : (cap t n : ℕ) → 0 < n → (t + n) % cap ≡ ((t + 1) % cap + (n - 1)) % cap
around_size cap t zero h = absurd (omega arith)
around_size cap t (suc n) h =
    around_step cap t n ∙ ap (λ k. ((t + 1) % cap + k) % cap) (omega arith)

add_one_around : (cap h t n : ℕ) → h ≡ (t + n) % cap → (h + 1) % cap ≡ (t + (n + 1)) % cap
add_one_around cap h t n e = rw (e, mod-add-mod) (ap (λ k. k % cap) (omega arith))

module _ {ℓ} {A : Type ℓ} where
  -- A write behind the stored values leaves them, and adds one.
  Holds-update :
      (buf : Slots A) (cap t h : ℕ) (xs : List A) (a : A)
      → t < cap
      → length xs < cap
      → h ≡ (t + length xs) % cap
      → Holds buf cap t xs
      → Holds (update buf h a) cap t (xs ++ (a ∷ []))
  Holds-update buf cap t h [] a p q e v =
      let at : h ≡ t = e ∙ ap (λ n. n % cap) (omega arith) ∙ mod-eq_of_lt p in (ground arith, tt)
  Holds-update buf cap t h (x ∷ xs) a p q e v =
      let apart : h ≢ t = λ k. around-ne cap t (length xs) p q (sym e ∙ k) in
      (
        ground arith,
        Holds-update buf cap ((t + 1) % cap) h xs a (omega arith) (omega arith)
            (e ∙ around_step cap t (length xs)) v.1,
      )

  -- A new queue stores nothing.
  pub make-Represents : (capacity : ℕ) → Represents (make {A = A} capacity) []
  unfolding make
  make-Represents capacity = record {
    size_is = refl;
    fits = omega arith;
    tail_in = λ h. h;
    head_is = λ h. omega arith;
    holds = tt;
  }

  -- What `pop_front` does on a queue that stores these values.
  abbrev pub Pops : CircularQueue A → List A → Result (A × CircularQueue A) → Type ℓ
  Pops q [] r = r ≡ throws failed_precondition
  Pops q (x ∷ xs) r =
      (q' : CircularQueue A) × (r ≡ ok (x, q')) × (q'.capacity ≡ q.capacity) × Represents q' xs

  pub pop_front-Pops :
      (q : CircularQueue A) (xs : List A) → Represents q xs → Pops q xs (pop_front q)
  unfolding pop_front
  pop_front-Pops q [] v = ground arith
  pop_front-Pops q (x ∷ xs) v = (
    record q { tail = (q.tail + 1) % q.capacity; size = q.size - 1 },
    ground arith,
    refl,
    record {
      size_is = omega arith;
      fits = omega arith;
      tail_in = λ h. omega arith;
      head_is = λ h. v.head_is h ∙ around_size q.capacity q.tail q.size (omega arith);
      holds = v.holds.1;
    },
  )

  pub push_back-Represents :
      (q : CircularQueue A) (xs : List A) (a : A)
      → Represents q xs
      → q.size < q.capacity
      → (q' : CircularQueue A) × (push_back q a ≡ ok q')
        × (q'.capacity ≡ q.capacity)
        × Represents q' (xs ++ (a ∷ []))
  unfolding push_back
  push_back-Represents q xs a v room = (
    record q {
      head = (q.head + 1) % q.capacity;
      buffer = update q.buffer q.head a;
      size = q.size + 1;
    },
    ground arith,
    refl,
    record {
      size_is = omega (arith, length-append xs (a ∷ []));
      fits = omega arith;
      tail_in = v.tail_in;
      head_is = λ h. add_one_around q.capacity q.head q.tail q.size (v.head_is h);
      holds =
          Holds-update q.buffer q.capacity q.tail q.head xs a (v.tail_in (omega arith))
            (omega arith) (v.head_is (omega arith) ∙ ap (λ n. (q.tail + n) % q.capacity) v.size_is)
            v.holds;
    },
  )

  -- A queue whose slots are all in use refuses the value.
  pub push_back-full :
      (q : CircularQueue A) (a : A)
      → q.size ≡ q.capacity
      → push_back q a ≡ throws resource_exhausted
  unfolding push_back
  push_back-full q a e = ground arith
