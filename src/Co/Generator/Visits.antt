-- ===== src/Co/Generator/Visits.antt =====
-- The loop over a generator visits what its coroutine yields.
use liblw.Prelude.{
  ℕ, zero, suc, ◌+◌, ◌-◌, ◌<◌, ◌≡◌, refl, true, false, some, List, [], ◌∷◌, length, arith,
}
use liblw.Co.Generator.{
  Step, yields, returns, raises, Outcome, gives, terminates, make, resume, next, value, begin,
  advance, visit, visit_all,
}

-- how a coroutine ends that does not yield for ever
pub data Ending : Type 0 where
  finishes fails : Ending

abbrev last_step {ℓ} : {S A : Type ℓ} → Ending → Step S A
last_step finishes = returns
last_step fails = raises

-- what comes of a loop that has visited these values when the coroutine ends so
abbrev pub ended {ℓ} : {A : Type ℓ} → Ending → List A → Outcome (List A)
ended finishes values = gives values
ended fails values = terminates

-- From that place on the coroutine yields these values, in this order, and then ends so.
unfoldable pub Yields {ℓ} : {S A : Type ℓ} → (S → Step S A) → S → List A → Ending → Type ℓ
Yields step s [] end = step s ≡ last_step end
Yields {S = S} step s (a ∷ rest) end = (t : S) × (step s ≡ yields a t) × Yields step t rest end

module _ {ℓ} {S A : Type ℓ} (step : S → Step S A) where
  visit_lem :
      (rest : List A) (end : Ending) (fuel : ℕ) (s : S) (a : A)
      → Yields step s rest end
      → length rest < fuel
      → visit step fuel (true, record { place = s; is_done = false; current_value = some a })
        ≡ ended end (a ∷ rest)
  unfolding visit value advance next resume Yields
  visit_lem rest end zero s a h lt = absurd (omega arith)
  visit_lem [] finishes (suc zero) s a h lt = rw h refl
  visit_lem [] finishes (suc (suc fuel)) s a h lt = rw h refl
  visit_lem [] fails (suc fuel) s a h lt = rw h refl
  visit_lem (b ∷ rest) finishes (suc fuel) s a (t, h, k) lt =
      rw (h, visit_lem rest finishes fuel t b k (omega arith)) refl
  visit_lem (b ∷ rest) fails (suc fuel) s a (t, h, k) lt =
      rw (h, visit_lem rest fails fuel t b k (omega arith)) refl

  -- If the coroutine yields these values and then returns, a loop over a new generator visits
  -- exactly them, in their order, and ends, given more rounds than there are values; a generator
  -- that has yielded `a` already begins with it. If an exception leaves the coroutine behind these
  -- values, the loop comes to `std::terminate()` instead.
  pub visit_all-make :
      (values : List A) (end : Ending) (s : S) (a : A) (fuel : ℕ)
      → Yields step s values end
      → length values < fuel
      → (visit_all step fuel (make s) ≡ ended end values)
        × (visit_all step fuel (record { place = s; is_done = false; current_value = some a })
            ≡ ended end (a ∷ values))
  unfolding visit_all make begin next resume Yields visit
  visit_all-make [] finishes s a fuel h lt =
      (rw h (ground arith), visit_lem [] finishes fuel s a h lt)
  visit_all-make [] fails s a fuel h lt = (rw h refl, visit_lem [] fails fuel s a h lt)
  visit_all-make (b ∷ values) end s a fuel (t, h, k) lt = (
    rw h (visit_lem values end fuel t b k (omega arith)),
    visit_lem (b ∷ values) end fuel s a (t, h, k) lt,
  )

-- the `n` numbers from `i` upwards, and downwards
unfoldable pub count_up : ℕ → ℕ → List ℕ
count_up zero i = []
count_up (suc n) i = i ∷ count_up n (i + 1)

unfoldable pub count_down : ℕ → ℕ → List ℕ
count_down zero i = []
count_down (suc n) i = i ∷ count_down n (i - 1)

-- how far two numbers are apart
abbrev pub distance : ℕ → ℕ → ℕ
distance a b = (a - b) + (b - a)
