-- ===== src/Co/Generator.antt =====
-- lw/co/generator.h and sequences.h. The coroutine of a generator is the parameter `step`: what it
-- does from where it is suspended to the next `co_yield`, or to its end. It may yield for ever, and
-- an exception may leave it, which ends the program. To resume one that is done is undefined.
pub mod Visits
pub mod Async
mod Tests
use liblw.Prelude.{
  ℕ, zero, suc, ◌+◌, ◌-◌, Bool, true, false, not, Option, none, some, List, [], ◌∷◌, ltb, ◌==◌,
  if◌then◌else◌,
}

-- What a coroutine does when it is resumed: it yields a value and is suspended behind it, it
-- returns, or an exception leaves it.
pub data Step {ℓ} (S A : Type ℓ) : Type ℓ where
  yields : A → S → Step S A
  returns : Step S A
  raises : Step S A

-- What comes of a call: nothing here throws. `terminates` is `std::terminate()`, and `out_of_fuel`
-- is a loop that has not ended after as many rounds as it was given.
pub data Outcome {ℓ} (A : Type ℓ) : Type ℓ where
  gives : A → Outcome A
  undefined : Outcome A
  terminates : Outcome A
  out_of_fuel : Outcome A

infixl 5 ◌>>=◌
abbrev ◌>>=◌ {ℓ κ} : {A : Type ℓ} {B : Type κ} → Outcome A → (A → Outcome B) → Outcome B
◌>>=◌ (gives a) f = f a
◌>>=◌ undefined _ = undefined
◌>>=◌ terminates _ = terminates
◌>>=◌ out_of_fuel _ = out_of_fuel

-- `Generator<T>`, with what its handle leads to: where the coroutine is suspended, whether it is
-- done, and `_current_value`.
pub record Generator {ℓ} (S A : Type ℓ) : Type ℓ where
  pub place : S
  pub is_done : Bool
  pub current_value : Option A

-- A generator as its coroutine returns it: suspended at the beginning.
unfoldable pub make {ℓ} : {S A : Type ℓ} → S → Generator S A
make s = record { place = s; is_done = false; current_value = none }

module _ {ℓ} {S A : Type ℓ} (step : S → Step S A) where
  -- `_handle.resume()`, up to the next `co_yield` or to the end: `yield_value`, `return_void` and
  -- `unhandled_exception`
  resume_step : Step S A → Generator S A → Outcome (Generator S A)
  resume_step (yields a s) g = gives (record g { place = s; current_value = some a })
  resume_step returns g = gives (record g { is_done = true })
  resume_step raises g = terminates

  unfoldable pub resume : Generator S A → Outcome (Generator S A)
  unfolding resume_step
  resume g = if g.is_done then undefined else resume_step (step g.place) g

  -- `bool next()`
  unfoldable pub next : Generator S A → Outcome (Bool × Generator S A)
  unfolding resume
  next g = do g' ← resume g; gives (not g'.is_done, g')

  -- `value()`, which goes through `_current_value`
  unfoldable pub value : Generator S A → Outcome A
  value g = elim g.current_value [ none ↦ undefined | some a ↦ gives a ]

  -- `begin()`. An iterator is true if it leads to the generator, and false for the one of `end()`.
  unfoldable pub begin : Generator S A → Outcome (Bool × Generator S A)
  unfolding next
  begin g = do
    g' ← elim g.current_value [ some _ ↦ gives g | none ↦ next g >>= λ r. gives r.1 ]
    gives (not g'.is_done, g')

  -- `operator++()` of an iterator that leads to the generator
  unfoldable pub advance : Generator S A → Outcome (Bool × Generator S A)
  unfolding next
  advance g = next g

  -- The loop of `for (auto& v : generator)`, at most `fuel` times round: the values that it visits.
  unfoldable pub visit : ℕ → Bool × Generator S A → Outcome (List A)
  unfolding value advance
  visit fuel (false, g) = gives []
  visit zero (true, g) = out_of_fuel
  visit (suc fuel) (true, g) = do
    a ← value g
    r ← advance g
    visited ← visit fuel r
    gives (a ∷ visited)

  unfoldable pub visit_all : ℕ → Generator S A → Outcome (List A)
  unfolding begin visit
  visit_all fuel g = begin g >>= visit fuel

-- `range(begin, end)` over unsigned numbers: where it is suspended, with `i`.
pub data Range : Type 0 where
  unstarted : Range
  going_up going_down : ℕ → Range

-- the loops, from the test of `i != end` on
loop_up : ℕ → ℕ → Step Range ℕ
loop_up last i = if i == last then returns else yields i (going_up i)

loop_down : ℕ → ℕ → Step Range ℕ
loop_down last i = if i == last then returns else yields i (going_down i)

-- what its coroutine does from there to the next `co_yield`
unfoldable pub range_step : ℕ → ℕ → Range → Step Range ℕ
unfolding loop_up loop_down
range_step first last unstarted =
    if ltb last first then loop_down last first else loop_up last first
range_step first last (going_up i) = loop_up last (i + 1)
range_step first last (going_down i) = loop_down last (i - 1)
