-- ===== src/Co/Generator/Async.antt =====
-- `AsyncGenerator` of lw/co/generator.h, over the promises of `Co.Future`. Its coroutine runs up to
-- its first `co_await` when it is called; what it does then are calls of the functions below.
pub mod Asked
use liblw.Prelude.{ℕ, Bool, true, false, Option, none, some, if◌then◌else◌}
use liblw.Err.{Error, Result, ok, undefined}
use liblw.Err.Action.{Action, pure, lift, ◌>>=◌, ◌>>◌}
use liblw.Co.Future.{
  Future, Promise, World, make_promise, get_future, set_value, set_exception, make_resolved_future,
}

-- `AsyncGenerator<T>::SharedState`
pub record Shared (A : Type 0) : Type 0 where
  pub done : Bool
  pub next_promise : Promise
  pub current_value : Option A

module _ {A S : Type 0} (moved : Bool → Bool) (schedule : ℕ → ℕ → Action S (Unit {0})) where
  -- `AsyncGenerator()`
  unfoldable pub make_async : Action (World Bool S) (Shared A)
  unfolding make_promise
  make_async = do
    p ← make_promise moved schedule
    pure (record { done = false; next_promise = p; current_value = none })

  -- `Future<bool> next()`, with the state after it
  unfoldable pub ask_next : Shared A → Action (World Bool S) (Future × Shared A)
  unfolding make_promise get_future make_resolved_future
  ask_next g =
      if g.done then (make_resolved_future moved schedule false >>= λ f. pure (f, g)) else (do
        p ← make_promise moved schedule
        f ← lift (get_future p).0
        pure (f, record g { next_promise = (get_future p).1 }))

  -- `value()`
  unfoldable pub async_value : Shared A → Result A
  async_value g = elim g.current_value [ none ↦ undefined | some a ↦ ok a ]

  -- `promise_type::yield_value(value)`: the state, which is changed first, and what is then done to
  -- the promise; the coroutine is suspended behind it
  unfoldable pub yield_value : A → Shared A → Shared A × Action (World Bool S) (Unit {0})
  unfolding set_value
  yield_value a g =
      (record g { current_value = some a }, set_value moved schedule g.next_promise true)

  -- `promise_type::return_void()`, likewise
  unfoldable pub async_return_void : Shared A → Shared A × Action (World Bool S) (Unit {0})
  unfolding set_value
  async_return_void g = (record g { done = true }, set_value moved schedule g.next_promise false)

  -- `promise_type::unhandled_exception()`
  unfoldable pub async_unhandled_exception : Error → Shared A → Action (World Bool S) (Unit {0})
  unfolding set_exception
  async_unhandled_exception e g = set_exception moved schedule g.next_promise e
