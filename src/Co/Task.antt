-- ===== src/Co/Task.antt =====
-- lw/co/task.h: a coroutine with the state that its task shares. What it does when it is resumed is
-- its parameter: `suspends` is how often it suspends itself before it ends, so that a task that never
-- ends is left out.
pub mod Ends
mod Tests
use liblw.Prelude.{
  ℕ, zero, suc, Bool, true, false, not, ◌||◌, Option, none, some, List, [], ◌∷◌, ◌++◌,
  if◌then◌else◌,
}
use liblw.Err.{Error, Result, ok, throws, undefined, failed_precondition}
use liblw.Err.Action.{Action, pure, lift, ◌>>=◌, ◌>>◌}

-- How a coroutine ends: `co_return`, or an exception.
pub data End : Type 0 where
  returns : End
  raises : Error → End

-- A callback: its name, and the exception that it throws, if it throws one.
pub record Callback : Type 0 where
  pub name : ℕ
  pub fails_with : Option Error

-- `Task`, with its handle's coroutine and `TaskPromise::State`. `called` notes the callbacks that
-- were called.
pub record Task : Type 0 where
  pub suspends : ℕ
  pub end : End
  pub is_done : Bool
  pub error : Option Error
  pub callback : Option Callback
  pub finished : Bool
  pub called : List ℕ

-- `get_return_object()`: suspended at the beginning
unfoldable pub make : ℕ → End → Task
make suspends end = record {
  suspends = suspends;
  end = end;
  is_done = false;
  error = none;
  callback = none;
  finished = false;
  called = [];
}

-- `then(callback)`
unfoldable pub then_call : Callback → Task → Task
then_call callback t = record t { callback = some callback }

-- `unhandled_exception()`
unhandled_exception : Error → Task → Task
unhandled_exception e t = record t { error = some e }

-- `if (_state->callback) _state->callback()`: the task, and the exception that the call throws
call_back : Option Callback → Task → Task × Option Error
call_back none t = (t, none)
call_back (some c) t = (record t { called = t.called ++ (c.name ∷ []) }, c.fails_with)

-- `return_void()`
return_void : Task → Task × Option Error
unfolding call_back
return_void t = call_back t.callback (record t { finished = true })

-- what `return_void()` throws is caught
catch : Task × Option Error → Task
unfolding unhandled_exception
catch (t, none) = t
catch (t, some e) = unhandled_exception e t

-- The coroutine runs to its end, where it is suspended for good. The language has `return_void()`
-- under the `try` of the body, so that `unhandled_exception()` is called for what it throws.
end_task : End → Task → Task
unfolding return_void unhandled_exception catch
end_task returns t = record (catch (return_void t)) { is_done = true }
end_task (raises e) t = record (unhandled_exception e t) { is_done = true }

go_on : ℕ → Task → Task
unfolding end_task
go_on zero t = end_task t.end t
go_on (suc n) t = record t { suspends = n }

-- `bool resume()`
unfoldable pub resume : Task → Result (Bool × Task)
unfolding go_on
resume t = if t.is_done then undefined else (let t' = go_on t.suspends t in ok (not t'.is_done, t'))

-- `bool TaskPromise::valid() const`
unfoldable pub valid : Task → Bool
valid t = elim t.error [ none ↦ t.finished | some _ ↦ true ]

-- `get()`
unfoldable pub get : Task → Result (Unit {0})
unfolding valid
get t =
    if not (valid t)
    then throws failed_precondition
    else elim t.error [ none ↦ ok tt | some e ↦ throws e ]

-- What comes of the destructor: it is `noexcept`, as every destructor is that does not say
-- otherwise, so that an exception that would leave it ends the program with `std::terminate()`.
pub data Destroyed : Type 0 where
  gone terminated : Destroyed

-- `~Task()`
unfoldable pub destroy : Task → Destroyed
destroy t = elim t.error [ none ↦ gone | some e ↦ terminated ]

-- `while (task.resume())`, at most `fuel` times
unfoldable pub run : ℕ → Task → Result Task
unfolding resume
run zero t = undefined
run (suc fuel) t = elim (resume t) [
  | ok (more, t') ↦ if more then run fuel t' else ok t'
  | throws e ↦ throws e
  | undefined ↦ undefined
]
