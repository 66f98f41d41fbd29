-- ===== src/Co/Scheduler/Threads.antt =====
-- The schedulers of the threads, `thread_schedulers` of lw/co/scheduler.cpp, and the awaitables of
-- scheduler.h, which use the one of their thread. A scheduler is known by its thread.
mod Registry
use liblw.Prelude.{ℕ, Bool, true, false, Option, none, some, ◌==◌, if◌then◌else◌}
use liblw.Err.{Error, Result, ok, throws, undefined, failed_precondition, not_found}
use liblw.Memory.Store.{Slots, update}
use liblw.Co.Event.{join, readable, writable, one_shot}
use liblw.Co.Scheduler.{Call, schedule, schedule_on}

-- `new_scheduler` is what the initialisers of `Scheduler()` make.
module _ {S : Type 0} (new_scheduler : S) where
  -- `Scheduler()`, on the thread
  unfoldable pub construct : ℕ → Slots S → Result S
  construct thread schedulers = elim (schedulers thread) [
    | some _ ↦ throws failed_precondition
    | none ↦ ok new_scheduler
  ]

  unfoldable pub insert_new : ℕ → Slots S → Result S → Result (S × Slots S)
  insert_new thread schedulers (ok s) = ok (s, update schedulers thread s)
  insert_new thread schedulers (throws e) = throws e
  insert_new thread schedulers undefined = undefined

  -- `Scheduler::this_thread()`
  unfoldable pub this_thread : ℕ → Slots S → Result (S × Slots S)
  unfolding construct insert_new
  this_thread thread schedulers = elim (schedulers thread) [
    | some s ↦ ok (s, schedulers)
    | none ↦ insert_new thread schedulers (construct thread schedulers)
  ]

  -- `Scheduler::for_thread(thread_id)`
  unfoldable pub for_thread : ℕ → Slots S → Result S
  for_thread thread schedulers = elim (schedulers thread) [
    | some s ↦ ok s
    | none ↦ throws not_found
  ]

  -- the test at the beginning of `run`, where `owner` is the thread of the scheduler
  unfoldable pub check_thread : ℕ → ℕ → Slots S → Result (Unit {0})
  check_thread thread owner schedulers = elim (schedulers thread) [
    | none ↦ throws failed_precondition
    | some _ ↦ if thread == owner then ok tt else throws failed_precondition
  ]

-- `NextTickAwaitable::await_suspend(coro)`
unfoldable pub next_tick_suspend : ℕ → Call
next_tick_suspend coro = schedule coro

-- `EventsAwaitable`
pub record EventsAwaitable : Type 0 where
  pub handle : ℕ
  pub events : ℕ

-- `EventsAwaitable::await_suspend(coro)`
unfoldable pub events_suspend : EventsAwaitable → ℕ → Call
events_suspend a coro = schedule_on coro a.handle a.events

unfoldable pub fd_readable : ℕ → EventsAwaitable
unfolding join
fd_readable fd = record { handle = fd; events = join readable one_shot }

unfoldable pub fd_writable : ℕ → EventsAwaitable
unfolding join
fd_writable fd = record { handle = fd; events = join writable one_shot }
