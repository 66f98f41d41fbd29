-- ===== src/Co/Scheduler.antt =====
-- lw/co/scheduler.h and scheduler.cpp, with `_wait` of lw/co/systems/epoll.cpp, which runs their
-- callbacks: the event loop of one thread. A coroutine is a number, and what it does when it is
-- resumed is a parameter; `resumed` notes which coroutines were, in order.
pub mod Notify
pub mod Ready
pub mod Work
pub mod Drain
pub mod Rounds
pub mod Threads
mod Tests
use liblw.Prelude.{
  ℕ, zero, suc, Bool, true, false, ◌&&◌, Option, none, some, List, [], ◌∷◌, ◌++◌, length, ltb, ◌==◌,
  if◌then◌else◌,
}
use liblw.Err.{Error, Result, ok, throws, undefined, already_exists, internal}
use liblw.Err.Action.{Action, pure, lift, modify, next, ◌>>=◌, ◌>>◌}
use liblw.Memory.CircularQueue as Queue
use liblw.Memory.CircularQueue.{CircularQueue, push_back, pop_front, make}
use liblw.Co.Event.{join, readable, one_shot}
use liblw.Co.Epoll.{Os, Sys, Epoll, checked, find, sys, add, remove, has_pending_items}

-- The closures that the scheduler hands to the epoll loop: `[coro]() { coro.resume(); }`, and the
-- one that empties the queue.
pub data Callback : Type 0 where
  resume_coro : ℕ → Callback
  drain_queue : Callback

pub record Scheduler (K : Type 0) : Type 0 where
  pub continue_polling : Bool
  pub epoll : Epoll Callback K
  pub coro_queue : CircularQueue ℕ
  pub queue_notification_fd : ℕ
  pub resumed : List ℕ

-- What a coroutine asks of its scheduler: `schedule(coro)`, also for a task and `next_tick`,
-- `schedule(coro, handle, events)` and `stop()`.
pub data Call : Type 0 where
  schedule : ℕ → Call
  schedule_on : ℕ → ℕ → ℕ → Call
  stop : Call

-- A coroutine until it suspends itself or ends, `finish`, or an exception leaves `resume()`. It
-- learns of each call whether it threw.
pub data Body : Type 0 where
  finish : Body
  escape : Error → Body
  call : Call → (Option Error → Body) → Body

-- `queue_size` and `buffer_size` are the flags `lw_scheduler_queue_size` and
-- `lw_epoll_event_buffer_size`, `code` the coroutines, which may depend on all that ran before.
module _ {K : Type 0} (os : Os K) (queue_size buffer_size : ℕ) (code : ℕ → List ℕ → Body) where
  abbrev Method : Type 0 → Type 0
  Method A = Action (Scheduler K) A

  -- `Scheduler()`
  unfoldable pub make_scheduler : K → Scheduler K
  unfolding make
  make_scheduler kernel = record {
    continue_polling = true;
    epoll = record { callbacks = []; kernel = kernel };
    coro_queue = make queue_size;
    queue_notification_fd = 0;
    resumed = [];
  }

  -- a method of `_epoll`
  unfoldable pub on_epoll : {A : Type 0} → Action (Epoll Callback K) A → Method A
  on_epoll m s = let (r, epoll) = m s.epoll in (r, record s { epoll = epoll })

  -- `Scheduler::_schedule(handle, events, func)`
  unfoldable pub schedule_callback : ℕ → ℕ → Callback → Method (Unit {0})
  unfolding on_epoll add
  schedule_callback handle events func = on_epoll (add os handle events func)

  unfoldable pub create_eventfd : Method (Unit {0})
  unfolding on_epoll sys
  create_eventfd = do
    fd ← on_epoll (sys os os.eventfd)
    if fd == 0
        then lift (throws internal)
        else modify (λ s. record s { queue_notification_fd = fd })

  -- `catch (const AlreadyExists&)`
  unfoldable pub ignore_already_exists :
      Result (Unit {0}) × Scheduler K → Result (Unit {0}) × Scheduler K
  ignore_already_exists (throws already_exists, s) = (ok tt, s)
  ignore_already_exists other = other

  -- `Scheduler::_schedule_queue_drain()`
  unfoldable pub schedule_queue_drain : Method (Unit {0})
  unfolding create_eventfd schedule_callback ignore_already_exists on_epoll sys
  schedule_queue_drain = do
    (λ s. (if s.queue_notification_fd == 0 then create_eventfd else pure tt) s)
    (λ s.
        ignore_already_exists
          (schedule_callback s.queue_notification_fd (join readable one_shot) drain_queue s))
    (λ s. on_epoll (sys os (os.write_eventfd s.queue_notification_fd)) s)

  -- `Scheduler::_add_to_queue(coro)`
  unfoldable pub add_to_queue : ℕ → Method (Unit {0})
  unfolding push_back schedule_queue_drain
  add_to_queue coro = do
    (λ s. elim (push_back s.coro_queue coro) [
      | ok queue ↦ (ok tt, record s { coro_queue = queue })
      | throws e ↦ (throws e, s)
      | undefined ↦ (undefined, s)
    ])
    schedule_queue_drain

  -- `Scheduler::stop()`
  unfoldable pub do_stop : Method (Unit {0})
  unfolding schedule_queue_drain
  do_stop = modify (λ s. record s { continue_polling = false }) >> schedule_queue_drain

  unfoldable pub do_call : Call → Method (Unit {0})
  unfolding add_to_queue schedule_callback do_stop
  do_call (schedule coro) = add_to_queue coro
  do_call (schedule_on coro handle events) = schedule_callback handle events (resume_coro coro)
  do_call stop = do_stop

  unfoldable pub run_body : Body → Method (Unit {0})
  unfolding do_call
  run_body finish s = (ok tt, s)
  run_body (escape e) s = (throws e, s)
  run_body (call c k) s =
      let (r, s') = do_call c s in
      elim r [
        | ok _ ↦ run_body (k none) s'
        | throws e ↦ run_body (k (some e)) s'
        | undefined ↦ (undefined, s')
      ]

  -- `coro.resume()`
  unfoldable pub resume : ℕ → Method (Unit {0})
  unfolding run_body
  resume coro s = run_body (code coro s.resumed) (record s { resumed = s.resumed ++ (coro ∷ []) })

  unfoldable pub pop_coro : Method ℕ
  unfolding pop_front
  pop_coro s = elim (pop_front s.coro_queue) [
    | ok (coro, queue) ↦ (ok coro, record s { coro_queue = queue })
    | throws e ↦ (throws e, s)
    | undefined ↦ (undefined, s)
  ]

  -- `for (i = 0; i < limit && !_coro_queue.empty(); ++i) _coro_queue.pop_front().resume()`
  unfoldable pub resume_all : ℕ → Method (Unit {0})
  unfolding pop_coro resume
  resume_all zero s = (ok tt, s)
  resume_all (suc limit) s =
      (if Queue.empty s.coro_queue
          then pure tt
          else do coro ← pop_coro; resume coro; resume_all limit)
        s

  -- The callback of `_schedule_queue_drain`: `clear_eventfd`, then the coroutines that are in the
  -- queue at that time.
  unfoldable pub drain : Method (Unit {0})
  unfolding on_epoll sys resume_all
  drain = do
    (λ s. on_epoll (sys os (os.read_eventfd s.queue_notification_fd)) s)
    (λ s. resume_all s.coro_queue.size s)

  unfoldable pub run_callback : Callback → Method (Unit {0})
  unfolding resume drain
  run_callback (resume_coro coro) = resume coro
  run_callback drain_queue = drain

  -- whatever leaves a callback is thrown as `Internal`
  unfoldable pub as_internal : Result (Unit {0}) × Scheduler K → Result (Unit {0}) × Scheduler K
  as_internal (throws e, s) = (throws internal, s)
  as_internal other = other

  unfoldable pub run_registered : ℕ → Callback × Bool → Method (Unit {0})
  unfolding on_epoll remove run_callback
  run_registered fd (callback, true) = on_epoll (remove os fd) >> run_callback callback
  run_registered fd (callback, false) = run_callback callback

  -- one round of the loop of `EPoll::_wait`
  unfoldable pub fire : ℕ → Method (Unit {0})
  unfolding find run_registered as_internal
  fire fd s = elim (find fd s.epoll.callbacks) [
    | none ↦ (throws internal, s)
    | some registered ↦ as_internal (run_registered fd registered s)
  ]

  unfoldable pub fire_all : List ℕ → Method (Unit {0})
  unfolding fire
  fire_all [] = pure tt
  fire_all (fd ∷ fds) = fire fd >> fire_all fds

  unfoldable pub check_count : List ℕ → Method (Unit {0})
  check_count events = if ltb buffer_size (length events) then lift (throws internal) else pure tt

  -- what `_wait` does with the events that are available
  unfoldable pub handle_events : List ℕ → Method ℕ
  unfolding check_count fire_all
  handle_events events = do check_count events; fire_all events; pure (length events)

  -- `EPoll::_wait`, with the events that `epoll_wait` reports
  unfoldable pub wait : Method ℕ
  unfolding on_epoll sys handle_events
  wait = on_epoll (sys os (os.epoll_wait buffer_size)) >>= handle_events

  -- `_continue_polling && _epoll->has_pending_items()`
  unfoldable pub keeps_polling : Scheduler K → Bool
  unfolding has_pending_items
  keeps_polling s = s.continue_polling && has_pending_items s.epoll

  -- The loop of `run`, at most `rounds` times round; true if it has ended by then.
  unfoldable pub run_rounds : ℕ → Method Bool
  unfolding keeps_polling wait
  run_rounds zero s = (ok false, s)
  run_rounds (suc rounds) s =
      (if keeps_polling s then wait >>= (λ n. run_rounds rounds) else pure true) s

  -- `Scheduler::run()`, called on the thread that the scheduler belongs to
  unfoldable pub run : ℕ → Method Bool
  unfolding run_rounds
  run rounds = modify (λ s. record s { continue_polling = true }) >> run_rounds rounds
