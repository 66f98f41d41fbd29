-- ===== src/Co/Scheduler/Tests.antt =====
-- A kernel with one eventfd, a run of the loop on it, and instances of what is proved of it.
use liblw.Prelude.{
  ℕ, zero, suc, ◌≡◌, ◌⊎◌, ◌<◌, refl, Bool, true, false, List, [], ◌∷◌, ◌++◌, arith, ◌==◌,
}
use liblw.Err.{ok, throws, resource_exhausted, internal}
use liblw.Memory.CircularQueue.Refine.{Represents}
use liblw.Co.Event.{join, meets}
use liblw.Co.Epoll.{Os, Sys, returned, failed}
use liblw.Co.Epoll.Reserved.{Reliable}
use liblw.Co.Scheduler.{
  Scheduler, schedule, stop, Body, finish, escape, call, make_scheduler, do_call, fire, wait,
  keeps_polling, run,
}
use liblw.Co.Scheduler.Notify.{IsNotified}
use liblw.Co.Scheduler.Ready.{IsPolite}
use liblw.Co.Scheduler.Rounds.Ended.{run_ends}
use liblw.Co.Scheduler.Rounds.Reachable.{Reach, here, after, asked, queue_resumed}

-- The kernel is the counter of the one eventfd, which is 3.
abbrev read_counter : ℕ → Sys (Unit {0}) × ℕ
read_counter zero = (failed 11, 0)
read_counter (suc k) = (returned tt, 0)

abbrev ready_fds : ℕ → Sys (List ℕ) × ℕ
ready_fds zero = (returned [], 0)
ready_fds (suc k) = (returned (3 ∷ []), suc k)

abbrev one_eventfd : Os ℕ
one_eventfd = record {
  eventfd = λ k. (returned 3, k);
  read_eventfd = λ fd k. read_counter k;
  write_eventfd = λ fd k. (returned tt, suc k);
  epoll_ctl_add = λ fd events k. (returned tt, k);
  epoll_ctl_del = λ fd k. (returned tt, k);
  epoll_wait = λ n k. ready_fds k;
}

abbrev is_three : ℕ → Bool
is_three fd = fd == 3

abbrev the_counter : ℕ → ℕ → ℕ
the_counter k fd = k

read_counter-ok : (k : ℕ) → 0 < k → (k' : ℕ) × (read_counter k ≡ (returned tt, k'))
read_counter-ok zero lt = absurd (omega arith)
read_counter-ok (suc k) lt = (0, refl)

ready_fds-counter : (k : ℕ) → (ready_fds k).1 ≡ k
ready_fds-counter zero = refl
ready_fds-counter (suc k) = refl

one_eventfd-Reliable : Reliable one_eventfd is_three the_counter
one_eventfd-Reliable = record {
  eventfd_ok = λ k. (3, k, refl, refl, λ e. omega arith);
  write_ok = λ k fd own. (suc k, refl, omega arith);
  read_ok = λ k fd own lt. read_counter-ok k lt;
  add_ok = λ k fd events own. (k, refl);
  del_ok = λ k fd own. (k, refl);
  add_counter = λ k fd events i. refl;
  del_counter = λ k fd i. refl;
  wait_counter = λ k n i. ready_fds-counter k;
}

-- Coroutine 0 schedules coroutine 1 and itself once more; coroutine 1 stops the loop.
abbrev coroutines : ℕ → List ℕ → Body
coroutines zero [] = call (schedule 1) (λ o. call (schedule 0) (λ o. finish))
coroutines (suc zero) log = call stop (λ o. finish)
coroutines _ _ = finish

coroutines-IsPolite : (i : ℕ) (log : List ℕ) → IsPolite is_three (coroutines i log)
coroutines-IsPolite zero [] = (tt, λ o. (tt, λ o'. tt))
coroutines-IsPolite zero (x ∷ log) = tt
coroutines-IsPolite (suc zero) log = (tt, λ o. tt)
coroutines-IsPolite (suc (suc i)) log = tt

abbrev fresh : Scheduler ℕ
fresh = make_scheduler one_eventfd 4 32 coroutines 0

abbrev begun : Scheduler ℕ
begun = (do_call one_eventfd 4 32 coroutines (schedule 0) fresh).1

run_runs :
    ((run one_eventfd 4 32 coroutines 5 begun).1.resumed ≡ 0 ∷ 1 ∷ 0 ∷ [])
    × ((run one_eventfd 4 32 coroutines 5 begun).0 ≡ ok true)
unfolding run make_scheduler do_call wait keeps_polling meets join
run_runs = (refl, refl)

-- A coroutine from which an exception escapes takes the others of the queue with it, to a queue that
-- nothing announces.
abbrev throwing : ℕ → List ℕ → Body
throwing zero log = escape resource_exhausted
throwing _ log = finish

abbrev two_queued : Scheduler ℕ
two_queued =
    (do_call one_eventfd 4 32 throwing (schedule 1)
      (do_call one_eventfd 4 32 throwing (schedule 0)
        (make_scheduler one_eventfd 4 32 throwing 0)).1).1

escape_runs :
    ((run one_eventfd 4 32 throwing 5 two_queued).0 ≡ throws internal)
    × ((run one_eventfd 4 32 throwing 5 two_queued).1.coro_queue.size ≡ 1)
    × ((run one_eventfd 4 32 throwing 5 two_queued).1.epoll.callbacks ≡ [])
unfolding run make_scheduler do_call wait keeps_polling meets join
escape_runs = (refl, refl, refl)

-- `stop` before `run` is lost.
stop_runs :
    (run one_eventfd 4 32 coroutines 5 (do_call one_eventfd 4 32 coroutines stop begun).1).1.resumed
    ≡ 0 ∷ 1 ∷ 0 ∷ []
unfolding run make_scheduler do_call wait keeps_polling meets join
stop_runs = refl

begun-Reach : Reach one_eventfd 4 32 coroutines is_three fresh begun
begun-Reach = after here (asked (schedule 0) tt refl)

queue_resumed_example :
    (xs : List ℕ) × Represents begun.coro_queue xs
    × ((xs ≡ [])
        ⊎ ((u : Scheduler ℕ) × (ys : List ℕ) × (fire one_eventfd 4 32 coroutines
                begun.queue_notification_fd begun
              ≡ (ok tt, u))
            × (u.resumed ≡ begun.resumed ++ xs)
            × Represents u.coro_queue ys
            × ((ys ≡ []) ⊎ IsNotified is_three the_counter u)))
queue_resumed_example =
    queue_resumed one_eventfd 4 32 coroutines is_three the_counter one_eventfd-Reliable
      coroutines-IsPolite 0 begun-Reach

abbrev ended : Scheduler ℕ
ended = (run one_eventfd 4 32 coroutines 5 begun).1

run_ends_example : (ended.continue_polling ≡ false) ⊎ Represents ended.coro_queue []
unfolding run make_scheduler do_call wait keeps_polling meets join
run_ends_example =
    run_ends one_eventfd 4 32 coroutines is_three the_counter one_eventfd-Reliable
      coroutines-IsPolite 0 begun-Reach 5 {t = ended} refl
