-- ===== src/Co/Future/Tests.antt =====
-- Promises and futures of numbers, and instances of what is proved of them.
use liblw.Prelude.{ℕ, zero, suc, ◌≡◌, ◌⊎◌, ◌<◌, ◌≤◌, refl, true, some, List, [], ◌∷◌, arith}
use liblw.Err.{Result, ok, throws, failed_precondition, invalid_argument, resource_exhausted}
use liblw.Co.Future.{
  Future, Promise, World, new_state, make_resolved_future, await_ready, await_suspend, await_resume,
  set_value, set_exception, return_future, follow,
}
use liblw.Co.Future.Delivery.{LeadsTo}
use liblw.Co.Future.Delivery.Once.{await_resume-set_value}
use liblw.Co.Future.Delivery.Forward.{return_future_forwards}
use liblw.Co.Future.Race.{
  Shared, Step, Reach, CalmReach, Calm, finished, start, asleep, register, check, suspend, here,
  next, undisturbed,
}
use liblw.Co.Future.Race.Once.{resumptions, resumed_at_most_once}
use liblw.Co.Future.Race.Lost.{wakeup_lost}
use liblw.Co.Future.Race.Live.{left, resumed_in_the_end}

-- What was scheduled is noted, up to two coroutines.
abbrev note : ℕ → ℕ → List (ℕ × ℕ) → Result (Unit {0}) × List (ℕ × ℕ)
note thread handle [] = (ok tt, (thread, handle) ∷ [])
note thread handle (x ∷ []) = (ok tt, x ∷ (thread, handle) ∷ [])
note thread handle more = (throws resource_exhausted, more)

abbrev same : ℕ → ℕ
same n = n

abbrev Numbers : Type 0
Numbers = World ℕ (List (ℕ × ℕ))

-- Two promises, 0 and 1, none set.
abbrev two : Numbers
two = record { states = new_state ∷ new_state ∷ []; schedulers = [] }

abbrev promise : ℕ → Promise
promise i = record { future_obtained = true; state = some i }

abbrev future : ℕ → Future
future i = record { state = some i }

leads : (i : ℕ) → i < 2 → LeadsTo two.states (some i) i new_state
leads zero lt = record {
  first = 0;
  links = 0;
  first_is = refl;
  ends = (new_state, refl, refl, refl);
  stored = refl;
}
leads (suc zero) lt = record {
  first = 1;
  links = 0;
  first_is = refl;
  ends = (new_state, refl, refl, refl);
  stored = refl;
}
leads (suc (suc i)) lt = absurd (omega arith)

-- Coroutine 7 of thread 5 awaits the future of promise 0, which returns that of promise 1; then
-- promise 1 is set.
abbrev awaited : Numbers
awaited = (await_suspend same note 5 (future 0) 7 two).1

abbrev chained : Numbers
chained = (return_future same note (promise 0) (future 1) awaited).1

abbrev delivered : Numbers
delivered = (set_value same note (promise 1) 42 chained).1

delivered_runs :
    (delivered.schedulers ≡ (5, 7) ∷ [])
    × ((await_ready same note (future 0) delivered).0 ≡ ok true)
    × ((await_resume same note (future 0) delivered).0 ≡ ok 42)
    × ((set_value same note (promise 0) 43 delivered).0 ≡ throws failed_precondition)
unfolding await_suspend await_ready await_resume set_value return_future follow
delivered_runs = (refl, refl, refl, refl)

resolved_runs :
    (await_resume same note (future 2) (make_resolved_future same note 9 two).1).0 ≡ ok 9
unfolding make_resolved_future await_resume follow
resolved_runs = refl

-- The queue is full: the value is set, the coroutine is not scheduled, and nobody can try again.
abbrev crowded : Numbers
crowded =
    (await_suspend same note 5 (future 0) 7 (record two { schedulers = (1, 1) ∷ (2, 2) ∷ [] })).1

crowded_runs :
    ((set_value same note (promise 0) 42 crowded).0 ≡ throws resource_exhausted)
    × ((set_value same note (promise 0) 42 (set_value same note (promise 0) 42 crowded).1).0
        ≡ throws failed_precondition)
unfolding await_suspend set_value follow
crowded_runs = (refl, refl)

await_resume-set_value_example :
    let w = (set_value same note (promise 0) 42 two).1 in
    let w' = (set_exception same note (promise 0) invalid_argument two).1 in
    ((await_resume same note (future 0) w).0 ≡ ok 42)
    × ((await_resume same note (future 0) w').0 ≡ throws invalid_argument)
    × ((set_value same note (promise 0) 43 w).0 ≡ throws failed_precondition)
    × ((set_value same note (promise 0) 43 w').0 ≡ throws failed_precondition)
await_resume-set_value_example =
    await_resume-set_value same note (promise 0) (future 0) two 0 new_state 42 43 invalid_argument
      (leads 0 (omega arith)) (leads 0 (omega arith)) refl refl

return_future_forwards_example :
    (w' : Numbers) × (return_future same note (promise 0) (future 1) two ≡ (ok tt, w'))
    × (set_value same note (promise 1) 42 w' ≡ set_value same note (promise 0) 42 w')
    × (set_exception same note (promise 1) invalid_argument w'
        ≡ set_exception same note (promise 0) invalid_argument w')
    × ((await_resume same note (future 0) (set_value same note (promise 1) 42 w').1).0 ≡ ok 42)
    × ((await_resume same note
          (future 0)
          (set_exception same note (promise 1) invalid_argument w').1).0
        ≡ throws invalid_argument)
return_future_forwards_example =
    return_future_forwards same note (promise 0) (promise 1) (future 1) (future 0) two 0 1 new_state
      new_state (leads 0 (omega arith)) refl refl refl refl refl refl refl refl (λ e. omega arith)
      42 invalid_argument

-- The awaiter first, then the setter.
abbrev slept : Shared ℕ
slept = record (start 7 42) { future_suspended = true; handle = some 7; awaiter = asleep }

slept-CalmReach : CalmReach 7 42 (start 7 42) slept
unfolding start
slept-CalmReach =
    next
      (next (next here (undisturbed (register refl refl) (λ r e. refl)))
        (undisturbed (check refl refl) (λ r e. refl)))
      (undisturbed (suspend refl refl) (λ r e. refl))

slept-Reach : Reach 7 42 (start 7 42) slept
unfolding start
slept-Reach = next (next (next here (register refl refl)) (check refl refl)) (suspend refl refl)

resumed_at_most_once_example :
    (resumptions slept ≤ 1)
    × ((slept.scheduled ≡ 0) ⊎ ((slept.awaiter ≡ asleep) × (slept.value ≡ some 42)))
resumed_at_most_once_example = resumed_at_most_once 7 42 slept-Reach

resumed_in_the_end_example :
    ((left slept ≡ 0) × (resumptions slept ≡ 1) × (slept.value ≡ some 42))
    ⊎ ((u : Shared ℕ) × Calm 7 42 slept u × (left u < left slept))
resumed_in_the_end_example = resumed_in_the_end 7 42 slept-CalmReach

wakeup_lost_example :
    (s : Shared ℕ) × Reach 7 42 (start 7 42) s
    × (s.value ≡ some 42)
    × (s.setter ≡ finished)
    × (s.awaiter ≡ asleep)
    × (s.scheduled ≡ 0)
    × ((u : Shared ℕ) → ¬ Step 7 42 s u)
wakeup_lost_example = wakeup_lost 7 42
