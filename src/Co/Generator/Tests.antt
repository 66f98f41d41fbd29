-- ===== src/Co/Generator/Tests.antt =====
-- Loops over generators, and instances of what is proved of them.
use liblw.Prelude.{Bool, ℕ, ◌+◌, ◌≡◌, refl, true, false, none, some, List, [], ◌∷◌, arith}
use liblw.Err.{Result, ok, throws, failed_precondition, invalid_argument}
use liblw.Co.Future.{Future, World, await_ready, await_suspend, await_resume, follow}
use liblw.Co.Generator.Async.{
  Shared, make_async, ask_next, yield_value, async_return_void, async_unhandled_exception,
  async_value,
}
use liblw.Co.Generator.Async.Asked.{await_resume-ask_next}
use liblw.Co.Generator.{
  Step, yields, returns, raises, gives, undefined, terminates, out_of_fuel, make, next, visit_all,
  unstarted, range_step,
}
use liblw.Co.Generator.Visits.{Yields, finishes, ended, visit_all-make}

-- a coroutine that yields the elements of a list
abbrev each : List ℕ → Step (List ℕ) ℕ
each [] = returns
each (a ∷ rest) = yields a rest

-- one that yields for ever, and one that throws behind its first value
abbrev count_on : ℕ → Step ℕ ℕ
count_on n = yields n (n + 1)

abbrev throw_later : Bool → Step Bool Bool
throw_later true = yields true false
throw_later false = raises

visit_all_runs :
    (visit_all each 9 (make (1 ∷ 2 ∷ 3 ∷ [])) ≡ gives (1 ∷ 2 ∷ 3 ∷ []))
    × (visit_all (range_step 2 5) 9 (make unstarted) ≡ gives (2 ∷ 3 ∷ 4 ∷ []))
    × (visit_all (range_step 5 2) 9 (make unstarted) ≡ gives (5 ∷ 4 ∷ 3 ∷ []))
    × (visit_all (range_step 4 4) 9 (make unstarted) ≡ gives [])
    × (visit_all count_on 9 (make 0) ≡ out_of_fuel)
    × (visit_all throw_later 9 (make true) ≡ terminates)
    × (next each (record { place = []; is_done = true; current_value = some 4 }) ≡ undefined)
unfolding visit_all make range_step next
visit_all_runs = (refl, refl, refl, refl, refl, refl, refl)

each-Yields : Yields each (1 ∷ 2 ∷ []) (1 ∷ 2 ∷ []) finishes
unfolding Yields
each-Yields = (2 ∷ [], refl, ([], refl, refl))

visit_all-make_example :
    (visit_all each 9 (make (1 ∷ 2 ∷ [])) ≡ ended finishes (1 ∷ 2 ∷ []))
    × (visit_all each 9 (record { place = 1 ∷ 2 ∷ []; is_done = false; current_value = some 7 })
        ≡ ended finishes (7 ∷ 1 ∷ 2 ∷ []))
visit_all-make_example =
    visit_all-make each (1 ∷ 2 ∷ []) finishes (1 ∷ 2 ∷ []) 7 9 each-Yields (omega arith)

-- nothing is scheduled
abbrev ignore : ℕ → ℕ → Unit {0} → Result (Unit {0}) × Unit {0}
ignore thread handle s = (ok tt, s)

abbrev same : Bool → Bool
same b = b

abbrev no_world : World Bool (Unit {0})
no_world = record { states = []; schedulers = tt }

abbrev asked_first : Shared ℕ
asked_first = record {
  done = false;
  next_promise = record { future_obtained = false; state = some 0 };
  current_value = none;
}

abbrev started : World Bool (Unit {0})
started = (make_async {A = ℕ} same ignore no_world).1

-- The coroutine yields before it is asked: the future that `next` gives then is not ready.
abbrev yielded_early : World Bool (Unit {0})
yielded_early = ((yield_value same ignore 5 asked_first).1 started).1

early_runs :
    ((ask_next same ignore asked_first yielded_early).0
      ≡ ok (
        record { state = some 1 },
        record asked_first { next_promise = record { future_obtained = true; state = some 1 } },
      ))
    × ((await_ready same ignore
          (record { state = some 1 })
          (ask_next same ignore asked_first yielded_early).1).0
        ≡ ok false)
unfolding make_async yield_value ask_next await_ready follow
early_runs = (refl, refl)

await_resume-ask_next_example :
    (f : Future) × (g' : Shared ℕ) × (w' : World Bool (Unit {0})) × (w'' : World Bool (Unit {0}))
    × (ask_next same ignore asked_first started ≡ (ok (f, g'), w'))
    × (await_suspend same ignore 3 f 8 w' ≡ (ok true, w''))
    × ((await_resume same ignore f ((yield_value same ignore 5 g').1 w'').1).0 ≡ ok true)
    × ((await_resume same ignore f ((async_return_void same ignore g').1 w'').1).0 ≡ ok false)
    × (async_value same ignore (yield_value same ignore 5 g').0 ≡ ok 5)
    × ((await_resume same ignore f
          (async_unhandled_exception same ignore invalid_argument g' w'').1).0
        ≡ throws invalid_argument)
    × (((yield_value same ignore 5 g').1 ((yield_value same ignore 5 g').1 w'').1).0
        ≡ throws failed_precondition)
    × ((h : Future) × (v' : World Bool (Unit {0})) × (ask_next same ignore
            (async_return_void same ignore g').0
            started
          ≡ (ok (h, (async_return_void same ignore g').0), v'))
        × ((await_ready same ignore h v').0 ≡ ok true)
        × ((await_resume same ignore h v').0 ≡ ok false))
await_resume-ask_next_example =
    await_resume-ask_next same ignore asked_first started started 3 8 5 invalid_argument refl
