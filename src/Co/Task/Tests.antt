-- ===== src/Co/Task/Tests.antt =====
-- A task that is run, and an instance of what is proved of it.
use liblw.Prelude.{◌≡◌, refl, true, some, arith}
use liblw.Err.{ok, throws, failed_precondition, invalid_argument}
use liblw.Co.Task.{Callback, Task, returns, raises, make, then_call, run, get, destroy}
use liblw.Co.Task.Ends.{left, calls, got, destroyed, run_completes}

run_runs :
    run 5 (make 2 (raises invalid_argument))
    ≡ ok (record (make 2 (raises invalid_argument)) {
      suspends = 0;
      is_done = true;
      error = some invalid_argument;
    })
unfolding run make
run_runs = refl

-- a callback that throws
abbrev failing : Callback
failing = record { name = 7; fails_with = some invalid_argument }

run_completes_example :
    (get (then_call failing (make 2 returns)) ≡ throws failed_precondition)
    × ((t : Task) × (run 5 (then_call failing (make 2 returns)) ≡ ok t)
        × (t.is_done ≡ true)
        × (get t ≡ got (left returns failing))
        × (destroy t ≡ destroyed (left returns failing))
        × (t.called ≡ calls returns failing))
run_completes_example = run_completes 2 failing 5 returns (omega arith)
