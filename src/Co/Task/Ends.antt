-- ===== src/Co/Task/Ends.antt =====
-- A task that is resumed until it is done.
use liblw.Prelude.{
  ℕ, zero, suc, ◌<◌, ◌≡◌, refl, true, false, Option, none, some, List, [], ◌∷◌, arith,
}
use liblw.Err.{Error, Result, ok, throws, failed_precondition}
use liblw.Co.Task.{
  End, returns, raises, Callback, Task, Destroyed, gone, terminated, make, then_call, end_task,
  go_on, resume, valid, get, destroy, run,
}

end_task-is_done : (end : End) (t : Task) → (end_task end t).is_done ≡ true
unfolding end_task
end_task-is_done returns t = refl
end_task-is_done (raises e) t = refl

-- a task that is not done is resumed once more than it suspends itself
run_lem :
    (n fuel : ℕ) (t : Task)
    → t.is_done ≡ false
    → n < fuel
    → run fuel (record t { suspends = n }) ≡ ok (end_task t.end (record t { suspends = 0 }))
unfolding run resume go_on
run_lem n zero t open_ lt = absurd (omega arith)
run_lem zero (suc fuel) t open_ lt =
    let ended = end_task-is_done t.end (record t { suspends = 0 }) in ground (arith, open_, ended)
run_lem (suc n) (suc fuel) t open_ lt = ground (arith, open_, run_lem n fuel t open_ (omega arith))

-- the exception that is left in the state when it has ended so, and the callbacks that are called
abbrev pub left : End → Callback → Option Error
left returns callback = callback.fails_with
left (raises e) callback = some e

abbrev pub calls : End → Callback → List ℕ
calls returns callback = callback.name ∷ []
calls (raises e) callback = []

-- what `get` and the destructor then do
abbrev pub got : Option Error → Result (Unit {0})
got none = ok tt
got (some e) = throws e

abbrev pub destroyed : Option Error → Destroyed
destroyed none = gone
destroyed (some e) = terminated

returned-outcome :
    (name : ℕ) (f : Option Error)
    → let callback : Callback = record { name = name; fails_with = f } in
      let t = end_task returns (then_call callback (make 0 returns)) in
      (get t ≡ got f) × (destroy t ≡ destroyed f) × (t.called ≡ name ∷ [])
unfolding then_call make get valid destroy end_task
returned-outcome name none = (refl, refl, refl)
returned-outcome name (some e) = (refl, refl, refl)

end_task-outcome :
    (end : End) (callback : Callback)
    → let t = end_task end (then_call callback (make 0 end)) in
      (get t ≡ got (left end callback))
      × (destroy t ≡ destroyed (left end callback))
      × (t.called ≡ calls end callback)
unfolding then_call make get valid destroy end_task
end_task-outcome returns callback = returned-outcome callback.name callback.fails_with
end_task-outcome (raises e) callback = (refl, refl, refl)

-- Let a task with a callback suspend itself that many times and then end. If it is resumed until it
-- is done, it comes to its end, given more rounds than it suspends itself. If it returns, its callback has been called once; if an exception leaves it,
-- the callback is not called. Where neither the coroutine nor the callback throws, `get` and the
-- destructor return; otherwise `get` throws that exception, and the destructor ends the program
-- with `std::terminate()`. Before the task has been resumed, `get` throws.
pub run_completes :
    (suspends : ℕ) (callback : Callback) (fuel : ℕ) (end : End)
    → suspends < fuel
    → let new = then_call callback (make suspends end) in
      (get new ≡ throws failed_precondition)
      × ((t : Task) × (run fuel new ≡ ok t)
          × (t.is_done ≡ true)
          × (get t ≡ got (left end callback))
          × (destroy t ≡ destroyed (left end callback))
          × (t.called ≡ calls end callback))
unfolding then_call make get valid
run_completes suspends callback fuel end lt =
    let new = then_call callback (make suspends end) in
    let done = end_task-is_done end (then_call callback (make 0 end)) in
    let (given, ended, called) = end_task-outcome end callback in
    (refl, (_, run_lem suspends fuel new refl lt, done, given, ended, called))
