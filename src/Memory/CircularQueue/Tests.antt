-- ===== src/Memory/CircularQueue/Tests.antt =====
-- Runs of the queue, and instances of what is proved of it.
use liblw.Prelude.{ℕ, ◌≡◌, refl, zero, List, [], ◌∷◌, arith, some}
use liblw.Err.{throws, undefined, failed_precondition, resource_exhausted}
use liblw.Memory.CircularQueue.{
  CircularQueue, make, push_back, pop_front, move_construct, move_assign,
}
use liblw.Memory.CircularQueue.Clients.{
  Op, push, pop, done, value, refused, run, run_fifo, run_refines,
}
use liblw.Memory.CircularQueue.Moves.{move_loses}
use liblw.Memory.CircularQueue.Refine.{Represents, make-Represents}

abbrev script : List (Op ℕ)
script = push 1 ∷ push 2 ∷ push 3 ∷ pop ∷ push 4 ∷ pop ∷ pop ∷ pop ∷ []

run_runs :
    run (make 2) script
    ≡ done
      ∷ done
      ∷ refused resource_exhausted
      ∷ value 1
      ∷ done
      ∷ value 2
      ∷ value 4
      ∷ refused failed_precondition
      ∷ []
unfolding run make push_back pop_front
run_runs = refl

run_refines_example : run (make 2) script ≡ run_fifo 2 [] script
unfolding make
run_refines_example = run_refines script (make 2) [] (make-Represents 2)

-- 8, then 9, round the end of the storage
abbrev wrapped : CircularQueue ℕ
wrapped = record {
  size = 2;
  capacity = 3;
  buffer = λ i. elim i [ zero ↦ some 9 | _ ↦ some 8 ];
  head = 1;
  tail = 2;
}

wrapped-Represents : Represents wrapped (8 ∷ 9 ∷ [])
wrapped-Represents = record {
  size_is = refl;
  fits = omega arith;
  tail_in = λ h. omega arith;
  head_is = λ h. refl;
  holds = (refl, (refl, tt));
}

move_loses_example :
    (pop_front (move_construct wrapped).0 ≡ throws failed_precondition)
    × (pop_front (move_construct wrapped).1 ≡ undefined)
    × (pop_front (move_assign (make 5) wrapped).0 ≡ throws failed_precondition)
    × (pop_front (move_assign (make 5) wrapped).1 ≡ undefined)
move_loses_example = move_loses wrapped 8 (9 ∷ []) 5 wrapped-Represents
