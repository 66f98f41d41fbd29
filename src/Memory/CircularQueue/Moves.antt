-- ===== src/Memory/CircularQueue/Moves.antt =====
-- The move constructor and the move assignment against what a move promises.
use liblw.Prelude.{ℕ, ◌≡◌, List, ◌∷◌, arith}
use liblw.Err.{throws, undefined, failed_precondition}
use liblw.Memory.CircularQueue.{CircularQueue, make, pop_front, move_construct, move_assign}
use liblw.Memory.CircularQueue.Refine.{Represents}

-- A queue that stores a value is moved, by construction or into a new queue of any capacity. The
-- target says that it is empty, so the values are lost, and to pop from the source divides by
-- its capacity of zero.
pub move_loses :
    {A : Type 0} (q : CircularQueue A) (x : A) (xs : List A) (capacity : ℕ)
    → Represents q (x ∷ xs)
    → (pop_front (move_construct q).0 ≡ throws failed_precondition)
      × (pop_front (move_construct q).1 ≡ undefined)
      × (pop_front (move_assign (make capacity) q).0 ≡ throws failed_precondition)
      × (pop_front (move_assign (make capacity) q).1 ≡ undefined)
unfolding pop_front move_construct move_assign make
move_loses q x xs capacity v = (ground arith, ground arith, ground arith, ground arith)
