-- ===== src/Memory/CircularQueue/Clients.antt =====
-- Whole sequences of calls on a queue, and what each of them returns.
use liblw.Prelude.{
  ℕ, ◌≡◌, refl, List, [], ◌∷◌, ◌++◌, arith, length, ltb, Bool-cases, false, inl, inr, if◌then◌else◌,
}
use liblw.Err.{Error, ok, throws, undefined, failed_precondition, resource_exhausted}
use liblw.Memory.CircularQueue.{CircularQueue, push_back, pop_front}
use liblw.Memory.CircularQueue.Refine.{
  Represents, pop_front-Pops, push_back-Represents, push_back-full,
}

pub data Op {ℓ} (A : Type ℓ) : Type ℓ where
  push : A → Op A
  pop : Op A

pub data Reply {ℓ} (A : Type ℓ) : Type ℓ where
  done : Reply A
  value : A → Reply A
  refused : Error → Reply A
  crashed : Reply A

module _ {ℓ} {A : Type ℓ} where
  -- The calls in order. A call that throws leaves the queue as it was.
  unfoldable pub run : CircularQueue A → List (Op A) → List (Reply A)
  run q [] = []
  run q (push a ∷ ops) = elim (push_back q a) [
    | ok q' ↦ done ∷ run q' ops
    | throws e ↦ refused e ∷ run q ops
    | undefined ↦ crashed ∷ []
  ]
  run q (pop ∷ ops) = elim (pop_front q) [
    | ok (a, q') ↦ value a ∷ run q' ops
    | throws e ↦ refused e ∷ run q ops
    | undefined ↦ crashed ∷ []
  ]

  -- The same calls on a list, oldest first, that holds at most `capacity` values.
  unfoldable pub run_fifo : ℕ → List A → List (Op A) → List (Reply A)
  run_fifo capacity xs [] = []
  run_fifo capacity xs (push a ∷ ops) =
      let more = done ∷ run_fifo capacity (xs ++ (a ∷ [])) ops in
      let same = refused resource_exhausted ∷ run_fifo capacity xs ops in
      if ltb (length xs) capacity then more else same
  run_fifo capacity [] (pop ∷ ops) = refused failed_precondition ∷ run_fifo capacity [] ops
  run_fifo capacity (x ∷ xs) (pop ∷ ops) = value x ∷ run_fifo capacity xs ops

  full_of :
      (q : CircularQueue A) (xs : List A)
      → Represents q xs
      → ltb (length xs) q.capacity ≡ false
      → q.size ≡ q.capacity
  full_of q xs v h = ground arith

  -- If the storage that `reserve` sets aside can be used as slots, although the vector's own size
  -- is 0, no sequence of calls tells a queue from the bounded first-in first-out list of its
  -- values: the same values and errors come back in the same order.
  pub run_refines :
      (ops : List (Op A)) (q : CircularQueue A) (xs : List A)
      → Represents q xs
      → run q ops ≡ run_fifo q.capacity xs ops
  unfolding run run_fifo
  run_refines [] q xs v = refl
  run_refines (push a ∷ ops) q xs v = elim (Bool-cases (ltb (length xs) q.capacity)) [
    | inl room ↦
        let (q', e, c, v') = push_back-Represents q xs a v (ground arith) in
        ground (arith, e, c, run_refines ops q' (xs ++ (a ∷ [])) v')
    | inr no_room ↦
        ground (arith, push_back-full q a (full_of q xs v no_room), run_refines ops q xs v)
  ]
  run_refines (pop ∷ ops) q [] v = ground (arith, pop_front-Pops q [] v, run_refines ops q [] v)
  run_refines (pop ∷ ops) q (x ∷ xs) v =
      let (q', e, c, v') = pop_front-Pops q (x ∷ xs) v in
      ground (arith, e, c, run_refines ops q' xs v')
