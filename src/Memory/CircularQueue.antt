-- ===== src/Memory/CircularQueue.antt =====
-- lw/memory/circular_queue.h. `_buffer` is its reserved storage: the constructor calls `reserve`,
-- so the vector's own size stays 0 and every `_buffer[i]` reaches into that storage. The standard
-- leaves such an index undefined; the model takes it, as libstdc++ and libc++ do without their
-- checks, as the slot of the storage. A slot that was never written holds nothing, and to move out
-- of one is undefined.
pub mod Refine
pub mod Clients
pub mod Moves
mod Tests
use liblw.Prelude.{ℕ, ◌+◌, ◌-◌, ◌%◌, Bool, true, false, Option, none, some, ◌==◌, if◌then◌else◌}
use liblw.Err.{Result, ok, throws, undefined, failed_precondition, resource_exhausted, ◌>>=◌}
use liblw.Memory.Store.{Slots, update}

pub record CircularQueue {ℓ} (A : Type ℓ) : Type ℓ where
  pub size : ℕ
  pub capacity : ℕ
  pub buffer : Slots A
  pub head : ℕ
  pub tail : ℕ

module _ {ℓ} {A : Type ℓ} where
  -- `CircularQueue(capacity)`
  unfoldable pub make : ℕ → CircularQueue A
  make capacity = record { size = 0; capacity = capacity; buffer = λ _. none; head = 0; tail = 0 }

  abbrev pub empty : CircularQueue A → Bool
  empty q = q.size == 0

  abbrev pub full : CircularQueue A → Bool
  full q = q.size == q.capacity

  -- `(idx + 1) % _capacity`, which divides by zero if there is no capacity
  unfoldable pub next_index : CircularQueue A → ℕ → Result ℕ
  next_index q idx = if q.capacity == 0 then undefined else ok ((idx + 1) % q.capacity)

  -- `std::move(_buffer[i])`
  take_slot : Option A → CircularQueue A → Result (A × CircularQueue A)
  take_slot none q = undefined
  take_slot (some a) q = ok (a, q)

  -- `_buffer[_tail]` is the slot of the reserved storage.
  unfoldable pub pop_front : CircularQueue A → Result (A × CircularQueue A)
  unfolding next_index take_slot
  pop_front q = if empty q then throws failed_precondition else do
    next ← next_index q q.tail
    take_slot (q.buffer q.tail) (record q { tail = next; size = q.size - 1 })

  -- `_buffer[_head]` is the slot of the reserved storage.
  unfoldable pub try_push_back : CircularQueue A → A → Result (Bool × CircularQueue A)
  unfolding next_index
  try_push_back q value = if full q then ok (false, q) else do
    next ← next_index q q.head
    ok (true, record q { head = next; buffer = update q.buffer q.head value; size = q.size + 1 })

  -- the result of `push_back` from that of `try_push_back`
  pushed : Bool × CircularQueue A → Result (CircularQueue A)
  pushed (true, q) = ok q
  pushed (false, q) = throws resource_exhausted

  unfoldable pub push_back : CircularQueue A → A → Result (CircularQueue A)
  unfolding try_push_back pushed
  push_back q value = try_push_back q value >>= pushed

  -- The move constructor, with what is left of `other`. It has no initialiser for `_size`, which
  -- starts at 0, and it does not reset `other._size`. A moved-from vector is empty.
  unfoldable pub move_construct : CircularQueue A → CircularQueue A × CircularQueue A
  move_construct other = (
    record other { size = 0 },
    record other { capacity = 0; buffer = λ _. none; head = 0; tail = 0 },
  )

  -- `self = std::move(other)`: `_size` of both sides stays.
  unfoldable pub move_assign : CircularQueue A → CircularQueue A → CircularQueue A × CircularQueue A
  move_assign self other = (
    record other { size = self.size },
    record other { capacity = 0; buffer = λ _. none; head = 0; tail = 0 },
  )
