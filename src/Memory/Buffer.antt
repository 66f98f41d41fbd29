-- ===== src/Memory/Buffer.antt =====
-- lw/memory/buffer.h and buffer.cpp: buffers on a heap of blocks, which they own or look into. A
-- pointer is a block and an offset in it. A block that was freed, or never allocated, holds nothing;
-- to free it or to go into it is undefined, as is a place behind its end.
pub mod Owners
pub mod Transfer
pub mod Ownership
mod Tests
use liblw.Prelude.{
  ℕ, zero, suc, ◌+◌, ◌-◌, min, Bool, true, false, not, ◌&&◌, ◌||◌, Option, none, some, List, [],
  ◌∷◌, ◌++◌, length, get_elem?, set, take, drop, replicate, ltb, leb, ◌==◌, if◌then◌else◌,
}
use liblw.Err.{Error, Result, ok, throws, undefined, invalid_argument, failed_precondition, ◌>>=◌}
use liblw.Memory.Store.{Slots, update}
use liblw.Co.Event.{bitwise}

abbrev pub Pointer : Type 0
Pointer = Option (ℕ × ℕ)

pub record Buffer : Type 0 where
  pub capacity : ℕ
  pub data_ptr : Pointer
  pub own_data : Bool

-- The blocks of the heap, of which `next_block` and those behind it were never allocated, and the
-- buffers that live, each under its name.
pub record Heap : Type 0 where
  pub blocks : Slots (List ℕ)
  pub next_block : ℕ
  pub buffers : Slots Buffer

abbrev pub clear {ℓ} : {A : Type ℓ} → Slots A → ℕ → Slots A
clear f p q = if p == q then none else f q

-- `delete[] p`, which does nothing for null
unfoldable pub delete : Pointer → Heap → Result Heap
delete none m = ok m
delete (some (b, zero)) m = elim (m.blocks b) [
  | none ↦ undefined
  | some _ ↦ ok (record m { blocks = clear m.blocks b })
]
delete (some (b, suc i)) m = undefined

-- `new std::uint8_t[bytes.size()]`, whose contents are then `bytes`
unfoldable pub allocate : List ℕ → Heap → ℕ × Heap
allocate bytes m = (
  m.next_block,
  record m { blocks = update m.blocks m.next_block bytes; next_block = m.next_block + 1 },
)

-- the buffer of that name, which must live
unfoldable pub lookup : Heap → ℕ → Result Buffer
lookup m i = elim (m.buffers i) [ none ↦ undefined | some b ↦ ok b ]

unfoldable pub put_buffer : ℕ → Buffer → Heap → Heap
put_buffer i b m = record m { buffers = update m.buffers i b }

-- `if (_own_data && _data) delete[] _data`
unfoldable pub free_data : Buffer → Heap → Result Heap
unfolding delete
free_data b m = if b.own_data then delete b.data_ptr m else ok m

-- `Buffer(buffer, capacity, own_data)`: with `own_data` it owns memory that it did not allocate.
unfoldable pub wrap : ℕ → Pointer → ℕ → Bool → Heap → Heap
unfolding put_buffer
wrap i buffer capacity own_data =
    put_buffer i (record { capacity = capacity; data_ptr = buffer; own_data = own_data })

-- `Buffer(size)`, and `Buffer(begin, end)` with the bytes that it copies. The bytes of the first are
-- not specified.
unfoldable pub make : ℕ → List ℕ → Heap → Heap
unfolding allocate put_buffer
make i bytes m =
    let (b, m') = allocate bytes m in
    put_buffer i (record { capacity = length bytes; data_ptr = some (b, 0); own_data = true }) m'

-- `Buffer(Buffer&& other)`: only the ownership is taken from `other`.
unfoldable pub move_construct : ℕ → ℕ → Heap → Result Heap
unfolding lookup put_buffer
move_construct i other m = do
  b ← lookup m other
  ok (put_buffer other (record b { own_data = false }) (put_buffer i b m))

-- `operator=(Buffer&& other)`, one access after the other, so that `self` may be `other`
unfoldable pub move_assign : ℕ → ℕ → Heap → Result Heap
unfolding lookup put_buffer free_data
move_assign self other m = do
  a ← lookup m self
  m' ← free_data a m
  b ← lookup m' other
  let m'' = put_buffer self b m'
  c ← lookup m'' other
  ok (put_buffer other (record c { own_data = false }) m'')

-- `~Buffer()`
unfoldable pub destroy : ℕ → Heap → Result Heap
unfolding lookup free_data
destroy i m = do b ← lookup m i; m' ← free_data b m; ok (record m' { buffers = clear m'.buffers i })

abbrev pub advance_pointer : Pointer → ℕ → Pointer
advance_pointer none n = none
advance_pointer (some (b, i)) n = some (b, i + n)

-- `trim_prefix(n)` and `trim_suffix(n)`: views that own nothing
unfoldable pub trim_prefix : Buffer → ℕ → Result Buffer
trim_prefix b n =
    if ltb b.capacity n
    then throws invalid_argument
    else ok (record {
      capacity = b.capacity - n;
      data_ptr = advance_pointer b.data_ptr n;
      own_data = false;
    })

unfoldable pub trim_suffix : Buffer → ℕ → Result Buffer
trim_suffix b n =
    if ltb b.capacity n
    then throws invalid_argument
    else ok (record { capacity = b.capacity - n; data_ptr = b.data_ptr; own_data = false })

-- the `n` bytes at a pointer
unfoldable pub read_at : Heap → Pointer → ℕ → Result (List ℕ)
read_at m none zero = ok []
read_at m none (suc n) = undefined
read_at m (some (b, i)) n = elim (m.blocks b) [
  | none ↦ undefined
  | some bytes ↦ if ltb (length bytes) (i + n) then undefined else ok (take n (drop i bytes))
]

-- the bytes of a buffer, as `operator std::string_view` shows them
unfoldable pub bytes_of : Heap → Buffer → Result (List ℕ)
unfolding read_at
bytes_of m b = read_at m b.data_ptr b.capacity

same_pointer : Pointer → Pointer → Bool
same_pointer none none = true
same_pointer (some (b, i)) (some (c, j)) = (b == c) && (i == j)
same_pointer _ _ = false

same_bytes : List ℕ → List ℕ → Bool
same_bytes [] [] = true
same_bytes (x ∷ xs) (y ∷ ys) = let rest = same_bytes xs ys in (x == y) && rest
same_bytes _ _ = false

-- `operator==`
unfoldable pub equal : Heap → Buffer → Buffer → Result Bool
unfolding bytes_of same_pointer same_bytes
equal m lhs rhs =
    if not (lhs.capacity == rhs.capacity)
    then ok false
    else (if same_pointer lhs.data_ptr rhs.data_ptr
        then ok true
        else do xs ← bytes_of m lhs; ys ← bytes_of m rhs; ok (same_bytes xs ys))

-- `BufferView::operator==`, which compares the addresses
unfoldable pub view_equal : Buffer → Buffer → Bool
unfolding same_pointer
view_equal lhs rhs = same_pointer lhs.data_ptr rhs.data_ptr && (lhs.capacity == rhs.capacity)

-- `front()` and `back()`, which throw for a null pointer
unfoldable pub front : Buffer → Result Pointer
front b = elim b.data_ptr [ none ↦ throws invalid_argument | some p ↦ ok (some p) ]

unfoldable pub back : Buffer → Result Pointer
back b = elim b.data_ptr [
  | none ↦ throws invalid_argument
  | some p ↦ ok (if b.capacity == 0 then some p else advance_pointer (some p) (b.capacity - 1))
]

-- one byte written
unfoldable pub write_byte : Heap → Pointer → ℕ → Result Heap
write_byte m none v = undefined
write_byte m (some (b, i)) v = elim (m.blocks b) [
  | none ↦ undefined
  | some bytes ↦
      if ltb i (length bytes)
      then ok (record m { blocks = update m.blocks b (set bytes i v) })
      else undefined
]

-- `memset(_data, val, _capacity)`
fill : ℕ → Pointer → ℕ → Heap → Result Heap
unfolding write_byte
fill zero p val m = ok m
fill (suc n) p val m = write_byte m p val >>= fill n (advance_pointer p 1) val

unfoldable pub set_memory : Buffer → ℕ → Heap → Result Heap
unfolding fill
set_memory b val m = fill b.capacity b.data_ptr val m

read_byte : Heap → Pointer → Result ℕ
unfolding read_at
read_byte m p = read_at m p 1 >>= λ bytes. elim bytes [ [] ↦ undefined | x ∷ _ ↦ ok x ]

-- `_xor`, byte after byte, so that the buffers may overlap
xor_loop : ℕ → Pointer → Pointer → Pointer → Heap → Result Heap
unfolding read_byte write_byte bitwise
xor_loop zero lhs rhs out m = ok m
xor_loop (suc n) lhs rhs out m = do
  x ← read_byte m lhs
  y ← read_byte m rhs
  m' ← write_byte m out (bitwise (λ a b. (a || b) && not (a && b)) 8 x y)
  xor_loop n (advance_pointer lhs 1) (advance_pointer rhs 1) (advance_pointer out 1) m'

-- `operator^=`, over the bytes that both have
unfoldable pub xor_assign : Buffer → Buffer → Heap → Result Heap
unfolding xor_loop
xor_assign self other m =
    xor_loop (min self.capacity other.capacity) self.data_ptr other.data_ptr self.data_ptr m
