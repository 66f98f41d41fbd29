-- ===== src/Memory/Buffer/Tests.antt =====
-- Buffers on small heaps, and instances of what is proved of them.
use liblw.Prelude.{ℕ, ◌≡◌, refl, true, false, none, some, List, [], ◌∷◌, arith}
use liblw.Err.{Result, ok, throws, undefined, invalid_argument}
use liblw.Memory.Store.{update}
use liblw.Memory.Buffer.{
  Buffer, Heap, trim_prefix, trim_suffix, equal, view_equal, set_memory, xor_assign, bytes_of,
  front, back, move_assign,
}
use liblw.Memory.Buffer.Owners.{IsOwned, IsOwned-allocate}
use liblw.Memory.Buffer.Ownership.{do_move_assign, exec, exec-IsOwned, move_assign_self}

abbrev nothing : Heap
nothing = record { blocks = λ k. none; next_block = 0; buffers = λ i. none }

nothing-IsOwned : IsOwned nothing
nothing-IsOwned = record {
  owner_has = λ i b at own. absurd (cc);
  single = λ i j k (b, at, own, ptr) o. absurd (cc);
  kept = λ k bytes at. absurd (cc);
  fresh = λ k le. refl;
}

abbrev owning : ℕ → ℕ → Buffer
owning k n = record { capacity = n; data_ptr = some (k, 0); own_data = true }

-- buffer 0 with a block of three bytes, and buffer 1 with one of two
abbrev one : Heap
one = record {
  blocks = update nothing.blocks 0 (1 ∷ 2 ∷ 3 ∷ []);
  next_block = 1;
  buffers = update nothing.buffers 0 (owning 0 3);
}

abbrev two : Heap
two = record {
  blocks = update one.blocks 1 (1 ∷ 255 ∷ []);
  next_block = 2;
  buffers = update one.buffers 1 (owning 1 2);
}

one-IsOwned : IsOwned one
one-IsOwned =
    IsOwned-allocate nothing 0 (owning 0 3) (1 ∷ 2 ∷ 3 ∷ []) nothing-IsOwned (λ c at. absurd (cc))
      refl refl

two-IsOwned : IsOwned two
two-IsOwned =
    IsOwned-allocate one 1 (owning 1 2) (1 ∷ 255 ∷ []) one-IsOwned (λ c at. absurd (cc)) refl refl

views_run :
    (trim_prefix (owning 0 3) 4 ≡ throws invalid_argument)
    × (trim_suffix (owning 0 3) 2
        ≡ ok (record { capacity = 1; data_ptr = some (0, 0); own_data = false }))
    × (back (owning 0 3) ≡ ok (some (0, 2)))
    × (front (record { capacity = 0; data_ptr = none; own_data = false }) ≡ throws invalid_argument)
    × (equal two (owning 0 3) (owning 1 2) ≡ ok false)
    × (view_equal (owning 0 3) (owning 1 3) ≡ false)
unfolding trim_prefix trim_suffix back front equal view_equal
views_run = (refl, refl, refl, refl, refl, refl)

-- the bytes of buffer 0 after what was done
abbrev shown : Result Heap → Result (List ℕ)
shown (ok m) = bytes_of m (owning 0 3)
shown (throws e) = throws e
shown undefined = undefined

bytes_run :
    (shown (set_memory (owning 0 3) 7 two) ≡ ok (7 ∷ 7 ∷ 7 ∷ []))
    × (shown (xor_assign (owning 0 3) (owning 1 2) two) ≡ ok (0 ∷ 253 ∷ 3 ∷ []))
unfolding set_memory xor_assign bytes_of
bytes_run = (refl, refl)

exec-IsOwned_example : (m' : Heap) × (exec (do_move_assign 0 1) two ≡ ok m') × IsOwned m'
exec-IsOwned_example =
    exec-IsOwned (do_move_assign 0 1) two two-IsOwned
      ((owning 0 3, refl), (owning 1 2, refl), λ e. omega arith)

move_assign_self_example :
    (m' : Heap) × (move_assign 0 0 two ≡ ok m')
    × (m'.buffers 0 ≡ some (record { capacity = 3; data_ptr = some (0, 0); own_data = false }))
    × (bytes_of m' (owning 0 3) ≡ undefined)
move_assign_self_example = move_assign_self two 0 (owning 0 3) two-IsOwned refl refl
