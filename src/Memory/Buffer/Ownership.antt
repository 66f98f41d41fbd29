-- ===== src/Memory/Buffer/Ownership.antt =====
-- Constructing, moving and destroying buffers: no block is freed twice, and none is lost.
use liblw.Prelude.{
  ℕ, ◌≡◌, ◌≢◌, refl, sym, ap, ◌∙◌, Bool, true, false, none, some, List, length, arith,
}
use mathlib.Core.Path.{fun_ext, subst}
use liblw.Err.{Result, ok, undefined}
use liblw.Memory.Store.{Slots, update}
use liblw.Memory.Buffer.{
  Buffer, Heap, Pointer, clear, delete, allocate, lookup, put_buffer, free_data, wrap, make,
  move_construct, move_assign, destroy, bytes_of, read_at,
}
use liblw.Memory.Buffer.Owners.{IsOwned, IsOwned-plain, IsOwned-clear, IsOwned-allocate}
use liblw.Memory.Buffer.Transfer.{moved-IsOwned, free_data-IsOwned}

-- A call on the buffers. Buffers that are constructed get a name. `do_adopt` is a block that the
-- caller allocates, and `Buffer(buffer, capacity, true)` with a pointer to its beginning.
pub data Op : Type 0 where
  do_wrap : ℕ → Pointer → ℕ → Bool → Op
  do_adopt : ℕ → List ℕ → ℕ → Op
  do_make : ℕ → List ℕ → Op
  do_move_construct : ℕ → ℕ → Op
  do_move_assign : ℕ → ℕ → Op
  do_destroy : ℕ → Op

unfoldable pub exec : Op → Heap → Result Heap
unfolding allocate wrap make move_construct move_assign destroy
exec (do_wrap i p n own) m = ok (wrap i p n own m)
exec (do_adopt i bytes n) m = let (b, m') = allocate bytes m in ok (wrap i (some (b, 0)) n true m')
exec (do_make i bytes) m = ok (make i bytes m)
exec (do_move_construct i other) m = move_construct i other m
exec (do_move_assign self other) m = move_assign self other m
exec (do_destroy i) m = destroy i m

-- there is a buffer of that name
abbrev pub Lives : Heap → ℕ → Type 0
Lives m i = (b : Buffer) × (m.buffers i ≡ some b)

-- A new buffer gets a free name, the others live, and a buffer is not assigned to itself. A pointer
-- that is wrapped as it stands is not owned: what is owned is adopted.
abbrev pub Allows : Heap → Op → Type 0
Allows m (do_wrap i p n own) = (m.buffers i ≡ none) × (own ≡ false)
Allows m (do_adopt i bytes n) = m.buffers i ≡ none
Allows m (do_make i bytes) = m.buffers i ≡ none
Allows m (do_move_construct i other) = (m.buffers i ≡ none) × Lives m other
Allows m (do_move_assign self other) = Lives m self × Lives m other × (self ≢ other)
Allows m (do_destroy i) = Lives m i

free_name :
    (m : Heap) (i : ℕ)
    → m.buffers i ≡ none
    → (c : Buffer) → m.buffers i ≡ some c
    → c.own_data ≡ false
free_name m i e c at = absurd (cc)

module _ {ℓ} {A : Type ℓ} where
  update-update : (f : Slots A) (i : ℕ) (x y : A) → update (update f i x) i y ≡ update f i y
  update-update f i x y = fun_ext (λ q. at q)
    where
      at : (q : ℕ) → update (update f i x) i y q ≡ update f i y q
      at q = ground arith

  clear-update : (f : Slots A) (i : ℕ) (x : A) → clear (update f i x) i ≡ clear f i
  clear-update f i x = fun_ext (λ q. at q)
    where
      at : (q : ℕ) → clear (update f i x) i q ≡ clear f i q
      at q = ground arith

lookup_found : (m : Heap) (i : ℕ) (b : Buffer) → m.buffers i ≡ some b → lookup m i ≡ ok b
unfolding lookup
lookup_found m i b at = ground (arith, at)

move_assign-IsOwned :
    (m : Heap) (self other : ℕ) (a b : Buffer)
    → IsOwned m
    → m.buffers self ≡ some a
    → m.buffers other ≡ some b
    → self ≢ other
    → (m' : Heap) × (move_assign self other m ≡ ok m') × IsOwned m'
unfolding move_assign put_buffer
move_assign-IsOwned m self other a b h at at' ne =
    let (m', freed, same, h') = free_data-IsOwned m self a h at in
    let a' : Buffer = record a { own_data = false } in
    let b' : Buffer = record b { own_data = false } in
    let m'' : Heap = record m' { buffers = update m.buffers self a' } in
    let moved =
      moved-IsOwned m'' self other b h' ne (λ c e. ground (arith, e)) (ground (arith, ne, at')) in
    let covered : update (update m.buffers self a') self b ≡ update m'.buffers self b =
      update-update m.buffers self a' b ∙ ap (λ f. update f self b) (sym same) in
    let in_m' : m'.buffers other ≡ some b = ground (arith, same, at') in
    let in_put : update m'.buffers self b other ≡ some b = ground (arith, ne, in_m') in
    (
      put_buffer other b' (put_buffer self b m'),
      rw
          (
            lookup_found m self a at,
            freed,
            lookup_found m' other b in_m',
            lookup_found (record m' { buffers = update m'.buffers self b }) other b in_put,
          )
          refl,
      subst (λ f. IsOwned (record m' { buffers = update f other b' })) covered moved,
    )

destroy-IsOwned :
    (m : Heap) (i : ℕ) (a : Buffer)
    → IsOwned m
    → m.buffers i ≡ some a
    → (m' : Heap) × (destroy i m ≡ ok m') × IsOwned m'
unfolding destroy
destroy-IsOwned m i a h at =
    let (m', freed, same, h') = free_data-IsOwned m i a h at in
    let a' : Buffer = record a { own_data = false } in
    let m'' : Heap = record m' { buffers = update m.buffers i a' } in
    let ended = IsOwned-clear m'' i h' (λ c e. ground (arith, e)) in
    let covered : clear (update m.buffers i a') i ≡ clear m'.buffers i =
      clear-update m.buffers i a' ∙ ap (λ f. clear f i) (sym same) in
    (
      record m' { buffers = clear m'.buffers i },
      rw (lookup_found m i a at, freed) refl,
      subst (λ f. IsOwned (record m' { buffers = f })) covered ended,
    )

-- On a heap where every block has exactly one owner, a call that constructs, moves or destroys
-- buffers does nothing undefined, such as to free a block twice, and afterwards every block has
-- exactly one owner. This holds if a buffer is constructed under a free name, the buffers that are
-- used live, no buffer is assigned to itself, and a buffer is given the ownership of foreign memory
-- only for a block that the caller has just allocated.
pub exec-IsOwned :
    (op : Op) (m : Heap) → IsOwned m → Allows m op → (m' : Heap) × (exec op m ≡ ok m') × IsOwned m'
unfolding exec wrap make put_buffer allocate move_construct
exec-IsOwned (do_wrap i p n own) m h (e, plain) = (
  wrap i p n own m,
  refl,
  IsOwned-plain m i (record { capacity = n; data_ptr = p; own_data = own }) h (free_name m i e)
      plain,
)
exec-IsOwned (do_adopt i bytes n) m h e = (
  wrap i (some (m.next_block, 0)) n true (allocate bytes m).1,
  refl,
  IsOwned-allocate m i (record { capacity = n; data_ptr = some (m.next_block, 0); own_data = true })
      bytes h (free_name m i e) refl refl,
)
exec-IsOwned (do_make i bytes) m h e = (
  make i bytes m,
  refl,
  IsOwned-allocate m i
      (record { capacity = length bytes; data_ptr = some (m.next_block, 0); own_data = true }) bytes
      h (free_name m i e) refl refl,
)
exec-IsOwned (do_move_construct i other) m h (e, (b, at)) =
    let ne : i ≢ other = λ same. ground (arith, same, e, at) in
    (
      put_buffer other (record b { own_data = false }) (put_buffer i b m),
      rw (lookup_found m other b at) refl,
      moved-IsOwned m i other b h ne (free_name m i e) at,
    )
exec-IsOwned (do_move_assign self other) m h ((a, at), (b, at'), ne) =
    move_assign-IsOwned m self other a b h at at' ne
exec-IsOwned (do_destroy i) m h (a, at) = destroy-IsOwned m i a h at

-- A buffer that owns a block and is assigned to itself keeps the pointer and the size, but its
-- block is freed and it owns nothing: to look at its bytes is undefined, whatever its size.
pub move_assign_self :
    (m : Heap) (i : ℕ) (a : Buffer)
    → IsOwned m
    → m.buffers i ≡ some a
    → a.own_data ≡ true
    → (m' : Heap) × (move_assign i i m ≡ ok m')
      × (m'.buffers i ≡ some (record a { own_data = false }))
      × (bytes_of m' a ≡ undefined)
unfolding move_assign put_buffer free_data delete bytes_of read_at
move_assign_self m i a h at own =
    let (k, bytes, ptr, block) = h.owner_has i a at own in
    let m' : Heap = record m { blocks = clear m.blocks k } in
    let freed : free_data a m ≡ ok m' = ground (arith, own, ptr, block) in
    let again : update m.buffers i a i ≡ some a = ground arith in
    (
      put_buffer i (record a { own_data = false }) (put_buffer i a m'),
      rw
          (
            lookup_found m i a at,
            freed,
            lookup_found m' i a at,
            lookup_found (record m' { buffers = update m.buffers i a }) i a again,
          )
          refl,
      ground arith,
      ground (arith, ptr),
    )
