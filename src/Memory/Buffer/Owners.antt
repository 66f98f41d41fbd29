-- ===== src/Memory/Buffer/Owners.antt =====
-- Who owns the blocks of the heap: what each change of one buffer does to it.
use liblw.Prelude.{ℕ, ◌+◌, ◌≤◌, ◌≡◌, ◌≢◌, true, false, none, some, List, inl, inr, arith, eq_or_ne}
use liblw.Memory.Store.{Slots, update}
use liblw.Memory.Buffer.{Buffer, Heap, clear}

-- The buffer `i` owns the block `k`.
abbrev pub Owns : Slots Buffer → ℕ → ℕ → Type 0
Owns buffers i k =
    (b : Buffer) × (buffers i ≡ some b) × (b.own_data ≡ true) × (b.data_ptr ≡ some (k, 0))

-- Every block has exactly one owner, and who owns anything owns a block.
pub record IsOwned (m : Heap) : Type 0 where
  pub owner_has :
      (i : ℕ) (b : Buffer)
      → m.buffers i ≡ some b
      → b.own_data ≡ true
      → (k : ℕ) × (bytes : List ℕ) × (b.data_ptr ≡ some (k, 0)) × (m.blocks k ≡ some bytes)
  pub single : (i j k : ℕ) → Owns m.buffers i k → Owns m.buffers j k → i ≡ j
  pub kept : (k : ℕ) (bytes : List ℕ) → m.blocks k ≡ some bytes → (i : ℕ) × Owns m.buffers i k
  pub fresh : (k : ℕ) → m.next_block ≤ k → m.blocks k ≡ none

-- A buffer that owns nothing takes a free name, or the place of another that owns nothing.
pub IsOwned-plain :
    (m : Heap) (i : ℕ) (b : Buffer)
    → IsOwned m
    → ((c : Buffer) → m.buffers i ≡ some c → c.own_data ≡ false)
    → b.own_data ≡ false
    → IsOwned (record m { buffers = update m.buffers i b })
IsOwned-plain m i b h free plain = record {
  owner_has = λ j c at own. h.owner_has j c (before j c at own) own;
  single = λ j l k (c, at, own, ptr) (d, at', own', ptr').
      h.single j l k (c, before j c at own, own, ptr) (d, before l d at' own', own', ptr');
  kept = λ k bytes at.
      let (j, (c, at', own, ptr)) = h.kept k bytes at in
      (
        j,
        (
          c,
          elim (eq_or_ne i j) [
            | inl e ↦ absurd (ground (arith, free c (rw e at'), own))
            | inr ne ↦ ground (arith, ne, at')
          ],
          own,
          ptr,
        ),
      );
  fresh = h.fresh;
}
  where
    before :
        (j : ℕ) (c : Buffer)
        → update m.buffers i b j ≡ some c
        → c.own_data ≡ true
        → m.buffers j ≡ some c
    before j c at own = elim (eq_or_ne i j) [
      | inl e ↦ absurd (ground (arith, e, at, own, plain))
      | inr ne ↦ ground (arith, ne, at)
    ]

-- A buffer that owns nothing ends.
pub IsOwned-clear :
    (m : Heap) (i : ℕ)
    → IsOwned m
    → ((c : Buffer) → m.buffers i ≡ some c → c.own_data ≡ false)
    → IsOwned (record m { buffers = clear m.buffers i })
IsOwned-clear m i h free = record {
  owner_has = λ j c at own. h.owner_has j c (before j c at) own;
  single = λ j l k (c, at, own, ptr) (d, at', own', ptr').
      h.single j l k (c, before j c at, own, ptr) (d, before l d at', own', ptr');
  kept = λ k bytes at.
      let (j, (c, at', own, ptr)) = h.kept k bytes at in
      (
        j,
        (
          c,
          elim (eq_or_ne i j) [
            | inl e ↦ absurd (ground (arith, free c (rw e at'), own))
            | inr ne ↦ ground (arith, ne, at')
          ],
          own,
          ptr,
        ),
      );
  fresh = h.fresh;
}
  where
    before : (j : ℕ) (c : Buffer) → clear m.buffers i j ≡ some c → m.buffers j ≡ some c
    before j c at = elim (eq_or_ne i j) [
      | inl e ↦ absurd (ground (arith, e, at))
      | inr ne ↦ ground (arith, ne, at)
    ]

-- A block is freed, and its owner owns nothing any more.
pub IsOwned-release :
    (m : Heap) (i k : ℕ) (a : Buffer)
    → IsOwned m
    → m.buffers i ≡ some a
    → a.own_data ≡ true
    → a.data_ptr ≡ some (k, 0)
    → IsOwned (record m {
      blocks = clear m.blocks k;
      buffers = update m.buffers i (record a { own_data = false });
    })
IsOwned-release m i k a h at_i own_i ptr_i = record {
  owner_has = λ j c at own.
      let (other, at') = before j c at own in
      let (l, bytes, ptr, block) = h.owner_has j c at' own in
      let apart : k ≢ l =
        λ e. other (h.single i j k (a, at_i, own_i, ptr_i) (c, at', own, rw e ptr)) in
      (l, bytes, ptr, ground (arith, apart, block));
  single = λ j l k' (c, at, own, ptr) (d, at', own', ptr').
      h.single j l k' (c, (before j c at own).1, own, ptr) (d, (before l d at' own').1, own', ptr');
  kept = λ l bytes at.
      let (ne, at') = block_before l bytes at in
      let (j, (c, at'', own, ptr)) = h.kept l bytes at' in
      let apart : i ≢ j = λ e. ne (ground (arith, e, at_i, at'', ptr, ptr_i)) in
      (j, (c, ground (arith, apart, at''), own, ptr));
  fresh = λ l le. elim (eq_or_ne k l) [
    | inl e ↦ ground (arith, e)
    | inr ne ↦ ground (arith, ne, h.fresh l le)
  ];
}
  where
    before :
        (j : ℕ) (c : Buffer)
        → update m.buffers i (record a { own_data = false }) j ≡ some c
        → c.own_data ≡ true
        → (i ≢ j) × (m.buffers j ≡ some c)
    before j c at own = elim (eq_or_ne i j) [
      | inl e ↦ absurd (ground (arith, e, at, own))
      | inr ne ↦ (ne, ground (arith, ne, at))
    ]

    block_before :
        (l : ℕ) (bytes : List ℕ)
        → clear m.blocks k l ≡ some bytes
        → (k ≢ l) × (m.blocks l ≡ some bytes)
    block_before l bytes at = elim (eq_or_ne k l) [
      | inl e ↦ absurd (ground (arith, e, at))
      | inr ne ↦ (ne, ground (arith, ne, at))
    ]

-- A new block goes to a buffer whose place owned nothing.
pub IsOwned-allocate :
    (m : Heap) (i : ℕ) (b : Buffer) (bytes : List ℕ)
    → IsOwned m
    → ((c : Buffer) → m.buffers i ≡ some c → c.own_data ≡ false)
    → b.own_data ≡ true
    → b.data_ptr ≡ some (m.next_block, 0)
    → IsOwned (record {
      blocks = update m.blocks m.next_block bytes;
      next_block = m.next_block + 1;
      buffers = update m.buffers i b;
    })
IsOwned-allocate m i b bytes h free own_i ptr_i = record {
  owner_has = λ j c at own. elim (eq_or_ne i j) [
    | inl e ↦ (m.next_block, bytes, ground (arith, e, at, ptr_i), ground arith)
    | inr ne ↦
        let (k, old, ptr, block) = h.owner_has j c (ground (arith, ne, at)) own in
        let apart : m.next_block ≢ k = λ e. ground (arith, h.fresh k (omega arith), block) in
        (k, old, ptr, ground (arith, apart, block))
  ];
  single = λ j l k (c, at, own, ptr) (d, at', own', ptr'). elim (eq_or_ne i j) [
    | inl e ↦ elim (eq_or_ne i l) [
      | inl e' ↦ omega arith
      | inr ne' ↦ absurd (not_new l k d ne' at' own' ptr' (new_block j k c e at ptr))
    ]
    | inr ne ↦ elim (eq_or_ne i l) [
      | inl e' ↦ absurd (not_new j k c ne at own ptr (new_block l k d e' at' ptr'))
      | inr ne' ↦
          h.single j l k (c, ground (arith, ne, at), own, ptr)
            (d, ground (arith, ne', at'), own', ptr')
    ]
  ];
  kept = λ k old at. elim (eq_or_ne m.next_block k) [
    | inl e ↦ (i, (b, ground arith, own_i, ground (arith, e, ptr_i)))
    | inr ne ↦
        let (j, (c, at', own, ptr)) = h.kept k old (ground (arith, ne, at)) in
        let apart : i ≢ j = λ e. ground (arith, free c (rw e at'), own) in
        (j, (c, ground (arith, apart, at'), own, ptr))
  ];
  fresh = λ k le.
      let apart : m.next_block ≢ k = λ e. omega arith in
      ground (arith, apart, h.fresh k (omega arith));
}
  where
    new_block :
        (j k : ℕ) (c : Buffer)
        → i ≡ j
        → update m.buffers i b j ≡ some c
        → c.data_ptr ≡ some (k, 0)
        → m.next_block ≡ k
    new_block j k c e at ptr = ground (arith, e, at, ptr, ptr_i)

    not_new :
        (j k : ℕ) (c : Buffer)
        → i ≢ j
        → update m.buffers i b j ≡ some c
        → c.own_data ≡ true
        → c.data_ptr ≡ some (k, 0)
        → m.next_block ≢ k
    not_new j k c ne at own ptr e =
        let (l, old, ptr', block) = h.owner_has j c (ground (arith, ne, at)) own in
        ground (arith, e, ptr, ptr', block, h.fresh l (ground (arith, e, ptr, ptr')))
