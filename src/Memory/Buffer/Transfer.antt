-- ===== src/Memory/Buffer/Transfer.antt =====
-- Ownership that goes from one buffer to another, or ends.
use liblw.Prelude.{
  ℕ, ◌≡◌, ◌≢◌, refl, sym, ◌⊎◌, true, false, Bool-cases, some, inl, inr, arith, eq_or_ne,
}
use liblw.Err.{ok}
use liblw.Memory.Store.{update}
use liblw.Memory.Buffer.{Buffer, Heap, clear, delete, put_buffer, free_data}
use liblw.Memory.Buffer.Owners.{IsOwned, IsOwned-plain, IsOwned-release}

-- The ownership goes from `other` to `i`, which owned nothing.
IsOwned-transfer :
    (m : Heap) (i other : ℕ) (b : Buffer)
    → IsOwned m
    → i ≢ other
    → ((c : Buffer) → m.buffers i ≡ some c → c.own_data ≡ false)
    → m.buffers other ≡ some b
    → b.own_data ≡ true
    → IsOwned
        (record m { buffers = update (update m.buffers i b) other (record b { own_data = false }) })
IsOwned-transfer m i other b h ne free at_b own_b = record {
  owner_has = λ j c at own. let (l, at', _) = before j c at own in h.owner_has l c at' own;
  single = λ j l k (c, at, own, ptr) (d, at', own', ptr').
      let (j', was, from_j) = before j c at own in
      let (l', was', from_l) = before l d at' own' in
      let same = h.single j' l' k (c, was, own, ptr) (d, was', own', ptr') in
      ground (arith, same, from_j, from_l);
  kept = λ k bytes at.
      let (j, (c, at', own, ptr)) = h.kept k bytes at in
      elim (eq_or_ne other j) [
        | inl e ↦ (i, (b, ground (arith, ne), own_b, ground (arith, e, at', at_b, ptr)))
        | inr apart ↦
            let elsewhere : i ≢ j = λ e. ground (arith, free c (rw e at'), own) in
            (j, (c, ground (arith, apart, elsewhere, at'), own, ptr))
      ];
  fresh = h.fresh;
}
  where
    before :
        (j : ℕ) (c : Buffer)
        → update (update m.buffers i b) other (record b { own_data = false }) j ≡ some c
        → c.own_data ≡ true
        → (l : ℕ) × (m.buffers l ≡ some c)
          × (((j ≡ i) × (l ≡ other)) ⊎ ((j ≡ l) × (l ≢ other) × (l ≢ i)))
    before j c at own = elim (eq_or_ne other j) [
      | inl e ↦ absurd (ground (arith, e, at, own))
      | inr apart ↦ elim (eq_or_ne i j) [
        | inl e ↦ (other, ground (arith, e, apart, at, at_b), inl (sym e, refl))
        | inr elsewhere ↦ (
          j,
          ground (arith, apart, elsewhere, at),
          inr (refl, λ e. apart (sym e), λ e. elsewhere (sym e)),
        )
      ]
    ]

pub moved-IsOwned :
    (m : Heap) (i other : ℕ) (b : Buffer)
    → IsOwned m
    → i ≢ other
    → ((c : Buffer) → m.buffers i ≡ some c → c.own_data ≡ false)
    → m.buffers other ≡ some b
    → IsOwned (put_buffer other (record b { own_data = false }) (put_buffer i b m))
unfolding put_buffer
moved-IsOwned m i other b h ne free at = elim (Bool-cases b.own_data) [
  | inl own ↦ IsOwned-transfer m i other b h ne free at own
  | inr plain ↦
      let m' : Heap = record m { buffers = update m.buffers i b } in
      IsOwned-plain m' other (record b { own_data = false }) (IsOwned-plain m i b h free plain)
        (λ c at'. ground (arith, ne, at, at', plain)) refl
]

-- what `free_data` frees, the buffer owns no more
pub free_data-IsOwned :
    (m : Heap) (i : ℕ) (a : Buffer)
    → IsOwned m
    → m.buffers i ≡ some a
    → (m' : Heap) × (free_data a m ≡ ok m')
      × (m'.buffers ≡ m.buffers)
      × IsOwned (record m' { buffers = update m.buffers i (record a { own_data = false }) })
unfolding free_data delete
free_data-IsOwned m i a h at = elim (Bool-cases a.own_data) [
  | inl own ↦
      let (k, bytes, ptr, block) = h.owner_has i a at own in
      (
        record m { blocks = clear m.blocks k },
        ground (arith, own, ptr, block),
        refl,
        IsOwned-release m i k a h at own ptr,
      )
  | inr plain ↦ (
    m,
    ground (arith, plain),
    refl,
    IsOwned-plain m i (record a { own_data = false }) h (λ c at'. ground (arith, at, at', plain))
        refl,
  )
]
