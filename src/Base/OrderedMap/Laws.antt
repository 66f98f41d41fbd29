-- ===== src/Base/OrderedMap/Laws.antt =====
-- Lookups after the writes of an ordered map.
use liblw.Prelude.{◌≡◌, Bool, true, List, [], ◌∷◌, none, some, arith, if◌then◌else◌}
use liblw.Base.OrderedMap.{find, insert, assign, equivalent, StrictWeakOrder}

module _ {K V : Type 0} (Good : K → Type 0) (less : K → K → Bool) where
  -- `k` stands before every key.
  abbrev pub After : K → List (K × V) → Type 0
  After k [] = Unit
  After k ((j, w) ∷ m) = (less k j ≡ true) × After k m

  -- The keys are good, and each stands before those behind it.
  abbrev pub IsOrdered : List (K × V) → Type 0
  IsOrdered [] = Unit
  IsOrdered ((j, w) ∷ m) = Good j × After j m × IsOrdered m

module _ {K V : Type 0} {Good : K → Type 0} {less : K → K → Bool}
    (o : StrictWeakOrder Good less) where
  pub find-assign :
      (q k : K) (v : V) (m : List (K × V))
      → Good q
      → Good k
      → IsOrdered Good less m
      → find less q (assign less k v m) ≡ (if equivalent less k q then some v else find less q m)
  unfolding find assign
  find-assign q k v [] gq gk s = ground (arith, o.asym k q gk gq)
  find-assign q k v ((j, w) ∷ m) gq gk s = ground (
    arith,
    find-assign q k v m gq gk s.2,
    o.asym k q gk gq,
    o.asym q k gq gk,
    o.asym j k s.0 gk,
    o.asym k j gk s.0,
    o.asym j q s.0 gq,
    o.asym q j gq s.0,
    o.cotrans q k j gq gk s.0,
    o.cotrans j q k s.0 gq gk,
    o.cotrans k q j gk gq s.0,
    o.cotrans q j k gq s.0 gk,
    o.cotrans k j q gk s.0 gq,
    o.cotrans j k q s.0 gk gq,
  )

  pub find-insert :
      (q k : K) (v : V) (m : List (K × V))
      → Good q
      → Good k
      → IsOrdered Good less m
      → find less q (insert less k v m) ≡ elim (find less k m) [
        | none ↦ if equivalent less k q then some v else find less q m
        | some _ ↦ find less q m
      ]
  unfolding find insert
  find-insert q k v [] gq gk s = ground (arith, o.asym k q gk gq)
  find-insert q k v ((j, w) ∷ m) gq gk s = ground (
    arith,
    find-insert q k v m gq gk s.2,
    o.asym k q gk gq,
    o.asym q k gq gk,
    o.asym j k s.0 gk,
    o.asym k j gk s.0,
    o.asym j q s.0 gq,
    o.asym q j gq s.0,
    o.cotrans q k j gq gk s.0,
    o.cotrans j q k s.0 gq gk,
    o.cotrans k q j gk gq s.0,
    o.cotrans q j k gq s.0 gk,
    o.cotrans k j q gk s.0 gq,
    o.cotrans j k q s.0 gk gq,
  )

  before_all :
      (k j : K) (m : List (K × V))
      → Good k
      → Good j
      → IsOrdered Good less m
      → less k j ≡ true
      → After Good less j m
      → After Good less k m
  before_all k j [] gk gj s h a = tt
  before_all k j ((i, w) ∷ m) gk gj s h a = (
    ground (arith, o.cotrans k i j gk s.0 gj, o.asym j i gj s.0),
    before_all k j m gk gj s.2 h a.1,
  )

  After-assign :
      (j k : K) (v : V) (m : List (K × V))
      → less j k ≡ true
      → After Good less j m
      → After Good less j (assign less k v m)
  unfolding assign
  After-assign j k v [] h a = (h, tt)
  After-assign j k v ((i, w) ∷ m) h a = ground (arith, After-assign j k v m)

  After-insert :
      (j k : K) (v : V) (m : List (K × V))
      → less j k ≡ true
      → After Good less j m
      → After Good less j (insert less k v m)
  unfolding insert
  After-insert j k v [] h a = (h, tt)
  After-insert j k v ((i, w) ∷ m) h a = ground (arith, After-insert j k v m)

  -- The writes keep the order of the entries.
  pub assign-IsOrdered :
      (k : K) (v : V) (m : List (K × V))
      → Good k
      → IsOrdered Good less m
      → IsOrdered Good less (assign less k v m)
  unfolding assign
  assign-IsOrdered k v [] g s = (g, tt, tt)
  assign-IsOrdered k v ((j, w) ∷ m) g s =
      ground (arith, assign-IsOrdered k v m g s.2, After-assign j k v m, before_all k j m g s.0 s.2)

  pub insert-IsOrdered :
      (k : K) (v : V) (m : List (K × V))
      → Good k
      → IsOrdered Good less m
      → IsOrdered Good less (insert less k v m)
  unfolding insert
  insert-IsOrdered k v [] g s = (g, tt, tt)
  insert-IsOrdered k v ((j, w) ∷ m) g s =
      ground (arith, insert-IsOrdered k v m g s.2, After-insert j k v m, before_all k j m g s.0 s.2)
