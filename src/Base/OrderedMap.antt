-- ===== src/Base/OrderedMap.antt =====
-- `std::map` as `http::Headers` and `http::HeadersView` use it: its entries in the order of the
-- comparator, one for each class of keys that the comparator does not tell apart.
pub mod Laws
use liblw.Prelude.{
  ◌≡◌, ◌⊎◌, Bool, true, false, not, ◌&&◌, List, [], ◌∷◌, Option, none, some, if◌then◌else◌,
}

module _ {K V : Type 0} (less : K → K → Bool) where
  -- `find`, `at` and `contains`
  unfoldable pub find : K → List (K × V) → Option V
  find k [] = none
  find k ((j, w) ∷ m) =
      let rest = find k m in if less j k then rest else if less k j then none else some w

  -- `insert`, which leaves an entry that is there
  unfoldable pub insert : K → V → List (K × V) → List (K × V)
  insert k v [] = (k, v) ∷ []
  insert k v ((j, w) ∷ m) =
      let rest = (j, w) ∷ insert k v m in
      if less j k then rest else if less k j then (k, v) ∷ (j, w) ∷ m else (j, w) ∷ m

  -- `m[k] = v`, which keeps the key that is there
  unfoldable pub assign : K → V → List (K × V) → List (K × V)
  assign k v [] = (k, v) ∷ []
  assign k v ((j, w) ∷ m) =
      let rest = (j, w) ∷ assign k v m in
      if less j k then rest else if less k j then (k, v) ∷ (j, w) ∷ m else (j, v) ∷ m

-- what the comparator calls the same key
abbrev pub equivalent : {K : Type 0} → (K → K → Bool) → K → K → Bool
equivalent less a b = not (less a b) && not (less b a)

-- What `std::map` requires of its comparator, on the keys that `Good` admits.
pub record StrictWeakOrder {K : Type 0} (Good : K → Type 0) (less : K → K → Bool) : Type 0 where
  pub asym : (a b : K) → Good a → Good b → less a b ≡ true → less b a ≡ false
  pub cotrans :
      (a b c : K)
      → Good a
      → Good b
      → Good c
      → less a c ≡ true
      → (less a b ≡ true) ⊎ (less b c ≡ true)
