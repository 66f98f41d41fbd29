-- ===== src/Http/Trie/Dictionary.antt =====
-- The routes of a trie by the bytes that lead to them, and what putting a route there changes.
use liblw.Prelude.{
  ℕ, ◌≡◌, refl, ap, ◌∙◌, true, List, [], ◌∷◌, ◌++◌, map, Option, none, some, arith, ◌==◌,
  if◌then◌else◌, Option-cases, Bool-cases, inl, inr,
}
use mathlib.Core.Path.{subst}
use liblw.Base.Chars.{Bytes}
use liblw.Base.Views.{same_bytes}
use liblw.Err.{Result, ok, throws, already_exists}
use liblw.Http.MountPath.{literal, separator}
use liblw.Http.MountPath.Segments.{path_of}
use liblw.Http.Trie.{
  Node, node, Children, nil, child, Wildcard, no_wildcard, wildcard, fresh, byte, Outcome, moves_of,
  at_child, insert_at, find_child, children,
}

-- the node that the bytes of a path lead to
unfoldable pub descend : Bytes → Node → Option Node
descend [] n = some n
descend (c ∷ cs) n = elim (find_child c (children n)) [ none ↦ none | some n' ↦ descend cs n' ]

abbrev pub endpoint : Option Node → Option Bytes
endpoint none = none
endpoint (some (node _ _ e)) = e

-- the route that a path leads to
abbrev pub lookup : Bytes → Node → Option Bytes
lookup path n = endpoint (descend path n)

-- No node has a wildcard.
abbrev mutual
  pub HasNoWildcards : Node → Type 0
  HasNoWildcards (node cs no_wildcard e) = HaveNoWildcards cs
  HasNoWildcards (node cs (wildcard m n) e) = ⊥

  pub HaveNoWildcards : Children → Type 0
  HaveNoWildcards nil = Unit
  HaveNoWildcards (child c n cs) = HasNoWildcards n × HaveNoWildcards cs

pub find_child-HasNoWildcards :
    (c : ℕ) (cs : Children) {n : Node}
    → HaveNoWildcards cs
    → find_child c cs ≡ some n
    → HasNoWildcards n
unfolding find_child
find_child-HasNoWildcards c nil h e = absurd (cc)
find_child-HasNoWildcards c (child d n' cs) {n = n} h e = elim (Bool-cases (c == d)) [
  | inl same ↦ subst HasNoWildcards (some_injective (rw⁻¹ e (rw same refl))) h.0
  | inr other ↦ find_child-HasNoWildcards c cs {n = n} h.1 (rw⁻¹ e (rw other refl))
]
  where
    some_injective : some n' ≡ some n → n' ≡ n
    some_injective p = cc

-- What is at a path once a route has been put there: the first route stays.
abbrev pub first_route : Option Bytes → Bytes → Bytes
first_route none route = route
first_route (some old) route = old

abbrev pub outcome : Option Bytes → Result (Unit {0})
outcome none = ok tt
outcome (some _) = throws already_exists

or_fresh : Option Node → Node
or_fresh none = fresh
or_fresh (some n) = n

find_child-at_child :
    (c d : ℕ) (k : Node → Outcome Node) (cs : Children)
    → find_child d (at_child c k cs).1
      ≡ (if c == d then some (k (or_fresh (find_child c cs))).1 else find_child d cs)
unfolding find_child at_child or_fresh
find_child-at_child c d k nil = ground arith
find_child-at_child c d k (child b n cs) = ground (arith, find_child-at_child c d k cs)

pub lookup-fresh : (path : Bytes) → lookup path fresh ≡ none
unfolding descend find_child
lookup-fresh [] = refl
lookup-fresh (c ∷ cs) = refl

lookup-or_fresh :
    (c : ℕ) (path : Bytes) (cs : Children) (w : Wildcard) (e : Option Bytes)
    → lookup path (or_fresh (find_child c cs)) ≡ lookup (c ∷ path) (node cs w e)
unfolding or_fresh descend
lookup-or_fresh c path cs w e = elim (Option-cases (find_child c cs)) [
  | inl absent ↦ rw (absent, descend) (lookup-fresh path)
  | inr (n, there) ↦ rw (there, descend) refl
]

at_child-outcome :
    (c : ℕ) (k : Node → Outcome Node) (cs : Children)
    → (at_child c k cs).0 ≡ (k (or_fresh (find_child c cs))).0
unfolding at_child or_fresh find_child
at_child-outcome c k nil = refl
at_child-outcome c k (child d n cs) = ground (arith, at_child-outcome c k cs)

lookup-at_child :
    (c d : ℕ) (k : Node → Outcome Node) (cs : Children) (w : Wildcard) (e : Option Bytes)
    (path : Bytes)
    → lookup (d ∷ path) (node (at_child c k cs).1 w e) ≡ (
        if c == d
        then lookup path (k (or_fresh (find_child c cs))).1
        else lookup (d ∷ path) (node cs w e))
unfolding descend
lookup-at_child c d k cs w e path = elim (Bool-cases (c == d)) [
  | inl same ↦ rw (find_child-at_child c d k cs, same, descend) refl
  | inr other ↦ rw (find_child-at_child c d k cs, other, descend) refl
]

-- A route of bytes alone is added to the dictionary.
pub insert_at-byte :
    (bs : Bytes) (route : Bytes) (n : Node) (path : Bytes)
    → ((insert_at (map byte bs) route n).0 ≡ outcome (lookup bs n))
      × (lookup path (insert_at (map byte bs) route n).1
          ≡ (if same_bytes bs path then some (first_route (lookup bs n) route) else lookup path n))
unfolding insert_at descend same_bytes
insert_at-byte [] route (node cs w none) [] = (refl, refl)
insert_at-byte [] route (node cs w (some e)) [] = (refl, refl)
insert_at-byte [] route (node cs w none) (d ∷ path) = (refl, refl)
insert_at-byte [] route (node cs w (some e)) (d ∷ path) = (refl, refl)
insert_at-byte (b ∷ bs) route (node cs w e) [] = (
  at_child-outcome b (insert_at (map byte bs) route) cs
      ∙ (insert_at-byte bs route (or_fresh (find_child b cs)) []).0
      ∙ ap outcome (lookup-or_fresh b bs cs w e),
  refl,
)
insert_at-byte (b ∷ bs) route (node cs w e) (d ∷ path) =
    let kid = or_fresh (find_child b cs) in
    let old = lookup-or_fresh b bs cs w e in
    let (o, l) = insert_at-byte bs route kid path in
    (
      at_child-outcome b (insert_at (map byte bs) route) cs ∙ o ∙ ap outcome old,
      elim (Bool-cases (b == d)) [
        | inr other ↦
            rw (lookup-at_child b d (insert_at (map byte bs) route) cs w e path, other) refl
        | inl same ↦
            let p : b ≡ d = ground arith in
            rw (lookup-at_child b d (insert_at (map byte bs) route) cs w e path, same, l, old)
              (rw⁻¹ p (
                ap
                  (λ x.
                    if same_bytes bs path
                    then some (first_route (lookup (b ∷ bs) (node cs w e)) route)
                    else x)
                  (lookup-or_fresh b path cs w e)))
      ],
    )

at_child-HaveNoWildcards :
    (c : ℕ) (k : Node → Outcome Node) (cs : Children)
    → ((n : Node) → HasNoWildcards n → HasNoWildcards (k n).1)
    → HaveNoWildcards cs
    → HaveNoWildcards (at_child c k cs).1
unfolding at_child
at_child-HaveNoWildcards c k nil keeps h = (keeps fresh tt, tt)
at_child-HaveNoWildcards c k (child d n cs) keeps h = elim (Bool-cases (c == d)) [
  | inl same ↦ rw same (keeps n h.0, h.1)
  | inr other ↦ rw other (h.0, at_child-HaveNoWildcards c k cs keeps h.1)
]

pub insert_at-HasNoWildcards :
    (bs : Bytes) (route : Bytes) (n : Node)
    → HasNoWildcards n
    → HasNoWildcards (insert_at (map byte bs) route n).1
unfolding insert_at
insert_at-HasNoWildcards [] route (node cs no_wildcard none) h = h
insert_at-HasNoWildcards [] route (node cs no_wildcard (some e)) h = h
insert_at-HasNoWildcards [] route (node cs (wildcard m n) e) h = absurd h
insert_at-HasNoWildcards (b ∷ bs) route (node cs no_wildcard e) h =
    at_child-HaveNoWildcards b (insert_at (map byte bs) route) cs
      (insert_at-HasNoWildcards bs route) h
insert_at-HasNoWildcards (b ∷ bs) route (node cs (wildcard m n) e) h = absurd h

pub moves_of-literal : (ps : List Bytes) → moves_of (map literal ps) ≡ map byte (path_of ps)
unfolding moves_of
moves_of-literal [] = refl
moves_of-literal (p ∷ ps) =
    ap (λ ms. byte separator ∷ ms)
      (ap (λ ms. map byte p ++ ms) (moves_of-literal ps) ∙ join p (path_of ps))
  where
    join : (x y : Bytes) → map byte x ++ map byte y ≡ map byte (x ++ y)
    join [] y = refl
    join (b ∷ x) y = ap (λ ms. byte b ∷ ms) (join x y)

pub same_bytes→eq : (x y : Bytes) → same_bytes x y ≡ true → x ≡ y
unfolding same_bytes
same_bytes→eq [] [] h = refl
same_bytes→eq [] (b ∷ y) h = absurd (cc)
same_bytes→eq (a ∷ x) [] h = absurd (cc)
same_bytes→eq (a ∷ x) (b ∷ y) h = ground (arith, same_bytes→eq x y)
