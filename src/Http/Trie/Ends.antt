-- ===== src/Http/Trie/Ends.antt =====
-- The walk of the trie ends: the nodes that are still to be reached become fewer in each round.
use liblw.Prelude.{
  ℕ, zero, suc, ◌+◌, ◌≤◌, ◌<◌, ◌≡◌, ◌≢◌, refl, List, [], ◌∷◌, Option, none, some, arith,
  Option-cases, inl, inr,
}
use liblw.Base.Chars.{Bytes}
use liblw.Err.{Result, ok, throws, undefined, ◌>>=◌}
use liblw.Http.Headers.{Headers}
use liblw.Http.MountPath.{match_part}
use liblw.Http.Trie as Trie
use liblw.Http.Trie.{
  Node, node, Children, nil, child, Wildcard, no_wildcard, wildcard, count, count_children,
  count_wildcard, find_child, push, Pending, Walk, children, wildcard_of,
}

-- the nodes that the pending wildcards lead to
abbrev count_stack : List Pending → ℕ
count_stack [] = 0
count_stack (p ∷ stack) = count p.target + count_stack stack

count-pos : (n : Node) → 0 < count n
unfolding count
count-pos (node cs w e) = omega arith

-- A child has fewer nodes than all the children.
pub find_child-count :
    (c : ℕ) (cs : Children) {n : Node} → find_child c cs ≡ some n → count n ≤ count_children cs
unfolding find_child count_children
find_child-count c nil e = absurd (cc)
find_child-count c (child d n' cs) {n = m} e = ground (arith, find_child-count c cs {n = m})

count_stack-push :
    (w : Wildcard) (rest : Bytes) (stack : List Pending)
    → count_stack (push w rest stack) ≡ count_wildcard w + count_stack stack
unfolding count_wildcard
count_stack-push no_wildcard rest stack = omega arith
count_stack-push (wildcard m n) rest stack = refl

-- The nodes that a round can reach are fewer than `n`.
abbrev Descends : ℕ → Result (Option Walk) → Type 0
Descends n (ok (some w)) = count w.at + count_stack w.stack < n
Descends n _ = Unit

module _ (regex_match : Bytes → Bytes → Option Bytes) (to_string : ℕ → Bytes) where
  walk_back-Descends :
      (stack : List Pending) (parameters : Headers) (n : ℕ)
      → count_stack stack < n
      → Descends n (Trie.walk_back regex_match to_string stack parameters)
  unfolding Trie.walk_back
  walk_back-Descends [] parameters n h = tt
  walk_back-Descends (p ∷ stack) parameters n h =
      go (match_part regex_match to_string p.matcher (Trie.part_of p.rest))
        (walk_back-Descends stack parameters n (omega (arith)))
    where
      go :
          (r : Result (Option Bytes))
          → Descends n (Trie.walk_back regex_match to_string stack parameters)
          → Descends n (
              ◌>>=◌ {B = Option Walk} r (λ value. elim value [
                | none ↦ Trie.walk_back regex_match to_string stack parameters
                | some v ↦ ok (some (Trie.resume regex_match to_string p v stack parameters))
              ]))
      go (ok none) d = d
      go (ok (some v)) d = h
      go (throws e) d = tt
      go undefined d = tt

  walk_step-Descends :
      (c : ℕ) (cs : Bytes) (n : Node) (rest : Bytes) (stack : List Pending) (parameters : Headers)
      → Descends (count n + count_stack stack) (
          Trie.walk_step regex_match to_string c cs
            (record { at = n; rest = rest; stack = stack; parameters = parameters }))
  unfolding Trie.walk_step count
  walk_step-Descends c cs (node chs w e) rest stack parameters =
      elim (Option-cases (find_child c chs)) [
        | inl absent ↦
            rw (absent, Trie.walk_step)
              (walk_back-Descends (push w (c ∷ cs) stack) parameters _
                (omega (arith, count_stack-push w (c ∷ cs) stack)))
        | inr (n, found) ↦
            rw (found, Trie.walk_step)
              (omega (arith, count_stack-push w (c ∷ cs) stack, find_child-count c chs found))
      ]

  -- With a round for each node that is left to reach, the loop comes to a result.
  walk_loop-ends :
      (fuel : ℕ) (w : Walk)
      → count w.at + count_stack w.stack ≤ fuel
      → Trie.walk_loop regex_match to_string fuel w ≢ none
  unfolding Trie.walk_loop
  walk_loop-ends zero w h = absurd (omega (arith, count-pos w.at))
  walk_loop-ends (suc fuel) w h = rounds w.rest (λ w' d. walk_loop-ends fuel w' (omega arith))
    where
      after :
          (r : Result (Option Walk))
          → Descends (count w.at + count_stack w.stack) r
          → ((w' : Walk)
              → count w'.at + count_stack w'.stack < count w.at + count_stack w.stack
              → Trie.walk_loop regex_match to_string fuel w' ≢ none)
          → (elim r as (λ _. Option (Result (Trie.Found regex_match to_string))) [
            | ok (some w') ↦ Trie.walk_loop regex_match to_string fuel w'
            | ok none ↦ some (ok none)
            | throws e ↦ some (throws e)
            | undefined ↦ some undefined
          ])
            ≢ none
      after (ok none) d next = λ x. cc
      after (ok (some w')) d next = next w' d
      after (throws e) d next = λ x. cc
      after undefined d next = λ x. cc

      rounds :
          (rest : Bytes)
          → ((w' : Walk)
              → count w'.at + count_stack w'.stack < count w.at + count_stack w.stack
              → Trie.walk_loop regex_match to_string fuel w' ≢ none)
          → (elim rest as (λ _. Option (Result (Trie.Found regex_match to_string))) [
            | [] ↦ some (ok (some (w.parameters, w.at)))
            | c ∷ cs ↦ elim (Trie.walk_step regex_match to_string c cs w) [
              | ok (some w') ↦ Trie.walk_loop regex_match to_string fuel w'
              | ok none ↦ some (ok none)
              | throws e ↦ some (throws e)
              | undefined ↦ some undefined
            ]
          ])
            ≢ none
      rounds [] next = λ x. cc
      rounds (c ∷ cs) next =
          after (Trie.walk_step regex_match to_string c cs w)
            (walk_step-Descends c cs w.at w.rest w.stack w.parameters) next

  -- `match` comes to a result in any trie and for any path: the walk back to wildcards does not go
  -- round in circles.
  pub match-ends :
      (root : Node) (path : Bytes)
      → (r : Result (Option (Headers × Bytes))) × (Trie.match regex_match to_string root path
          ≡ some r)
  unfolding Trie.match Trie.walk_path
  match-ends root [] = (undefined, refl)
  match-ends root (c ∷ path) =
      elim (Option-cases (Trie.walk_path regex_match to_string root (c ∷ path))) [
        | inl out ↦ absurd (
            walk_loop-ends (count root)
              (record { at = root; rest = c ∷ path; stack = []; parameters = [] }) (omega arith)
              out)
        | inr (r, e) ↦ (
          r >>= λ found. ok (Trie.to_result regex_match to_string found),
          rw (e, Trie.match) refl,
        )
      ]
