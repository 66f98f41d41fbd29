-- ===== src/Http/Trie/Literals.antt =====
-- A trie of routes without parameters is a dictionary of their texts.
use liblw.Prelude.{
  ℕ, zero, suc, ◌≤◌, ◌≡◌, refl, sym, ap, ◌∙◌, Bool, true, false, ◌||◌, List, [], ◌∷◌, map, Option,
  none, some, arith, if◌then◌else◌, Option-cases, Bool-cases, inl, inr,
}
use mathlib.Core.Path.{subst}
use liblw.Base.Chars.{Bytes}
use liblw.Base.Views.{same_bytes}
use liblw.Err.{Result, ok}
use liblw.Http.Headers.{Headers}
use liblw.Http.MountPath.{literal}
use liblw.Http.MountPath.Segments.{path_of}
use liblw.Http.Trie as Trie
use liblw.Http.Trie.{
  Node, node, Children, nil, child, Wildcard, no_wildcard, wildcard, fresh, byte, wild, Outcome,
  moves_of, at_child, insert_at, insert, count, count_children, find_child, Walk, children,
  wildcard_of,
}
use liblw.Http.Trie.Ends.{find_child-count}
use liblw.Http.Trie.Dictionary.{
  descend, endpoint, lookup, HasNoWildcards, find_child-HasNoWildcards, first_route, lookup-fresh,
  insert_at-byte, insert_at-HasNoWildcards, moves_of-literal, same_bytes→eq,
}

module _ (regex_match : Bytes → Bytes → Option Bytes) (to_string : ℕ → Bytes) where
  abbrev found_at : Option Node → Trie.Found regex_match to_string
  found_at none = none
  found_at (some n) = some ([], n)

  walk_loop-HasNoWildcards :
      (rest : Bytes) (fuel : ℕ) (n : Node)
      → HasNoWildcards n
      → count n ≤ fuel
      → Trie.walk_loop regex_match to_string fuel
          (record { at = n; rest = rest; stack = []; parameters = [] })
        ≡ some (ok (found_at (descend rest n)))
  unfolding Trie.walk_loop descend count
  walk_loop-HasNoWildcards [] zero n h le = refl
  walk_loop-HasNoWildcards [] (suc fuel) n h le = refl
  walk_loop-HasNoWildcards (c ∷ cs) fuel (node chs (wildcard m n) e) h le = absurd h
  walk_loop-HasNoWildcards (c ∷ cs) zero (node chs no_wildcard e) h le = absurd (omega arith)
  walk_loop-HasNoWildcards (c ∷ cs) (suc fuel) (node chs no_wildcard e) h le =
      elim (Option-cases (find_child c chs)) [
        | inl absent ↦ rw (absent, Trie.walk_loop, Trie.walk_step, descend) refl
        | inr (n, there) ↦
            rw (there, Trie.walk_loop, Trie.walk_step, descend)
              (walk_loop-HasNoWildcards cs fuel n (find_child-HasNoWildcards c chs {n = n} h there)
                (omega (arith, find_child-count c chs there)))
      ]

  -- the result for a route that was found, or was not
  abbrev pub without_parameters : Option Bytes → Option (Headers × Bytes)
  without_parameters none = none
  without_parameters (some route) = some ([], route)

  to_result-found_at :
      (n : Option Node)
      → Trie.to_result regex_match to_string (found_at n) ≡ without_parameters (endpoint n)
  unfolding Trie.to_result
  to_result-found_at none = refl
  to_result-found_at (some (node cs w none)) = refl
  to_result-found_at (some (node cs w (some e))) = refl

  match-lookup :
      (root : Node) (c : ℕ) (path : Bytes)
      → HasNoWildcards root
      → Trie.match regex_match to_string root (c ∷ path)
        ≡ some (ok (without_parameters (lookup (c ∷ path) root)))
  unfolding Trie.match Trie.walk_path
  match-lookup root c path h =
      rw
        (
          walk_loop-HasNoWildcards (c ∷ path) (count root) root h (omega arith),
          Trie.match,
          Trie.walk_path,
        )
        (ap (λ r. some (ok r)) (to_result-found_at (descend (c ∷ path) root)))

-- Each endpoint is put into the trie under its own text, in their order.
abbrev pub add_all : List (List Bytes) → Node → Node
add_all [] root = root
add_all (ps ∷ rest) root = add_all rest (insert (map literal ps) (path_of ps) root).1

-- whether a path is the text of one of the endpoints
abbrev pub names_one : Bytes → List (List Bytes) → Bool
names_one path [] = false
names_one path (ps ∷ rest) = same_bytes (path_of ps) path || names_one path rest

abbrev pub HaveParts : List (List Bytes) → Type 0
HaveParts [] = Unit
HaveParts ([] ∷ rest) = ⊥
HaveParts ((p ∷ ps) ∷ rest) = HaveParts rest

abbrev or_path : Option Bytes → Bool → Bytes → Option Bytes
or_path (some old) b path = some old
or_path none b path = if b then some path else none

insert-lookup :
    (p : Bytes) (ps : List Bytes) (root : Node) (path : Bytes)
    → lookup path (insert (map literal (p ∷ ps)) (path_of (p ∷ ps)) root).1
      ≡ or_path (lookup path root) (same_bytes (path_of (p ∷ ps)) path) path
unfolding insert
insert-lookup p ps root path =
    ap (λ ms. lookup path (insert_at ms (path_of (p ∷ ps)) root).1) (moves_of-literal (p ∷ ps))
    ∙ (insert_at-byte (path_of (p ∷ ps)) (path_of (p ∷ ps)) root path).1
    ∙ elim (Bool-cases (same_bytes (path_of (p ∷ ps)) path)) [
      | inr other ↦ rw other (kept (lookup path root))
      | inl same ↦
          rw same (rw (same_bytes→eq (path_of (p ∷ ps)) path same) (first (lookup path root)))
    ]
  where
    kept : (o : Option Bytes) → o ≡ or_path o false path
    kept none = refl
    kept (some old) = refl

    first : (o : Option Bytes) → some (first_route o path) ≡ or_path o true path
    first none = refl
    first (some old) = refl

or_path-or :
    (o : Option Bytes) (a b : Bool) (path : Bytes)
    → or_path (or_path o a path) b path ≡ or_path o (a || b) path
or_path-or none true b path = refl
or_path-or none false b path = refl
or_path-or (some old) a b path = refl

add_all-lookup :
    (rs : List (List Bytes)) (root : Node) (path : Bytes)
    → HaveParts rs
    → lookup path (add_all rs root) ≡ or_path (lookup path root) (names_one path rs) path
add_all-lookup [] root path h = kept (lookup path root)
  where
    kept : (o : Option Bytes) → o ≡ or_path o false path
    kept none = refl
    kept (some old) = refl
add_all-lookup ([] ∷ rest) root path h = absurd h
add_all-lookup ((p ∷ ps) ∷ rest) root path h =
    add_all-lookup rest (insert (map literal (p ∷ ps)) (path_of (p ∷ ps)) root).1 path h
    ∙ ap (λ o. or_path o (names_one path rest) path) (insert-lookup p ps root path)
    ∙ or_path-or (lookup path root) (same_bytes (path_of (p ∷ ps)) path) (names_one path rest) path

add_all-HasNoWildcards :
    (rs : List (List Bytes)) (root : Node)
    → HaveParts rs
    → HasNoWildcards root
    → HasNoWildcards (add_all rs root)
unfolding insert
add_all-HasNoWildcards [] root h k = k
add_all-HasNoWildcards ([] ∷ rest) root h k = absurd h
add_all-HasNoWildcards ((p ∷ ps) ∷ rest) root h k = add_all-HasNoWildcards rest _ h (
    subst (λ ms. HasNoWildcards (insert_at ms (path_of (p ∷ ps)) root).1)
      (sym (moves_of-literal (p ∷ ps)))
      (insert_at-HasNoWildcards (path_of (p ∷ ps)) (path_of (p ∷ ps)) root k))

module _ (regex_match : Bytes → Bytes → Option Bytes) (to_string : ℕ → Bytes) where
  -- When endpoints without parameters are put into a trie, a path matches exactly if it is the text
  -- of one of them, byte for byte, and then it gives that endpoint and no parameters.
  pub match-add_all :
      (rs : List (List Bytes)) (c : ℕ) (path : Bytes)
      → HaveParts rs
      → Trie.match regex_match to_string (add_all rs fresh) (c ∷ path)
        ≡ some (ok (if names_one (c ∷ path) rs then some ([], c ∷ path) else none))
  match-add_all rs c path h =
      match-lookup regex_match to_string (add_all rs fresh) c path
        (add_all-HasNoWildcards rs fresh h tt)
      ∙ ap (λ o. some (ok (without_parameters regex_match to_string o)))
          (add_all-lookup rs fresh (c ∷ path) h
            ∙ ap (λ o. or_path o (names_one (c ∷ path) rs) (c ∷ path)) (lookup-fresh (c ∷ path)))
      ∙ split (names_one (c ∷ path) rs)
    where
      split :
          (b : Bool)
          → ◌≡◌ {A = Option (Result (Option (Headers × Bytes)))}
              (some (ok (without_parameters regex_match to_string (or_path none b (c ∷ path)))))
              (some (ok (if b then some ([], c ∷ path) else none)))
      split true = refl
      split false = refl
