-- ===== src/Http/Trie/Extensions.antt =====
-- A parameter with an extension, in a trie.
use liblw.Prelude.{
  ℕ, zero, suc, ◌-◌, ◌≤◌, ◌<◌, ◌≡◌, refl, sym, ap, ◌∙◌, List, [], ◌∷◌, ◌++◌, map, append_assoc,
  Option, none, some, length, drop, take, leb, arith, ◌==◌, Option-cases, Bool-cases, inl, inr,
}
use mathlib.Core.List.{map-append}
use liblw.Base.Chars.{Bytes}
use liblw.Base.Strings.{equal}
use liblw.Err.{Result, ok, ◌>>=◌}
use liblw.Http.Headers.{Headers}
use liblw.Http.MountPath.{Matcher, literal, parameter, separator, match_part, match_extension}
use liblw.Http.MountPath.Segments.{path_of}
use liblw.Http.Trie as Trie
use liblw.Http.Trie.{
  Node, node, nil, child, no_wildcard, wildcard, fresh, Move, byte, wild, moves_of, insert_at,
  insert, count, Walk, part_of, to_separator,
}
use liblw.Http.Trie.Chains.{chain, insert_at-fresh, count-chain}

length-take : (n : ℕ) (s : Bytes) → length (take n s) ≤ n
length-take zero s = omega arith
length-take (suc n) [] = omega arith
length-take (suc n) (c ∷ s) = omega (arith, length-take n s)

-- What is captured is shorter than the part.
match_extension-shorter :
    (e : ℕ) (xs part : Bytes) {v : Bytes}
    → match_extension (e ∷ xs) part ≡ some v
    → length v < length part
unfolding match_extension
match_extension-shorter e xs part {v} h = elim (Bool-cases (leb (length part) (length (e ∷ xs)))) [
  | inl short ↦ absurd (no_some (rw⁻¹ h (rw short refl)))
  | inr longer ↦ elim (Bool-cases (equal (e ∷ xs) (drop (length part - length (e ∷ xs)) part))) [
    | inr differs ↦ absurd (no_some (rw⁻¹ h (rw (longer, differs) refl)))
    | inl same ↦
        let p : take (length part - length (e ∷ xs)) part ≡ v =
          injective (rw⁻¹ h (rw (longer, same) refl)) in
        rw⁻¹ p (ground (arith, length-take (length part - length (e ∷ xs)) part))
  ]
]
  where
    no_some : none ≡ some v → ⊥
    no_some p = cc

    injective : {x : Bytes} → some x ≡ some v → x ≡ v
    injective p = cc

length-to_separator : (p : Bytes) → length (to_separator p) ≤ length p
unfolding to_separator
length-to_separator [] = omega arith
length-to_separator (c ∷ p) = ground (arith, length-to_separator p)

length-part_of : (p : Bytes) → length (part_of p) ≤ length p
unfolding part_of
length-part_of [] = omega arith
length-part_of (c ∷ p) = omega (arith, length-to_separator p)

moves_of_literals :
    (qs : List Bytes) (x name extension : Bytes)
    → moves_of (map literal qs ++ (parameter x name extension ∷ []))
      ≡ map byte (path_of qs ++ (separator ∷ [])) ++ (wild (parameter x name extension) ∷ [])
unfolding moves_of
moves_of_literals [] x name extension = refl
moves_of_literals (q ∷ qs) x name extension =
    ap (λ ms. byte separator ∷ (map byte q ++ ms)) (moves_of_literals qs x name extension)
    ∙ simp (map-append, append_assoc)

length-map_byte : (bs : Bytes) (m : Move) → length (map byte bs ++ (m ∷ [])) ≡ suc (length bs)
length-map_byte [] m = refl
length-map_byte (b ∷ bs) m = ap suc (length-map_byte bs m)

drop_left : (n : ℕ) (s : Bytes) → n < length s → (d : ℕ) × ((rest : Bytes) × (drop n s ≡ d ∷ rest))
drop_left n [] h = absurd (omega arith)
drop_left zero (c ∷ s) h = (c, (s, refl))
drop_left (suc n) (c ∷ s) h = drop_left n s (omega arith)

module _ (regex_match : Bytes → Bytes → Option Bytes) (to_string : ℕ → Bytes) where
  -- what `match` makes of the loop's result
  conclude :
      Option (Result (Trie.Found regex_match to_string))
      → Option (Result (Option (Headers × Bytes)))
  conclude none = none
  conclude (some r) = some (r >>= λ found. ok (Trie.to_result regex_match to_string found))

  match-conclude :
      (root : Node) (c : ℕ) (path : Bytes)
      → Trie.match regex_match to_string root (c ∷ path)
        ≡ conclude (Trie.walk_path regex_match to_string root (c ∷ path))
  unfolding Trie.match conclude
  match-conclude root c path =
      elim (Option-cases (Trie.walk_path regex_match to_string root (c ∷ path))) [
        | inl out ↦ rw (out, Trie.match) refl
        | inr (r, e) ↦ rw (e, Trie.match) refl
      ]

  module _ (x name : Bytes) (e : ℕ) (xs : Bytes) (route : Bytes) where
    -- the endpoint's last part, and what stands before it
    abbrev last : Matcher
    last = parameter x name (e ∷ xs)

    abbrev at_moves : ℕ → Bytes → Bytes → Option (Result (Option (Headers × Bytes)))
    at_moves fuel bs rest = conclude (
        Trie.walk_loop regex_match to_string fuel (record {
          at = chain (map byte bs ++ (wild last ∷ [])) route;
          rest = rest;
          stack = [];
          parameters = [];
        }))

    at_wild : (fuel : ℕ) (c : ℕ) (p : Bytes) → 1 < fuel → at_moves fuel [] (c ∷ p) ≡ some (ok none)
    unfolding conclude Trie.walk_loop chain match_part Trie.to_result
    at_wild zero c p h = absurd (omega arith)
    at_wild (suc zero) c p h = absurd (omega arith)
    at_wild (suc (suc fuel)) c p h =
        elim (Option-cases (match_extension (e ∷ xs) (part_of (c ∷ p)))) [
          | inl no_match ↦
              rw (no_match, Trie.walk_loop, Trie.walk_step, Trie.walk_back, match_part) refl
          | inr (v, found) ↦
              let (d, (rest, left)) = drop_left (length v) (c ∷ p) (
                omega (
                  arith,
                  match_extension-shorter e xs (part_of (c ∷ p)) found,
                  length-part_of (c ∷ p),
                )) in
              rw (found, Trie.walk_loop, Trie.walk_step, Trie.walk_back, match_part)
                (rw (left, Trie.walk_loop) refl)
        ]

    no_match_at :
        (bs rest : Bytes) (fuel : ℕ)
        → suc (length bs) < fuel
        → at_moves fuel bs rest ≡ some (ok none)
    unfolding conclude Trie.walk_loop chain Trie.to_result
    no_match_at bs rest zero h = absurd (omega arith)
    no_match_at [] [] (suc fuel) h = refl
    no_match_at (b ∷ bs) [] (suc fuel) h = refl
    no_match_at [] (c ∷ rest) (suc fuel) h = at_wild (suc fuel) c rest h
    no_match_at (b ∷ bs) (c ∷ rest) (suc fuel) h = elim (Bool-cases (c == b)) [
      | inl same ↦
          rw (same, Trie.walk_loop, Trie.walk_step, Trie.find_child)
            (no_match_at bs rest fuel (omega arith))
      | inr other ↦ rw (other, Trie.walk_loop, Trie.walk_step, Trie.find_child) refl
    ]

  -- An endpoint that is literals and, at its end, a parameter with an extension: in a trie that has
  -- it alone no path matches, since the walk goes on at the extension, which the parameter does not
  -- capture.
  pub match_extension_none :
      (qs : List Bytes) (x name : Bytes) (e : ℕ) (xs route : Bytes) (c : ℕ) (path : Bytes)
      → Trie.match regex_match to_string
          (insert (map literal qs ++ (parameter x name (e ∷ xs) ∷ [])) route fresh).1
          (c ∷ path)
        ≡ some (ok none)
  unfolding insert moves_of
  match_extension_none qs x name e xs route c path =
      ap (λ root. Trie.match regex_match to_string root (c ∷ path)) (as_chain qs)
      ∙ match-conclude (chain moves route) c path
      ∙ unfold Trie.walk_path in
        no_match_at x name e xs route (path_of qs ++ (separator ∷ [])) (c ∷ path)
          (count (chain moves route)) (omega (arith, count-chain moves route, length-moves))
    where
      moves : List Move
      moves = map byte (path_of qs ++ (separator ∷ [])) ++ (wild (parameter x name (e ∷ xs)) ∷ [])

      as_chain :
          (qs : List Bytes)
          → (insert (map literal qs ++ (parameter x name (e ∷ xs) ∷ [])) route fresh).1
            ≡ chain
                (map byte (path_of qs ++ (separator ∷ []))
                  ++ (wild (parameter x name (e ∷ xs)) ∷ []))
                route
      as_chain [] =
          ap (λ r. r.1) (insert_at-fresh (moves_of (parameter x name (e ∷ xs) ∷ [])) route)
      as_chain (q ∷ qs) =
          ap (λ r. r.1)
            (insert_at-fresh (moves_of (map literal (q ∷ qs) ++ (parameter x name (e ∷ xs) ∷ [])))
              route)
          ∙ ap (λ ms. chain ms route) (moves_of_literals (q ∷ qs) x name (e ∷ xs))

      length-moves : suc (length (path_of qs ++ (separator ∷ []))) ≡ length moves
      length-moves =
          sym (length-map_byte (path_of qs ++ (separator ∷ [])) (wild (parameter x name (e ∷ xs))))
