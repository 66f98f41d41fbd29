-- ===== src/Http/Trie/Chains.antt =====
-- A trie with one endpoint, and a path whose parts its matchers take whole.
use liblw.Prelude.{
  ℕ, zero, suc, ◌<◌, ◌≡◌, refl, ap, ◌∙◌, true, List, [], ◌∷◌, ◌++◌, map, Option, none, some, length,
  arith, ◌==◌,
}
use mathlib.Core.Path.{subst}
use liblw.Base.Chars.{Bytes}
use liblw.Base.Strings.Equality.{equal_iff}
use liblw.Base.Views.Cut.{Lacks, drop-append}
use liblw.Err.{Result, ok}
use liblw.Http.Headers.{Headers, assign}
use liblw.Http.MountPath as MountPath
use liblw.Http.MountPath.{
  Matcher, literal, parameter, validated, regex, separator, match_part, store, match_path,
}
use liblw.Http.MountPath.Segments.{path_of, IsPart, AreParts, match_parts, match_path-parts}
use liblw.Http.Trie as Trie
use liblw.Http.Trie.{
  Node, node, nil, child, no_wildcard, wildcard, fresh, Move, byte, wild, moves_along, moves_of,
  insert_at, insert, at_child, at_wildcard, find_child, count, Walk, part_of, to_separator,
}

unfoldable pub chain : List Move → Bytes → Node
chain [] route = node nil no_wildcard (some route)
chain (byte c ∷ ms) route = node (child c (chain ms route) nil) no_wildcard none
chain (wild m ∷ ms) route = node nil (wildcard m (chain ms route)) none

pub insert_at-fresh :
    (ms : List Move) (route : Bytes) → insert_at ms route fresh ≡ (ok tt, chain ms route)
unfolding insert_at chain at_child at_wildcard
insert_at-fresh [] route = refl
insert_at-fresh (byte c ∷ ms) route = rw (insert_at-fresh ms route) refl
insert_at-fresh (wild m ∷ ms) route = rw (insert_at-fresh ms route) refl

pub count-chain : (ms : List Move) (route : Bytes) → count (chain ms route) ≡ suc (length ms)
unfolding chain count
count-chain [] route = refl
count-chain (byte c ∷ ms) route = omega (arith, count-chain ms route)
count-chain (wild m ∷ ms) route = omega (arith, count-chain ms route)

to_separator-Lacks :
    (p : Bytes) (ps : List Bytes) → Lacks separator p → to_separator (p ++ path_of ps) ≡ p
unfolding to_separator
to_separator-Lacks [] [] h = refl
to_separator-Lacks [] (q ∷ ps) h = refl
to_separator-Lacks (c ∷ p) ps h = ground (arith, to_separator-Lacks p ps h.1)

part_of-IsPart : (p : Bytes) (ps : List Bytes) → IsPart p → part_of (p ++ path_of ps) ≡ p
unfolding part_of
part_of-IsPart [] ps h = absurd h
part_of-IsPart (c ∷ p) ps h = ap (◌∷◌ c) (to_separator-Lacks p ps h.1)

module _ (regex_match : Bytes → Bytes → Option Bytes) (to_string : ℕ → Bytes) where
  -- A literal has the bytes of its part; any other matcher takes the part, and all of it.
  abbrev pub Fits : Matcher → Bytes → Type 0
  Fits (literal chunk) p = (chunk ≡ p) × IsPart p
  Fits m p = (match_part regex_match to_string m p ≡ ok (some p)) × IsPart p

  abbrev pub Fit : List Matcher → List Bytes → Type 0
  Fit [] [] = Unit
  Fit (m ∷ ms) (p ∷ ps) = Fits m p × Fit ms ps
  Fit _ _ = ⊥

  abbrev pub captured : List Matcher → List Bytes → Headers → Headers
  captured (m ∷ ms) (p ∷ ps) parameters =
      captured ms ps (store regex_match to_string m p parameters)
  captured _ _ parameters = parameters

  abbrev loop :
      ℕ → List Move → Bytes → Bytes → Headers → Option (Result (Trie.Found regex_match to_string))
  loop fuel ms route rest parameters =
      Trie.walk_loop regex_match to_string fuel
        (record { at = chain ms route; rest = rest; stack = []; parameters = parameters })

  loop-byte :
      {out : Option (Result (Trie.Found regex_match to_string))} (bs : Bytes) (ms : List Move)
      (route rest : Bytes) (parameters : Headers) (fuel : ℕ)
      → ((f : ℕ) → length ms < f → loop f ms route rest parameters ≡ out)
      → length (map byte bs ++ ms) < fuel
      → loop fuel (map byte bs ++ ms) route (bs ++ rest) parameters ≡ out
  unfolding Trie.walk_loop chain
  loop-byte [] ms route rest parameters fuel next h = next fuel h
  loop-byte (b ∷ bs) ms route rest parameters zero next h = absurd (omega arith)
  loop-byte (b ∷ bs) ms route rest parameters (suc fuel) next h =
      rw (same, Trie.walk_loop, Trie.walk_step, find_child)
        (loop-byte bs ms route rest parameters fuel next (omega arith))
    where
      same : (b == b) ≡ true
      same = ground arith

  loop-wild :
      {out : Option (Result (Trie.Found regex_match to_string))} (m : Matcher) (p : Bytes)
      (ps : List Bytes) (ms : List Move) (route : Bytes) (parameters : Headers) (fuel : ℕ)
      → match_part regex_match to_string m p ≡ ok (some p)
      → IsPart p
      → ((f : ℕ)
          → length ms < f
          → loop f ms route
              (path_of ps)
              (assign (MountPath.name_of regex_match to_string m) p parameters)
            ≡ out)
      → length (wild m ∷ ms) < fuel
      → loop fuel (wild m ∷ ms) route (p ++ path_of ps) parameters ≡ out
  unfolding Trie.walk_loop chain
  loop-wild m [] ps ms route parameters fuel e i next h = absurd i
  loop-wild m (c ∷ p) ps ms route parameters zero e i next h = absurd (omega arith)
  loop-wild m (c ∷ p) ps ms route parameters (suc fuel) e i next h =
      rw (part_of-IsPart (c ∷ p) ps i, e, Trie.walk_loop, Trie.walk_step, Trie.walk_back)
        (rw (drop-append p (path_of ps)) (next fuel (omega arith)))

  loop-Fit :
      (ms : List Matcher) (ps : List Bytes) (route : Bytes) (parameters : Headers) (fuel : ℕ)
      → Fit ms ps
      → length (moves_of ms) < fuel
      → loop fuel (moves_of ms) route (path_of ps) parameters
        ≡ some (ok (some (captured ms ps parameters, chain [] route)))
  unfolding moves_of
  loop-Fit [] [] route parameters zero f h = absurd (omega arith)
  loop-Fit [] [] route parameters (suc fuel) f h = unfold Trie.walk_loop chain in refl
  loop-Fit [] (p ∷ ps) route parameters fuel f h = absurd f
  loop-Fit (m ∷ ms) [] route parameters fuel f h = absurd f
  loop-Fit (literal chunk ∷ ms) (p ∷ ps) route parameters fuel f h = rw (f.0.0) (
      loop-byte (separator ∷ p) (moves_of ms) route (path_of ps) parameters fuel
        (λ n le. loop-Fit ms ps route parameters n f.1 le)
        (subst (λ x. length (byte separator ∷ (map byte x ++ moves_of ms)) < fuel) f.0.0 h))
  loop-Fit (parameter x y z ∷ ms) (p ∷ ps) route parameters fuel f h =
      loop-byte (separator ∷ []) (wild (parameter x y z) ∷ moves_of ms) route (p ++ path_of ps)
        parameters fuel
        (λ n le.
          loop-wild (parameter x y z) p ps (moves_of ms) route parameters n f.0.0 f.0.1
            (λ k lk. loop-Fit ms ps route _ k f.1 lk) le)
        h
  loop-Fit (validated x y z v ∷ ms) (p ∷ ps) route parameters fuel f h =
      loop-byte (separator ∷ []) (wild (validated x y z v) ∷ moves_of ms) route (p ++ path_of ps)
        parameters fuel
        (λ n le.
          loop-wild (validated x y z v) p ps (moves_of ms) route parameters n f.0.0 f.0.1
            (λ k lk. loop-Fit ms ps route _ k f.1 lk) le)
        h
  loop-Fit (regex i x ∷ ms) (p ∷ ps) route parameters fuel f h =
      loop-byte (separator ∷ []) (wild (regex i x) ∷ moves_of ms) route (p ++ path_of ps) parameters
        fuel
        (λ n le.
          loop-wild (regex i x) p ps (moves_of ms) route parameters n f.0.0 f.0.1
            (λ k lk. loop-Fit ms ps route _ k f.1 lk) le)
        h

  match_parts-Fit :
      (ms : List Matcher) (ps : List Bytes) (parameters : Headers)
      → Fit ms ps
      → match_parts regex_match to_string ms parameters ps ≡ ok (some (captured ms ps parameters))
  unfolding match_parts MountPath.take_part
  match_parts-Fit [] [] parameters f = refl
  match_parts-Fit [] (p ∷ ps) parameters f = absurd f
  match_parts-Fit (m ∷ ms) [] parameters f = absurd f
  match_parts-Fit (literal chunk ∷ ms) (p ∷ ps) parameters f =
      rw (f.0.0, same p) (match_parts-Fit ms ps parameters f.1)
    where
      same : (p : Bytes) → match_part regex_match to_string (literal p) p ≡ ok (some p)
      same p = unfold match_part in rw ((equal_iff p p).1 refl) refl
  match_parts-Fit (parameter x y z ∷ ms) (p ∷ ps) parameters f =
      rw (f.0.0) (match_parts-Fit ms ps _ f.1)
  match_parts-Fit (validated x y z v ∷ ms) (p ∷ ps) parameters f =
      rw (f.0.0) (match_parts-Fit ms ps _ f.1)
  match_parts-Fit (regex i x ∷ ms) (p ∷ ps) parameters f = rw (f.0.0) (match_parts-Fit ms ps _ f.1)

  Fit-AreParts : (ms : List Matcher) (ps : List Bytes) → Fit ms ps → AreParts ps
  Fit-AreParts [] [] f = tt
  Fit-AreParts [] (p ∷ ps) f = absurd f
  Fit-AreParts (m ∷ ms) [] f = absurd f
  Fit-AreParts (literal chunk ∷ ms) (p ∷ ps) f = (f.0.1, Fit-AreParts ms ps f.1)
  Fit-AreParts (parameter x y z ∷ ms) (p ∷ ps) f = (f.0.1, Fit-AreParts ms ps f.1)
  Fit-AreParts (validated x y z v ∷ ms) (p ∷ ps) f = (f.0.1, Fit-AreParts ms ps f.1)
  Fit-AreParts (regex i x ∷ ms) (p ∷ ps) f = (f.0.1, Fit-AreParts ms ps f.1)

  match-chain :
      (m : Matcher) (ms : List Matcher) (p : Bytes) (ps : List Bytes) (route : Bytes)
      → Fit (m ∷ ms) (p ∷ ps)
      → Trie.match regex_match to_string (chain (moves_of (m ∷ ms)) route) (path_of (p ∷ ps))
        ≡ some (ok (some (captured (m ∷ ms) (p ∷ ps) [], route)))
  unfolding Trie.match Trie.walk_path chain
  match-chain m ms p ps route f =
      rw
        (
          loop-Fit (m ∷ ms) (p ∷ ps) route [] (count (chain (moves_of (m ∷ ms)) route)) f
              (omega (arith, count-chain (moves_of (m ∷ ms)) route)),
          Trie.match,
          Trie.walk_path,
        )
        refl

  -- Let a trie have one endpoint, and let a path have as many parts, each exactly the literal of the
  -- endpoint, in its case, or taken whole by the endpoint's matcher. Then the trie matches and gives
  -- the parameters that `MountPath::match` gives.
  pub match-match_path :
      (m : Matcher) (ms : List Matcher) (p : Bytes) (ps : List Bytes) (route : Bytes)
      → Fit (m ∷ ms) (p ∷ ps)
      → (parameters : Headers) × ((match_path regex_match to_string (m ∷ ms) (path_of (p ∷ ps))
            ≡ ok (some parameters))
          × (Trie.match regex_match to_string (insert (m ∷ ms) route fresh).1 (path_of (p ∷ ps))
              ≡ some (ok (some (parameters, route)))))
  unfolding Trie.match Trie.walk_path insert
  match-match_path m ms p ps route f = (
    captured (m ∷ ms) (p ∷ ps) [],
    (
      match_path-parts regex_match to_string (m ∷ ms) (p ∷ ps) (Fit-AreParts (m ∷ ms) (p ∷ ps) f)
          ∙ match_parts-Fit (m ∷ ms) (p ∷ ps) [] f,
      ap (λ root. Trie.match regex_match to_string root (path_of (p ∷ ps)))
            (ap (λ r. r.1) (insert_at-fresh (moves_of (m ∷ ms)) route))
          ∙ match-chain m ms p ps route f,
    ),
  )
