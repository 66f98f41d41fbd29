-- ===== src/Http/Trie.antt =====
-- `BaseEndpointTrie` and `EndpointTrie` of lw/http/internal/http_mount_path.h and .cpp. An endpoint
-- is its route, the one thing that the trie reads of it.
pub mod Ends
pub mod Dictionary
pub mod Literals
pub mod Chains
pub mod Extensions
mod Tests
use liblw.Prelude.{
  ℕ, zero, suc, ◌+◌, Bool, true, false, List, [], ◌∷◌, ◌++◌, map, Option, none, some, length, drop,
  ◌==◌, if◌then◌else◌,
}
use liblw.Base.Chars.{Bytes}
use liblw.Base.Views.{same_bytes}
use liblw.Err.{Result, ok, throws, undefined, already_exists, ◌>>=◌}
use liblw.Http.Headers.{Headers, assign}
use liblw.Http.MountPath.{
  Matcher, literal, parameter, validated, regex, separator, match_part, name_of,
}

-- `BaseTrieNode`, and the `endpoint` that `TrieNode` adds. The children of one node differ in their
-- bytes, so the order of the unordered map does not show.
mutual
  pub data Node : Type 0 where
    node : Children → Wildcard → Option Bytes → Node

  pub data Children : Type 0 where
    nil : Children
    child : ℕ → Node → Children → Children

  pub data Wildcard : Type 0 where
    no_wildcard : Wildcard
    wildcard : Matcher → Node → Wildcard

-- how many nodes there are
unfoldable mutual
  pub count : Node → ℕ
  count (node cs w _) = suc (count_children cs + count_wildcard w)

  pub count_children : Children → ℕ
  count_children nil = 0
  count_children (child _ n cs) = count n + count_children cs

  pub count_wildcard : Wildcard → ℕ
  count_wildcard no_wildcard = 0
  count_wildcard (wildcard _ n) = count n

abbrev pub fresh : Node
fresh = node nil no_wildcard none

-- `chunk()`
abbrev pub chunk_of : Matcher → Bytes
chunk_of (literal chunk) = chunk
chunk_of (parameter chunk _ _) = chunk
chunk_of (validated chunk _ _ _) = chunk
chunk_of (regex _ chunk) = chunk

-- A move of `build_path` down the trie: along a byte, or along the wildcard.
pub data Move : Type 0 where
  byte : ℕ → Move
  wild : Matcher → Move

abbrev pub moves_along : Matcher → List Move
moves_along (literal chunk) = map byte chunk
moves_along m = wild m ∷ []

-- the body of the loop of `build_path` for each matcher
unfoldable pub moves_of : List Matcher → List Move
moves_of [] = []
moves_of (m ∷ ms) = byte separator ∷ (moves_along m ++ moves_of ms)

unfoldable pub find_child : ℕ → Children → Option Node
find_child c nil = none
find_child c (child d n cs) = if c == d then some n else find_child c cs

abbrev pub Outcome : Type 0 → Type 0
Outcome A = Result (Unit {0}) × A

-- A child that is not there is made first; `k` changes the child.
unfoldable pub at_child : ℕ → (Node → Outcome Node) → Children → Outcome Children
at_child c k nil = let done = k fresh in (done.0, child c done.1 nil)
at_child c k (child d n cs) =
    let here = k n in
    let there = at_child c k cs in
    if c == d then (here.0, child d here.1 cs) else (there.0, child d n there.1)

-- A wildcard with another chunk is a collision, and stays.
unfoldable pub at_wildcard : Matcher → (Node → Outcome Node) → Wildcard → Outcome Wildcard
at_wildcard m k no_wildcard = let done = k fresh in (done.0, wildcard m done.1)
at_wildcard m k (wildcard m' n) =
    let done = k n in
    if same_bytes (chunk_of m') (chunk_of m)
    then (done.0, wildcard m' done.1)
    else (throws already_exists, wildcard m' n)

-- the end of `EndpointTrie::insert`, at the node that `build_path` gives
abbrev pub set_endpoint : Bytes → Node → Outcome Node
set_endpoint route (node cs w none) = (ok tt, node cs w (some route))
set_endpoint route (node cs w (some e)) = (throws already_exists, node cs w (some e))

-- `build_path` and `insert`: what was made before a collision stays in the trie.
unfoldable pub insert_at : List Move → Bytes → Node → Outcome Node
unfolding at_child at_wildcard
insert_at [] route n = set_endpoint route n
insert_at (byte c ∷ ms) route (node cs w e) =
    let done = at_child c (insert_at ms route) cs in (done.0, node done.1 w e)
insert_at (wild m ∷ ms) route (node cs w e) =
    let done = at_wildcard m (insert_at ms route) w in (done.0, node cs done.1 e)

-- `EndpointTrie::insert`. The root is no `TrieNode`: an endpoint without parts asks it for an
-- endpoint that it does not have.
unfoldable pub insert : List Matcher → Bytes → Node → Outcome Node
unfolding insert_at moves_of
insert [] route root = (undefined, root)
insert (m ∷ ms) route root = insert_at (moves_of (m ∷ ms)) route root

-- A wildcard with the path from the index at which its node was reached.
pub record Pending : Type 0 where
  pub matcher : Matcher
  pub target : Node
  pub rest : Bytes

abbrev pub push : Wildcard → Bytes → List Pending → List Pending
push no_wildcard rest stack = stack
push (wildcard m n) rest stack = record { matcher = m; target = n; rest = rest } ∷ stack

unfoldable pub to_separator : Bytes → Bytes
to_separator [] = []
to_separator (c ∷ cs) = let more = c ∷ to_separator cs in if c == separator then [] else more

-- The part of the path that a wildcard looks at: the search for its end begins behind its first
-- byte.
unfoldable pub part_of : Bytes → Bytes
unfolding to_separator
part_of [] = []
part_of (c ∷ cs) = c ∷ to_separator cs

-- where the loop of `walk_path` is
pub record Walk : Type 0 where
  pub at : Node
  pub rest : Bytes
  pub stack : List Pending
  pub parameters : Headers

abbrev pub children : Node → Children
children (node cs _ _) = cs

abbrev pub wildcard_of : Node → Wildcard
wildcard_of (node _ w _) = w

module _ (regex_match : Bytes → Bytes → Option Bytes) (to_string : ℕ → Bytes) where
  -- `i` becomes `wild_i + size - 1`, and one more by the increment of the loop.
  abbrev pub resume : Pending → Bytes → List Pending → Headers → Walk
  resume p value stack parameters = record {
    at = p.target;
    rest = drop (length value) p.rest;
    stack = stack;
    parameters = assign (name_of regex_match to_string p.matcher) value parameters;
  }

  -- The loop over `wildcard_stack`. For the last part of a path `&path[sep_pos]` is an index at the
  -- end of the view, which the standard leaves undefined; it is taken as the pointer to the end.
  unfoldable pub walk_back : List Pending → Headers → Result (Option Walk)
  walk_back [] parameters = ok none
  walk_back (p ∷ stack) parameters =
      match_part regex_match to_string p.matcher (part_of p.rest) >>= λ value. elim value [
        | none ↦ walk_back stack parameters
        | some v ↦ ok (some (resume p v stack parameters))
      ]

  -- One round of the loop, at the byte `c`.
  unfoldable pub walk_step : ℕ → Bytes → Walk → Result (Option Walk)
  unfolding find_child walk_back
  walk_step c cs w =
      let stack = push (wildcard_of w.at) (c ∷ cs) w.stack in
      elim (find_child c (children w.at)) [
        | some n ↦ ok (some (record w { at = n; rest = cs; stack = stack }))
        | none ↦ walk_back stack w.parameters
      ]

  -- the node that the loop ends at, with the parameters, or no node
  abbrev pub Found : Type 0
  Found = Option (Headers × Node)

  unfoldable pub walk_loop : ℕ → Walk → Option (Result Found)
  unfolding walk_step
  walk_loop zero w = elim w.rest [ [] ↦ some (ok (some (w.parameters, w.at))) | _ ∷ _ ↦ none ]
  walk_loop (suc fuel) w = elim w.rest [
    | [] ↦ some (ok (some (w.parameters, w.at)))
    | c ∷ cs ↦ elim (walk_step c cs w) [
      | ok (some w') ↦ walk_loop fuel w'
      | ok none ↦ some (ok none)
      | throws e ↦ some (throws e)
      | undefined ↦ some undefined
    ]
  ]

  -- `walk_path`: each round goes down the trie, so as many rounds as nodes are enough.
  unfoldable pub walk_path : Node → Bytes → Option (Result Found)
  unfolding walk_loop
  walk_path root path =
      walk_loop (count root) (record { at = root; rest = path; stack = []; parameters = [] })

  -- What `match` makes of the node: the parameters and the endpoint.
  unfoldable pub to_result : Found → Option (Headers × Bytes)
  to_result none = none
  to_result (some (parameters, node _ _ none)) = none
  to_result (some (parameters, node _ _ (some route))) = some (parameters, route)

  -- `EndpointTrie::match`. For an empty path it asks the root for an endpoint.
  unfoldable pub match : Node → Bytes → Option (Result (Option (Headers × Bytes)))
  unfolding walk_path to_result
  match root [] = some undefined
  match root (c ∷ path) = elim (walk_path root (c ∷ path)) [
    | none ↦ none
    | some r ↦ some (r >>= λ found. ok (to_result found))
  ]
