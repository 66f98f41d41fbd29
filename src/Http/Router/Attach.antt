-- ===== src/Http/Router/Attach.antt =====
-- `HttpRouter::attach_routes` of lw/http/http.cpp, and what it does with endpoints that have no
-- parameters.
use liblw.Prelude.{◌≡◌, refl, sym, ap, ◌∙◌, Bool, List, [], ◌∷◌, ◌++◌, map, none}
use liblw.Base.Chars.{Bytes}
use liblw.Err.{ok}
use liblw.Http.MountPath.{literal, separator}
use liblw.Http.MountPath.Segments.{path_of}
use liblw.Http.MountPath.Endpoints.{plain, IsPlain, AreSegments, endpoint_of, matchers_of}
use liblw.Http.MountPath.Parse.{parse_into_matchers}
use liblw.Http.MountPath.RoundTrip.{parse_into_matchers-endpoint_of}
use liblw.Http.Trie as Trie
use liblw.Http.Trie.{Node, insert_at, moves_of}
use liblw.Http.Trie.Dictionary.{lookup, insert_at-byte, moves_of-literal, outcome}
use liblw.Http.Trie.Literals.{add_all}
use liblw.Err.Action.{Action, pure, lift, ◌>>=◌, ◌>>◌}

-- `attach_routes`: an exception leaves the routes behind it out.
module _ (is_pattern : Bytes → Bool) where
  unfoldable pub attach_routes : List Bytes → Action Node (Unit {0})
  attach_routes [] = pure tt
  attach_routes (route ∷ routes) = do
    matchers ← lift (parse_into_matchers is_pattern route)
    Trie.insert matchers route
    attach_routes routes

-- The parts of an endpoint are not empty, do not begin like a parameter and hold no separator.
abbrev pub AreLiterals : List Bytes → Type 0
AreLiterals [] = Unit
AreLiterals (p ∷ ps) = IsPlain p × AreLiterals ps

-- Each endpoint has parts, and the trie has no endpoint of its text when its turn comes.
abbrev pub AreNew : Node → List (List Bytes) → Type 0
AreNew root [] = Unit
AreNew root ([] ∷ rest) = ⊥
AreNew root ((p ∷ ps) ∷ rest) =
    AreLiterals (p ∷ ps)
    × ((lookup (path_of (p ∷ ps)) root ≡ none)
        × AreNew (Trie.insert (map literal (p ∷ ps)) (path_of (p ∷ ps)) root).1 rest)

endpoint_of-plain : (ps : List Bytes) → endpoint_of (map plain ps) ≡ path_of ps
endpoint_of-plain [] = refl
endpoint_of-plain (p ∷ ps) = ap (λ r. separator ∷ (p ++ r)) (endpoint_of-plain ps)

matchers_of-plain : (ps : List Bytes) → matchers_of none (map plain ps) ≡ map literal ps
matchers_of-plain [] = refl
matchers_of-plain (p ∷ ps) = ap (λ r. literal p ∷ r) (matchers_of-plain ps)

plain-AreSegments : (ps : List Bytes) → AreLiterals ps → AreSegments (map plain ps)
plain-AreSegments [] h = tt
plain-AreSegments (p ∷ ps) h = (h.0, plain-AreSegments ps h.1)

module _ (is_pattern : Bytes → Bool) where
  parse_into_matchers-literal :
      (ps : List Bytes)
      → AreLiterals ps
      → parse_into_matchers is_pattern (path_of ps) ≡ ok (map literal ps)
  parse_into_matchers-literal ps h =
      ap (parse_into_matchers is_pattern) (sym (endpoint_of-plain ps))
      ∙ parse_into_matchers-endpoint_of is_pattern (map plain ps) (plain-AreSegments ps h)
      ∙ ap ok (matchers_of-plain ps)

  insert-ok :
      (p : Bytes) (ps : List Bytes) (root : Node)
      → lookup (path_of (p ∷ ps)) root ≡ none
      → (Trie.insert (map literal (p ∷ ps)) (path_of (p ∷ ps)) root).0 ≡ ok tt
  unfolding Trie.insert
  insert-ok p ps root free =
      ap (λ ms. (insert_at ms (path_of (p ∷ ps)) root).0) (moves_of-literal (p ∷ ps))
      ∙ (insert_at-byte (path_of (p ∷ ps)) (path_of (p ∷ ps)) root []).0
      ∙ ap outcome free

  -- Endpoints without parameters that the trie does not have are attached without an error, each
  -- under its text, and the trie is the one that they make when they are put into it one by one.
  pub attach_routes-add_all :
      (rs : List (List Bytes)) (root : Node)
      → AreNew root rs
      → attach_routes is_pattern (map path_of rs) root ≡ (ok tt, add_all rs root)
  unfolding attach_routes
  attach_routes-add_all [] root h = refl
  attach_routes-add_all ([] ∷ rest) root h = absurd h
  attach_routes-add_all ((p ∷ ps) ∷ rest) root h =
      rw (parse_into_matchers-literal (p ∷ ps) h.0, insert-ok p ps root h.1.0)
        (attach_routes-add_all rest (Trie.insert (map literal (p ∷ ps)) (path_of (p ∷ ps)) root).1
          h.1.1)
