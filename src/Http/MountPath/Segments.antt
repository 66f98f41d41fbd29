-- ===== src/Http/MountPath/Segments.antt =====
-- `MountPath::match` on a path of known parts: each matcher against its part, in order.
use liblw.Prelude.{
  ℕ, ◌≡◌, ◌≢◌, refl, ap, ◌∙◌, false, List, [], ◌∷◌, ◌++◌, append_assoc, append-nil, Option, none,
  some, arith, ◌==◌,
}
use liblw.Base.Chars.{Bytes}
use liblw.Base.Views.Cut.{Lacks}
use liblw.Err.{Result, ok, throws, undefined, ◌>>=◌}
use liblw.Http.Headers.{Headers}
use liblw.Http.MountPath.{Matcher, separator, seen}
use liblw.Http.MountPath as MountPath

-- a part of a path: a byte at least, and no separator
abbrev pub IsPart : Bytes → Type 0
IsPart [] = ⊥
IsPart (c ∷ cs) = Lacks separator (c ∷ cs)

abbrev pub AreParts : List Bytes → Type 0
AreParts [] = Unit
AreParts (p ∷ ps) = IsPart p × AreParts ps

-- "/a/b/c"
abbrev pub path_of : List Bytes → Bytes
path_of [] = []
path_of (p ∷ ps) = separator ∷ (p ++ path_of ps)

module _ (regex_match : Bytes → Bytes → Option Bytes) (to_string : ℕ → Bytes) where
  abbrev take_part :
      Matcher → Headers → Bytes → (Headers → Result (Option Headers)) → Result (Option Headers)
  take_part = MountPath.take_part regex_match to_string

  abbrev match_from : List Matcher → Headers → Option Bytes → Bytes → Result (Option Headers)
  match_from = MountPath.match_from regex_match to_string

  abbrev match_path : List Matcher → Bytes → Result (Option Headers)
  match_path = MountPath.match_path regex_match to_string

  -- what a path promises: as many parts as matchers, and each matcher takes its part
  unfoldable pub match_parts : List Matcher → Headers → List Bytes → Result (Option Headers)
  match_parts [] parameters [] = ok (some parameters)
  match_parts [] parameters (_ ∷ _) = ok none
  match_parts (m ∷ ms) parameters [] = ok none
  match_parts (m ∷ ms) parameters (p ∷ ps) =
      take_part m parameters p (λ parameters'. match_parts ms parameters' ps)

  take_part_same :
      (m : Matcher) (parameters : Headers) (part : Bytes) (f g : Headers → Result (Option Headers))
      → ((h : Headers) → f h ≡ g h)
      → take_part m parameters part f ≡ take_part m parameters part g
  unfolding MountPath.take_part
  take_part_same m parameters part f g e = go (MountPath.match_part regex_match to_string m part)
    where
      go :
          (r : Result (Option Bytes))
          → ◌>>=◌ {B = Option Headers} r (λ value. elim value [
            | none ↦ ok none
            | some v ↦ f (MountPath.store regex_match to_string m v parameters)
          ])
            ≡ ◌>>=◌ {B = Option Headers} r (λ value. elim value [
              | none ↦ ok none
              | some v ↦ g (MountPath.store regex_match to_string m v parameters)
            ])
      go (ok none) = refl
      go (ok (some v)) = e _
      go (throws x) = refl
      go undefined = refl

  match_from_byte :
      (m : Matcher) (ms : List Matcher) (parameters : Headers) (part : Option Bytes) (c : ℕ)
      (rest : Bytes)
      → c ≢ separator
      → match_from (m ∷ ms) parameters part (c ∷ rest)
        ≡ match_from (m ∷ ms) parameters (some (seen part ++ (c ∷ []))) rest
  unfolding MountPath.match_from
  match_from_byte m ms parameters part c rest ne = rw (other, MountPath.match_from) refl
    where
      other : (c == separator) ≡ false
      other = ground arith

  -- the bytes of a part, behind those that were seen of it
  match_from-part :
      (m : Matcher) (ms : List Matcher) (parameters : Headers) (before part rest : Bytes)
      → Lacks separator part
      → match_from (m ∷ ms) parameters (some before) (part ++ rest)
        ≡ match_from (m ∷ ms) parameters (some (before ++ part)) rest
  match_from-part m ms parameters before [] rest h = rw append-nil refl
  match_from-part m ms parameters before (c ∷ part) rest h =
      match_from_byte m ms parameters (some before) c (part ++ rest) h.0
      ∙ match_from-part m ms parameters (before ++ (c ∷ [])) part rest h.1
      ∙ ap (λ b. match_from (m ∷ ms) parameters (some b) rest) (append_assoc before (c ∷ []) part)

  none_left : (q : Headers) (p rest : Bytes) → IsPart p → match_from [] q none (p ++ rest) ≡ ok none
  unfolding MountPath.match_from
  none_left q [] rest h = absurd h
  none_left q (c ∷ p) rest h = refl

  -- a part of which nothing was seen, with the parts that follow it
  match_from-parts :
      (m : Matcher) (ms : List Matcher) (parameters : Headers) (p : Bytes) (ps : List Bytes)
      → IsPart p
      → AreParts ps
      → match_from (m ∷ ms) parameters none (p ++ path_of ps)
        ≡ match_parts (m ∷ ms) parameters (p ∷ ps)
  unfolding MountPath.match_from match_parts
  match_from-parts m ms parameters [] ps h k = absurd h
  match_from-parts m ms parameters (c ∷ p) [] h k =
      match_from_byte m ms parameters none c (p ++ []) h.0
      ∙ match_from-part m ms parameters (c ∷ []) p [] h.1
      ∙ take_part_same m parameters (c ∷ p) _ _ (λ q. last ms q)
    where
      last :
          (ms : List Matcher) (q : Headers)
          → (elim ms as (λ _. Result (Option Headers)) [ [] ↦ ok (some q) | _ ∷ _ ↦ ok none ])
            ≡ match_parts ms q []
      last [] q = refl
      last (_ ∷ _) q = refl
  match_from-parts m [] parameters (c ∷ p) (p' ∷ ps) h k =
      match_from_byte m [] parameters none c (p ++ path_of (p' ∷ ps)) h.0
      ∙ match_from-part m [] parameters (c ∷ []) p (path_of (p' ∷ ps)) h.1
      ∙ take_part_same m parameters (c ∷ p) _ _ (λ q. none_left q p' (path_of ps) k.0)
  match_from-parts m (m' ∷ ms) parameters (c ∷ p) (p' ∷ ps) h k =
      match_from_byte m (m' ∷ ms) parameters none c (p ++ path_of (p' ∷ ps)) h.0
      ∙ match_from-part m (m' ∷ ms) parameters (c ∷ []) p (path_of (p' ∷ ps)) h.1
      ∙ take_part_same m parameters (c ∷ p) _ _ (λ q. match_from-parts m' ms q p' ps k.0 k.1)

  -- A path of parts is matched part by part: there are as many parts as matchers and each takes its
  -- part, or there is no match.
  pub match_path-parts :
      (ms : List Matcher) (ps : List Bytes)
      → AreParts ps
      → match_path ms (path_of ps) ≡ match_parts ms [] ps
  unfolding MountPath.match_path match_parts
  match_path-parts [] [] h = refl
  match_path-parts [] (p ∷ ps) h = refl
  match_path-parts (m ∷ ms) [] h = refl
  match_path-parts (m ∷ ms) (p ∷ ps) h = match_from-parts m ms [] p ps h.0 h.1
