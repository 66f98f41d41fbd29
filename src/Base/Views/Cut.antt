-- ===== src/Base/Views/Cut.antt =====
-- Pieces of a view, cut out by their positions.
use liblw.Prelude.{
  ℕ, ◌≡◌, ◌≢◌, refl, ap, some, [], ◌∷◌, ◌++◌, arith, length, length-append, get_elem?, take, drop,
}
use liblw.Base.Chars.{Bytes}
use liblw.Base.Views.{substr, remove_prefix}
use liblw.Err.{ok}

-- No byte of the list is `b`.
abbrev pub Lacks : ℕ → Bytes → Type 0
Lacks b [] = Unit
Lacks b (c ∷ cs) = (c ≢ b) × Lacks b cs

pub take-append : (xs ys : Bytes) → take (length xs) (xs ++ ys) ≡ xs
take-append [] ys = refl
take-append (x ∷ xs) ys = ap (◌∷◌ x) (take-append xs ys)

pub drop-append : (xs ys : Bytes) → drop (length xs) (xs ++ ys) ≡ ys
drop-append [] ys = refl
drop-append (x ∷ xs) ys = drop-append xs ys

pub substr-append :
    (pre xs post view : Bytes) (i n : ℕ)
    → view ≡ pre ++ (xs ++ post)
    → i ≡ length pre
    → n ≡ length xs
    → substr view i n ≡ ok xs
unfolding substr
substr-append pre xs post view i n v e f =
    rw (v, e, f)
      (ground
        (arith, drop-append pre (xs ++ post), take-append xs post, length-append pre (xs ++ post)))

get_elem?-length : (pre rest : Bytes) (c : ℕ) → get_elem? (pre ++ (c ∷ rest)) (length pre) ≡ some c
get_elem?-length [] rest c = refl
get_elem?-length (x ∷ pre) rest c = get_elem?-length pre rest c

-- the byte behind `pre`
pub get_elem?-append :
    (pre rest view : Bytes) (c i : ℕ)
    → view ≡ pre ++ (c ∷ rest)
    → i ≡ length pre
    → get_elem? view i ≡ some c
get_elem?-append pre rest view c i e f = rw (e, f) (get_elem?-length pre rest c)

-- the view behind `pre`, which stands in it
pub remove_prefix-append :
    (pre rest view : Bytes) (i : ℕ)
    → view ≡ pre ++ rest
    → i ≡ length pre
    → remove_prefix view i ≡ ok rest
unfolding remove_prefix
remove_prefix-append pre rest view i e f =
    rw (e, f) (ground (arith, drop-append pre rest, length-append pre rest))

pub drop-prefix :
    (pre rest view : Bytes) (i : ℕ) → view ≡ pre ++ rest → i ≡ length pre → drop i view ≡ rest
drop-prefix pre rest view i e f = rw (e, f) (drop-append pre rest)
