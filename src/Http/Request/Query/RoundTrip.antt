-- ===== src/Http/Request/Query/RoundTrip.antt =====
-- `parse_query_params` on printed parameters.
use liblw.Prelude.{
  ℕ, ◌+◌, ◌≡◌, ◌≢◌, refl, ◌∙◌, List, [], ◌∷◌, ◌++◌, append_assoc, arith, length, length-append,
}
use liblw.Base.Chars.{Bytes}
use liblw.Base.Views.Cut.{Lacks}
use liblw.Err.{ok}
use liblw.Http.Headers.{Headers, insert}
use liblw.Http.Request.Query.{fresh, scan_params, parse_query_params}
use liblw.Http.Request.Query.Pieces.{
  IsPair, piece, piece_run, insert_view_pairs-piece, value_at, key_step, key_run, key_at,
  insert_view_pairs_dangling,
}

-- the parameters behind the first, each behind an '&'
abbrev pub print_rest : List (Bytes × Bytes) → Bytes
print_rest [] = []
print_rest ((k, v) ∷ ps) = b'&' ∷ piece k v (print_rest ps)

-- key=value&key=value&…
abbrev pub print_params : List (Bytes × Bytes) → Bytes
print_params [] = []
print_params ((k, v) ∷ ps) = piece k v (print_rest ps)

abbrev pub insert_all : List (Bytes × Bytes) → Headers → Headers
insert_all [] pairs = pairs
insert_all ((k, v) ∷ ps) pairs = insert_all ps (insert k v pairs)

abbrev pub ArePairs : List (Bytes × Bytes) → Type 0
ArePairs [] = Unit
ArePairs ((k, v) ∷ ps) = IsPair k v × ArePairs ps

and_step :
    (params pre k v post : Bytes) (i j : ℕ) (pairs : Headers)
    → k ≢ []
    → params ≡ pre ++ piece k v (b'&' ∷ post)
    → i ≡ length pre
    → j ≡ i + length k + 1 + length v
    → scan_params params (b'&' ∷ post) j (value_at i (i + length k)) pairs
      ≡ scan_params params post (j + 1) (fresh (j + 1)) (insert k v pairs)
unfolding scan_params
and_step params pre k v post i j pairs ne e f g =
    rw g (ground (arith, insert_view_pairs-piece params pre k v (b'&' ∷ post) i pairs ne e f))

scan_end :
    (params pre k v : Bytes) (i j : ℕ) (pairs : Headers)
    → k ≢ []
    → params ≡ pre ++ piece k v []
    → i ≡ length pre
    → j ≡ i + length k + 1 + length v
    → scan_params params [] j (value_at i (i + length k)) pairs ≡ ok (insert k v pairs)
unfolding scan_params
scan_end params pre k v i j pairs ne e f g =
    rw g (ground (arith, insert_view_pairs-piece params pre k v [] i pairs ne e f))

scan_rest :
    (ps : List (Bytes × Bytes)) (params pre k v : Bytes) (i : ℕ) (pairs : Headers)
    → k ≢ []
    → ArePairs ps
    → params ≡ pre ++ piece k v (print_rest ps)
    → i ≡ length pre
    → scan_params params
        (print_rest ps)
        (i + length k + 1 + length v)
        (value_at i (i + length k))
        pairs
      ≡ ok (insert_all ((k, v) ∷ ps) pairs)
scan_rest [] params pre k v i pairs ne a e f = scan_end params pre k v i _ pairs ne e f refl
scan_rest ((k', v') ∷ ps) params pre k v i pairs ne a e f =
    let j = i + length k + 1 + length v + 1 in
    and_step params pre k v (piece k' v' (print_rest ps)) i _ pairs ne e f refl
    ∙ piece_run params k' v' (print_rest ps) j (insert k v pairs) a.0
    ∙ scan_rest ps params (pre ++ piece k v (b'&' ∷ [])) k' v' j (insert k v pairs) a.0.key_ne_nil
        a.1 (e ∙ simp append_assoc)
        (omega (
          arith,
          length-append pre (piece k v (b'&' ∷ [])),
          length-append k (b'=' ∷ (v ++ (b'&' ∷ []))),
          length-append v (b'&' ∷ []),
        ))

-- Printed parameters are parsed into the map in their order: each key with its value, the first
-- of equal keys kept.
pub parse_query_params-print :
    (ps : List (Bytes × Bytes)) (pairs : Headers)
    → ArePairs ps
    → parse_query_params (print_params ps) pairs ≡ ok (insert_all ps pairs)
unfolding parse_query_params
parse_query_params-print [] pairs a = unfold scan_params in refl
parse_query_params-print ((k, v) ∷ ps) pairs a =
    piece_run _ k v (print_rest ps) 0 pairs a.0
    ∙ scan_rest ps _ [] k v 0 pairs a.0.key_ne_nil a.1 refl refl

scan_dangling_end :
    (params pre : Bytes) (i : ℕ) (c : ℕ) (pairs : Headers)
    → pre ≢ []
    → params ≡ pre ++ (c ∷ [])
    → i ≡ length pre
    → scan_params params [] (i + 1) (key_at 0 i) pairs ≡ ok (insert pre [] pairs)
unfolding scan_params
scan_dangling_end params pre i c pairs ne e f =
    rw f (ground (arith, insert_view_pairs_dangling params pre c pairs ne e))

-- A last parameter with no '=' loses its last byte: what is inserted is the key without it, and
-- an empty value.
pub parse_query_params_dangling :
    (k : Bytes) (c : ℕ) (pairs : Headers)
    → k ≢ []
    → Lacks b'=' k
    → Lacks b'&' k
    → c ≢ b'='
    → c ≢ b'&'
    → parse_query_params (k ++ (c ∷ [])) pairs ≡ ok (insert k [] pairs)
unfolding parse_query_params
parse_query_params_dangling [] c pairs ne a b p q = absurd (ne refl)
parse_query_params_dangling (d ∷ k) c pairs ne a b p q =
    key_step _ (k ++ (c ∷ [])) d 0 (fresh 0) pairs a.0 b.0 refl
    ∙ key_run _ k (c ∷ []) 0 0 pairs a.1 b.1
    ∙ key_step _ [] c (0 + length k + 1) (key_at 0 (0 + length k)) pairs p q refl
    ∙ scan_dangling_end _ (d ∷ k) (0 + length k + 1) c pairs ne refl (omega arith)
