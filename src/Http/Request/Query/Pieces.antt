-- ===== src/Http/Request/Query/Pieces.antt =====
-- The scan over one `key=value` of a query string, wherever it stands.
use liblw.Prelude.{
  ℕ, ◌+◌, ◌-◌, ◌<◌, ◌≡◌, ◌≢◌, refl, sym, ap, ap₂, ◌∙◌, true, false, [], ◌∷◌, ◌++◌, append_assoc,
  append-nil, arith, length, length-append,
}
use liblw.Base.Chars.{Bytes}
use liblw.Base.Views.{substr}
use liblw.Base.Views.Cut.{Lacks, substr-append}
use liblw.Err.{ok}
use liblw.Http.Headers.{Headers, insert}
use liblw.Http.Request.Query.{Cursor, fresh, insert_view_pairs, scan_params}

-- the cursor when the byte of index `i` has been read as part of a key that starts at `start`
abbrev pub key_at : ℕ → ℕ → Cursor
key_at start i = record { parsing_key = true; key_start = start; key_end = i; value_start = i + 1 }

-- the cursor behind the '=' of index `i`
abbrev pub value_at : ℕ → ℕ → Cursor
value_at start i = record (key_at start i) { parsing_key = false }

pub key_step :
    (params rest : Bytes) (c i : ℕ) (s : Cursor) (pairs : Headers)
    → c ≢ b'='
    → c ≢ b'&'
    → s.parsing_key ≡ true
    → scan_params params (c ∷ rest) i s pairs
      ≡ scan_params params rest (i + 1) (key_at s.key_start i) pairs
unfolding scan_params
key_step params rest c i s pairs a b t = ground arith

pub key_run :
    (params k rest : Bytes) (start i : ℕ) (pairs : Headers)
    → Lacks b'=' k
    → Lacks b'&' k
    → scan_params params (k ++ rest) (i + 1) (key_at start i) pairs
      ≡ scan_params params rest (i + length k + 1) (key_at start (i + length k)) pairs
key_run params [] rest start i pairs a b =
    ap (λ j. scan_params params rest (j + 1) (key_at start j) pairs) (omega arith)
key_run params (c ∷ k) rest start i pairs a b =
    key_step params (k ++ rest) c (i + 1) (key_at start i) pairs a.0 b.0 refl
    ∙ key_run params k rest start (i + 1) pairs a.1 b.1
    ∙ ap (λ j. scan_params params rest (j + 1) (key_at start j) pairs) (omega arith)

equals_step :
    (params rest : Bytes) (i : ℕ) (s : Cursor) (pairs : Headers)
    → s.parsing_key ≡ true
    → scan_params params (b'=' ∷ rest) i s pairs
      ≡ scan_params params rest (i + 1) (value_at s.key_start i) pairs
unfolding scan_params
equals_step params rest i s pairs t = ground arith

value_step :
    (params rest : Bytes) (c i : ℕ) (s : Cursor) (pairs : Headers)
    → c ≢ b'&'
    → s.parsing_key ≡ false
    → scan_params params (c ∷ rest) i s pairs ≡ scan_params params rest (i + 1) s pairs
unfolding scan_params
value_step params rest c i s pairs b t = ground arith

value_run :
    (params v rest : Bytes) (i : ℕ) (s : Cursor) (pairs : Headers)
    → Lacks b'&' v
    → s.parsing_key ≡ false
    → scan_params params (v ++ rest) i s pairs ≡ scan_params params rest (i + length v) s pairs
value_run params [] rest i s pairs b t = ap (λ j. scan_params params rest j s pairs) (omega arith)
value_run params (c ∷ v) rest i s pairs b t =
    value_step params (v ++ rest) c i s pairs b.0 t
    ∙ value_run params v rest (i + 1) s pairs b.1 t
    ∙ ap (λ j. scan_params params rest j s pairs) (omega arith)

-- A key has bytes, and neither part holds a byte that ends it.
pub record IsPair (k v : Bytes) : Type 0 where
  pub key_ne_nil : k ≢ []
  pub key_lacks_equals : Lacks b'=' k
  pub key_lacks_and : Lacks b'&' k
  pub value_lacks_and : Lacks b'&' v

abbrev pub piece : Bytes → Bytes → Bytes → Bytes
piece k v rest = k ++ (b'=' ∷ (v ++ rest))

-- Over `key=value` the cursor comes to hold both places.
pub piece_run :
    (params k v rest : Bytes) (i : ℕ) (pairs : Headers)
    → IsPair k v
    → scan_params params (piece k v rest) i (fresh i) pairs
      ≡ scan_params params rest (i + length k + 1 + length v) (value_at i (i + length k)) pairs
piece_run params [] v rest i pairs p = absurd (p.key_ne_nil refl)
piece_run params (c ∷ k) v rest i pairs p =
    key_step params _ c i (fresh i) pairs p.key_lacks_equals.0 p.key_lacks_and.0 refl
    ∙ key_run params k _ i i pairs p.key_lacks_equals.1 p.key_lacks_and.1
    ∙ equals_step params (v ++ rest) (i + length k + 1) (key_at i (i + length k)) pairs refl
    ∙ value_run params v rest _ _ pairs p.value_lacks_and refl
    ∙ ap₂ (λ j l. scan_params params rest j (value_at i l) pairs) (omega arith) (omega arith)

length_pos : (k : Bytes) → k ≢ [] → 0 < length k
length_pos [] h = absurd (h refl)
length_pos (c ∷ k) h = omega arith

length_zero : (v : Bytes) → length v ≡ 0 → v ≡ []
length_zero [] h = refl
length_zero (c ∷ v) h = absurd (omega arith)

-- What the places hold goes into the map.
pub insert_view_pairs-piece :
    (params pre k v post : Bytes) (i : ℕ) (pairs : Headers)
    → k ≢ []
    → params ≡ pre ++ piece k v post
    → i ≡ length pre
    → insert_view_pairs params i
        (i + length k)
        (i + length k + 1)
        (i + length k + 1 + length v)
        pairs
      ≡ ok (insert k v pairs)
unfolding insert_view_pairs
insert_view_pairs-piece params pre k v post i pairs ne e f = ground (
  arith,
  length_pos k ne,
  length_zero v,
  substr-append pre k (b'=' ∷ (v ++ post)) params i (i + length k - i) e f (omega arith),
  value_part (i + length k + 1 + length v - (i + length k + 1)),
  value_part 0,
)
  where
    value_part : (n : ℕ) → n ≡ length v → substr params (i + length k + 1) n ≡ ok v
    value_part n h =
        substr-append (pre ++ (k ++ (b'=' ∷ []))) v post params (i + length k + 1) n
          (e ∙ simp append_assoc)
          (omega (arith, length-append pre (k ++ (b'=' ∷ [])), length-append k (b'=' ∷ []))) h

-- A key at the front of the view, of which the last byte `c` is left off.
pub insert_view_pairs_dangling :
    (params k : Bytes) (c : ℕ) (pairs : Headers)
    → k ≢ []
    → params ≡ k ++ (c ∷ [])
    → insert_view_pairs params 0 (length k) (length k + 1) (length k + 1) pairs
      ≡ ok (insert k [] pairs)
unfolding insert_view_pairs
insert_view_pairs_dangling params k c pairs ne e = ground (
  arith,
  length_pos k ne,
  substr-append [] k (c ∷ []) params 0 (length k - 0) e refl (omega arith),
  substr-append params [] [] params (length k + 1) 0 (sym (append-nil params))
      (rw e (omega (arith, length-append k (c ∷ [])))) refl,
)
