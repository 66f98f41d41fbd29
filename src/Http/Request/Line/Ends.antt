-- ===== src/Http/Request/Line/Ends.antt =====
-- The loop over the header lines ends on any bytes.
use liblw.Prelude.{
  ℕ, zero, suc, ◌+◌, ◌<◌, ◌≤◌, ◌≡◌, ◌≢◌, refl, false, Option, none, some, [], ◌∷◌, arith, length,
  Bool-cases, inl, inr, length-drop, drop, leb,
}
use liblw.Base.Chars.{Bytes}
use liblw.Base.Views.{substr, starts_with, find_from, remove_prefix}
use liblw.Err.{Result, ok, throws, undefined}
use liblw.Err.Laws.{>>=-eq-ok, >>=-ne-undefined}
use liblw.Http.Headers.{insert}
use liblw.Http.Request.{HttpRequest}
use liblw.Http.Request.Field.{crlf, cut_value, after_colon, parse_header_line}
use liblw.Http.Request.Line.{parse_headers}
use liblw.Http.Request.Scan.{to_colon, check_not_line_end, skip_blanks}

to_colon-ne-undefined : (view : Bytes) (i : ℕ) → to_colon view i ≢ undefined
unfolding to_colon check_not_line_end
to_colon-ne-undefined [] i = ground arith
to_colon-ne-undefined (c ∷ view) i = ground (arith, to_colon-ne-undefined view (i + 1))

-- a line end that is found stands in the view
find_from-within :
    (view : Bytes) (i n : ℕ) → find_from view crlf i ≡ some n → n + 2 ≤ i + length view
unfolding find_from starts_with
find_from-within [] i n h = cc
find_from-within (c ∷ []) i n h = ground arith
find_from-within (c ∷ d ∷ view) i n h = ground (arith, find_from-within (d ∷ view) (i + 1) n)

cut_value-ne-undefined :
    (view : Bytes) (colon start : ℕ) (end : Option ℕ)
    → ((n : ℕ) → end ≡ some n → n + 2 ≤ length view)
    → cut_value view colon start end ≢ undefined
unfolding cut_value substr remove_prefix
cut_value-ne-undefined view colon start none within = ground arith
cut_value-ne-undefined view colon start (some n) within = ground (arith, within n refl)

cut_value-drops :
    (view : Bytes) (colon start : ℕ) (end : Option ℕ) {kv : Bytes × Bytes} {rest : Bytes}
    → cut_value view colon start end ≡ ok (kv, rest)
    → (n : ℕ) × (rest ≡ drop (n + 2) view)
unfolding cut_value substr remove_prefix
cut_value-drops view colon start none h = cc
cut_value-drops view colon start (some n) h = (n, ground arith)

-- the line end that is looked for from inside the view stands in it
found-within :
    (view : Bytes) (i n : ℕ)
    → i < length view
    → find_from (drop i view) crlf i ≡ some n
    → n + 2 ≤ length view
found-within view i n lt e = omega (arith, length-drop i view, find_from-within (drop i view) i n e)

after_colon-ne-undefined : (view : Bytes) (colon : ℕ) → after_colon view colon ≢ undefined
unfolding after_colon
after_colon-ne-undefined view colon =
    let i = skip_blanks (drop (colon + 1) view) (colon + 1) in
    let cut = cut_value-ne-undefined view colon i (find_from (drop i view) crlf i) in
    elim (Bool-cases (leb (length view) i)) [
      | inl past ↦ ground (arith, past)
      | inr inside ↦
          let lt : i < length view = ground (arith, inside) in
          rw inside (cut (λ n e. found-within view i n lt e))
    ]

after_colon-drops :
    (view : Bytes) (colon : ℕ) {kv : Bytes × Bytes} {rest : Bytes}
    → after_colon view colon ≡ ok (kv, rest)
    → (n : ℕ) × (rest ≡ drop (n + 2) view)
unfolding after_colon
after_colon-drops view colon {kv} {rest} h =
    let i = skip_blanks (drop (colon + 1) view) (colon + 1) in
    cut_value-drops view colon i (find_from (drop i view) crlf i) {kv = kv} {rest = rest}
      (ground arith)

parse_header_line-ne-undefined : (view : Bytes) → parse_header_line view ≢ undefined
unfolding parse_header_line
parse_header_line-ne-undefined view =
    >>=-ne-undefined (to_colon view 0) (after_colon view) (to_colon-ne-undefined view 0)
      (after_colon-ne-undefined view)

parse_header_line-shorter :
    (view : Bytes) {kv : Bytes × Bytes} {rest : Bytes}
    → parse_header_line view ≡ ok (kv, rest)
    → length rest < length view
unfolding parse_header_line to_colon
parse_header_line-shorter [] h = cc
parse_header_line-shorter (c ∷ view) h =
    let (colon, later, _) = >>=-eq-ok (after_colon (c ∷ view)) (to_colon (c ∷ view) 0) h in
    let (n, cut) = after_colon-drops (c ∷ view) colon later in
    rw cut (omega (arith, length-drop (n + 2) (c ∷ view)))

-- With a round of fuel for each byte and one more, the loop over the header lines ends.
pub parse_headers-ends :
    (fuel : ℕ) (view : Bytes) (req : HttpRequest)
    → length view < fuel
    → (parse_headers fuel view req).0 ≢ undefined
parse_headers-ends zero view req lt = absurd (omega arith)
parse_headers-ends (suc fuel) view req lt = elim (Bool-cases (starts_with view crlf)) [
  | inl blank ↦ unfold parse_headers in ground arith
  | inr more ↦
      line (parse_header_line view) refl more
        (λ rest shorter req'. parse_headers-ends fuel rest req' (omega arith))
]
  where
    line :
        (r : Result ((Bytes × Bytes) × Bytes))
        → parse_header_line view ≡ r
        → starts_with view crlf ≡ false
        → ((rest : Bytes)
            → length rest < length view
            → (req' : HttpRequest) → (parse_headers fuel rest req').0 ≢ undefined)
        → (parse_headers (suc fuel) view req).0 ≢ undefined
    line (ok ((k, v), rest)) e more ends =
        let rest_ends =
          ends rest (parse_header_line-shorter view e)
            (record req { headers = insert k v req.headers }) in
        unfold parse_headers in ground arith
    line (throws x) e more ends = unfold parse_headers in ground arith
    line undefined e more ends = absurd (parse_header_line-ne-undefined view e)
