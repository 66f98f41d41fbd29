-- ===== src/Http/Request/Line/Fields.antt =====
-- The header lines: what they give back, and that their loop ends.
use liblw.Prelude.{
  ℕ, zero, suc, ◌+◌, ◌-◌, ◌<◌, ◌≡◌, refl, ap, true, false, not, ◌||◌, some, List, [], ◌∷◌, ◌++◌,
  append_assoc, arith, length, length-append,
}
use liblw.Base.Chars.{Bytes, is_space}
use liblw.Base.Views.{starts_with, find_from}
use liblw.Base.Views.Cut.{Lacks, substr-append, drop-prefix, remove_prefix-append}
use liblw.Err.{ok}
use liblw.Http.Headers.{insert}
use liblw.Http.Request.{HttpRequest}
use liblw.Http.Request.Field.{crlf, cut_value, parse_header_line}
use liblw.Http.Request.Line.{parse_headers}
use liblw.Http.Request.Query.RoundTrip.{insert_all}
use liblw.Http.Request.Scan.{is_line_end, skip_blanks}
use liblw.Http.Request.Scan.Runs.{IsName, AreBlanks, to_colon-append, skip_blanks-append}

-- A value does not begin with a blank, and holds no carriage return.
abbrev pub IsValue : Bytes → Type 0
IsValue [] = Unit
IsValue (c ∷ cs) = ((not (is_space c) || is_line_end c) ≡ true) × Lacks b'\r' (c ∷ cs)

-- A header line: its name, the blanks behind the ':', and its value.
pub record Line : Type 0 where
  pub name : Bytes
  pub blanks : Bytes
  pub value : Bytes

pub record IsLine (l : Line) : Type 0 where
  pub name_is : IsName l.name
  pub blanks_are : AreBlanks l.blanks
  pub value_is : IsValue l.value

abbrev pub print_line : Line → Bytes → Bytes
print_line l rest = l.name ++ (b':' ∷ (l.blanks ++ (l.value ++ (b'\r' ∷ b'\n' ∷ rest))))

find_crlf :
    (v rest : Bytes) (i : ℕ)
    → Lacks b'\r' v
    → find_from (v ++ (b'\r' ∷ b'\n' ∷ rest)) crlf i ≡ some (i + length v)
unfolding find_from starts_with
find_crlf [] rest i n = ap some (omega arith)
find_crlf (c ∷ v) rest i n = ground (arith, find_crlf v rest (i + 1))

skip_to_value :
    (blanks v rest : Bytes) (i : ℕ)
    → AreBlanks blanks
    → IsValue v
    → skip_blanks (blanks ++ (v ++ (b'\r' ∷ b'\n' ∷ rest))) i ≡ i + length blanks
skip_to_value blanks [] rest i b v = skip_blanks-append blanks (b'\n' ∷ rest) b'\r' i b refl
skip_to_value blanks (c ∷ v) rest i b h =
    skip_blanks-append blanks (v ++ (b'\r' ∷ b'\n' ∷ rest)) c i b h.0

Lacks-of_value : (v : Bytes) → IsValue v → Lacks b'\r' v
Lacks-of_value [] h = tt
Lacks-of_value (c ∷ v) h = h.1

-- A printed line gives back its name and its value without the blanks, and what stands behind it.
pub parse_header_line-print :
    (l : Line) (rest : Bytes)
    → IsLine l
    → parse_header_line (print_line l rest) ≡ ok ((l.name, l.value), rest)
unfolding parse_header_line cut_value
parse_header_line-print l rest h = ground (
  arith,
  to_colon-append l.name (l.blanks ++ behind) 0 h.name_is,
  drop-prefix (l.name ++ (b':' ∷ [])) (l.blanks ++ behind) view (length l.name + 1)
      (simp append_assoc) (omega (arith, length-append l.name (b':' ∷ []))),
  skip_to_value l.blanks l.value rest (length l.name + 1) h.blanks_are h.value_is,
  drop-prefix (l.name ++ (b':' ∷ l.blanks)) behind view (length l.name + 1 + length l.blanks)
      (simp append_assoc) (omega (arith, length-append l.name (b':' ∷ l.blanks))),
  find_crlf l.value rest (length l.name + 1 + length l.blanks) (Lacks-of_value l.value h.value_is),
  substr-append [] l.name (b':' ∷ (l.blanks ++ behind)) view 0 (length l.name) refl refl refl,
  substr-append (l.name ++ (b':' ∷ l.blanks)) l.value (b'\r' ∷ b'\n' ∷ rest) view
      (length l.name + 1 + length l.blanks)
      (length l.name + 1 + length l.blanks + length l.value - (length l.name + 1 + length l.blanks))
      (simp append_assoc) (omega (arith, length-append l.name (b':' ∷ l.blanks))) (omega arith),
  remove_prefix-append (l.name ++ (b':' ∷ (l.blanks ++ (l.value ++ (b'\r' ∷ b'\n' ∷ []))))) rest
      view (length l.name + 1 + length l.blanks + length l.value + 2) (simp append_assoc)
      (omega (
        arith,
        length-append l.name (b':' ∷ (l.blanks ++ (l.value ++ (b'\r' ∷ b'\n' ∷ [])))),
        length-append l.blanks (l.value ++ (b'\r' ∷ b'\n' ∷ [])),
        length-append l.value (b'\r' ∷ b'\n' ∷ []),
      )),
  length-append l.name (b':' ∷ (l.blanks ++ behind)),
  length-append l.blanks behind,
  length-append l.value (b'\r' ∷ b'\n' ∷ rest),
)
  where
    behind : Bytes
    behind = l.value ++ (b'\r' ∷ b'\n' ∷ rest)

    view : Bytes
    view = print_line l rest

abbrev pub print_lines : List Line → Bytes → Bytes
print_lines [] rest = b'\r' ∷ b'\n' ∷ rest
print_lines (l ∷ ls) rest = print_line l (print_lines ls rest)

abbrev pub fields : List Line → List (Bytes × Bytes)
fields [] = []
fields (l ∷ ls) = (l.name, l.value) ∷ fields ls

abbrev pub AreLines : List Line → Type 0
AreLines [] = Unit
AreLines (l ∷ ls) = IsLine l × AreLines ls

not_blank_line :
    (name rest : Bytes) → IsName name → starts_with (name ++ (b':' ∷ rest)) crlf ≡ false
unfolding starts_with
not_blank_line [] rest h = refl
not_blank_line (c ∷ name) rest h = ground arith

-- Printed lines, up to the blank line that ends them, are inserted in their order, the first of
-- equal names kept; with a round of fuel for each line and one for the blank line the loop ends.
pub parse_headers-print :
    (ls : List Line) (rest : Bytes) (fuel : ℕ) (req : HttpRequest)
    → AreLines ls
    → length ls < fuel
    → parse_headers fuel (print_lines ls rest) req
      ≡ (ok tt, record req { headers = insert_all (fields ls) req.headers })
unfolding parse_headers starts_with
parse_headers-print ls rest zero req h lt = absurd (omega arith)
parse_headers-print [] rest (suc fuel) req h lt = refl
parse_headers-print (l ∷ ls) rest (suc fuel) req h lt = ground (
  arith,
  not_blank_line l.name (l.blanks ++ (l.value ++ (b'\r' ∷ b'\n' ∷ print_lines ls rest)))
      h.0.name_is,
  parse_header_line-print l (print_lines ls rest) h.0,
  parse_headers-print ls rest fuel (record req { headers = insert l.name l.value req.headers }) h.1
      (omega arith),
)
