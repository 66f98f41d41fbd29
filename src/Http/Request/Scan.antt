-- ===== src/Http/Request/Scan.antt =====
-- The scanning helpers of http_request.cpp. A loop `while (test(view, i)) ++i` is a recursion on
-- the bytes of the view from `i` on.
pub mod Runs
use liblw.Prelude.{
  ℕ, suc, ◌+◌, Bool, true, false, not, ◌&&◌, ◌||◌, [], ◌∷◌, Option, none, some, get_elem?, drop,
  ◌==◌, if◌then◌else◌,
}
use liblw.Base.Chars.{Bytes, is_space}
use liblw.Err.{Result, ok, throws, invalid_argument, ◌>>=◌}

abbrev pub is_line_end : ℕ → Bool
is_line_end c = c == b'\r' || c == b'\n'

-- The header ends at `i`, or a byte that is whitespace and not a line end must stand there.
unfoldable pub check_is_space : Bytes → ℕ → Result (Unit {0})
check_is_space header i = elim (get_elem? header i) [
  | none ↦ throws invalid_argument
  | some c ↦ if not (is_space c) || is_line_end c then throws invalid_argument else ok tt
]

unfoldable pub check_not_line_end : Bytes → ℕ → Result (Unit {0})
check_not_line_end header i = elim (get_elem? header i) [
  | none ↦ throws invalid_argument
  | some c ↦ if is_line_end c then throws invalid_argument else ok tt
]

-- while (is_not_space(header_view, i)) ++i;
unfoldable pub to_space : Bytes → ℕ → ℕ
to_space [] i = i
to_space (c ∷ rest) i = if is_space c then i else to_space rest (i + 1)

-- while (is_not_space(header_view, i) && header_view.at(i) != '?') ++i;
unfoldable pub to_path_end : Bytes → ℕ → ℕ
to_path_end [] i = i
to_path_end (c ∷ rest) i = if is_space c || c == b'?' then i else to_path_end rest (i + 1)

-- The index of the ':' that ends the name of a header, with no line end before it.
unfoldable pub to_colon : Bytes → ℕ → Result ℕ
unfolding check_not_line_end
to_colon [] i = throws invalid_argument
to_colon (c ∷ rest) i =
    let later = check_not_line_end (c ∷ rest) 0 >>= λ _. to_colon rest (i + 1) in
    if c == b':' then ok i else later

-- The blanks before the value of a header, up to a line end.
unfoldable pub skip_blanks : Bytes → ℕ → ℕ
skip_blanks [] i = i
skip_blanks (c ∷ rest) i = if is_space c && not (is_line_end c) then skip_blanks rest (i + 1) else i
