-- ===== src/Http/Request/Field.antt =====
-- `parse_header_line` of http_request.cpp.
use liblw.Prelude.{ℕ, ◌+◌, ◌-◌, Option, none, some, length, drop, leb, if◌then◌else◌, [], ◌∷◌}
use liblw.Base.Chars.{Bytes}
use liblw.Base.Views.{substr, find_from, remove_prefix}
use liblw.Err.{Result, ok, throws, invalid_argument, ◌>>=◌}
use liblw.Http.Request.Scan.{to_colon, skip_blanks}

abbrev pub crlf : Bytes
crlf = b'\r' ∷ b'\n' ∷ []

-- The value from `i` to the line end, and the view behind it.
unfoldable pub cut_value : Bytes → ℕ → ℕ → Option ℕ → Result ((Bytes × Bytes) × Bytes)
unfolding remove_prefix
cut_value view colon_pos value_start none = throws invalid_argument
cut_value view colon_pos value_start (some value_end) = do
  key ← substr view 0 colon_pos
  value ← substr view value_start (value_end - value_start)
  rest ← remove_prefix view (value_end + 2)
  ok ((key, value), rest)

-- The value that follows the ':' at `colon_pos`.
unfoldable pub after_colon : Bytes → ℕ → Result ((Bytes × Bytes) × Bytes)
unfolding cut_value
after_colon view colon_pos =
    let i = skip_blanks (drop (colon_pos + 1) view) (colon_pos + 1) in
    if leb (length view) i
    then throws invalid_argument
    else cut_value view colon_pos i (find_from (drop i view) crlf i)

unfoldable pub parse_header_line : Bytes → Result ((Bytes × Bytes) × Bytes)
unfolding after_colon
parse_header_line view = to_colon view 0 >>= after_colon view
