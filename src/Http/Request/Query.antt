-- ===== src/Http/Request/Query.antt =====
-- `parse_query_params` of http_request.cpp: the scan by indices that cuts a query string into keys
-- and values.
pub mod Pieces
pub mod RoundTrip
use liblw.Prelude.{ℕ, ◌+◌, ◌-◌, Bool, true, false, not, [], ◌∷◌, leb, ◌==◌, if◌then◌else◌}
use liblw.Base.Chars.{Bytes}
use liblw.Base.Views.{substr}
use liblw.Err.{Result, ok, ◌>>=◌}
use liblw.Http.Headers.{Headers, insert}

-- A key that has no bytes is dropped, and a value that has none is empty.
unfoldable pub insert_view_pairs : Bytes → ℕ → ℕ → ℕ → ℕ → Headers → Result Headers
insert_view_pairs view key_start key_end value_start value_end pairs =
    if leb key_end key_start
    then ok pairs
    else if leb value_end value_start
    then (do
      key ← substr view key_start (key_end - key_start)
      value ← substr view value_start 0
      ok (insert key value pairs))
    else do
      key ← substr view key_start (key_end - key_start)
      value ← substr view value_start (value_end - value_start)
      ok (insert key value pairs)

-- the variables of the loop
pub record Cursor : Type 0 where
  pub parsing_key : Bool
  pub key_start : ℕ
  pub key_end : ℕ
  pub value_start : ℕ

abbrev pub fresh : ℕ → Cursor
fresh i = record { parsing_key = true; key_start = i; key_end = i; value_start = i }

-- `if (parsing_key) …` at the byte `c` of index `i`
unfoldable pub track_key : Cursor → ℕ → ℕ → Cursor
track_key s c i =
    if s.parsing_key
    then record s { key_end = i; value_start = i + 1; parsing_key = not (c == b'=') }
    else s

-- `rest` is what the view holds from `i` on. The end of the input is the check for a dangling
-- parameter.
unfoldable pub scan_params : Bytes → Bytes → ℕ → Cursor → Headers → Result Headers
unfolding insert_view_pairs track_key
scan_params params [] i s pairs =
    if s.key_start == i
    then ok pairs
    else insert_view_pairs params s.key_start s.key_end s.value_start i pairs
scan_params params (c ∷ rest) i s pairs =
    let t = track_key s c i in
    let closed = insert_view_pairs params t.key_start t.key_end t.value_start i pairs >>= λ pairs'.
    scan_params params rest (i + 1) (fresh (i + 1)) pairs' in
    let open_ = scan_params params rest (i + 1) t pairs in if c == b'&' then closed else open_

unfoldable pub parse_query_params : Bytes → Headers → Result Headers
unfolding scan_params
parse_query_params params pairs = scan_params params params 0 (fresh 0) pairs
