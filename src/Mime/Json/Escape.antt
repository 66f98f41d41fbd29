-- ===== src/Mime/Json/Escape.antt =====
-- `_put_char` and `decode_string` of lw/mime/json.cpp: the escapes of a string.
pub mod RoundTrip
use liblw.Prelude.{ℕ, ◌||◌, [], ◌∷◌, ◌++◌, ◌==◌, if◌then◌else◌}
use liblw.Base.Chars.{Bytes}
use liblw.Err.{Result, ok, throws, std_out_of_range, ◌>>=◌}

abbrev pub quote : ℕ
quote = b'"'

abbrev pub backslash : ℕ
backslash = 92

-- What `_put_char` writes for a byte. 8, 12, 10, 13 and 9 are '\b', '\f', '\n', '\r' and '\t'.
unfoldable pub escape : ℕ → Bytes
escape c =
    if c == quote || (c == backslash || c == b'/')
    then backslash ∷ c ∷ []
    else if c == 8
    then backslash ∷ b'b' ∷ []
    else if c == 12
    then backslash ∷ b'f' ∷ []
    else if c == 10
    then backslash ∷ b'n' ∷ []
    else if c == 13
    then backslash ∷ b'r' ∷ []
    else if c == 9
    then backslash ∷ b't' ∷ []
    else c ∷ []

-- for (char c : str) _put_char(c);
unfoldable pub escape_all : Bytes → Bytes
unfolding escape
escape_all [] = []
escape_all (c ∷ str) = escape c ++ escape_all str

-- What the byte behind a backslash adds to the string: nothing if no case names it.
unfoldable pub unescape : ℕ → Bytes
unescape c =
    if c == quote || (c == backslash || c == b'/')
    then c ∷ []
    else if c == b'b'
    then 8 ∷ []
    else if c == b'f'
    then 12 ∷ []
    else if c == b'n'
    then 10 ∷ []
    else if c == b'r'
    then 13 ∷ []
    else if c == b't'
    then 9 ∷ []
    else []

-- The loop of `decode_string`: `rest` is the token from `i` on, where the loop runs while more
-- than the last byte is left. A backslash before the last byte takes that byte too.
unfoldable pub decode_from : Bytes → Bytes → Result Bytes
unfolding unescape
decode_from out [] = ok out
decode_from out (_ ∷ []) = ok out
decode_from out (c ∷ d ∷ rest) =
    let escaped = decode_from (out ++ unescape d) rest in
    let plain = decode_from (out ++ (c ∷ [])) (d ∷ rest) in
    if c == backslash then escaped else plain

-- The token stands between two quotation marks. The loop begins behind the first.
unfoldable pub decode_string : Bytes → Result Bytes
unfolding decode_from
decode_string [] = throws std_out_of_range
decode_string (_ ∷ rest) = decode_from [] rest
