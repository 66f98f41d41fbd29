-- ===== src/Io/Reader/Tests.antt =====
-- Readers of a text, and the theorems at concrete inputs.
use liblw.Prelude.{ℕ, ◌≡◌, refl, arith, Bool, ltb, [], Option, none, some, length, take, drop}
use liblw.Base.Chars.{Bytes, codes}
use liblw.Err.{Result, ok, undefined}
use liblw.Io.Reader.{
  Reader, window, new_reader, adjust_buffers, read, read_until, read_until_byte, grow,
}
use liblw.Io.Reader.Reads.{pending, read-window}
use liblw.Io.Reader.Room.{IsReader, HasRoom, adjust_buffers-HasRoom}
use liblw.Io.Reader.Until.{read_until_byte-arrived}

-- a source that is the text that is left of it
abbrev text_read : Bytes → ℕ → Bytes × Bytes
text_read text limit = (take limit text, drop limit text)

abbrev text_good : Bytes → Bool
text_good text = ltb 0 (length text)

abbrev maximum : ℕ
maximum = 1000

abbrev small_reader : Reader
small_reader = new_reader 4

small-IsReader : IsReader small_reader
unfolding new_reader
small-IsReader = record { follows = refl; inside = omega arith; allocated = omega arith }

adjust_buffers-HasRoom_example :
    (r : Reader) × ((adjust_buffers maximum small_reader 9 ≡ ok r)
      × HasRoom (window small_reader) 9 r)
unfolding new_reader
adjust_buffers-HasRoom_example =
    adjust_buffers-HasRoom maximum small_reader 9 small-IsReader (omega arith) (omega arith)

read-window_example :
    (r : Reader) × ((read maximum text_read 3 (small_reader, codes "hello")
        ≡ ok (
          take 3 (pending maximum text_read 3 small_reader (codes "hello")).0,
          (r, (pending maximum text_read 3 small_reader (codes "hello")).1),
        ))
      × (IsReader r
          × (window r ≡ drop 3 (pending maximum text_read 3 small_reader (codes "hello")).0)))
unfolding new_reader
read-window_example =
    read-window maximum text_read 3 small_reader (codes "hello") small-IsReader (omega arith)
      (omega arith) (omega arith)

abbrev full_reader : Reader
full_reader = record {
  buffer = codes "xhello  ";
  read_start = 1;
  read_size = 5;
  write_start = 6;
  write_size = 2;
}

full-IsReader : IsReader full_reader
full-IsReader = record { follows = refl; inside = omega arith; allocated = omega arith }

read_until_byte-arrived_example :
    (r : Reader) × ((read_until_byte maximum text_read text_good b'l' 9 (full_reader, [])
        ≡ ok (codes "hel", (r, [])))
      × (IsReader r × (window r ≡ codes "lo")))
read_until_byte-arrived_example =
    read_until_byte-arrived maximum text_read text_good b'l' (codes "he") (codes "lo") 9 full_reader
      [] full-IsReader refl (omega arith, (omega arith, tt)) (omega arith)

-- what is given, or nothing
abbrev given : Result (Bytes × (Reader × Bytes)) → Option Bytes
given (ok (bytes, _)) = some bytes
given _ = none

until_runs :
    given (read_until maximum text_read text_good (codes "bar") 9 (small_reader, codes "foobar!"))
    ≡ some (codes "foobar")
unfolding read_until new_reader
until_runs = refl

-- The search does not look again at the byte at which it fails, so "ab" is not found in "aab"; and a
-- reader that has unread bytes is good, so at the end of the source it looks behind its window.
until_misses :
    read_until maximum text_read text_good (codes "ab") 9 (small_reader, codes "aab") ≡ undefined
unfolding read_until new_reader
until_misses = refl

-- A buffer without bytes does not grow.
grow_nothing : grow 64 0 1 ≡ none
unfolding grow
grow_nothing = refl
