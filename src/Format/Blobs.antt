-- ===== src/Format/Blobs.antt =====
-- lw/format/blobs.h and blobs.cpp: the views of a buffer as hexadecimal digits and in base 64, with
-- the iterators that compute them. A byte is its unsigned value.
pub mod Steps
pub mod Hex
pub mod Base64
mod Tests
use liblw.Prelude.{
  ℕ, zero, suc, ◌+◌, ◌-◌, ◌*◌, ◌/◌, ◌%◌, ◌^◌, Bool, true, false, ◌&&◌, List, [], ◌∷◌, ◌++◌, Option,
  none, some, length, get_elem?, drop, min, leb, ltb, ◌==◌, if◌then◌else◌,
}
use liblw.Base.Chars.{Bytes, codes}

-- An iterator without its buffer: `_index`, `_char_index`, and the characters it has loaded, of
-- which there are none where the array was not written.
pub record Iterator : Type 0 where
  pub index : ℕ
  pub char_index : ℕ
  pub chars : Bytes

-- `operator*`
unfoldable pub character : Iterator → Option ℕ
character it = get_elem? it.chars it.char_index

-- `operator==` of two iterators over one buffer
unfoldable pub same_position : Iterator → Iterator → Bool
same_position a b = a.index == b.index && a.char_index == b.char_index

-- `BlobView::end`
unfoldable pub end : Bytes → Iterator
end buffer = record { index = length buffer; char_index = 0; chars = [] }

unfoldable pub put_character : Option ℕ → Option Bytes → Option Bytes
put_character (some c) (some cs) = some (c ∷ cs)
put_character _ _ = none

-- `operator<<`: the characters from `it` on until it is at `last`. There is no result if the fuel is
-- not enough or a character is read that was not written.
unfoldable pub print_from : (Iterator → Iterator) → ℕ → Iterator → Iterator → Option Bytes
unfolding same_position put_character character
print_from advance zero it last = if same_position it last then some [] else none
print_from advance (suc fuel) it last =
    let more = put_character (character it) (print_from advance fuel (advance it) last) in
    if same_position it last then some [] else more
