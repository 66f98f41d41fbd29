-- ===== src/Format/Blobs/Hex.antt =====
-- `HexIterator` of lw/format/blobs.h and blobs.cpp, and the text of the view `hex`.
use liblw.Prelude.{
  ℕ, zero, suc, ◌+◌, ◌-◌, ◌*◌, ◌/◌, ◌%◌, ◌^◌, ◌≤◌, ◌<◌, ◌≡◌, refl, sym, ap, ◌∙◌, true, false, [],
  ◌∷◌, ◌++◌, append_assoc, Option, none, some, arith, length, length-append, get_elem?, ltb, ◌==◌,
  if◌then◌else◌,
}
use liblw.Base.Chars.{Bytes}
use liblw.Base.Views.Cut.{get_elem?-append}
use liblw.Format.Blobs.Steps.{print_from-end, print_from-step}
use liblw.Format.Blobs.{Iterator, character, same_position, end, print_from}

unfoldable pub to_hex_char : ℕ → ℕ
to_hex_char n = if ltb n 10 then b'0' + n else b'a' + n - 10

unfoldable pub hex_chars : Option ℕ → Bytes
unfolding to_hex_char
hex_chars (some b) = to_hex_char (b / 2 ^ 4 % 2 ^ 4) ∷ to_hex_char (b % 2 ^ 4) ∷ []
hex_chars none = 0 ∷ 0 ∷ []

-- `_load_chars`
unfoldable pub load_chars : Bytes → ℕ → Bytes
unfolding hex_chars
load_chars buffer index = hex_chars (get_elem? buffer index)

unfoldable pub at_index : Bytes → ℕ → (char_index : ℕ) → Iterator
unfolding load_chars
at_index buffer index char_index = record {
  index = index;
  char_index = char_index;
  chars = load_chars buffer index;
}

-- `operator++`
unfoldable pub advance : Bytes → Iterator → Iterator
unfolding at_index
advance buffer it =
    if it.char_index == 1 then at_index buffer (it.index + 1) 0 else record it { char_index = 1 }

-- `operator--`, where the index is a `std::size_t`
unfoldable pub retreat : Bytes → Iterator → Iterator
unfolding at_index
retreat buffer it =
    if it.char_index == 0
    then at_index buffer ((it.index + (2 ^ 64 - 1)) % 2 ^ 64) 1
    else record it { char_index = 0 }

unfoldable pub size : ℕ → ℕ
size s = s * 2

-- `out << hex(buffer)`
unfoldable pub print : Bytes → Option Bytes
unfolding print_from advance at_index size
print buffer = print_from (advance buffer) (size (length buffer)) (at_index buffer 0 0) (end buffer)

-- two digits for each byte
unfoldable pub hex_text : Bytes → Bytes
unfolding to_hex_char
hex_text [] = []
hex_text (b ∷ bs) = to_hex_char (b / 16) ∷ to_hex_char (b % 16) ∷ hex_text bs

abbrev pub AreBytes : Bytes → Type 0
AreBytes [] = Unit
AreBytes (b ∷ bs) = (b < 256) × AreBytes bs

load_chars-append :
    (buffer pre rest : Bytes) (b : ℕ)
    → buffer ≡ pre ++ (b ∷ rest)
    → b < 256
    → load_chars buffer (length pre) ≡ to_hex_char (b / 16) ∷ to_hex_char (b % 16) ∷ []
unfolding load_chars hex_chars
load_chars-append buffer pre rest b e lt =
    ap hex_chars (get_elem?-append pre rest buffer b (length pre) e refl)
    ∙ ap (λ d. to_hex_char d ∷ to_hex_char (b % 16) ∷ []) (omega arith)

module _ (buffer : Bytes) where
  -- the two characters of a byte, then those of the rest
  print_byte :
      (index fuel : ℕ) (c d : ℕ) (cs : Bytes)
      → index < length buffer
      → load_chars buffer index ≡ c ∷ d ∷ []
      → print_from (advance buffer) fuel (at_index buffer (index + 1) 0) (end buffer) ≡ some cs
      → print_from (advance buffer) (suc (suc fuel)) (at_index buffer index 0) (end buffer)
        ≡ some (c ∷ d ∷ cs)
  unfolding advance at_index same_position character end
  print_byte index fuel c d cs lt loaded rest =
      let apart : (index == length buffer) ≡ false = ground arith in
      print_from-step (advance buffer) (end buffer) (suc fuel) _ c (d ∷ cs) (rw apart refl)
        (ap (λ chars. get_elem? chars 0) loaded)
        (print_from-step (advance buffer) (end buffer) fuel _ d cs (rw apart refl)
          (ap (λ chars. get_elem? chars 1) loaded) rest)

  at_end :
      (index : ℕ)
      → index ≡ length buffer
      → same_position (at_index buffer index 0) (end buffer) ≡ true
  unfolding same_position at_index end
  at_end index e = ground arith

  print_from-rest :
      (pre rest : Bytes) (fuel : ℕ)
      → buffer ≡ pre ++ rest
      → length rest * 2 ≤ fuel
      → AreBytes rest
      → print_from (advance buffer) fuel (at_index buffer (length pre) 0) (end buffer)
        ≡ some (hex_text rest)
  unfolding hex_text
  print_from-rest pre [] fuel e le h =
      print_from-end (advance buffer) (end buffer) fuel _
        (at_end (length pre) (omega (arith, ap length e, length-append pre [])))
  print_from-rest pre (b ∷ rest) zero e le h = absurd (omega arith)
  print_from-rest pre (b ∷ rest) (suc zero) e le h = absurd (omega arith)
  print_from-rest pre (b ∷ rest) (suc (suc fuel)) e le h =
      print_byte (length pre) fuel _ _ (hex_text rest)
        (omega (arith, ap length e, length-append pre (b ∷ rest)))
        (load_chars-append buffer pre rest b e h.0)
        (ap (λ i. print_from (advance buffer) fuel (at_index buffer i 0) (end buffer))
            (sym (length-append pre (b ∷ [])))
          ∙ print_from-rest (pre ++ (b ∷ [])) rest fuel (e ∙ sym (append_assoc pre (b ∷ []) rest))
              (omega arith) h.1)

-- Where there is a byte, going back undoes going on.
pub retreat-advance :
    (buffer : Bytes) (index char_index : ℕ)
    → index < length buffer
    → length buffer < 2 ^ 64
    → char_index < 2
    → retreat buffer (advance buffer (at_index buffer index char_index))
      ≡ at_index buffer index char_index
unfolding retreat advance
retreat-advance buffer index zero lt small two = refl
retreat-advance buffer index (suc zero) lt small two =
    let back : (index + 1 + (2 ^ 64 - 1)) % 2 ^ 64 ≡ index = omega arith in
    ap (λ i. at_index buffer i 1) back
retreat-advance buffer index (suc (suc n)) lt small two = absurd (omega arith)

-- Every buffer is printed as two digits for each byte, in order: the size of the view is the number
-- of the characters.
pub print-hex_text : (buffer : Bytes) → AreBytes buffer → print buffer ≡ some (hex_text buffer)
unfolding print size
print-hex_text buffer h = print_from-rest buffer [] buffer (length buffer * 2) refl (omega arith) h
