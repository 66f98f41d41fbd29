-- ===== src/Format/Blobs/Base64/Text.antt =====
-- What is printed for a buffer in base 64.
use liblw.Prelude.{
  ℕ, zero, suc, ◌+◌, ◌-◌, ◌*◌, ◌/◌, ◌%◌, ◌^◌, ◌≤◌, ◌<◌, ◌≡◌, refl, sym, ap, ◌∙◌, false, [], ◌∷◌,
  ◌++◌, append_assoc, none, some, arith, length, length-append, get_elem?, min, ltb, ◌==◌,
  if◌then◌else◌,
}
use liblw.Base.Chars.{Bytes}
use liblw.Base.Views.Cut.{drop-prefix}
use liblw.Format.Blobs.{character, same_position, end, print_from}
use liblw.Format.Blobs.Steps.{print_from-end, print_from-step}
use liblw.Format.Blobs.Hex.{AreBytes}
use liblw.Format.Blobs.Base64.{
  b64_char, b64_table, to_base_64, collect_all, collect, take_groups, pad, load_chars, at_index,
  advance, print, size,
}

-- The alphabet of base 64: the capital letters, the small ones, the digits, `+` and `/`, for the
-- lowest six bits of a number.
unfoldable pub letter : ℕ → ℕ
letter n =
    let i = n % 64 in
    if ltb i 26
    then 65 + i
    else (if ltb i 52
        then 97 + (i - 26)
        else (if ltb i 62 then 48 + (i - 52) else (if i == 62 then b'+' else b'/')))

letters_from : ℕ → ℕ → Bytes
unfolding letter
letters_from first zero = []
letters_from first (suc n) = letter first ∷ letters_from (first + 1) n

get_elem?-letters_from :
    (n first i : ℕ) → i < n → get_elem? (letters_from first n) i ≡ some (letter (first + i))
unfolding letters_from
get_elem?-letters_from zero first i lt = absurd (omega arith)
get_elem?-letters_from (suc n) first zero lt = ground arith
get_elem?-letters_from (suc n) first (suc i) lt =
    let next : first + 1 + i ≡ first + suc i = omega arith in
    get_elem?-letters_from n (first + 1) i (omega arith) ∙ ap (λ k. some (letter k)) next

table_lem : b64_table ≡ letters_from 0 64
unfolding letters_from
table_lem = refl

b64_char_lem : (m n : ℕ) → m % 64 ≡ n % 64 → b64_char m ≡ letter n
unfolding b64_char letter
b64_char_lem m n e =
    let at_zero : 0 + m % 64 ≡ m % 64 = omega arith in
    let found : get_elem? b64_table (m % 64) ≡ some (letter (m % 64)) =
      ap (λ l. get_elem? l (m % 64)) table_lem
      ∙ get_elem?-letters_from 64 0 (m % 64) (omega arith)
      ∙ ap (λ k. some (letter k)) at_zero in
    let again : m % 64 % 64 ≡ n % 64 = omega (arith, e) in
    let same : letter (m % 64) ≡ letter n = rw again refl in
    ap (λ o. elim o [ none ↦ 0 | some c ↦ c ]) found ∙ same

-- Three bytes are one number of four groups of six bits; where bytes are missing, so are groups.
unfoldable pub base64_text : Bytes → Bytes
base64_text [] = []
base64_text (a ∷ []) = let n = a * 2 ^ 4 in letter (n / 2 ^ 6) ∷ letter n ∷ b'=' ∷ b'=' ∷ []
base64_text (a ∷ b ∷ []) =
    let n = (a * 2 ^ 8 + b) * 2 ^ 2 in
    letter (n / 2 ^ 12) ∷ letter (n / 2 ^ 6) ∷ letter n ∷ b'=' ∷ []
base64_text (a ∷ b ∷ c ∷ rest) =
    let n = (a * 2 ^ 8 + b) * 2 ^ 8 + c in
    letter (n / 2 ^ 18) ∷ letter (n / 2 ^ 12) ∷ letter (n / 2 ^ 6) ∷ letter n ∷ base64_text rest

four :
    {a b c d a' b' c' d' : ℕ}
    → a ≡ a'
    → b ≡ b'
    → c ≡ c'
    → d ≡ d'
    → a ∷ b ∷ c ∷ d ∷ [] ≡ a' ∷ b' ∷ c' ∷ d' ∷ []
four p q r s = rw (p, q, r, s) refl

to_base_64-one : (a : ℕ) → a < 256 → to_base_64 (a ∷ []) ≡ base64_text (a ∷ [])
unfolding to_base_64 collect_all collect take_groups pad base64_text
to_base_64-one a la =
    four (b64_char_lem _ _ (omega arith)) (b64_char_lem _ _ (omega arith)) refl refl

to_base_64-two : (a b : ℕ) → a < 256 → b < 256 → to_base_64 (a ∷ b ∷ []) ≡ base64_text (a ∷ b ∷ [])
unfolding to_base_64 collect_all collect take_groups pad base64_text
to_base_64-two a b la lb =
    four (b64_char_lem _ _ (omega arith)) (b64_char_lem _ _ (omega arith))
      (b64_char_lem _ _ (omega arith)) refl

to_base_64-three :
    (a b c : ℕ) (rest : Bytes)
    → a < 256
    → b < 256
    → c < 256
    → to_base_64 (a ∷ b ∷ c ∷ rest) ≡ base64_text (a ∷ b ∷ c ∷ [])
unfolding to_base_64 collect_all collect take_groups pad base64_text
to_base_64-three a b c [] la lb lc =
    four (b64_char_lem _ _ (omega arith)) (b64_char_lem _ _ (omega arith))
      (b64_char_lem _ _ (omega arith)) (b64_char_lem _ _ (omega arith))
to_base_64-three a b c (d ∷ rest) la lb lc =
    four (b64_char_lem _ _ (omega arith)) (b64_char_lem _ _ (omega arith))
      (b64_char_lem _ _ (omega arith)) (b64_char_lem _ _ (omega arith))

size_lem : (buffer : Bytes) → size (length buffer) ≡ length (base64_text buffer)
unfolding size base64_text
size_lem [] = refl
size_lem (a ∷ []) = refl
size_lem (a ∷ b ∷ []) = refl
size_lem (a ∷ b ∷ c ∷ rest) = omega (arith, size_lem rest)

module _ (buffer : Bytes) where
  -- the four characters of a block, then those of the rest
  print_block :
      (index fuel : ℕ) (a b c d : ℕ) (cs : Bytes)
      → index < length buffer
      → load_chars buffer index ≡ a ∷ b ∷ c ∷ d ∷ []
      → print_from
          (advance buffer)
          fuel
          (at_index buffer (min (index + 3) (length buffer)) 0)
          (end buffer)
        ≡ some cs
      → print_from
          (advance buffer)
          (suc (suc (suc (suc fuel))))
          (at_index buffer index 0)
          (end buffer)
        ≡ some (a ∷ b ∷ c ∷ d ∷ cs)
  unfolding advance at_index same_position character end
  print_block index fuel a b c d cs lt loaded rest =
      let apart : (index == length buffer) ≡ false = ground arith in
      print_from-step (advance buffer) (end buffer) (suc (suc (suc fuel))) _ a (b ∷ c ∷ d ∷ cs)
        (rw apart refl) (ap (λ chars. get_elem? chars 0) loaded)
        (print_from-step (advance buffer) (end buffer) (suc (suc fuel)) _ b (c ∷ d ∷ cs)
          (rw apart refl) (ap (λ chars. get_elem? chars 1) loaded)
          (print_from-step (advance buffer) (end buffer) (suc fuel) _ c (d ∷ cs) (rw apart refl)
            (ap (λ chars. get_elem? chars 2) loaded)
            (print_from-step (advance buffer) (end buffer) fuel _ d cs (rw apart refl)
              (ap (λ chars. get_elem? chars 3) loaded) rest)))

  load_chars-behind :
      (pre rest : Bytes) → buffer ≡ pre ++ rest → load_chars buffer (length pre) ≡ to_base_64 rest
  unfolding load_chars
  load_chars-behind pre rest e =
      let inside : ltb (length buffer) (length pre) ≡ false =
        ground (arith, ap length e, length-append pre rest) in
      rw inside (ap to_base_64 (drop-prefix pre rest buffer (length pre) e refl))

  -- at the end of the buffer nothing is left
  print_from-last :
      (fuel index : ℕ)
      → index ≡ length buffer
      → print_from (advance buffer) fuel (at_index buffer index 0) (end buffer) ≡ some []
  unfolding same_position at_index end
  print_from-last fuel index e =
      print_from-end (advance buffer) (end buffer) fuel _ (ground (arith, e))

  print_from-rest :
      (pre rest : Bytes) (fuel : ℕ)
      → buffer ≡ pre ++ rest
      → size (length rest) ≤ fuel
      → AreBytes rest
      → print_from (advance buffer) fuel (at_index buffer (length pre) 0) (end buffer)
        ≡ some (base64_text rest)
  unfolding base64_text size
  print_from-rest pre [] fuel e le h =
      print_from-last fuel (length pre) (omega (arith, ap length e, length-append pre []))
  print_from-rest pre (a ∷ []) (suc (suc (suc (suc fuel)))) e le h =
      print_block (length pre) fuel _ _ _ _ []
        (omega (arith, ap length e, length-append pre (a ∷ [])))
        (load_chars-behind pre (a ∷ []) e ∙ to_base_64-one a h.0)
        (print_from-last fuel _ (omega (arith, ap length e, length-append pre (a ∷ []))))
  print_from-rest pre (a ∷ b ∷ []) (suc (suc (suc (suc fuel)))) e le h =
      print_block (length pre) fuel _ _ _ _ []
        (omega (arith, ap length e, length-append pre (a ∷ b ∷ [])))
        (load_chars-behind pre (a ∷ b ∷ []) e ∙ to_base_64-two a b h.0 h.1.0)
        (print_from-last fuel _ (omega (arith, ap length e, length-append pre (a ∷ b ∷ []))))
  print_from-rest pre (a ∷ b ∷ c ∷ rest) (suc (suc (suc (suc fuel)))) e le h =
      let next : min (length pre + 3) (length buffer) ≡ length (pre ++ (a ∷ b ∷ c ∷ [])) = omega (
        arith,
        ap length e,
        length-append pre (a ∷ b ∷ c ∷ rest),
        length-append pre (a ∷ b ∷ c ∷ []),
      ) in
      print_block (length pre) fuel _ _ _ _ (base64_text rest)
        (omega (arith, ap length e, length-append pre (a ∷ b ∷ c ∷ rest)))
        (load_chars-behind pre (a ∷ b ∷ c ∷ rest) e ∙ to_base_64-three a b c rest h.0 h.1.0 h.1.1.0)
        (ap (λ i. print_from (advance buffer) fuel (at_index buffer i 0) (end buffer)) next
          ∙ print_from-rest (pre ++ (a ∷ b ∷ c ∷ [])) rest fuel
              (e ∙ sym (append_assoc pre (a ∷ b ∷ c ∷ []) rest)) (omega arith) h.1.1.1)
  print_from-rest pre (a ∷ rest) fuel e le h = absurd (omega arith)

-- Every buffer is printed in base 64: each three bytes as four characters, and the bytes that are
-- left over with padding. The size of the view is the number of the characters.
pub print-base64_text :
    (buffer : Bytes)
    → AreBytes buffer
    → (print buffer ≡ some (base64_text buffer))
      × (size (length buffer) ≡ length (base64_text buffer))
unfolding print
print-base64_text buffer h =
    (print_from-rest buffer [] buffer (size (length buffer)) refl (omega arith) h, size_lem buffer)
