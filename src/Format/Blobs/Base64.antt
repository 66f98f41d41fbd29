-- ===== src/Format/Blobs/Base64.antt =====
-- `Base64Iterator` of lw/format/blobs.h and blobs.cpp.
pub mod Text
use liblw.Prelude.{
  ℕ, zero, suc, ◌+◌, ◌-◌, ◌*◌, ◌/◌, ◌%◌, ◌^◌, List, [], ◌∷◌, ◌++◌, Option, none, some, length,
  get_elem?, drop, min, replicate, leb, ltb, ◌==◌, if◌then◌else◌,
}
use liblw.Base.Chars.{Bytes, codes}
use liblw.Format.Blobs.{Iterator, end, print_from}

abbrev pub b64_table : Bytes
b64_table = codes "ABCDEFGHIJKLMNOPQRSTUVWXYZabcdefghijklmnopqrstuvwxyz0123456789+/"

-- `b64_table[n & 0x3f]`
unfoldable pub b64_char : ℕ → ℕ
b64_char n = elim (get_elem? b64_table (n % 2 ^ 6)) [ none ↦ 0 | some c ↦ c ]

-- `out` up to `outpos`, `bits_collected` and `accumulator`, which has 32 bits.
pub record Block : Type 0 where
  pub out : Bytes
  pub bits_collected : ℕ
  pub accumulator : ℕ

-- The inner loop. The fuel is a bound on the bits.
unfoldable pub take_groups : ℕ → Block → Block
take_groups zero block = block
take_groups (suc fuel) block =
    let bits = block.bits_collected - 6 in
    let more = take_groups fuel (record block {
      out = block.out ++ (b64_char (block.accumulator / 2 ^ bits) ∷ []);
      bits_collected = bits;
    }) in
    if leb 6 block.bits_collected then more else block

unfoldable pub collect : ℕ → Block → Block
unfolding take_groups
collect byte block = take_groups (block.bits_collected + 8) (record block {
  accumulator = block.accumulator * 2 ^ 8 % 2 ^ 32 + byte % 2 ^ 8;
  bits_collected = block.bits_collected + 8;
})

-- the loop over the bytes of the buffer
unfoldable pub collect_all : Bytes → Block → Block
unfolding collect
collect_all [] block = block
collect_all (byte ∷ bytes) block =
    let more = collect_all bytes (collect byte block) in
    if ltb (length block.out) 4 then more else block

-- The bits that are left over, and the padding.
unfoldable pub pad : Block → Bytes
pad block =
    let out =
      if ltb 0 block.bits_collected
      then block.out
        ++ (b64_char (block.accumulator * 2 ^ (6 - block.bits_collected) % 2 ^ 32) ∷ [])
      else block.out in
    out ++ replicate (4 - length out) b'='

unfoldable pub to_base_64 : Bytes → Bytes
unfolding collect_all pad
to_base_64 buffer =
    pad (collect_all buffer (record { out = []; bits_collected = 0; accumulator = 0 }))

-- `_load_chars`
unfoldable pub load_chars : Bytes → ℕ → Bytes
unfolding to_base_64
load_chars buffer index =
    if ltb (length buffer) index then replicate 4 0 else to_base_64 (drop index buffer)

unfoldable pub at_index : Bytes → ℕ → (char_index : ℕ) → Iterator
unfolding load_chars
at_index buffer index char_index = record {
  index = index;
  char_index = char_index;
  chars = load_chars buffer index;
}

-- `operator++`
unfoldable pub advance : Bytes → Iterator → Iterator
unfolding at_index
advance buffer it =
    if it.char_index == 3
    then at_index buffer (min (it.index + 3) (length buffer)) 0
    else record it { char_index = it.char_index + 1 }

-- `operator--`, where the index is a `std::size_t`
unfoldable pub retreat : Bytes → Iterator → Iterator
unfolding at_index
retreat buffer it =
    if it.char_index == 0
    then at_index buffer ((it.index + (2 ^ 64 - 3)) % 2 ^ 64) 3
    else record it { char_index = it.char_index - 1 }

unfoldable pub size : ℕ → ℕ
size s = (s + 2) / 3 * 4

-- `out << base64(buffer)`
unfoldable pub print : Bytes → Option Bytes
unfolding print_from advance at_index size
print buffer = print_from (advance buffer) (size (length buffer)) (at_index buffer 0 0) (end buffer)
