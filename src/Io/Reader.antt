-- ===== src/Io/Reader.antt =====
-- `CoReader` of lw/io/co/co.h, and the windows of its buffer, which co.cpp adjusts. A window is its
-- offset in the buffer and its size; the windows of a new reader, which point nowhere, have offset
-- and size 0. The source is an argument: what a read of at most so many bytes gives, and what it
-- leaves of the source. A source that throws is not modelled. A limit of 0, for which the code takes
-- `read_block_size`, is replaced by that before.
pub mod Room
pub mod Loads
pub mod Reads
pub mod Until
mod Tests
use liblw.Prelude.{
  ℕ, zero, suc, ◌+◌, ◌-◌, ◌*◌, ◌%◌, ◌^◌, Bool, true, false, not, ◌&&◌, ◌||◌, List, [], ◌∷◌, ◌++◌,
  Option, none, some, length, get_elem?, take, drop, min, replicate, ltb, leb, ◌==◌, if◌then◌else◌,
}
use liblw.Base.Chars.{Bytes}
use liblw.Err.{Result, ok, throws, undefined, invalid_argument, resource_exhausted, ◌>>=◌}

pub record Reader : Type 0 where
  pub buffer : Bytes
  pub read_start : ℕ
  pub read_size : ℕ
  pub write_start : ℕ
  pub write_size : ℕ

-- the bytes of the read window
abbrev pub window : Reader → Bytes
window r = take r.read_size (drop r.read_start r.buffer)

-- `buffer` with `bytes` from the offset `i` on
unfoldable pub overwrite : ℕ → Bytes → Bytes → Bytes
overwrite i bytes buffer = take i buffer ++ (bytes ++ drop (i + length bytes) buffer)

-- The buffer of a new reader has `initial_read_buffer_size` bytes, of no known value: here 0.
unfoldable pub new_reader : ℕ → Reader
new_reader initial_read_buffer_size = record {
  buffer = replicate initial_read_buffer_size 0;
  read_start = 0;
  read_size = 0;
  write_start = 0;
  write_size = 0;
}

-- `while (new_size < desired_total_size) new_size *= 2`: with a size of 0 it does not end, for which
-- `none` stands, as where the fuel is not enough.
unfoldable pub grow : ℕ → (new_size desired_total_size : ℕ) → Option ℕ
grow zero new_size desired = if ltb new_size desired then none else some new_size
grow (suc fuel) new_size desired =
    let more = grow fuel (new_size * 2 % 2 ^ 64) desired in
    if ltb new_size desired then more else some new_size

-- The read window at the front of a buffer, and the rest as the write window, where
-- `trim_prefix` throws if the buffer is smaller.
unfoldable pub at_front : Bytes → Bytes → Result Reader
unfolding overwrite
at_front bytes buffer =
    if ltb (length buffer) (length bytes)
    then throws invalid_argument
    else ok (record {
      buffer = overwrite 0 bytes buffer;
      read_start = 0;
      read_size = length bytes;
      write_start = length bytes;
      write_size = length buffer - length bytes;
    })

module _ (maximum_read_buffer_size : ℕ) where
  -- a new buffer of the size that was found
  unfoldable pub moved_to : Reader → Option ℕ → Result Reader
  unfolding at_front
  moved_to r none = undefined
  moved_to r (some new_size) =
      at_front (window r) (replicate (min new_size maximum_read_buffer_size) 0)

  unfoldable pub realloc_buffers : Reader → ℕ → Result Reader
  unfolding moved_to grow
  realloc_buffers r desired_total_size =
      if ltb maximum_read_buffer_size desired_total_size
      then throws resource_exhausted
      else moved_to r (grow 64 (length r.buffer * 2 % 2 ^ 64) desired_total_size)

  unfoldable pub adjust_buffers : Reader → ℕ → Result Reader
  unfolding realloc_buffers at_front
  adjust_buffers r desired_write_size =
      if leb desired_write_size r.write_size
      then ok r
      else let additional_space = desired_write_size - r.write_size in
        if ltb r.read_start additional_space
        then realloc_buffers r (length r.buffer + additional_space)
        else at_front (window r) r.buffer

  module _ {S : Type 0} (source_read : S → ℕ → Bytes × S) where
    -- what was read is put into the write window, and the windows are adjusted
    unfoldable pub store_read : Reader → Bytes × S → Result (Reader × S)
    unfolding overwrite
    store_read r (bytes, source) =
        if ltb r.write_size (length bytes)
        then throws invalid_argument
        else ok (
          record r {
            buffer = overwrite r.write_start bytes r.buffer;
            write_start = r.write_start + length bytes;
            write_size = r.write_size - length bytes;
            read_size = r.read_size + length bytes;
          },
          source,
        )

    -- `_load_buffer`
    unfoldable pub load_buffer : ℕ → Reader × S → Result (Reader × S)
    unfolding adjust_buffers store_read
    load_buffer limit (r, source) =
        adjust_buffers r limit >>= λ r'. store_read r' (source_read source limit)

    -- the first bytes of the read window, at most `bytes`
    unfoldable pub take_read : ℕ → Reader × S → Result (Bytes × (Reader × S))
    take_read bytes (r, source) =
        let size = min bytes r.read_size in
        ok (
          take size (window r),
          (record r { read_start = r.read_start + size; read_size = r.read_size - size }, source),
        )

    unfoldable pub read : ℕ → Reader × S → Result (Bytes × (Reader × S))
    unfolding load_buffer take_read
    read bytes (r, source) =
        if ltb r.read_size bytes
        then load_buffer (bytes - r.read_size) (r, source) >>= take_read bytes
        else take_read bytes (r, source)

    module _ (source_good : S → Bool) where
      unfoldable pub good : Reader × S → Bool
      good (r, source) = not (r.read_size == 0) || source_good source

      -- More bytes, if the index is behind the read window.
      unfoldable pub load_at : (i limit : ℕ) → Reader × S → Result (Reader × S)
      unfolding load_buffer
      load_at i limit (r, source) =
          if leb r.read_size i then load_buffer (limit - i) (r, source) else ok (r, source)

      -- What follows the look at the byte at `i`.
      unfoldable pub after_byte :
          ℕ
          → (loop : Reader × S → Result (Bytes × (Reader × S))) → ℕ
          → Reader × S
          → Option ℕ
          → Result (Bytes × (Reader × S))
      unfolding take_read
      after_byte c loop i state none = undefined
      after_byte c loop i state (some byte) =
          if byte == c then take_read (i + 1) state else loop state

      -- The loop of `read_until` of a byte, where `rounds` is `limit - i`. Behind its last round it
      -- gives no value, and it may look at a byte behind the read window: both are undefined. It
      -- gives an empty buffer if the index is behind the window and the reader is not good.
      unfoldable pub byte_loop : ℕ → (rounds i : ℕ) → Reader × S → Result (Bytes × (Reader × S))
      unfolding load_at after_byte good
      byte_loop c zero i state = undefined
      byte_loop c (suc rounds) i (r, source) =
          if leb r.read_size i && not (good (r, source))
          then ok ([], (r, source))
          else load_at i (i + suc rounds) (r, source) >>= λ state.
              after_byte c (byte_loop c rounds (i + 1)) i state (get_elem? (window state.0) i)

      unfoldable pub read_until_byte : ℕ → ℕ → Reader × S → Result (Bytes × (Reader × S))
      unfolding byte_loop
      read_until_byte c limit state = byte_loop c limit 0 state

      -- what the body of the loop makes of a byte: how much of `str` has been found
      unfoldable pub next_position : Bytes → ℕ → ℕ → ℕ
      next_position str str_pos byte = elim (get_elem? str str_pos) [
        | none ↦ 0
        | some c ↦ if byte == c then str_pos + 1 else 0
      ]

      -- The loop of `read_until` of a string, likewise.
      unfoldable pub until_loop :
          Bytes → (rounds i str_pos : ℕ) → Reader × S → Result (Bytes × (Reader × S))
      unfolding load_at next_position take_read good
      until_loop str zero i str_pos state = undefined
      until_loop str (suc rounds) i str_pos (r, source) =
          if leb r.read_size i && not (good (r, source))
          then ok ([], (r, source))
          else load_at i (i + suc rounds) (r, source) >>= λ state.
              elim (get_elem? (window state.0) i) [
                | none ↦ undefined
                | some byte ↦
                    let str_pos' = next_position str str_pos byte in
                    if str_pos' == length str
                    then take_read (i + 1) state
                    else until_loop str rounds (i + 1) str_pos' state
              ]

      unfoldable pub read_until : Bytes → ℕ → Reader × S → Result (Bytes × (Reader × S))
      unfolding until_loop
      read_until str limit state = until_loop str limit 0 0 state
