-- ===== src/Io/Reader/Room.antt =====
-- The buffer is adjusted so that there is room to write, and what was not read yet stays.
use liblw.Prelude.{
  ℕ, zero, suc, ◌+◌, ◌-◌, ◌*◌, ◌%◌, ◌^◌, ◌≤◌, ◌<◌, ◌≡◌, refl, sym, ap, ◌∙◌, false, ◌++◌, some,
  arith, length, length-append, length-take, length-drop, length-replicate, take, drop, min,
  replicate, ltb, leb, Bool-cases, inl, inr,
}
use native.Mathlib.Nat.{pow-suc, mul_assoc, mul_comm}
use liblw.Base.Chars.{Bytes}
use liblw.Base.Views.Cut.{take-append}
use liblw.Err.{ok}
use liblw.Io.Reader.{
  Reader, window, overwrite, grow, at_front, moved_to, realloc_buffers, adjust_buffers,
}

-- The write window follows the read window, inside of the buffer.
pub record IsReader (r : Reader) : Type 0 where
  pub follows : r.write_start ≡ r.read_start + r.read_size
  pub inside : r.write_start + r.write_size ≤ length r.buffer
  pub allocated : 0 < length r.buffer

pub length-window : (r : Reader) → IsReader r → length (window r) ≡ r.read_size
length-window r h = omega (
  arith,
  h.follows,
  h.inside,
  length-take r.read_size (drop r.read_start r.buffer),
  length-drop r.read_start r.buffer,
)

pub length-overwrite :
    (i : ℕ) (bytes buffer : Bytes)
    → i + length bytes ≤ length buffer
    → length (overwrite i bytes buffer) ≡ length buffer
unfolding overwrite
length-overwrite i bytes buffer le = omega (
  arith,
  length-append (take i buffer) (bytes ++ drop (i + length bytes) buffer),
  length-append bytes (drop (i + length bytes) buffer),
  length-take i buffer,
  length-drop (i + length bytes) buffer,
)

-- A reader that has kept the unread bytes and has room for `room` more.
pub record HasRoom (bytes : Bytes) (room : ℕ) (r : Reader) : Type 0 where
  pub consistent : IsReader r
  pub kept : window r ≡ bytes
  pub enough : room ≤ r.write_size

at_front-HasRoom :
    (bytes buffer : Bytes) (room : ℕ)
    → length bytes + room ≤ length buffer
    → 0 < length buffer
    → (r : Reader) × ((at_front bytes buffer ≡ ok r) × HasRoom bytes room r)
unfolding at_front overwrite
at_front-HasRoom bytes buffer room le allocated =
    let fits : ltb (length buffer) (length bytes) ≡ false = ground (arith, le) in
    let same = length-overwrite 0 bytes buffer (omega arith) in
    let r : Reader = record {
      buffer = overwrite 0 bytes buffer;
      read_start = 0;
      read_size = length bytes;
      write_start = length bytes;
      write_size = length buffer - length bytes;
    } in
    (
      r,
      (
        rw fits refl,
        record {
          consistent = record {
            follows = omega arith;
            inside = omega (arith, same);
            allocated = omega (arith, same);
          };
          kept = take-append bytes (drop (0 + length bytes) buffer);
          enough = omega arith;
        },
      ),
    )

grow-enough :
    (fuel n desired : ℕ)
    → 0 < n
    → desired ≤ n * 2 ^ fuel
    → desired < 2 ^ 63
    → (m : ℕ) × ((grow fuel n desired ≡ some m) × (desired ≤ m))
unfolding grow
grow-enough zero n desired some_bytes le small =
    let stop : ltb n desired ≡ false = ground (arith, le) in (n, (rw stop refl, omega arith))
grow-enough (suc fuel) n desired some_bytes le small = elim (Bool-cases (ltb n desired)) [
  | inr large ↦ (n, (rw large refl, ground (arith, large)))
  | inl less ↦
      let lt : n < desired = ground (arith, less) in
      let doubled : n * 2 % 2 ^ 64 ≡ n * 2 = omega arith in
      let (m, (e, enough)) =
        grow-enough fuel (n * 2) desired (omega arith) (omega (arith, halves n fuel)) small in
      (m, (rw less (ap (λ k. grow fuel k desired) doubled ∙ e), enough))
]
  where
    halves : (n fuel : ℕ) → n * 2 ^ suc fuel ≡ n * 2 * 2 ^ fuel
    halves n fuel =
        ap (λ p. n * p) (pow-suc 2 fuel ∙ mul_comm (2 ^ fuel) 2) ∙ sym (mul_assoc n 2 (2 ^ fuel))

module _ (maximum : ℕ) where
  realloc_buffers-HasRoom :
      (r : Reader) (desired room : ℕ)
      → IsReader r
      → maximum < 2 ^ 63
      → desired ≤ maximum
      → length r.buffer ≤ desired
      → r.read_size + room ≤ desired
      → (r' : Reader) × ((realloc_buffers maximum r desired ≡ ok r') × HasRoom (window r) room r')
  unfolding realloc_buffers moved_to
  realloc_buffers-HasRoom r desired room h small le longer enough =
      let allowed : ltb maximum desired ≡ false = ground (arith, le) in
      let no_wrap : length r.buffer * 2 % 2 ^ 64 ≡ length r.buffer * 2 = omega arith in
      let (m, (grown, m_enough)) =
        grow-enough 64 (length r.buffer * 2) desired (omega (arith, h.allocated))
          (omega (arith, h.allocated)) (omega arith) in
      let size = length-replicate {A = ℕ} (min m maximum) 0 in
      let (r', (front, good)) =
        at_front-HasRoom (window r) (replicate (min m maximum) 0) room
          (omega (arith, size, length-window r h)) (omega (arith, size, h.allocated)) in
      (
        r',
        (
          rw allowed (
              ap (λ n. moved_to maximum r (grow 64 n desired)) no_wrap
              ∙ ap (moved_to maximum r) grown
              ∙ front),
          good,
        ),
      )

  -- If the buffer with the additional space is no larger than the maximum, a reader is adjusted so
  -- that there is room for the bytes that are asked for, and what was not read yet stays.
  pub adjust_buffers-HasRoom :
      (r : Reader) (desired : ℕ)
      → IsReader r
      → maximum < 2 ^ 63
      → length r.buffer + (desired - r.write_size) ≤ maximum
      → (r' : Reader) × ((adjust_buffers maximum r desired ≡ ok r') × HasRoom (window r) desired r')
  unfolding adjust_buffers
  adjust_buffers-HasRoom r desired h small le = elim (Bool-cases (leb desired r.write_size)) [
    | inl room ↦
        (r, (rw room refl, record { consistent = h; kept = refl; enough = ground (arith, room) }))
    | inr short ↦ elim (Bool-cases (ltb r.read_start (desired - r.write_size))) [
      | inl less ↦
          let (r', (e, good)) =
            realloc_buffers-HasRoom r (length r.buffer + (desired - r.write_size)) desired h small
              le (omega arith) (ground (arith, short, h.follows, h.inside)) in
          (r', (rw short (rw less e), good))
      | inr more ↦
          let (r', (e, good)) =
            at_front-HasRoom (window r) r.buffer desired
              (ground (arith, short, more, h.follows, h.inside, length-window r h)) h.allocated in
          (r', (rw short (rw more e), good))
    ]
  ]
