-- ===== src/Io/Reader/Reads.antt =====
-- What `read` gives, and what it leaves.
use liblw.Prelude.{
  ℕ, zero, suc, ◌+◌, ◌-◌, ◌^◌, ◌≤◌, ◌<◌, ◌≡◌, refl, sym, ap, ◌∙◌, [], ◌∷◌, ◌++◌, arith, length,
  take, drop, min, ltb, if◌then◌else◌, Bool-cases, inl, inr,
}
use liblw.Base.Chars.{Bytes}
use liblw.Err.{Result, ok, ◌>>=◌}
use liblw.Io.Reader.{Reader, window, take_read, read}
use liblw.Io.Reader.Room.{IsReader, length-window}
use liblw.Io.Reader.Loads.{load_buffer-window}

abbrev w_nil : Bytes
w_nil = []

take-nil : (n : ℕ) → take n w_nil ≡ w_nil
take-nil zero = refl
take-nil (suc n) = refl

drop-nil : (n : ℕ) → drop n w_nil ≡ w_nil
drop-nil zero = refl
drop-nil (suc n) = refl

-- every part of nothing is nothing
none_of_nil : (m n : ℕ) → take m (drop n w_nil) ≡ w_nil
none_of_nil m n = ap (take m) (drop-nil n) ∙ take-nil m

take-min : (n : ℕ) (w : Bytes) → take (min n (length w)) w ≡ take n w
take-min zero w = let z : min 0 (length w) ≡ 0 = omega arith in ap (λ k. take k w) z
take-min (suc n) [] = let z : min (suc n) 0 ≡ 0 = omega arith in ap (λ k. take k w_nil) z
take-min (suc n) (c ∷ w) =
    let s : min (suc n) (suc (length w)) ≡ suc (min n (length w)) = omega arith in
    ap (λ k. take k (c ∷ w)) s ∙ ap (λ r. c ∷ r) (take-min n w)

drop-min : (n : ℕ) (w : Bytes) → drop (min n (length w)) w ≡ drop n w
drop-min zero w = let z : min 0 (length w) ≡ 0 = omega arith in ap (λ k. drop k w) z
drop-min (suc n) [] = let z : min (suc n) 0 ≡ 0 = omega arith in ap (λ k. drop k w_nil) z
drop-min (suc n) (c ∷ w) =
    let s : min (suc n) (suc (length w)) ≡ suc (min n (length w)) = omega arith in
    ap (λ k. drop k (c ∷ w)) s ∙ drop-min n w

-- the bytes of a part of a window
take-drop :
    (start size k : ℕ) (xs : Bytes)
    → k ≤ size
    → take (size - k) (drop (start + k) xs) ≡ drop k (take size (drop start xs))
take-drop (suc start) size k [] le =
    none_of_nil (size - k) (suc start + k) ∙ sym (ap (drop k) (take-nil size) ∙ drop-nil k)
take-drop (suc start) size k (x ∷ xs) le =
    let s : suc start + k ≡ suc (start + k) = omega arith in
    ap (λ n. take (size - k) (drop n (x ∷ xs))) s ∙ take-drop start size k xs le
take-drop zero size zero xs le = let s : size - 0 ≡ size = omega arith in ap (λ n. take n xs) s
take-drop zero zero (suc k) xs le = absurd (omega arith)
take-drop zero (suc size) (suc k) [] le = none_of_nil (suc size - suc k) (zero + suc k)
take-drop zero (suc size) (suc k) (x ∷ xs) le =
    let s : suc size - suc k ≡ size - k = omega arith in
    let t : zero + suc k ≡ suc (zero + k) = omega arith in
    ap (λ n. take n (drop (zero + suc k) (x ∷ xs))) s
    ∙ ap (λ n. take (size - k) (drop n (x ∷ xs))) t
    ∙ take-drop zero size k xs (omega arith)

module _ (maximum : ℕ) {S : Type 0} (source_read : S → ℕ → Bytes × S) where
  -- the bytes that a read of `n` bytes chooses from, and what it leaves of the source
  unfoldable pub pending : ℕ → Reader → S → Bytes × S
  pending n r source =
      if ltb r.read_size n
      then (
        window r ++ (source_read source (n - r.read_size)).0,
        (source_read source (n - r.read_size)).1,
      )
      else (window r, source)

  -- The first `n` bytes of `all` are given, and the rest is left
  abbrev pub Gives : ℕ → Bytes → S → Result (Bytes × (Reader × S)) → Type 0
  Gives n all source result =
      (r : Reader) × ((result ≡ ok (take n all, (r, source)))
        × (IsReader r × (window r ≡ drop n all)))

  pub take_read-Gives :
      (n : ℕ) (r : Reader) (source : S)
      → IsReader r
      → Gives n (window r) source (take_read maximum source_read n (r, source))
  unfolding take_read
  take_read-Gives n r source h =
      let size = min n r.read_size in
      let full : r.read_size ≡ length (window r) = sym (length-window r h) in
      let r' : Reader = record r {
        read_start = r.read_start + size;
        read_size = r.read_size - size;
      } in
      (
        r',
        (
          ap (λ bytes. ok (bytes, (r', source)))
              (ap (λ m. take (min n m) (window r)) full ∙ take-min n (window r)),
          (
            record {
              follows = omega (arith, h.follows);
              inside = h.inside;
              allocated = h.allocated;
            },
            take-drop r.read_start r.read_size size r.buffer (omega arith)
                ∙ ap (λ m. drop (min n m) (window r)) full
                ∙ drop-min n (window r),
          ),
        ),
      )

  -- Let a reader be consistent, and let there be room for the bytes that it has to load. If it has
  -- as many unread bytes as are asked for, it gives them and leaves the others.
  -- Else it reads once from its source, which gives no more than it is asked for, and gives the
  -- bytes from the front of what it had and what it got, and leaves the others. The reader stays
  -- consistent.
  pub read-window :
      (n : ℕ) (r : Reader) (source : S)
      → IsReader r
      → maximum < 2 ^ 63
      → length r.buffer + (n - r.read_size - r.write_size) ≤ maximum
      → length (source_read source (n - r.read_size)).0 ≤ n - r.read_size
      → (r' : Reader) × ((read maximum source_read n (r, source)
            ≡ ok (take n (pending n r source).0, (r', (pending n r source).1)))
          × (IsReader r' × (window r' ≡ drop n (pending n r source).0)))
  unfolding read pending
  read-window n r source h small le short = elim (Bool-cases (ltb r.read_size n)) [
    | inr enough ↦ rw enough (take_read-Gives n r source h)
    | inl more ↦
        let (r1, (e, (h1, w))) =
          load_buffer-window maximum source_read r source (n - r.read_size) h small le short in
        let (r2, (f, (h2, v))) = take_read-Gives n r1 (source_read source (n - r.read_size)).1 h1 in
        rw more (
          r2,
          (
            ap (λ x. x >>= take_read maximum source_read n) e
                ∙ f
                ∙ ap (λ b. ok (take n b, (r2, (source_read source (n - r.read_size)).1))) w,
            (h2, v ∙ ap (drop n) w),
          ),
        )
  ]
