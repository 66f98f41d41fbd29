-- ===== src/Io/Reader/Loads.antt =====
-- The reader as the bytes that it has taken from its source and not given yet.
use liblw.Prelude.{
  ℕ, zero, suc, ◌+◌, ◌-◌, ◌^◌, ◌≤◌, ◌<◌, ◌≡◌, refl, sym, ap, ◌∙◌, false, [], ◌∷◌, ◌++◌,
  append_assoc, arith, length, length-append, length-take, length-drop, take, drop, ltb,
}
use liblw.Base.Chars.{Bytes}
use liblw.Base.Views.Cut.{take-append, drop-prefix}
use liblw.Err.{Result, ok, ◌>>=◌}
use liblw.Io.Reader.{Reader, window, overwrite, store_read, load_buffer}
use liblw.Io.Reader.Room.{IsReader, length-overwrite, adjust_buffers-HasRoom}

abbrev the_nil : Bytes
the_nil = []

take-nil : (n : ℕ) → take n (the_nil) ≡ the_nil
take-nil zero = refl
take-nil (suc n) = refl

take_add : (a b : ℕ) (xs : Bytes) → take (a + b) xs ≡ take a xs ++ take b (drop a xs)
take_add zero b xs = let same : zero + b ≡ b = omega arith in ap (λ n. take n xs) same
take_add (suc a) b [] =
    let same : suc a + b ≡ suc (a + b) = omega arith in
    ap (λ n. take n the_nil) same ∙ sym (take-nil b)
take_add (suc a) b (x ∷ xs) =
    let same : suc a + b ≡ suc (a + b) = omega arith in
    ap (λ n. take n (x ∷ xs)) same ∙ ap (λ r. x ∷ r) (take_add a b xs)

-- A window of `size` from `start` that is followed by `bytes`.
window-overwrite :
    (start size : ℕ) (bytes buffer : Bytes)
    → start + size + length bytes ≤ length buffer
    → take (size + length bytes) (drop start (overwrite (start + size) bytes buffer))
      ≡ take size (drop start buffer) ++ bytes
unfolding overwrite
window-overwrite start size bytes buffer le =
    let parts : view ≡ pre ++ (w ++ (bytes ++ tail)) =
      ap (λ x. x ++ (bytes ++ tail)) (take_add start size buffer)
      ∙ append_assoc pre w (bytes ++ tail) in
    let sizes : size + length bytes ≡ length (w ++ bytes) = omega (
      arith,
      length-append w bytes,
      length-take size (drop start buffer),
      length-drop start buffer,
    ) in
    ap (take (size + length bytes)) (
      drop-prefix pre (w ++ (bytes ++ tail)) view start parts
        (omega (arith, length-take start buffer)))
    ∙ ap (λ x. take (size + length bytes) x) (sym (append_assoc w bytes tail))
    ∙ ap (λ n. take n ((w ++ bytes) ++ tail)) sizes
    ∙ take-append (w ++ bytes) tail
  where
    tail : Bytes
    tail = drop (start + size + length bytes) buffer

    pre : Bytes
    pre = take start buffer

    w : Bytes
    w = take size (drop start buffer)

    view : Bytes
    view = take (start + size) buffer ++ (bytes ++ tail)

module _ (maximum : ℕ) {S : Type 0} (source_read : S → ℕ → Bytes × S) where
  store_read-window :
      (r : Reader) (bytes : Bytes) (source : S)
      → IsReader r
      → length bytes ≤ r.write_size
      → (r' : Reader) × ((store_read maximum source_read r (bytes, source) ≡ ok (r', source))
          × (IsReader r' × (window r' ≡ window r ++ bytes)))
  unfolding store_read
  store_read-window r bytes source h le =
      let fits : ltb r.write_size (length bytes) ≡ false = ground (arith, le) in
      let same = length-overwrite r.write_start bytes r.buffer (omega (arith, h.inside)) in
      let r' : Reader = record r {
        buffer = overwrite r.write_start bytes r.buffer;
        write_start = r.write_start + length bytes;
        write_size = r.write_size - length bytes;
        read_size = r.read_size + length bytes;
      } in
      (
        r',
        (
          rw fits refl,
          (
            record {
              follows = omega (arith, h.follows);
              inside = omega (arith, same, h.inside);
              allocated = omega (arith, same, h.allocated);
            },
            ap
                  (λ i.
                    take (r.read_size + length bytes)
                      (drop r.read_start (overwrite i bytes r.buffer)))
                  h.follows
                ∙ window-overwrite r.read_start r.read_size bytes r.buffer
                    (omega (arith, h.follows, h.inside)),
          ),
        ),
      )

  -- What a reader is asked to load is behind its unread bytes.
  abbrev pub Loads : Reader × S → ℕ → Result (Reader × S) → Type 0
  Loads (r, source) limit result =
      (r' : Reader) × ((result ≡ ok (r', (source_read source limit).1))
        × (IsReader r' × (window r' ≡ window r ++ (source_read source limit).0)))

  pub load_buffer-window :
      (r : Reader) (source : S) (limit : ℕ)
      → IsReader r
      → maximum < 2 ^ 63
      → length r.buffer + (limit - r.write_size) ≤ maximum
      → length (source_read source limit).0 ≤ limit
      → Loads (r, source) limit (load_buffer maximum source_read limit (r, source))
  unfolding load_buffer
  load_buffer-window r source limit h small le short =
      let (r', (e, room)) = adjust_buffers-HasRoom maximum r limit h small le in
      let (bytes, source') = source_read source limit in
      let (r2, (f, (h2, w))) =
        store_read-window r' bytes source' room.consistent (omega (arith, room.enough, short)) in
      (
        r2,
        (
          ap (λ x. x >>= λ y. store_read maximum source_read y (source_read source limit)) e ∙ f,
          (h2, w ∙ ap (λ x. x ++ bytes) room.kept),
        ),
      )
