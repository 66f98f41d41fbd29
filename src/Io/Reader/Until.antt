-- ===== src/Io/Reader/Until.antt =====
-- Reading up to a byte that has arrived.
use liblw.Prelude.{
  ℕ, zero, suc, ◌+◌, ◌<◌, ◌≡◌, refl, sym, ap, ◌∙◌, Bool, true, false, [], ◌∷◌, ◌++◌, append_assoc,
  some, arith, length, length-append, get_elem?, take, drop, leb, ◌==◌, if◌then◌else◌,
}
use mathlib.Core.Path.{subst}
use liblw.Base.Chars.{Bytes}
use liblw.Base.Views.Cut.{Lacks, take-append, drop-append, get_elem?-append}
use liblw.Err.{ok}
use liblw.Io.Reader.{Reader, window, load_at, take_read, after_byte, byte_loop, read_until_byte}
use liblw.Io.Reader.Room.{IsReader, length-window}
use liblw.Io.Reader.Reads.{Gives, take_read-Gives}

abbrev length_nil : ℕ
length_nil = 0

module _ (maximum : ℕ) {S : Type 0} (source_read : S → ℕ → Bytes × S) (source_good : S → Bool) where
  -- a round at a byte of the window
  byte_loop-round :
      (c d rounds i : ℕ) (r : Reader) (source : S)
      → i < r.read_size
      → get_elem? (window r) i ≡ some d
      → byte_loop maximum source_read source_good c (suc rounds) i (r, source) ≡ (
          if d == c
          then take_read maximum source_read (i + 1) (r, source)
          else byte_loop maximum source_read source_good c rounds (i + 1) (r, source))
  unfolding byte_loop load_at after_byte
  byte_loop-round c d rounds i r source lt here =
      let inside : leb r.read_size i ≡ false = ground (arith, lt) in
      rw inside (
        ap
          (after_byte maximum source_read source_good c
            (byte_loop maximum source_read source_good c rounds (i + 1)) i (r, source))
          here)

  byte_loop-arrived :
      (c : ℕ) (done pre rest : Bytes) (rounds : ℕ) (r : Reader) (source : S)
      → IsReader r
      → window r ≡ done ++ (pre ++ (c ∷ rest))
      → Lacks c pre
      → length pre < rounds
      → Gives maximum source_read
          (length done + length pre + 1)
          (window r)
          source
          (byte_loop maximum source_read source_good c rounds (length done) (r, source))
  byte_loop-arrived c done pre rest zero r source h w lacks lt = absurd (omega arith)
  byte_loop-arrived c done [] rest (suc rounds) r source h w lacks lt =
      let same : (c == c) ≡ true = ground arith in
      let count : length done + 1 ≡ length done + length_nil + 1 = omega arith in
      let found =
        byte_loop-round c c rounds (length done) r source
          (omega (arith, length-window r h, ap length w, length-append done (c ∷ rest)))
          (get_elem?-append done rest (window r) c (length done) w refl)
        ∙ ap
            (λ b.
              if b
              then take_read maximum source_read (length done + 1) (r, source)
              else byte_loop maximum source_read source_good c rounds (length done + 1) (r, source))
            same in
      subst (Gives maximum source_read (length done + length_nil + 1) (window r) source) (sym found)
        (subst
          (λ n.
            Gives maximum source_read n (window r) source
              (take_read maximum source_read (length done + 1) (r, source)))
          count (take_read-Gives maximum source_read (length done + 1) r source h))
  byte_loop-arrived c done (d ∷ pre) rest (suc rounds) r source h w lacks lt =
      let other : (d == c) ≡ false = ground (arith, lacks.0) in
      let next : length (done ++ (d ∷ [])) ≡ length done + 1 = length-append done (d ∷ []) in
      let count : length (done ++ (d ∷ [])) + length pre + 1 ≡ length done + suc (length pre) + 1 =
        omega (arith, next) in
      let passed =
        byte_loop-round c d rounds (length done) r source
          (omega
            (arith, length-window r h, ap length w, length-append done (d ∷ (pre ++ (c ∷ rest)))))
          (get_elem?-append done (pre ++ (c ∷ rest)) (window r) d (length done) w refl)
        ∙ ap
            (λ b.
              if b
              then take_read maximum source_read (length done + 1) (r, source)
              else byte_loop maximum source_read source_good c rounds (length done + 1) (r, source))
            other
        ∙ ap (λ n. byte_loop maximum source_read source_good c rounds n (r, source)) (sym next) in
      subst (Gives maximum source_read (length done + suc (length pre) + 1) (window r) source)
        (sym passed)
        (subst
          (λ n. Gives maximum source_read n (window r) source (
            byte_loop maximum source_read source_good c rounds (length (done ++ (d ∷ [])))
              (r, source)))
          count
          (byte_loop-arrived c (done ++ (d ∷ [])) pre rest rounds r source h
            (w ∙ sym (append_assoc done (d ∷ []) (pre ++ (c ∷ rest)))) lacks.1 (omega arith)))

  -- If the byte is in the read window, within the limit, the bytes up to the first one that is equal
  -- to it are given, with that one, and the ones behind it are left; the source is not read.
  pub read_until_byte-arrived :
      (c : ℕ) (pre rest : Bytes) (limit : ℕ) (r : Reader) (source : S)
      → IsReader r
      → window r ≡ pre ++ (c ∷ rest)
      → Lacks c pre
      → length pre < limit
      → (r' : Reader) × ((read_until_byte maximum source_read source_good c limit (r, source)
            ≡ ok (pre ++ (c ∷ []), (r', source)))
          × (IsReader r' × (window r' ≡ rest)))
  unfolding read_until_byte
  read_until_byte-arrived c pre rest limit r source h w lacks lt =
      let (r', (e, (h', left))) = byte_loop-arrived c [] pre rest limit r source h w lacks lt in
      let parts : window r ≡ (pre ++ (c ∷ [])) ++ rest = w ∙ sym (append_assoc pre (c ∷ []) rest) in
      let count : 0 + length pre + 1 ≡ length (pre ++ (c ∷ [])) =
        omega (arith, length-append pre (c ∷ [])) in
      (
        r',
        (
          e
              ∙ ap (λ b. ok (b, (r', source)))
                  (ap (λ n. take n (window r)) count
                    ∙ ap (take (length (pre ++ (c ∷ [])))) parts
                    ∙ take-append (pre ++ (c ∷ [])) rest),
          (
            h',
            left
                ∙ ap (λ n. drop n (window r)) count
                ∙ ap (drop (length (pre ++ (c ∷ [])))) parts
                ∙ drop-append (pre ++ (c ∷ [])) rest,
          ),
        ),
      )
