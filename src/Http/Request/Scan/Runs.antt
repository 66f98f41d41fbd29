-- ===== src/Http/Request/Scan/Runs.antt =====
-- Where the scans of http_request.cpp stop.
use liblw.Prelude.{
  ℕ, ◌+◌, ◌≡◌, ◌≢◌, ap, true, false, not, ◌||◌, some, [], ◌∷◌, ◌++◌, arith, length, get_elem?, ◌==◌,
}
use liblw.Base.Chars.{Bytes, is_space}
use liblw.Err.{ok}
use liblw.Http.Request.Scan.{
  is_line_end, check_is_space, to_space, to_path_end, to_colon, skip_blanks,
}

abbrev pub NoSpaces : Bytes → Type 0
NoSpaces [] = Unit
NoSpaces (c ∷ cs) = (is_space c ≡ false) × NoSpaces cs

abbrev pub NoMarks : Bytes → Type 0
NoMarks [] = Unit
NoMarks (c ∷ cs) = (c ≢ b'?') × NoMarks cs

-- the name of a header
abbrev pub IsName : Bytes → Type 0
IsName [] = Unit
IsName (c ∷ cs) = ((c == b':') ≡ false) × (is_line_end c ≡ false) × IsName cs

abbrev pub AreBlanks : Bytes → Type 0
AreBlanks [] = Unit
AreBlanks (c ∷ cs) = (is_space c ≡ true) × (is_line_end c ≡ false) × AreBlanks cs

pub to_space-append :
    (xs rest : Bytes) (c i : ℕ)
    → NoSpaces xs
    → is_space c ≡ true
    → to_space (xs ++ (c ∷ rest)) i ≡ i + length xs
unfolding to_space
to_space-append [] rest c i n h = ground arith
to_space-append (x ∷ xs) rest c i n h = ground (arith, to_space-append xs rest c (i + 1))

pub to_path_end-append :
    (xs rest : Bytes) (c i : ℕ)
    → NoSpaces xs
    → NoMarks xs
    → (is_space c || c == b'?') ≡ true
    → to_path_end (xs ++ (c ∷ rest)) i ≡ i + length xs
unfolding to_path_end
to_path_end-append [] rest c i n m h = ground arith
to_path_end-append (x ∷ xs) rest c i n m h = ground (arith, to_path_end-append xs rest c (i + 1))

pub to_colon-append :
    (xs rest : Bytes) (i : ℕ) → IsName xs → to_colon (xs ++ (b':' ∷ rest)) i ≡ ok (i + length xs)
unfolding to_colon
to_colon-append [] rest i n = ap ok (omega arith)
to_colon-append (x ∷ xs) rest i n = ground (arith, to_colon-append xs rest (i + 1))

pub skip_blanks-append :
    (xs rest : Bytes) (c i : ℕ)
    → AreBlanks xs
    → (not (is_space c) || is_line_end c) ≡ true
    → skip_blanks (xs ++ (c ∷ rest)) i ≡ i + length xs
unfolding skip_blanks
skip_blanks-append [] rest c i n h = ground arith
skip_blanks-append (x ∷ xs) rest c i n h = ground (arith, skip_blanks-append xs rest c (i + 1))

pub check_is_space-space :
    (header : Bytes) (i : ℕ) → get_elem? header i ≡ some 32 → check_is_space header i ≡ ok tt
unfolding check_is_space
check_is_space-space header i e = rw (e, check_is_space)
