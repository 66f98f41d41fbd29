-- ===== src/Mime/Json/Parser/Ends.antt =====
-- `update` ends on any text: each round takes a byte of the view at least.
use liblw.Prelude.{
  ℕ, zero, suc, ◌≤◌, ◌≡◌, ◌≢◌, refl, Bool, true, false, ◌||◌, [], ◌∷◌, ◌++◌, Option, none, some,
  arith, length, Bool-cases, Option-cases, inl, inr, take, drop, ◌==◌, if◌then◌else◌,
}
use liblw.Base.Chars.{Bytes, is_digit, is_space}
use liblw.Err.{Result, ok, throws, undefined, ◌>>=◌}
use liblw.Mime.Json.Escape.{quote}
use liblw.Mime.Json.Tokens.{JsonType, integer, float, Scalar, Value, make_scalar}
use liblw.Mime.Json.Parser.{
  Parse, empty, read_scalar, token_step, step, loop, finish, parse, has_final,
}
use liblw.Mime.Json.Parser.Scan.{
  to_quote, string_token, read_string, keyword_token, read_keyword, number_token, digits_loop,
  after_sign, read_number, starts_keyword, starts_number, ends_in_dot, is_float, digit_first,
}

-- A reader that returns leaves at most `n` bytes.
abbrev Leaves : ℕ → Result (Scalar × Bytes) → Type 0
Leaves n (ok (s, rest)) = length rest ≤ n
Leaves n _ = Unit

to_quote-shorter :
    (seen str : Bytes) {text rest : Bytes}
    → to_quote seen str ≡ some (text, rest)
    → length rest ≤ length str
unfolding to_quote
to_quote-shorter seen [] h = cc
to_quote-shorter seen (c ∷ str) {text} {rest} h =
    ground (arith, to_quote-shorter (seen ++ (c ∷ [])) str {text = text} {rest = rest})

make_scalar-Leaves :
    (m : Result Scalar) (rest : Bytes) (n : ℕ)
    → length rest ≤ n
    → Leaves n (m >>= λ s. ok (s, rest))
make_scalar-Leaves (ok s) rest n h = h
make_scalar-Leaves (throws e) rest n h = tt
make_scalar-Leaves undefined rest n h = tt

string_token-Leaves :
    (r : Option (Bytes × Bytes)) (n : ℕ)
    → ((text rest : Bytes) → r ≡ some (text, rest) → length rest ≤ n)
    → Leaves n (string_token r)
unfolding string_token
string_token-Leaves none n h = tt
string_token-Leaves (some (text, rest)) n h = make_scalar-Leaves _ rest n (h text rest refl)

read_string-Leaves : (str : Bytes) → Leaves (length str) (read_string str)
unfolding read_string
read_string-Leaves str =
    string_token-Leaves (to_quote [] str) (length str) (λ text rest. to_quote-shorter [] str)

keyword_token-Leaves :
    (behind : Option ℕ) (t : JsonType) (text rest : Bytes) (n : ℕ)
    → length rest ≤ n
    → Leaves n (keyword_token behind t text rest)
unfolding keyword_token
keyword_token-Leaves none t text [] n h = tt
keyword_token-Leaves (some c) t text [] n h =
    ground (arith, make_scalar-Leaves (make_scalar t text) [] n h)
keyword_token-Leaves behind t text (c ∷ rest) n h =
    ground (arith, make_scalar-Leaves (make_scalar t text) (c ∷ rest) n h)

read_keyword-Leaves :
    (behind : Option ℕ) (c : ℕ) (str : Bytes) → Leaves (length str) (read_keyword behind (c ∷ str))
unfolding read_keyword
read_keyword-Leaves behind c str =
    ground (arith, keyword_token-Leaves behind _ (take 4 (c ∷ str)) (drop 4 (c ∷ str)) (length str))

number_token-Leaves :
    (t : JsonType) (text rest : Bytes) (n : ℕ)
    → length rest ≤ n
    → Leaves n (number_token t text rest)
unfolding number_token
number_token-Leaves t text rest n h = elim (Bool-cases (ends_in_dot text)) [
  | inl dot ↦ rw dot tt
  | inr fine ↦ rw fine (make_scalar-Leaves (make_scalar t text) rest n h)
]

Leaves-suc : (n : ℕ) (r : Result (Scalar × Bytes)) → Leaves n r → Leaves (suc n) r
Leaves-suc n (ok (s, rest)) h = omega arith
Leaves-suc n (throws e) h = tt
Leaves-suc n undefined h = tt

Leaves-if :
    (b : Bool) (n : ℕ) (r q : Result (Scalar × Bytes))
    → Leaves n r
    → Leaves n q
    → Leaves n (if b then r else q)
Leaves-if true n r q h k = h
Leaves-if false n r q h k = k

Leaves-when :
    (b : Bool) (n : ℕ) (r q : Result (Scalar × Bytes))
    → (b ≡ true → Leaves n r)
    → Leaves n q
    → Leaves n (if b then r else q)
Leaves-when true n r q h k = h refl
Leaves-when false n r q h k = k

digits_loop-Leaves :
    (t : JsonType) (text str : Bytes) → Leaves (length str) (digits_loop t text str)
unfolding digits_loop
digits_loop-Leaves t text [] = number_token-Leaves t text [] 0 (omega arith)
digits_loop-Leaves t text (c ∷ str) =
    let point = Leaves-suc (length str) _ (digits_loop-Leaves float (text ++ (c ∷ [])) str) in
    let digit = Leaves-suc (length str) _ (digits_loop-Leaves t (text ++ (c ∷ [])) str) in
    Leaves-if (c == b'.') _ _ _ (Leaves-if (is_float t) _ _ _ tt point)
      (Leaves-if (is_digit c) _ _ _ digit (number_token-Leaves t text (c ∷ str) _ (omega arith)))

-- a digit at least
digits_loop-Leaves_digit :
    (sign str : Bytes) (c : ℕ)
    → is_digit c ≡ true
    → Leaves (length str) (digits_loop integer sign (c ∷ str))
unfolding digits_loop
digits_loop-Leaves_digit sign str c h =
    let digit = digits_loop-Leaves integer (sign ++ (c ∷ [])) str in
    Leaves-if (c == b'.') _ _ _ (digits_loop-Leaves float (sign ++ (c ∷ [])) str) (rw h digit)

after_sign-Leaves : (sign str : Bytes) (c : ℕ) → Leaves (length str) (after_sign sign (c ∷ str))
unfolding after_sign
after_sign-Leaves sign str c =
    Leaves-if (c == b'0') _ _ _
      (Leaves-if (digit_first str) _ _ _ tt (digits_loop-Leaves integer (sign ++ (c ∷ [])) str))
      (Leaves-when (is_digit c) _ _ _ (λ d. digits_loop-Leaves_digit sign str c d) tt)

read_number-Leaves : (c : ℕ) (str : Bytes) → Leaves (length str) (read_number (c ∷ str))
unfolding read_number
read_number-Leaves c [] = Leaves-if (c == b'+' || c == b'-') _ _ _ tt (after_sign-Leaves [] [] c)
read_number-Leaves c (d ∷ str) =
    Leaves-if (c == b'+' || c == b'-') _ _ _
      (Leaves-suc (length str) _ (after_sign-Leaves (c ∷ []) str d))
      (after_sign-Leaves [] (d ∷ str) c)

-- A round that returns leaves at most `n` bytes.
abbrev pub Takes : ℕ → Result (Bytes × Parse) → Type 0
Takes n (ok (rest, p)) = length rest ≤ n
Takes n _ = Unit

Takes-if :
    (b : Bool) (n : ℕ) (r q : Result (Bytes × Parse))
    → Takes n r
    → Takes n q
    → Takes n (if b then r else q)
Takes-if true n r q h k = h
Takes-if false n r q h k = k

Takes-rest : (m : Result Parse) (rest : Bytes) → Takes (length rest) (m >>= λ p. ok (rest, p))
Takes-rest (ok p) rest = omega arith
Takes-rest (throws e) rest = tt
Takes-rest undefined rest = tt

Takes-popped :
    (m : Result Parse) (rest : Bytes) (n : ℕ) → length rest ≤ n → Takes n (m >>= λ p. ok (rest, p))
Takes-popped (ok p) rest n h = h
Takes-popped (throws e) rest n h = tt
Takes-popped undefined rest n h = tt

read_scalar-Takes :
    (r : Result (Scalar × Bytes)) (p : Parse) (n : ℕ) → Leaves n r → Takes n (read_scalar r p)
unfolding read_scalar
read_scalar-Takes (ok (s, rest)) p n h = Takes-popped _ rest n h
read_scalar-Takes (throws e) p n h = tt
read_scalar-Takes undefined p n h = tt

token_step-Takes :
    (behind : Option ℕ) (c : ℕ) (rest : Bytes) (p : Parse)
    → Takes (length rest) (token_step behind c rest p)
unfolding token_step
token_step-Takes behind c rest p = Takes-if (c == b'{') _ _ _ (omega arith) (
    Takes-if (c == b'}') _ _ _ (Takes-rest _ rest) (
      Takes-if (c == b'[') _ _ _ (omega arith) (
        Takes-if (c == b']') _ _ _ (Takes-rest _ rest) (
          Takes-if (c == b':') _ _ _ (Takes-rest _ rest) (
            Takes-if (c == b',') _ _ _ (Takes-rest _ rest) (
              Takes-if (c == quote) _ _ _ (read_scalar-Takes _ p _ (read_string-Leaves rest)) (
                Takes-if (starts_keyword c) _ _ _
                  (read_scalar-Takes _ p _ (read_keyword-Leaves behind c rest))
                  (Takes-if (starts_number c) _ _ _
                    (read_scalar-Takes _ p _ (read_number-Leaves c rest)) tt))))))))

pub step-Takes :
    (behind : Option ℕ) (c : ℕ) (rest : Bytes) (p : Parse)
    → Takes (length rest) (step behind c rest p)
unfolding step
step-Takes behind c rest p =
    Takes-if (is_space c) _ _ _ (omega arith)
      (Takes-if (has_final p.final_value) _ _ _ tt (token_step-Takes behind c rest p))

-- With a round for each byte that is left, the loop comes to a result.
pub loop-ends :
    (fuel : ℕ) (behind : Option ℕ) (str : Bytes) (p : Parse)
    → length str ≤ fuel
    → loop fuel behind str p ≢ none
unfolding loop
loop-ends fuel behind [] p h = λ x. cc
loop-ends zero behind (c ∷ str) p h = absurd (omega arith)
loop-ends (suc fuel) behind (c ∷ str) p h =
    after (step behind c str p) (step-Takes behind c str p)
      (λ rest p' g. loop-ends fuel behind rest p' (omega arith))
  where
    after :
        (r : Result (Bytes × Parse))
        → Takes (length str) r
        → ((rest : Bytes) (p' : Parse) → length rest ≤ length str → loop fuel behind rest p' ≢ none)
        → (elim r as (λ _. Option (Result Parse)) [
          | ok (rest', p') ↦ loop fuel behind rest' p'
          | throws e ↦ some (throws e)
          | undefined ↦ some undefined
        ])
          ≢ none
    after (ok (rest, p')) t ends = ends rest p' t
    after (throws e) t ends = λ x. cc
    after undefined t ends = λ x. cc

-- `parse` comes to a result on any text: a value, an exception, or an undefined step.
pub parse-ends :
    (behind : Option ℕ) (str : Bytes) → (r : Result Value) × (parse behind str ≡ some r)
unfolding parse
parse-ends behind str = elim (Option-cases (loop (length str) behind str empty)) [
  | inl out ↦ absurd (loop-ends (length str) behind str empty (omega arith) out)
  | inr (r, e) ↦ (r >>= finish, rw (e, parse))
]
