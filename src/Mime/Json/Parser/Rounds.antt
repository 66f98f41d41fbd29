-- ===== src/Mime/Json/Parser/Rounds.antt =====
-- The rounds of the loop of `update`, for proofs that run the parser on a text of known form.
use liblw.Prelude.{
  ℕ, zero, suc, ◌≤◌, ◌≡◌, refl, ◌∙◌, false, [], ◌∷◌, ◌++◌, Option, none, some, arith, length,
  Bool-cases, inl, inr,
}
use mathlib.Core.Path.{subst}
use liblw.Base.Chars.{Bytes, is_space}
use liblw.Err.{Result, ok, throws, invalid_argument, ◌>>=◌}
use liblw.Mime.Json.Escape.{quote}
use liblw.Mime.Json.Tokens.{Value}
use liblw.Mime.Json.Parser.{Token, Parse, empty, step, loop, finish, parse}
use liblw.Mime.Json.Parser.Ends.{step-Takes, Takes}

loop_final :
    (behind : Option ℕ) (fuel c : ℕ) (rest : Bytes) (t : Token)
    → is_space c ≡ false
    → loop (suc fuel) behind (c ∷ rest) (record { stack = []; final_value = some t })
      ≡ some (throws invalid_argument)
unfolding loop
loop_final behind fuel c rest t h = rw (h, loop, step) refl

-- Only spaces may follow a value.
pub loop_final_quote :
    (behind : Option ℕ) (rest : Bytes) (fuel : ℕ) (t : Token)
    → length (rest ++ (quote ∷ [])) ≤ fuel
    → loop fuel behind (rest ++ (quote ∷ [])) (record { stack = []; final_value = some t })
      ≡ some (throws invalid_argument)
unfolding loop
loop_final_quote behind [] zero t h = absurd (omega arith)
loop_final_quote behind (c ∷ rest) zero t h = absurd (omega arith)
loop_final_quote behind [] (suc fuel) t h = loop_final behind fuel quote [] t refl
loop_final_quote behind (c ∷ rest) (suc fuel) t h = elim (Bool-cases (is_space c)) [
  | inr other ↦ loop_final behind fuel c _ t other
  | inl space ↦ rw (space, loop, step) (loop_final_quote behind rest fuel t (omega arith))
]

pub loop_next :
    (fuel : ℕ) (behind : Option ℕ) (c : ℕ) (str rest : Bytes) (p p' : Parse)
    → step behind c str p ≡ ok (rest, p')
    → loop (suc fuel) behind (c ∷ str) p ≡ loop fuel behind rest p'
unfolding loop
loop_next fuel behind c str rest p p' e = rw (e, loop) refl

-- what `parse` makes of the loop's result
unfoldable pub conclude : Option (Result Parse) → Option (Result Value)
conclude none = none
conclude (some r) = some (r >>= finish)

pub parse-conclude :
    (behind : Option ℕ) (str : Bytes)
    → parse behind str ≡ conclude (loop (length str) behind str empty)
unfolding parse conclude
parse-conclude behind str = elim (loop (length str) behind str empty) [
  | none ↦ refl
  | some r ↦ refl
]

pub loop_end : (fuel : ℕ) (behind : Option ℕ) (p : Parse) → loop fuel behind [] p ≡ some (ok p)
unfolding loop
loop_end fuel behind p = refl

-- A round that returns, where a result is known of the rounds that follow.
pub loop_round :
    {out : Option (Result Parse)} (fuel : ℕ) (behind : Option ℕ) (c : ℕ) (str rest : Bytes)
    (p p' : Parse)
    → step behind c str p ≡ ok (rest, p')
    → ((fuel' : ℕ) → length rest ≤ fuel' → loop fuel' behind rest p' ≡ out)
    → length (c ∷ str) ≤ fuel
    → loop fuel behind (c ∷ str) p ≡ out
loop_round zero behind c str rest p p' e next h = absurd (omega arith)
loop_round (suc fuel) behind c str rest p p' e next h =
    let takes = subst (Takes (length str)) e (step-Takes behind c str p) in
    loop_next fuel behind c str rest p p' e ∙ next fuel (omega arith)
