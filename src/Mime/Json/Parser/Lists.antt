-- ===== src/Mime/Json/Parser/Lists.antt =====
-- A list of numbers that the formatter writes, given back to the parser.
use liblw.Prelude.{
  ℕ, ◌≤◌, ◌≡◌, ◌≢◌, ◌⊎◌, refl, sym, ap, ◌∙◌, true, false, List, [], ◌∷◌, ◌++◌, append_assoc,
  append-nil, Option, none, some, arith, length, ◌==◌, if◌then◌else◌, inl, inr,
}
use mathlib.Core.Path.{subst}
use liblw.Base.Chars.{Bytes, codes, is_digit}
use liblw.Err.{Result, ok, throws, invalid_argument}
use liblw.Mime.Json.Formatter.{start}
use liblw.Mime.Json.Formatter.Flat.{more_elements, elements, put_list, put_list_lem}
use liblw.Mime.Json.Tokens.{
  integer, Scalar, Value, scalar, list_of, Items, nil, cons, push_back, make_scalar,
}
use liblw.Mime.Json.Parser.{
  tree, Parse, empty, has_final, pop_top, read_scalar, token_step, step, loop, finish, parse,
}
use liblw.Mime.Json.Parser.Scan.{digits_loop, number_token, after_sign, read_number, ends_in_dot}
use liblw.Mime.Json.Parser.Rounds.{conclude, parse-conclude, loop_round, loop_end}

-- Digits without end, of which none is left out: "0", or a digit other than '0' and more of them.
abbrev pub AllDigits : Bytes → Type 0
AllDigits [] = Unit
AllDigits (c ∷ cs) = (is_digit c ≡ true) × AllDigits cs

abbrev pub IsNumber : Bytes → Type 0
IsNumber [] = ⊥
IsNumber (c ∷ []) = is_digit c ≡ true
IsNumber (c ∷ d ∷ cs) = (is_digit c ≡ true) × ((c ≢ b'0') × AllDigits (d ∷ cs))

abbrev pub AllNumbers : List Bytes → Type 0
AllNumbers [] = Unit
AllNumbers (v ∷ vs) = IsNumber v × AllNumbers vs

abbrev pub number : Bytes → Scalar
number v = record { type_ = integer; token = v; decoded = [] }

abbrev pub items : List Bytes → Items
items [] = nil
items (v ∷ vs) = cons (scalar (number v)) (items vs)

-- what ends a number in a list
abbrev EndsNumber : ℕ → Type 0
EndsNumber c = (c ≡ b',') ⊎ (c ≡ b']')

ends_in_dot-append : (text : Bytes) (d : ℕ) → ends_in_dot (text ++ (d ∷ [])) ≡ (d == b'.')
unfolding ends_in_dot
ends_in_dot-append [] d = refl
ends_in_dot-append (c ∷ []) d = refl
ends_in_dot-append (c ∷ e ∷ text) d = ends_in_dot-append (e ∷ text) d

digits_loop-digits :
    (text ds : Bytes) (c : ℕ) (rest : Bytes)
    → AllDigits ds
    → EndsNumber c
    → ends_in_dot text ≡ false
    → digits_loop integer text (ds ++ (c ∷ rest)) ≡ ok (number (text ++ ds), c ∷ rest)
unfolding digits_loop number_token make_scalar
digits_loop-digits text [] c rest h (inl e) dot = rw e (rw (dot, append-nil) refl)
digits_loop-digits text [] c rest h (inr e) dot = rw e (rw (dot, append-nil) refl)
digits_loop-digits text (d ∷ ds) c rest h e dot = ground (
  arith,
  ends_in_dot-append text d,
  digits_loop-digits (text ++ (d ∷ [])) ds c rest h.1 e,
  append_assoc text (d ∷ []) ds,
)

read_number-number :
    (v : Bytes) (c : ℕ) (rest : Bytes)
    → IsNumber v
    → EndsNumber c
    → read_number (v ++ (c ∷ rest)) ≡ ok (number v, c ∷ rest)
unfolding read_number after_sign
read_number-number [] c rest h e = absurd h
read_number-number (d ∷ []) c rest h e = ground (arith, digits_loop-digits (d ∷ []) [] c rest tt e)
read_number-number (d ∷ d' ∷ ds) c rest h e =
    ground (arith, digits_loop-digits [] (d ∷ d' ∷ ds) c rest (h.0, h.1.1) e refl)

-- a list that is open, with nothing around it
abbrev open_list : Items → Parse
open_list xs = record { stack = tree (list_of xs) ∷ []; final_value = none }

abbrev closed_list : Items → Parse
closed_list xs = record { stack = []; final_value = some (tree (list_of xs)) }

read_scalar-number :
    (r : Result (Scalar × Bytes)) (s : Scalar) (rest : Bytes) (xs : Items)
    → r ≡ ok (s, rest)
    → read_scalar r (open_list xs) ≡ ok (rest, open_list (push_back xs (scalar s)))
unfolding read_scalar pop_top
read_scalar-number r s rest xs e = rw e refl

token_step-digit :
    (behind : Option ℕ) (d : ℕ) (rest : Bytes) (p : Parse)
    → is_digit d ≡ true
    → step behind d rest p ≡ (
        if has_final p.final_value
        then throws invalid_argument
        else read_scalar (read_number (d ∷ rest)) p)
unfolding step
token_step-digit behind d rest p h = ground arith

step_comma :
    (behind : Option ℕ) (rest : Bytes) (xs : Items)
    → step behind b',' rest (open_list xs) ≡ ok (rest, open_list xs)
unfolding step token_step
step_comma behind rest xs = refl

step_close :
    (behind : Option ℕ) (rest : Bytes) (xs : Items)
    → step behind b']' rest (open_list xs) ≡ ok (rest, closed_list xs)
unfolding step token_step pop_top
step_close behind rest xs = refl

step_open :
    (behind : Option ℕ) (rest : Bytes) → step behind b'[' rest empty ≡ ok (rest, open_list nil)
unfolding step token_step
step_open behind rest = refl

step-number :
    (behind : Option ℕ) (d : ℕ) (v : Bytes) (c : ℕ) (rest : Bytes) (xs : Items)
    → IsNumber (d ∷ v)
    → EndsNumber c
    → step behind d (v ++ (c ∷ rest)) (open_list xs)
      ≡ ok (c ∷ rest, open_list (push_back xs (scalar (number (d ∷ v)))))
step-number behind d v c rest xs h e =
    token_step-digit behind d (v ++ (c ∷ rest)) (open_list xs) (first_digit v h)
    ∙ read_scalar-number (read_number (d ∷ (v ++ (c ∷ rest)))) _ _ xs
        (read_number-number (d ∷ v) c rest h e)
  where
    first_digit : (v : Bytes) → IsNumber (d ∷ v) → is_digit d ≡ true
    first_digit [] h = h
    first_digit (_ ∷ _) h = h.0

-- The number `v`, where it is known what the rounds behind it give.
loop-number :
    {out : Option (Result Parse)} (fuel : ℕ) (behind : Option ℕ) (v rest : Bytes) (c : ℕ)
    (xs : Items)
    → IsNumber v
    → EndsNumber c
    → ((n : ℕ)
        → length (c ∷ rest) ≤ n
        → loop n behind (c ∷ rest) (open_list (push_back xs (scalar (number v)))) ≡ out)
    → length (v ++ (c ∷ rest)) ≤ fuel
    → loop fuel behind (v ++ (c ∷ rest)) (open_list xs) ≡ out
loop-number fuel behind [] rest c xs h e next l = absurd h
loop-number fuel behind (d ∷ v) rest c xs h e next l =
    loop_round fuel behind d (v ++ (c ∷ rest)) (c ∷ rest) (open_list xs) _
      (step-number behind d v c rest xs h e) next l

push_all : Items → List Bytes → Items
push_all xs [] = xs
push_all xs (v ∷ vs) = push_all (push_back xs (scalar (number v))) vs

abbrev closing : List Bytes → Bytes
closing vs = more_elements vs ++ codes "]"

-- a number with what follows it in the list
loop-element :
    {out : Option (Result Parse)} (fuel : ℕ) (behind : Option ℕ) (v : Bytes) (vs : List Bytes)
    (xs : Items)
    → IsNumber v
    → ((n : ℕ)
        → length (closing vs) ≤ n
        → loop n behind (closing vs) (open_list (push_back xs (scalar (number v)))) ≡ out)
    → length (v ++ closing vs) ≤ fuel
    → loop fuel behind (v ++ closing vs) (open_list xs) ≡ out
loop-element fuel behind v [] xs h next l = loop-number fuel behind v [] b']' xs h (inr refl) next l
loop-element fuel behind v (w ∷ ws) xs h next l =
    loop-number fuel behind v _ b',' xs h (inl refl) next l

loop-closing :
    (behind : Option ℕ) (vs : List Bytes) (xs : Items)
    → AllNumbers vs
    → (fuel : ℕ) → length (closing vs) ≤ fuel
    → loop fuel behind (closing vs) (open_list xs) ≡ some (ok (closed_list (push_all xs vs)))
unfolding push_all
loop-closing behind [] xs h fuel l =
    loop_round fuel behind b']' [] [] (open_list xs) _ (step_close behind [] xs)
      (λ n _. loop_end n behind _) l
loop-closing behind (v ∷ vs) xs h fuel l =
    loop_round fuel behind b',' ((v ++ more_elements vs) ++ codes "]") _ (open_list xs) _
      (step_comma behind _ xs)
      (λ n k.
        ap (λ t. loop n behind t (open_list xs)) (append_assoc v (more_elements vs) (codes "]"))
        ∙ loop-element n behind v vs xs h.0 (loop-closing behind vs _ h.1)
            (subst (λ t. length t ≤ n) (append_assoc v (more_elements vs) (codes "]")) k))
      l

loop-elements :
    (behind : Option ℕ) (vs : List Bytes) (xs : Items)
    → AllNumbers vs
    → (fuel : ℕ) → length (elements vs ++ codes "]") ≤ fuel
    → loop fuel behind (elements vs ++ codes "]") (open_list xs)
      ≡ some (ok (closed_list (push_all xs vs)))
unfolding push_all
loop-elements behind [] xs h fuel l = loop-closing behind [] xs h fuel l
loop-elements behind (v ∷ vs) xs h fuel l =
    ap (λ t. loop fuel behind t (open_list xs)) (append_assoc v (more_elements vs) (codes "]"))
    ∙ loop-element fuel behind v vs xs h.0 (loop-closing behind vs _ h.1)
        (subst (λ t. length t ≤ fuel) (append_assoc v (more_elements vs) (codes "]")) l)

append_items : Items → Items → Items
append_items nil ys = ys
append_items (cons x xs) ys = cons x (append_items xs ys)

append_items-push_back :
    (xs ys : Items) (v : Value) → append_items (push_back xs v) ys ≡ append_items xs (cons v ys)
unfolding append_items push_back
append_items-push_back nil ys v = refl
append_items-push_back (cons x xs) ys v = ap (cons x) (append_items-push_back xs ys v)

append_items-nil : (xs : Items) → append_items xs nil ≡ xs
unfolding append_items
append_items-nil nil = refl
append_items-nil (cons x xs) = ap (cons x) (append_items-nil xs)

push_all-items : (vs : List Bytes) (xs : Items) → push_all xs vs ≡ append_items xs (items vs)
unfolding push_all
push_all-items [] xs = sym (append_items-nil xs)
push_all-items (v ∷ vs) xs =
    push_all-items vs _ ∙ append_items-push_back xs (items vs) (scalar (number v))

-- What the formatter writes for a list of numbers without sign or point, the parser reads as the
-- list of those numbers, in order.
pub parse-put_list :
    (behind : Option ℕ) (vs : List Bytes)
    → AllNumbers vs
    → parse behind (put_list vs start).1.output ≡ some (ok (list_of (items vs)))
unfolding conclude finish append_items
parse-put_list behind vs h =
    ap (λ r. parse behind r.1.output) (put_list_lem vs _ [] [] refl)
    ∙ parse-conclude behind _
    ∙ ap conclude (
        loop_round _ behind b'[' (elements vs ++ codes "]") _ empty _ (step_open behind _)
          (loop-elements behind vs nil h) (omega arith))
    ∙ ap (λ xs. some (ok (list_of xs))) (push_all-items vs nil)
