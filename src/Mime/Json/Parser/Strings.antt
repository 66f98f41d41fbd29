-- ===== src/Mime/Json/Parser/Strings.antt =====
-- A string that the formatter writes, given back to the parser.
use liblw.Prelude.{
  ℕ, ◌≡◌, ◌≢◌, refl, ap, ◌∙◌, [], ◌∷◌, ◌++◌, append_assoc, append-nil, Option, some, arith, length,
  length-append, ◌==◌, Bool-cases, inl, inr,
}
use liblw.Base.Chars.{Bytes}
use liblw.Base.Views.Cut.{Lacks}
use liblw.Err.{ok, throws, invalid_argument}
use liblw.Mime.Json.Escape.{
  quote, backslash, escape, escape_all, decode_from, decode_string, unescape,
}
use liblw.Mime.Json.Escape.RoundTrip.{decode_string-escape_all}
use liblw.Mime.Json.Formatter.{start, put_string}
use liblw.Mime.Json.Tokens.{string, Value, scalar, make_scalar}
use liblw.Mime.Json.Parser.{tree, empty, pop_top, read_scalar, token_step, step, finish, parse}
use liblw.Mime.Json.Parser.Rounds.{conclude, parse-conclude, loop_next, loop_end, loop_final_quote}
use liblw.Mime.Json.Parser.Scan.{to_quote, string_token, read_string}

-- What a string that holds no quotation mark is written as holds none.
escape-Lacks : (c : ℕ) → c ≢ quote → Lacks quote (escape c)
unfolding escape
escape-Lacks c h = ground arith

Lacks-append : (a b : Bytes) → Lacks quote a → Lacks quote b → Lacks quote (a ++ b)
Lacks-append [] b h k = k
Lacks-append (x ∷ a) b h k = (h.0, Lacks-append a b h.1 k)

escape_all-Lacks : (str : Bytes) → Lacks quote str → Lacks quote (escape_all str)
unfolding escape_all
escape_all-Lacks [] h = tt
escape_all-Lacks (c ∷ str) h =
    Lacks-append (escape c) (escape_all str) (escape-Lacks c h.0) (escape_all-Lacks str h.1)

to_quote-Lacks :
    (text rest seen : Bytes)
    → Lacks quote text
    → to_quote seen (text ++ (quote ∷ rest)) ≡ some (seen ++ text, rest)
unfolding to_quote
to_quote-Lacks [] rest seen h = ap some (simp append-nil)
to_quote-Lacks (c ∷ text) rest seen h =
    ground (arith, to_quote-Lacks text rest (seen ++ (c ∷ [])) h.1, append_assoc seen (c ∷ []) text)

-- the string as the parser stores it
abbrev pub string_value : Bytes → Bytes → Value
string_value token str = scalar (record { type_ = string; token = token; decoded = str })

abbrev pub written : Bytes → Bytes
written str = quote ∷ (escape_all str ++ (quote ∷ []))

-- the round at the first quotation mark
step-quote :
    (behind : Option ℕ) (text rest str : Bytes)
    → Lacks quote text
    → decode_string (quote ∷ (text ++ (quote ∷ []))) ≡ ok str
    → step behind quote (text ++ (quote ∷ rest)) empty
      ≡ ok (
        rest,
        record {
          stack = [];
          final_value = some (tree (string_value (quote ∷ (text ++ (quote ∷ []))) str));
        },
      )
unfolding step token_step read_scalar read_string string_token make_scalar pop_top
step-quote behind text rest str l d =
    rw (to_quote-Lacks text rest [] l, read_string) (rw (d, make_scalar) refl)

decode_from-ok : (out str : Bytes) → (r : Bytes) × (decode_from out str ≡ ok r)
unfolding decode_from
decode_from-ok out [] = (out, refl)
decode_from-ok out (c ∷ []) = (out, refl)
decode_from-ok out (c ∷ d ∷ rest) = elim (Bool-cases (c == backslash)) [
  | inl escaped ↦ let (r, e) = decode_from-ok (out ++ unescape d) rest in (r, rw escaped e)
  | inr plain ↦ let (r, e) = decode_from-ok (out ++ (c ∷ [])) (d ∷ rest) in (r, rw plain e)
]

escape_all-append : (a b : Bytes) → escape_all (a ++ b) ≡ escape_all a ++ escape_all b
unfolding escape_all
escape_all-append [] b = refl
escape_all-append (c ∷ a) b = rw (escape_all-append a b, append_assoc) refl

-- A string that holds no quotation mark is written such that the parser reads it back.
pub parse-written :
    (behind : Option ℕ) (str : Bytes)
    → Lacks quote str
    → parse behind (put_string str start).1.output ≡ some (ok (string_value (written str) str))
unfolding conclude finish put_string
parse-written behind str h =
    parse-conclude behind (written str)
    ∙ ap conclude (
        loop_next (length (escape_all str ++ (quote ∷ []))) behind quote
          (escape_all str ++ (quote ∷ [])) [] empty _
          (step-quote behind (escape_all str) [] str (escape_all-Lacks str h)
            (decode_string-escape_all str))
        ∙ loop_end _ behind _)

-- the round at the first quotation mark, and those behind the escaped one
parse-cut :
    (behind : Option ℕ) (text after : Bytes)
    → Lacks quote text
    → parse behind (quote ∷ (text ++ (quote ∷ (after ++ (quote ∷ [])))))
      ≡ some (throws invalid_argument)
unfolding conclude decode_string
parse-cut behind text after l =
    let (r, d) = decode_from-ok [] (text ++ (quote ∷ [])) in
    let rest = after ++ (quote ∷ []) in
    let bound = length-append text (quote ∷ rest) in
    parse-conclude behind (quote ∷ (text ++ (quote ∷ rest)))
    ∙ ap conclude (
        loop_next (length (text ++ (quote ∷ rest))) behind quote (text ++ (quote ∷ rest)) rest empty
          _ (step-quote behind text rest r l d)
        ∙ loop_final_quote behind after (length (text ++ (quote ∷ rest))) _ (omega arith))

-- A string that holds a quotation mark is written such that the parser throws `InvalidArgument`: it
-- takes the escaped mark for the end of the string.
pub parse-written_quote :
    (behind : Option ℕ) (before after : Bytes)
    → Lacks quote before
    → parse behind (put_string (before ++ (quote ∷ after)) start).1.output
      ≡ some (throws invalid_argument)
unfolding escape_all escape put_string
parse-written_quote behind before after h =
    let text = escape_all before ++ (backslash ∷ []) in
    let split = ap (λ t. quote ∷ (t ++ (quote ∷ []))) (escape_all-append before (quote ∷ after)) in
    ap (parse behind) (split ∙ simp append_assoc)
    ∙ parse-cut behind text (escape_all after) (
        Lacks-append (escape_all before) (backslash ∷ []) (escape_all-Lacks before h)
          (omega arith, tt))
