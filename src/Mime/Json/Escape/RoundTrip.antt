-- ===== src/Mime/Json/Escape/RoundTrip.antt =====
-- Strings through their escapes and back.
use liblw.Prelude.{ℕ, ◌≡◌, ◌≢◌, refl, ◌∙◌, [], ◌∷◌, ◌++◌, append_assoc, append-nil, arith, ap}
use liblw.Base.Chars.{Bytes}
use liblw.Err.{ok}
use liblw.Mime.Json.Escape.{quote, escape, escape_all, decode_from, decode_string}

-- one escaped byte before others
decode_from-escape :
    (c : ℕ) (rest out : Bytes)
    → rest ≢ []
    → decode_from out (escape c ++ rest) ≡ decode_from (out ++ (c ∷ [])) rest
unfolding escape decode_from
decode_from-escape c [] out ne = absurd (ne refl)
decode_from-escape c (d ∷ rest) out ne = ground arith

append-ne-nil : (xs : Bytes) (d : ℕ) → xs ++ (d ∷ []) ≢ []
append-ne-nil [] d h = cc
append-ne-nil (x ∷ xs) d h = cc

decode_from-escape_all :
    (str out : Bytes) → decode_from out (escape_all str ++ (quote ∷ [])) ≡ ok (out ++ str)
unfolding escape_all
decode_from-escape_all [] out = unfold decode_from in ap ok (simp append-nil)
decode_from-escape_all (c ∷ str) out =
    rw (append_assoc, decode_from-escape c _ out (append-ne-nil (escape_all str) quote))
      (decode_from-escape_all str (out ++ (c ∷ [])) ∙ ap ok (append_assoc out (c ∷ []) str))

-- What `put_string` writes, quotation marks included, decodes to the string.
pub decode_string-escape_all :
    (str : Bytes) → decode_string (quote ∷ (escape_all str ++ (quote ∷ []))) ≡ ok str
unfolding decode_string
decode_string-escape_all str = decode_from-escape_all str []
