-- ===== src/Flags/Init/Written.antt =====
-- How a flag is read that was written with its value, with quotes or without.
use liblw.Prelude.{ℕ, ◌≡◌, true, false, ◌||◌, [], ◌∷◌, ◌++◌, ◌==◌}
use liblw.Base.Chars.{Bytes, codes}

-- A value with a quote on both sides, or one that begins with no quote.
pub data Written : Type 0 where
  quoted : (quote : ℕ) → Written
  bare : Written

abbrev pub write_value : Written → Bytes → Bytes
write_value (quoted q) value = q ∷ (value ++ (q ∷ []))
write_value bare value = value

abbrev pub CanWrite : Written → Bytes → Type 0
CanWrite (quoted q) value = (q == b'"' || q == b'\'') ≡ true
CanWrite bare [] = ⊥
CanWrite bare (c ∷ cs) = (c == b'"' || c == b'\'') ≡ false

abbrev pub write_flag : Bytes → Written → Bytes → Bytes
write_flag name w value = codes "--" ++ (name ++ (b'=' ∷ write_value w value))
