-- ===== src/Format/Blobs/Steps.antt =====
-- The rounds of the loop that prints a view.
use liblw.Prelude.{ℕ, zero, suc, ◌≡◌, ap, ◌∙◌, true, false, [], ◌∷◌, none, some, if◌then◌else◌}
use liblw.Base.Chars.{Bytes}
use liblw.Format.Blobs.{Iterator, character, same_position, put_character, print_from}

module _ (advance : Iterator → Iterator) (last : Iterator) where
  -- It ends where the iterators are equal.
  pub print_from-end :
      (fuel : ℕ) (it : Iterator)
      → same_position it last ≡ true
      → print_from advance fuel it last ≡ some []
  unfolding print_from
  print_from-end zero it same = ap (λ b. if b then some [] else none) same
  print_from-end (suc fuel) it same =
      ap
        (λ b.
          if b
          then some []
          else put_character (character it) (print_from advance fuel (advance it) last))
        same

  -- Elsewhere it prints the character and goes on.
  pub print_from-step :
      (fuel : ℕ) (it : Iterator) (c : ℕ) (cs : Bytes)
      → same_position it last ≡ false
      → character it ≡ some c
      → print_from advance fuel (advance it) last ≡ some cs
      → print_from advance (suc fuel) it last ≡ some (c ∷ cs)
  unfolding print_from put_character
  print_from-step fuel it c cs apart here rest =
      ap
        (λ b.
          if b
          then some []
          else put_character (character it) (print_from advance fuel (advance it) last))
        apart
      ∙ ap (λ o. put_character o (print_from advance fuel (advance it) last)) here
      ∙ ap (put_character (some c)) rest
