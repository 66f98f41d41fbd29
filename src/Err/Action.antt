-- ===== src/Err/Action.antt =====
-- Methods that change an object and may throw: the object is left as the method had made it.
pub mod Rules
use liblw.Err.{Result, ok, throws, undefined}

abbrev pub Action : Type 0 → Type 0 → Type 0
Action S A = S → Result A × S

abbrev pub pure : {S A : Type 0} → A → Action S A
pure a s = (ok a, s)

abbrev pub lift : {S A : Type 0} → Result A → Action S A
lift r s = (r, s)

abbrev pub modify : {S : Type 0} → (S → S) → Action S (Unit {0})
modify f s = (ok tt, f s)

-- what follows a call that gave `r` and left the object as `s`
abbrev pub next : {S A B : Type 0} → Result A → (A → Action S B) → S → Result B × S
next (ok a) f s = f a s
next (throws e) f s = (throws e, s)
next undefined f s = (undefined, s)

infixl 5 ◌>>=◌ ◌>>◌
abbrev pub ◌>>=◌ : {S A B : Type 0} → Action S A → (A → Action S B) → Action S B
◌>>=◌ m f s = let (r, s') = m s in next r f s'

abbrev pub ◌>>◌ : {S B : Type 0} → Action S (Unit {0}) → Action S B → Action S B
m >> k = m >>= λ _. k
