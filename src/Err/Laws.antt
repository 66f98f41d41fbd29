-- ===== src/Err/Laws.antt =====
-- Inversion of the sequencing of fallible code.
use liblw.Prelude.{◌≡◌, ◌≢◌, refl}
use liblw.Err.{Result, ok, throws, undefined, ◌>>=◌}

module _ {ℓ κ} {A : Type ℓ} {B : Type κ} where
  -- Code that returns has returned from its first call.
  pub >>=-eq-ok :
      (f : A → Result B) {b : B} (m : Result A)
      → (m >>= f) ≡ ok b
      → (a : A) × (f a ≡ ok b) × (m ≡ ok a)
  >>=-eq-ok f undefined h = cc
  >>=-eq-ok f (throws e) h = cc
  >>=-eq-ok f (ok a) h = (a, h, refl)

  pub >>=-ne-undefined :
      (m : Result A) (f : A → Result B)
      → m ≢ undefined
      → ((a : A) → f a ≢ undefined)
      → (m >>= f) ≢ undefined
  >>=-ne-undefined (ok a) f h k = k a
  >>=-ne-undefined (throws e) f h k = λ x. cc
  >>=-ne-undefined undefined f h k = λ x. h refl
