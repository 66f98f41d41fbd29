-- ===== src/Err.antt =====
-- lw/err/canonical.h: the canonical errors, and the outcome of code that may throw one.
pub mod Laws
pub mod Action
pub mod System

-- The classes that `_LW_DEFINE_ERROR` defines. `std_out_of_range` is what the standard
-- containers' `at` throws, `std_regex_error` what `std::regex` throws on a bad pattern. The message text and the stack of locations are left out.
pub data Error : Type 0 where
  aborted already_exists cancelled deadline_exceeded failed_precondition internal : Error
  invalid_argument not_found out_of_range permission_denied resource_exhausted : Error
  unavailable unimplemented std_out_of_range std_regex_error : Error

-- `undefined` is a step on which the C++ standard puts no bound: the top of an empty stack, an
-- index outside a view, a division by zero.
pub data Result {ℓ} (A : Type ℓ) : Type ℓ where
  ok : A → Result A
  throws : Error → Result A
  undefined : Result A

-- An exception, or an undefined step, ends what follows.
infixl 5 ◌>>=◌
abbrev pub ◌>>=◌ {ℓ κ} : {A : Type ℓ} {B : Type κ} → Result A → (A → Result B) → Result B
◌>>=◌ (throws e) _ = throws e
◌>>=◌ undefined _ = undefined
◌>>=◌ (ok a) next = next a
