-- ===== src/Err/Action/Rules.antt =====
-- Properties of methods, one rule for each way to build a method.
use liblw.Prelude.{◌≡◌, ◌≢◌, refl, Bool, true, false, if◌then◌else◌, arith}
use liblw.Err.{Error, Result, ok, throws, undefined}
use liblw.Err.Action.{Action, pure, lift, modify, next, ◌>>=◌}

-- The method never comes to a step that C++ leaves undefined.
pub record IsDefined {S A : Type 0} (m : Action S A) : Type 0 where
  pub at : (s : S) → (m s).0 ≢ undefined

module _ {S A : Type 0} where
  pub IsDefined-pure : (a : A) → IsDefined {S = S} (pure a)
  IsDefined-pure a = record { at = λ s. ground arith }

  pub IsDefined-lift : (r : Result A) → r ≢ undefined → IsDefined {S = S} (lift r)
  IsDefined-lift r h = record { at = λ s. h }

  pub IsDefined-throws : (e : Error) → IsDefined {S = S} {A = A} (lift (throws e))
  IsDefined-throws e = record { at = λ s. ground arith }

  pub IsDefined-if :
      (b : Bool) (m n : Action S A)
      → IsDefined m
      → IsDefined n
      → IsDefined (λ s. (if b then m else n) s)
  IsDefined-if true m n h k = h
  IsDefined-if false m n h k = k

pub IsDefined-modify : {S : Type 0} (f : S → S) → IsDefined (modify f)
IsDefined-modify f = record { at = λ s. ground arith }

module _ {S A B : Type 0} where
  next-ne-undefined :
      (r : Result A) (k : A → Action S B) (s : S)
      → r ≢ undefined
      → ((a : A) → IsDefined (k a))
      → (next r k s).0 ≢ undefined
  next-ne-undefined (ok a) k s h d = (d a).at s
  next-ne-undefined (throws e) k s h d = ground arith
  next-ne-undefined undefined k s h d = absurd (h refl)

  pub IsDefined-bind :
      (m : Action S A) (k : A → Action S B)
      → IsDefined m
      → ((a : A) → IsDefined (k a))
      → IsDefined (m >>= k)
  IsDefined-bind m k h d = record { at = λ s. next-ne-undefined (m s).0 k (m s).1 (h.at s) d }

-- If the method returns, its result has the property.
pub record Gives {S A : Type 0} (P : A → Type 0) (m : Action S A) : Type 0 where
  pub at : (s : S) {a : A} → (m s).0 ≡ ok a → P a

module _ {S A B : Type 0} {P : B → Type 0} where
  next-gives :
      (r : Result A) (k : A → Action S B) (s : S) {b : B}
      → ((a : A) → Gives P (k a))
      → (next r k s).0 ≡ ok b
      → P b
  next-gives (ok a) k s d h = (d a).at s h
  next-gives (throws e) k s d h = cc
  next-gives undefined k s d h = cc

  -- The last call decides.
  pub Gives-bind :
      (m : Action S A) (k : A → Action S B) → ((a : A) → Gives P (k a)) → Gives P (m >>= k)
  Gives-bind m k d = record { at = λ s h. next-gives (m s).0 k (m s).1 d h }

module _ {S A B : Type 0} {P : A → Type 0} where
  next-ne-undefined-given :
      (r : Result A) (k : A → Action S B) (s : S)
      → r ≢ undefined
      → ((a : A) → r ≡ ok a → P a)
      → ((a : A) → P a → IsDefined (k a))
      → (next r k s).0 ≢ undefined
  next-ne-undefined-given (ok a) k s h g d = (d a (g a refl)).at s
  next-ne-undefined-given (throws e) k s h g d = ground arith
  next-ne-undefined-given undefined k s h g d = absurd (h refl)

  -- What follows is defined for the results that the method can have.
  pub IsDefined-bind_given :
      (m : Action S A) (k : A → Action S B)
      → IsDefined m
      → Gives P m
      → ((a : A) → P a → IsDefined (k a))
      → IsDefined (m >>= k)
  IsDefined-bind_given m k h g d = record {
    at = λ s. next-ne-undefined-given (m s).0 k (m s).1 (h.at s) (λ a e. g.at s e) d;
  }

-- If the method returns, the object it leaves has the property.
pub record Leaves {S A : Type 0} (P : S → Type 0) (m : Action S A) : Type 0 where
  pub at : (s : S) {a : A} → (m s).0 ≡ ok a → P (m s).1

module _ {S A B : Type 0} {P : S → Type 0} where
  next-leaves :
      (r : Result A) (k : A → Action S B) (s : S) {b : B}
      → ((a : A) → Leaves P (k a))
      → (next r k s).0 ≡ ok b
      → P (next r k s).1
  next-leaves (ok a) k s d h = (d a).at s h
  next-leaves (throws e) k s d h = cc
  next-leaves undefined k s d h = cc

  -- The last call decides.
  pub Leaves-bind :
      (m : Action S A) (k : A → Action S B) → ((a : A) → Leaves P (k a)) → Leaves P (m >>= k)
  Leaves-bind m k d = record { at = λ s h. next-leaves (m s).0 k (m s).1 d h }
