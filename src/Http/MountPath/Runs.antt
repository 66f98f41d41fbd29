-- ===== src/Http/MountPath/Runs.antt =====
-- The rounds of `parse_into_matchers` over the pieces of an endpoint.
use liblw.Prelude.{
  ℕ, ◌≡◌, refl, ◌∙◌, Bool, true, false, ◌&&◌, ◌||◌, not, List, [], ◌∷◌, ◌++◌, append_assoc,
  append-nil, length, Option, none, some, arith, ◌==◌,
}
use liblw.Base.Chars.{Bytes, is_alnum}
use liblw.Base.Views.{same_bytes}
use liblw.Base.Views.Cut.{Lacks}
use liblw.Err.{Result, ok, ◌>>=◌}
use liblw.Http.MountPath.{
  Matcher, literal, Validator, int_validator, uint_validator, separator, validator_for,
}
use liblw.Http.MountPath.Parse as Parse
use liblw.Http.MountPath.Parse.{
  Machine, State, start, literal_part, parameter_start, parameter_type, parameter_name,
  parameter_extension, parameter_end, initial,
}
use liblw.Http.MountPath.Endpoints.{
  Segment, type_text, AreAlnum, AreExtension, endpoint_of, make, type_bytes, alnum_byte,
}

module _ (is_pattern : Bytes → Bool) where
  abbrev pub run : Bytes → Machine → Result Machine
  run = Parse.run is_pattern

  -- `run` to the end and what `conclude` makes of it
  abbrev pub finish : Bytes → Machine → Result (List Matcher)
  finish rest m = run rest m >>= Parse.conclude is_pattern

  -- a machine between two segments
  abbrev pub ready : Machine → Machine
  ready m = record m { state = start; name_seen = none }

  pub run-plain :
      (s rest : Bytes) (m : Machine)
      → Lacks separator s
      → run (s ++ rest) (record m { state = literal_part })
        ≡ run rest (record m { state = literal_part; chunk_seen = m.chunk_seen ++ s })
  unfolding Parse.run
  run-plain [] rest m h = rw append-nil refl
  run-plain (c ∷ s) rest m h = rw other (
      run-plain s rest (record m { chunk_seen = m.chunk_seen ++ (c ∷ []) }) h.1 ∙ simp append_assoc)
    where
      other : (c == separator) ≡ false
      other = ground arith

  pub run-name :
      (s rest so_far : Bytes) (m : Machine)
      → AreAlnum s
      → run (s ++ rest) (record m { state = parameter_name; name_seen = some so_far })
        ≡ run rest (record m {
          state = parameter_name;
          name_seen = some (so_far ++ s);
          chunk_seen = m.chunk_seen ++ s;
        })
  unfolding Parse.run
  run-name [] rest so_far m h = simp append-nil
  run-name (c ∷ s) rest so_far m h =
      let (sep, (dot, _)) = alnum_byte c h.0 in
      rw (sep, dot, h.0)
        (run-name s rest (so_far ++ (c ∷ [])) (record m { chunk_seen = m.chunk_seen ++ (c ∷ []) })
            h.1
          ∙ simp append_assoc)

  pub run-extension :
      (s rest : Bytes) (m : Machine)
      → AreExtension s
      → run (s ++ rest) (record m { state = parameter_extension })
        ≡ run rest (record m {
          state = parameter_extension;
          extension_seen = m.extension_seen ++ s;
          chunk_seen = m.chunk_seen ++ s;
        })
  unfolding Parse.run
  run-extension [] rest m h = simp append-nil
  run-extension (c ∷ s) rest m h =
      rw (other, allowed)
        (run-extension s rest
            (record m {
              extension_seen = m.extension_seen ++ (c ∷ []);
              chunk_seen = m.chunk_seen ++ (c ∷ []);
            })
            h.1
          ∙ simp append_assoc)
    where
      other : (c == separator) ≡ false
      other = ground arith

      allowed : (not (c == b'.') && not (is_alnum c)) ≡ false
      allowed = either (c == b'.') (is_alnum c) h.0
        where
          either : (a b : Bool) → (a || b) ≡ true → (not a && not b) ≡ false
          either true b e = refl
          either false true e = refl
          either false false e = cc

  -- what may follow a segment
  unfoldable pub Boundary : Bytes → Type 0
  Boundary [] = Unit
  Boundary (c ∷ _) = c ≡ separator

  pub endpoint_of-Boundary : (ss : List Segment) → Boundary (endpoint_of ss)
  unfolding Boundary
  endpoint_of-Boundary [] = tt
  endpoint_of-Boundary (s ∷ ss) = refl

  -- a literal that is over
  pub finish-plain :
      (rest : Bytes) (m : Machine)
      → Boundary rest
      → m.name_seen ≡ none
      → finish rest (record m { state = literal_part })
        ≡ finish rest (ready (record m { matchers = m.matchers ++ (literal m.chunk_seen ∷ []) }))
  unfolding Parse.run Boundary
  finish-plain [] m b e = rw e refl
  finish-plain (c ∷ rest) m b e = rw (b, e) refl

  abbrev pub added : Option Validator → Machine → Machine
  added t m =
      ready (record m { matchers = m.matchers ++ (make t m.chunk_seen m.name m.extension ∷ []) })

  pub add_parameter-added :
      (m : Machine) (t : Option Validator)
      → m.type_ ≡ type_bytes t
      → Parse.add_parameter m ≡ ok (added t m)
  unfolding Parse.add_parameter type_bytes validator_for same_bytes
  add_parameter-added m none e = rw e refl
  add_parameter-added m (some int_validator) e = rw e refl
  add_parameter-added m (some uint_validator) e = rw e refl

  -- behind the byte, or the end, at which a parameter was found to be over
  unfoldable pub closing : Bytes → Machine → Result (List Matcher)
  closing [] m = Parse.conclude is_pattern (record m { state = parameter_end })
  closing (_ ∷ rest) m = finish rest (record m { state = parameter_end })

  pub closing-added :
      (rest : Bytes) (m : Machine) (t : Option Validator)
      → Boundary rest
      → m.type_ ≡ type_bytes t
      → closing rest m ≡ finish rest (added t m)
  unfolding closing Boundary Parse.run Parse.conclude
  closing-added [] m t b e = rw (add_parameter-added (record m { state = parameter_end }) t e) refl
  closing-added (c ∷ []) m t b e =
      rw (b, add_parameter-added (record m { state = parameter_end }) t e) refl
  closing-added (c ∷ d ∷ rest) m t b e =
      rw (b, add_parameter-added (record m { state = parameter_end }) t e) refl

  -- the end of a name without extension
  pub finish-name_end :
      (c : ℕ) (n rest : Bytes) (m : Machine)
      → Boundary rest
      → finish rest (record m { state = parameter_name; name_seen = some (c ∷ n) })
        ≡ closing rest (record m { name_seen = some (c ∷ n); name = c ∷ n; extension = [] })
  unfolding closing Boundary Parse.run
  finish-name_end c n [] m b = refl
  finish-name_end c n (d ∷ rest) m b = rw b refl

  -- the end of an extension
  abbrev pub with_extension : Bytes → Machine → Machine
  with_extension extension m = record m { extension_seen = extension; extension = extension }

  pub finish-extension_end :
      (d : ℕ) (xs rest : Bytes) (m : Machine)
      → Boundary rest
      → finish rest (record m { state = parameter_extension; extension_seen = b'.' ∷ d ∷ xs })
        ≡ closing rest (with_extension (b'.' ∷ d ∷ xs) m)
  unfolding closing Boundary Parse.run
  finish-extension_end d xs [] m b = rw longer refl
    where
      longer : (length (b'.' ∷ d ∷ xs) == 1) ≡ false
      longer = ground arith
  finish-extension_end d xs (c ∷ rest) m b = rw (b, longer) refl
    where
      longer : (length (b'.' ∷ d ∷ xs) == 1) ≡ false
      longer = ground arith

  pub finish-point :
      (c : ℕ) (n rest : Bytes) (d : ℕ) (m : Machine)
      → d ≡ b'.'
      → finish (d ∷ rest) (record m { state = parameter_name; name_seen = some (c ∷ n) })
        ≡ finish rest (record m {
          state = parameter_extension;
          name_seen = some (c ∷ n);
          name = c ∷ n;
          extension_seen = b'.' ∷ [];
          chunk_seen = m.chunk_seen ++ (b'.' ∷ []);
        })
  unfolding Parse.run
  finish-point c n rest d m e = rw e refl

  abbrev pub typed_chunk : Validator → Bytes
  typed_chunk v = b':' ∷ b'[' ∷ (type_text v ++ (b']' ∷ []))

  -- behind the ']' of a type
  abbrev pub at_type : Validator → Machine → Machine
  at_type v m = record m {
    state = parameter_name;
    name_seen = none;
    chunk_seen = typed_chunk v;
    type_seen = type_text v;
    type_ = type_text v;
  }

  pub finish-typed :
      (v : Validator) (rest : Bytes) (m : Machine)
      → finish (separator ∷ b':' ∷ b'[' ∷ (type_text v ++ (b']' ∷ rest))) (ready m)
        ≡ finish rest (at_type v m)
  unfolding Parse.run same_bytes
  finish-typed int_validator rest m = refl
  finish-typed uint_validator rest m = refl

  -- the first byte of a name
  pub finish-first :
      (c : ℕ) (rest : Bytes) (m : Machine)
      → is_alnum c ≡ true
      → finish (c ∷ rest) (record m { state = parameter_name; name_seen = none })
        ≡ finish rest (record m {
          state = parameter_name;
          name_seen = some (c ∷ []);
          chunk_seen = m.chunk_seen ++ (c ∷ []);
        })
  unfolding Parse.run
  finish-first c rest m h = let (sep, (dot, _)) = alnum_byte c h in rw (sep, dot, h) refl
