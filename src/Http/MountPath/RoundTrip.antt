-- ===== src/Http/MountPath/RoundTrip.antt =====
-- Endpoints of literals and parameters, read by `parse_into_matchers`.
use liblw.Prelude.{
  ℕ, ◌≡◌, refl, ap, ◌∙◌, Bool, false, List, [], ◌∷◌, ◌++◌, append_assoc, append-nil, Option, none,
  some, arith, ◌==◌,
}
use liblw.Base.Chars.{Bytes}
use liblw.Err.{Result, ok, ◌>>=◌}
use liblw.Http.MountPath.{
  Matcher, literal, validated, Validator, int_validator, uint_validator, separator,
}
use liblw.Http.MountPath.Parse as Parse
use liblw.Http.MountPath.Parse.{
  Machine, State, start, literal_part, parameter_start, parameter_type, parameter_name,
  parameter_extension, parameter_end, initial,
}
use liblw.Http.MountPath.Endpoints.{
  Segment, type_text, text, AreAlnum, IsExtension, AreSegments, endpoint_of, make, matchers_of,
  type_bytes, alnum_byte, plain, param, typed,
}
use liblw.Http.MountPath.Runs.{
  finish, ready, run-plain, run-name, run-extension, Boundary, endpoint_of-Boundary, finish-plain,
  closing-added, finish-name_end, finish-extension_end, finish-point, typed_chunk, at_type,
  finish-typed, finish-first,
}

module _ (is_pattern : Bytes → Bool) where
  -- A name and its extension, from behind the first byte of the name. All that counts of the
  -- machine afterwards is the type and the matchers.
  finish-name :
      {out : Result (List Matcher)} (c : ℕ) (n extension rest : Bytes) (m : Machine)
      (t : Option Validator)
      → AreAlnum n
      → IsExtension extension
      → Boundary is_pattern rest
      → m.type_ ≡ type_bytes t
      → ((m' : Machine)
          → m'.type_ ≡ type_bytes t
          → m'.matchers
            ≡ m.matchers ++ (make t (m.chunk_seen ++ (n ++ extension)) (c ∷ n) extension ∷ [])
          → finish is_pattern rest (ready is_pattern m') ≡ out)
      → finish is_pattern
          (n ++ (extension ++ rest))
          (record m { state = parameter_name; name_seen = some (c ∷ []) })
        ≡ out
  finish-name c n [] rest m t h x b e next =
      ap (λ r. r >>= Parse.conclude is_pattern) (run-name is_pattern n rest (c ∷ []) m h)
      ∙ finish-name_end is_pattern c n rest (record m { chunk_seen = m.chunk_seen ++ n }) b
      ∙ closing-added is_pattern rest _ t b e
      ∙ next
          (record m {
            matchers = m.matchers ++ (make t (m.chunk_seen ++ n) (c ∷ n) [] ∷ []);
            chunk_seen = m.chunk_seen ++ n;
            name = c ∷ n;
            extension = [];
          })
          e (simp append-nil)
  finish-name c n (d ∷ []) rest m t h x b e next = absurd x
  finish-name c n (d ∷ d' ∷ xs) rest m t h x b e next =
      ap (λ r. r >>= Parse.conclude is_pattern)
        (run-name is_pattern n (d ∷ d' ∷ (xs ++ rest)) (c ∷ []) m h)
      ∙ finish-point is_pattern c n (d' ∷ (xs ++ rest)) d
          (record m { chunk_seen = m.chunk_seen ++ n }) x.0
      ∙ ap (λ r. r >>= Parse.conclude is_pattern)
          (run-extension is_pattern (d' ∷ xs) rest
            (record named {
              extension_seen = b'.' ∷ [];
              chunk_seen = (m.chunk_seen ++ n) ++ (b'.' ∷ []);
            })
            x.1)
      ∙ finish-extension_end is_pattern d' xs rest (record named { chunk_seen = seen_of }) b
      ∙ closing-added is_pattern rest _ t b e
      ∙ next
          (record named {
            matchers = m.matchers ++ (make t seen_of (c ∷ n) (b'.' ∷ d' ∷ xs) ∷ []);
            chunk_seen = seen_of;
            extension_seen = b'.' ∷ d' ∷ xs;
            extension = b'.' ∷ d' ∷ xs;
          })
          e (rw (x.0) (simp append_assoc))
    where
      seen_of : Bytes
      seen_of = ((m.chunk_seen ++ n) ++ (b'.' ∷ [])) ++ (d' ∷ xs)

      named : Machine
      named = record m { name_seen = some (c ∷ n); name = c ∷ n }

  finish-segments :
      (ss : List Segment) (m : Machine) (t : Option Validator)
      → AreSegments ss
      → m.type_ ≡ type_bytes t
      → finish is_pattern (endpoint_of ss) (ready is_pattern m)
        ≡ ok (m.matchers ++ matchers_of t ss)
  unfolding Parse.run Parse.conclude type_bytes
  finish-segments [] m t h e = ap ok (simp append-nil)
  finish-segments (plain [] ∷ ss) m t h e = absurd h.0
  finish-segments (plain (c ∷ s) ∷ ss) m t h e =
      rw (no_separator, no_colon)
        (ap (λ r. r >>= Parse.conclude is_pattern)
            (run-plain is_pattern s (endpoint_of ss)
              (record m { name_seen = none; chunk_seen = c ∷ [] }) h.0.1.1)
          ∙ finish-plain is_pattern (endpoint_of ss)
              (record m { name_seen = none; chunk_seen = c ∷ s })
              (endpoint_of-Boundary is_pattern ss) refl
          ∙ finish-segments ss
              (record m { chunk_seen = c ∷ s; matchers = m.matchers ++ (literal (c ∷ s) ∷ []) }) t
              h.1 e
          ∙ ap ok (append_assoc m.matchers (literal (c ∷ s) ∷ []) (matchers_of t ss)))
    where
      no_separator : (c == separator) ≡ false
      no_separator = ground arith

      no_colon : (c == b':') ≡ false
      no_colon = ground arith
  finish-segments (param [] extension ∷ ss) m t h e = absurd h.0.0
  finish-segments (param (c ∷ n) extension ∷ ss) m t h e =
      let (_, (_, bracket)) = alnum_byte c h.0.0.0 in
      rw (append_assoc n extension (endpoint_of ss), bracket, h.0.0.0)
        (finish-name c n extension (endpoint_of ss) (record m { chunk_seen = b':' ∷ c ∷ [] }) t
          h.0.0.1 h.0.1 (endpoint_of-Boundary is_pattern ss) e
          (λ m' te mm.
            finish-segments ss m' t h.1 te
            ∙ ap ok (ap (λ ms. ms ++ matchers_of t ss) mm ∙ append_assoc m.matchers _ _)))
  finish-segments (typed v [] extension ∷ ss) m t h e = absurd h.0.0
  finish-segments (typed v (c ∷ n) extension ∷ ss) m t h e =
      let E = endpoint_of ss in
      ap (λ x. finish is_pattern (separator ∷ b':' ∷ b'[' ∷ x) (ready is_pattern m))
        (append_assoc (type_text v) (b']' ∷ c ∷ (n ++ extension)) E)
      ∙ finish-typed is_pattern v (c ∷ ((n ++ extension) ++ E)) m
      ∙ finish-first is_pattern c ((n ++ extension) ++ E) (at_type is_pattern v m) h.0.0.0
      ∙ ap
          (λ x. finish is_pattern x (record (at_type is_pattern v m) {
            name_seen = some (c ∷ []);
            chunk_seen = typed_chunk is_pattern v ++ (c ∷ []);
          }))
          (append_assoc n extension E)
      ∙ finish-name c n extension E
          (record (at_type is_pattern v m) { chunk_seen = typed_chunk is_pattern v ++ (c ∷ []) })
          (some v) h.0.0.1 h.0.1 (endpoint_of-Boundary is_pattern ss) refl
          (λ m' te mm.
            finish-segments ss m' (some v) h.1 te
            ∙ ap ok (
                ap (λ ms. ms ++ matchers_of (some v) ss)
                  (mm
                    ∙ ap (λ k. m.matchers ++ (validated k (c ∷ n) extension v ∷ [])) (chunk_text v))
                ∙ append_assoc m.matchers _ _))
    where
      chunk_text :
          (v : Validator)
          → (typed_chunk is_pattern v ++ (c ∷ [])) ++ (n ++ extension)
            ≡ text (typed v (c ∷ n) extension)
      chunk_text int_validator = refl
      chunk_text uint_validator = refl

  -- An endpoint of literals and parameters is read as its matchers, in order. A parameter without a
  -- type has the type of the last typed parameter before it, where there is one.
  pub parse_into_matchers-endpoint_of :
      (ss : List Segment)
      → AreSegments ss
      → Parse.parse_into_matchers is_pattern (endpoint_of ss) ≡ ok (matchers_of none ss)
  unfolding Parse.parse_into_matchers type_bytes
  parse_into_matchers-endpoint_of ss h = finish-segments ss initial none h refl
