-- ===== src/Http/MountPath/Endpoints.antt =====
-- Endpoints of known form: literals, and parameters with or without a type.
use liblw.Prelude.{
  ℕ, ◌≡◌, ◌≢◌, true, false, ◌||◌, List, [], ◌∷◌, ◌++◌, Option, none, some, arith, ◌==◌,
}
use liblw.Base.Chars.{Bytes, codes, is_alnum}
use liblw.Base.Views.Cut.{Lacks}
use liblw.Http.MountPath.{
  Matcher, literal, parameter, validated, Validator, int_validator, uint_validator, separator,
}

-- What stands between two separators: "foo", ":name.ext" or ":[int]name.ext". An extension is
-- empty, or begins with its point.
pub data Segment : Type 0 where
  plain : Bytes → Segment
  param : (name extension : Bytes) → Segment
  typed : Validator → (name extension : Bytes) → Segment

abbrev pub type_text : Validator → Bytes
type_text int_validator = codes "int"
type_text uint_validator = codes "uint"

abbrev pub text : Segment → Bytes
text (plain s) = s
text (param name extension) = b':' ∷ (name ++ extension)
text (typed v name extension) = b':' ∷ b'[' ∷ (type_text v ++ (b']' ∷ (name ++ extension)))

abbrev pub AreAlnum : Bytes → Type 0
AreAlnum [] = Unit
AreAlnum (c ∷ cs) = (is_alnum c ≡ true) × AreAlnum cs

abbrev pub IsName : Bytes → Type 0
IsName [] = ⊥
IsName (c ∷ cs) = AreAlnum (c ∷ cs)

-- the bytes of an extension: points, letters and digits
abbrev pub AreExtension : Bytes → Type 0
AreExtension [] = Unit
AreExtension (c ∷ cs) = ((c == b'.' || is_alnum c) ≡ true) × AreExtension cs

abbrev pub IsExtension : Bytes → Type 0
IsExtension [] = Unit
IsExtension (_ ∷ []) = ⊥
IsExtension (c ∷ d ∷ cs) = (c ≡ b'.') × AreExtension (d ∷ cs)

abbrev pub IsPlain : Bytes → Type 0
IsPlain [] = ⊥
IsPlain (c ∷ cs) = (c ≢ b':') × Lacks separator (c ∷ cs)

abbrev pub IsSegment : Segment → Type 0
IsSegment (plain s) = IsPlain s
IsSegment (param name extension) = IsName name × IsExtension extension
IsSegment (typed _ name extension) = IsName name × IsExtension extension

abbrev pub AreSegments : List Segment → Type 0
AreSegments [] = Unit
AreSegments (s ∷ ss) = IsSegment s × AreSegments ss

abbrev pub endpoint_of : List Segment → Bytes
endpoint_of [] = []
endpoint_of (s ∷ ss) = separator ∷ (text s ++ endpoint_of ss)

abbrev pub make : Option Validator → (chunk name extension : Bytes) → Matcher
make none chunk name extension = parameter chunk name extension
make (some v) chunk name extension = validated chunk name extension v

-- The matchers of an endpoint. `last` is the type of the last typed parameter so far, which the
-- parameters without a type take over.
abbrev pub matchers_of : Option Validator → List Segment → List Matcher
matchers_of last [] = []
matchers_of last (plain s ∷ ss) = literal s ∷ matchers_of last ss
matchers_of last (param name extension ∷ ss) =
    make last (text (param name extension)) name extension ∷ matchers_of last ss
matchers_of last (typed v name extension ∷ ss) =
    make (some v) (text (typed v name extension)) name extension ∷ matchers_of (some v) ss

unfoldable pub type_bytes : Option Validator → Bytes
type_bytes none = []
type_bytes (some v) = type_text v

pub alnum_byte :
    (c : ℕ)
    → is_alnum c ≡ true
    → ((c == separator) ≡ false) × (((c == b'.') ≡ false) × ((c == b'[') ≡ false))
alnum_byte c h = (ground arith, (ground arith, ground arith))
