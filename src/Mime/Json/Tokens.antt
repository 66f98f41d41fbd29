-- ===== src/Mime/Json/Tokens.antt =====
-- The tokens of lw/mime/json.cpp: `JSONScalarToken`, `JSONListToken` and `JSONObjectToken`.
pub mod Queries
pub mod Laws
use liblw.Prelude.{ℕ, Bool, true, false, List, [], ◌∷◌, Option, none, some, if◌then◌else◌}
use liblw.Base.Chars.{Bytes}
use liblw.Base.Views.{same_bytes}
use liblw.Err.{Result, ok, throws, failed_precondition, ◌>>=◌}
use liblw.Mime.Json.Escape.{decode_string}

pub data JsonType : Type 0 where
  nul boolean string integer float list object : JsonType

-- `_decoded_string` is empty unless the token is a string.
pub record Scalar : Type 0 where
  pub type_ : JsonType
  pub token : Bytes
  pub decoded : Bytes

mutual
  -- `io::DeserializationToken`, by its class
  pub data Value : Type 0 where
    scalar : Scalar → Value
    list_of : Items → Value
    object_of : Fields → Value

  -- `_elements` of a list
  pub data Items : Type 0 where
    nil : Items
    cons : Value → Items → Items

  -- `_elements` of an object. The program never goes through them, so their order is that of their
  -- insertion, the last first.
  pub data Fields : Type 0 where
    end : Fields
    field : Bytes → Value → Fields → Fields

-- the constructor of `JSONScalarToken`
unfoldable pub make_scalar : JsonType → Bytes → Result Scalar
make_scalar string token = do
  decoded ← decode_string token
  ok (record { type_ = string; token = token; decoded = decoded })
make_scalar type_ token = ok (record { type_ = type_; token = token; decoded = [] })

-- `JSONListToken::push_back`
unfoldable pub push_back : Items → Value → Items
push_back nil v = cons v nil
push_back (cons x xs) v = cons x (push_back xs v)

unfoldable pub find_field : Bytes → Fields → Option Value
find_field key end = none
find_field key (field k v fs) = if same_bytes k key then some v else find_field key fs

unfoldable pub has_field : Bytes → Fields → Bool
has_field key fs = elim (find_field key fs) [ none ↦ false | some _ ↦ true ]

-- `JSONObjectToken::insert`
unfoldable pub insert : Bytes → Value → Fields → Result Fields
unfolding has_field
insert key v fs = if has_field key fs then throws failed_precondition else ok (field key v fs)
