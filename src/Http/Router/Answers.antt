-- ===== src/Http/Router/Answers.antt =====
-- The methods by their names, the failures, and whether the connection is kept, written out beside
-- the code.
use liblw.Prelude.{
  ℕ, ◌≡◌, ◌≢◌, refl, Bool, true, false, not, Bool-cases, inl, inr, [], ◌∷◌, Option, none, some,
  arith, if◌then◌else◌,
}
use liblw.Prelude.Int.{pos}
use liblw.Base.Chars.{Bytes, codes}
use liblw.Base.Views.{same_bytes}
use liblw.Base.OrderedMap as OrderedMap
use liblw.Http.Headers.{Headers}
use liblw.Http.Headers as Map
use liblw.Http.Request.{HttpRequest}
use liblw.Http.Response as Response
use liblw.Http.Response.{HttpResponse, serialize, set_status, set_header, set_body}
use liblw.Http.Trie.Dictionary.{same_bytes→eq}
use liblw.Http.Router.{
  Method, del, get, head, options, patch, post, put, method_of, closes, respond_failure,
}

-- the names of the methods
abbrev pub method_name : Method → Bytes
method_name del = codes "DELETE"
method_name get = codes "GET"
method_name head = codes "HEAD"
method_name options = codes "OPTIONS"
method_name patch = codes "PATCH"
method_name post = codes "POST"
method_name put = codes "PUT"

-- The method that a text names, or none.
abbrev pub Names : Bytes → Option Method → Type 0
Names text (some m) = text ≡ method_name m
Names text none = (m : Method) → text ≢ method_name m

named-method_of : (m : Method) → method_of (method_name m) ≡ some m
unfolding method_of same_bytes
named-method_of del = refl
named-method_of get = refl
named-method_of head = refl
named-method_of options = refl
named-method_of patch = refl
named-method_of post = refl
named-method_of put = refl

apart_lem : (x y : Bytes) → x ≢ y → same_bytes x y ≡ false
apart_lem x y ne = elim (Bool-cases (same_bytes x y)) [
  | inl same ↦ absurd (ne (same_bytes→eq x y same))
  | inr apart ↦ apart
]

pub Names-method_of :
    (text : Bytes) (known : Option Method) → Names text known → method_of text ≡ known
unfolding method_of
Names-method_of text (some m) e = rw e (named-method_of m)
Names-method_of text none ne =
    rw
      (
        apart_lem text (codes "DELETE") (ne del),
        apart_lem text (codes "GET") (ne get),
        apart_lem text (codes "HEAD") (ne head),
        apart_lem text (codes "OPTIONS") (ne options),
        apart_lem text (codes "PATCH") (ne patch),
        apart_lem text (codes "POST") (ne post),
        apart_lem text (codes "PUT") (ne put),
      )
      refl

-- a failure with its status and its text
abbrev pub failure : ℕ → Bytes → HttpResponse
failure status text = record {
  status_code = pos status;
  status_text = [];
  headers = (codes "Content-Type", codes "text/plain") ∷ [];
  body = text;
}

pub respond_failure_lem :
    (status : ℕ) (text : Bytes) → respond_failure status text Response.fresh ≡ failure status text
unfolding respond_failure set_body set_header set_status OrderedMap.find OrderedMap.insert
respond_failure_lem status text = refl

-- the connection is kept for this value of the header "connection" alone
abbrev pub ends_after : Option Bytes → Bool
ends_after none = true
ends_after (some value) = if same_bytes value (codes "keep-alive") then false else true

pub closes_lem :
    (req : HttpRequest) → closes req ≡ ends_after (Map.find (codes "connection") req.headers)
unfolding closes
closes_lem req = by_value (Map.find (codes "connection") req.headers)
  where
    by_value :
        (o : Option Bytes)
        → elim o [ none ↦ true | some value ↦ not (same_bytes value (codes "keep-alive")) ]
          ≡ ends_after o
    by_value none = refl
    by_value (some value) = ground arith
