-- ===== src/Http/Response/Headers.antt =====
-- The headers of a response as a map: what is set is what is read.
use liblw.Prelude.{
  ◌≡◌, refl, sym, ap, ◌∙◌, Bool, true, false, Option, none, some, arith, if◌then◌else◌,
  Option-cases, inl, inr,
}
use liblw.Base.Chars.{Bytes}
use liblw.Base.OrderedMap.{equivalent}
use liblw.Base.OrderedMap.Laws.{
  IsOrdered, find-assign, find-insert, assign-IsOrdered, insert-IsOrdered,
}
use liblw.Base.Strings.{less, equal}
use liblw.Base.Strings.Order.{IsShort, less-StrictWeakOrder, incomparable_iff}
use liblw.Err.{Result, ok, throws, not_found}
use liblw.Http.Headers as Map
use liblw.Http.Response.{HttpResponse, header, set_header}

-- The keys of the map are in order, and their sizes fit in an `int`.
abbrev pub HasOrderedHeaders : HttpResponse → Type 0
HasOrderedHeaders res = IsOrdered IsShort less res.headers

equivalent-equal : (a b : Bytes) → IsShort a → IsShort b → equivalent less a b ≡ equal a b
equivalent-equal a b p q = ground (arith, incomparable_iff a b p q)

or_not_found : Option Bytes → Result Bytes
or_not_found none = throws not_found
or_not_found (some value) = ok value

header-or_not_found :
    (q : Bytes) (res : HttpResponse) → header q res ≡ or_not_found (Map.find q res.headers)
unfolding header or_not_found
header-or_not_found q res = elim (Map.find q res.headers) [ none ↦ refl | some v ↦ refl ]

or_not_found-if :
    (b : Bool) (value : Bytes) (o : Option Bytes)
    → or_not_found (if b then some value else o) ≡ (if b then ok value else or_not_found o)
unfolding or_not_found
or_not_found-if true value o = refl
or_not_found-if false value o = refl

-- the map that `set_header` leaves
set_header-find :
    (name value q : Bytes) (res : HttpResponse)
    → IsShort name
    → IsShort q
    → HasOrderedHeaders res
    → HasOrderedHeaders (set_header name value res)
      × (Map.find q (set_header name value res).headers
          ≡ (if equivalent less name q then some value else Map.find q res.headers))
unfolding set_header
set_header-find name value q res h k o = elim (Option-cases (Map.find name res.headers)) [
  | inl absent ↦
      rw (absent, set_header)
        (
          insert-IsOrdered less-StrictWeakOrder name value res.headers h o,
          find-insert less-StrictWeakOrder q name value res.headers k h o ∙ rw absent refl,
        )
  | inr (v, present) ↦
      rw (present, set_header)
        (
          assign-IsOrdered less-StrictWeakOrder name value res.headers h o,
          find-assign less-StrictWeakOrder q name value res.headers k h o,
        )
]

-- Setting a header keeps the order of the map. Afterwards the header has the value under every name
-- that differs from its own in case alone, and each other name has what it had. The names' sizes
-- fit in an `int`.
pub header-set_header :
    (name value q : Bytes) (res : HttpResponse)
    → IsShort name
    → IsShort q
    → HasOrderedHeaders res
    → HasOrderedHeaders (set_header name value res)
      × (header q (set_header name value res) ≡ (if equal name q then ok value else header q res))
header-set_header name value q res h k o =
    let (ordered, found) = set_header-find name value q res h k o in
    (
      ordered,
      header-or_not_found q (set_header name value res)
          ∙ ap or_not_found (
              found
              ∙ ap (λ b. if b then some value else Map.find q res.headers)
                  (equivalent-equal name q h k))
          ∙ or_not_found-if (equal name q) value (Map.find q res.headers)
          ∙ ap (λ r. if equal name q then ok value else r) (sym (header-or_not_found q res)),
    )
