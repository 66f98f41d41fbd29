-- ===== src/Http/Headers.antt =====
-- lw/http/headers.h: `HeadersView` and `Headers`, maps ordered by `CaseInsensitiveLess`.
use liblw.Prelude.{List, Bool, true, false, Option, none, some}
use liblw.Base.Chars.{Bytes}
use liblw.Base.OrderedMap
use liblw.Base.Strings.{less}
use liblw.Err.{Result, ok, throws, std_out_of_range}

abbrev pub Headers : Type 0
Headers = List (Bytes × Bytes)

abbrev pub find : Bytes → Headers → Option Bytes
find = OrderedMap.find less

abbrev pub insert : Bytes → Bytes → Headers → Headers
insert = OrderedMap.insert less

abbrev pub assign : Bytes → Bytes → Headers → Headers
assign = OrderedMap.assign less

abbrev pub contains : Bytes → Headers → Bool
contains k m = elim (find k m) [ none ↦ false | some _ ↦ true ]

-- `at`
abbrev pub get : Bytes → Headers → Result Bytes
get k m = elim (find k m) [ none ↦ throws std_out_of_range | some v ↦ ok v ]
