-- ===== src/Base/Tests.antt =====
-- Runs of the comparisons, and instances of what is proved of them.
use liblw.Prelude.{◌↔◌, ◌≡◌, refl, true, false, [], ◌∷◌, arith}
use liblw.Base.Chars.{Bytes, codes, to_upper}
use liblw.Base.Strings.{equal, less}
use liblw.Base.Strings.Equality.{upper}
use liblw.Base.Strings.Order.{Precedes, less_iff}

abbrev host : Bytes
host = codes "Host"

abbrev shout : Bytes
shout = codes "HOST"

abbrev origin : Bytes
origin = codes "origin"

abbrev zone : Bytes
zone = codes "Zone"

equal_runs : (equal host shout ≡ true) × (equal host zone ≡ false) × (equal host origin ≡ false)
unfolding equal to_upper
equal_runs = (refl, refl, refl)

less_runs :
    (less (200 ∷ []) host ≡ true)
    × (less host origin ≡ true)
    × (less zone origin ≡ false)
    × (less host shout ≡ false)
unfolding less to_upper
less_runs = (refl, refl, refl, refl)

less_iff_example : (less host origin ≡ true) ↔ Precedes (upper host) (upper origin)
less_iff_example =
    less_iff host origin (omega arith) (omega arith)
      (omega arith, (omega arith, (omega arith, (omega arith, tt))))
      (omega arith, (omega arith, (omega arith, (omega arith, (omega arith, (omega arith, tt))))))
