-- ===== src/Format/Blobs/Tests.antt =====
-- Views of a few bytes, and the theorems at concrete inputs.
use liblw.Prelude.{◌≡◌, refl, arith, some, length}
use liblw.Base.Chars.{codes}
use liblw.Format.Blobs.{end, character}
use liblw.Format.Blobs.Hex as Hex
use liblw.Format.Blobs.Hex.{AreBytes, hex_text, print-hex_text}
use liblw.Format.Blobs.Base64 as Base64
use liblw.Format.Blobs.Base64.Text.{base64_text, print-base64_text}

print-base64_text_example :
    (Base64.print (codes "light") ≡ some (base64_text (codes "light")))
    × (Base64.size (length (codes "light")) ≡ length (base64_text (codes "light")))
print-base64_text_example =
    print-base64_text (codes "light")
      (omega arith, (omega arith, (omega arith, (omega arith, (omega arith, tt)))))

hex_runs : Hex.print (codes "hi") ≡ some (codes "6869")
unfolding Hex.print end
hex_runs = refl

base64_runs : Base64.print (codes "light w") ≡ some (codes "bGlnaHQgdw==")
unfolding Base64.print Base64.b64_char end
base64_runs = refl

-- From the end of two bytes, going back leads to no block of the buffer.
retreat_from_end : character (Base64.retreat (codes "hi") (end (codes "hi"))) ≡ some 0
unfolding Base64.retreat end character
retreat_from_end = refl
