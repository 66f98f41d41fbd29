-- ===== src/Base/Views.antt =====
-- What the program uses of `std::string_view`: a view is the list of its bytes.
pub mod Cut
use liblw.Prelude.{
  ℕ, suc, ◌+◌, Bool, true, false, ◌&&◌, Option, none, some, [], ◌∷◌, length, get_elem?, take, drop,
  ltb, leb, ◌==◌, if◌then◌else◌,
}
use liblw.Base.Chars.{Bytes}
use liblw.Err.{Result, ok, throws, undefined, std_out_of_range}

-- `view.at(i)`
unfoldable pub at : Bytes → ℕ → Result ℕ
at view i = elim (get_elem? view i) [ none ↦ throws std_out_of_range | some c ↦ ok c ]

-- `view.substr(pos, count)`, which takes what there is
unfoldable pub substr : Bytes → ℕ → ℕ → Result Bytes
substr view pos count =
    if ltb (length view) pos then throws std_out_of_range else ok (take count (drop pos view))

-- byte for byte
unfoldable pub same_bytes : Bytes → Bytes → Bool
same_bytes [] [] = true
same_bytes (a ∷ x) (b ∷ y) = (a == b) && same_bytes x y
same_bytes _ _ = false

unfoldable pub starts_with : Bytes → Bytes → Bool
starts_with _ [] = true
starts_with [] (_ ∷ _) = false
starts_with (a ∷ view) (b ∷ prefix) = (a == b) && starts_with view prefix

-- `view.remove_prefix(n)`, and the view from `view.data() + n` to the end: past the end of the view
-- it is undefined.
unfoldable pub remove_prefix : Bytes → ℕ → Result Bytes
remove_prefix view n = if leb n (length view) then ok (drop n view) else undefined

-- `view.find(str)` counted from `i`, on what is left of the view
unfoldable pub find_from : Bytes → Bytes → ℕ → Option ℕ
unfolding starts_with
find_from [] str i = if starts_with [] str then some i else none
find_from (c ∷ view) str i =
    let later = find_from view str (i + 1) in if starts_with (c ∷ view) str then some i else later
