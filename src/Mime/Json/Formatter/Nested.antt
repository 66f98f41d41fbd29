-- ===== src/Mime/Json/Formatter/Nested.antt =====
-- What the states that stay on the stack do to the calls that follow.
use liblw.Prelude.{ℕ, ◌≡◌, refl, Bool, List, [], ◌∷◌, ◌⊎◌, inl, inr}
use liblw.Base.Chars.{Bytes}
use liblw.Err.{ok, throws, undefined, failed_precondition, invalid_argument}
use liblw.Err.Action.{◌>>◌}
use liblw.Mime.Json.Formatter.{
  State, list, list_value, key_ended, start, put_null, put_boolean, put_number, put_string,
  put_char, start_list, end_list, start_object, end_object, start_pair_key, end_pair_key, end_pair,
}
use liblw.Mime.Json.Formatter.Flat.{put_list, put_object, put_list_lem, put_object_lem, at_state}

-- An object cannot have a list as a value: behind the calls for the list, `end_pair` throws.
pub list_in_pair_throws :
    (vs : List Bytes) (open_ : List State) (out : Bytes)
    → ((do put_list vs; end_pair) (at_state (key_ended ∷ open_) out)).0 ≡ throws failed_precondition
unfolding end_pair
list_in_pair_throws vs open_ out = rw (put_list_lem vs key_ended open_ out refl)

-- A list can hold an object only as what no other call follows: behind the calls for the object, a
-- further scalar, string, list or object throws `InvalidArgument`, and the end of the list throws
-- `FailedPrecondition`.
pub object_in_list_throws :
    (ps : List (Bytes × Bytes)) (s : State) (open_ : List State) (out v : Bytes)
    → (s ≡ list) ⊎ (s ≡ list_value)
    → (((do put_object ps; put_number v) (at_state (s ∷ open_) out)).0 ≡ throws invalid_argument)
      × (((do put_object ps; put_string v) (at_state (s ∷ open_) out)).0 ≡ throws invalid_argument)
      × (((do put_object ps; start_list) (at_state (s ∷ open_) out)).0 ≡ throws invalid_argument)
      × (((do put_object ps; start_object) (at_state (s ∷ open_) out)).0 ≡ throws invalid_argument)
      × (((do put_object ps; end_list) (at_state (s ∷ open_) out)).0 ≡ throws failed_precondition)
unfolding put_number put_string start_list start_object end_list
object_in_list_throws ps s open_ out v (inl e) =
    rw e (rw (put_object_lem ps list open_ out refl) (refl, refl, refl, refl, refl))
object_in_list_throws ps s open_ out v (inr e) =
    rw e (rw (put_object_lem ps list_value open_ out refl) (refl, refl, refl, refl, refl))

-- A scalar is a whole document. Its calls leave the stack empty, and every further call reads the
-- top of the empty stack.
pub after_document :
    (v w : Bytes) (c : ℕ) (b : Bool)
    → (put_number v start ≡ (ok tt, at_state [] v))
      × ((put_null (at_state [] v)).0 ≡ undefined)
      × ((put_boolean b (at_state [] v)).0 ≡ undefined)
      × ((put_char c (at_state [] v)).0 ≡ undefined)
      × ((put_number w (at_state [] v)).0 ≡ undefined)
      × ((put_string w (at_state [] v)).0 ≡ undefined)
      × ((start_list (at_state [] v)).0 ≡ undefined)
      × ((end_list (at_state [] v)).0 ≡ undefined)
      × ((start_object (at_state [] v)).0 ≡ undefined)
      × ((end_object (at_state [] v)).0 ≡ undefined)
      × ((start_pair_key (at_state [] v)).0 ≡ undefined)
      × ((end_pair_key (at_state [] v)).0 ≡ undefined)
      × ((end_pair (at_state [] v)).0 ≡ undefined)
unfolding put_null put_boolean put_char put_number put_string start_list end_list start_object
    end_object start_pair_key end_pair_key end_pair
after_document v w c b =
    (refl, refl, refl, refl, refl, refl, refl, refl, refl, refl, refl, refl, refl)
