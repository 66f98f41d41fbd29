-- ===== src/Mime/Json/Formatter/Flat.antt =====
-- Lists and objects of scalars, as a serializer writes them.
use liblw.Prelude.{
  ◌≡◌, refl, ◌∙◌, ap, true, List, [], ◌∷◌, ◌++◌, append_assoc, append-nil, if◌then◌else◌,
}
use liblw.Base.Chars.{Bytes, codes}
use liblw.Err.{ok}
use liblw.Err.Action.{lift, ◌>>◌}
use liblw.Mime.Json.Escape.{quote, escape_all}
use liblw.Mime.Json.Formatter.{
  State, value, list, list_value, object, object_value, key_ended, Formatter, Step, put_number,
  put_string, start_list, end_list, start_object, end_object, start_pair_key, end_pair_key,
  end_pair, takes_value, holds_comma,
}

-- The calls for the elements of a list of scalars.
unfoldable pub put_all : List Bytes → Step
put_all [] = lift (ok tt)
put_all (v ∷ vs) = do put_number v; put_all vs

unfoldable pub put_list : List Bytes → Step
unfolding put_all
put_list vs = do start_list; put_all vs; end_list

-- The calls for one key with a scalar, and for those of an object.
unfoldable pub put_pair : Bytes → Bytes → Step
put_pair key v = do start_pair_key; put_string key; end_pair_key; put_number v; end_pair

unfoldable pub put_pairs : List (Bytes × Bytes) → Step
unfolding put_pair
put_pairs [] = lift (ok tt)
put_pairs ((key, v) ∷ ps) = do put_pair key v; put_pairs ps

unfoldable pub put_object : List (Bytes × Bytes) → Step
unfolding put_pairs
put_object ps = do start_object; put_pairs ps; end_object

-- JSON for a list of scalars, the first told from the others.
abbrev pub more_elements : List Bytes → Bytes
more_elements [] = []
more_elements (v ∷ vs) = b',' ∷ (v ++ more_elements vs)

abbrev pub elements : List Bytes → Bytes
elements [] = []
elements (v ∷ vs) = v ++ more_elements vs

abbrev pub key_text : Bytes → Bytes
key_text key = quote ∷ (escape_all key ++ (quote ∷ []))

abbrev pub more_members : List (Bytes × Bytes) → Bytes
more_members [] = []
more_members ((key, v) ∷ ps) = b',' ∷ (key_text key ++ (b':' ∷ (v ++ more_members ps)))

abbrev pub members : List (Bytes × Bytes) → Bytes
members [] = []
members ((key, v) ∷ ps) = key_text key ++ (b':' ∷ (v ++ more_members ps))

-- what is on top when the elements are written
abbrev pub list_state {ℓ} : {A : Type ℓ} → List A → State
list_state [] = list
list_state (_ ∷ _) = list_value

abbrev pub object_state {ℓ} : {A : Type ℓ} → List A → State
object_state [] = object
object_state (_ ∷ _) = object_value

abbrev pub at_state : List State → Bytes → Formatter
at_state stack output = record { stack = stack; output = output }

put_all-list_value :
    (vs : List Bytes) (open_ : List State) (out : Bytes)
    → put_all vs (at_state (list_value ∷ open_) out)
      ≡ (ok tt, at_state (list_value ∷ open_) (out ++ more_elements vs))
unfolding put_all put_number
put_all-list_value [] open_ out = simp append-nil
put_all-list_value (v ∷ vs) open_ out =
    put_all-list_value vs open_ ((out ++ codes ",") ++ v)
    ∙ ap (λ o. (ok tt, at_state (list_value ∷ open_) o)) (simp append_assoc)

put_all-list :
    (vs : List Bytes) (open_ : List State) (out : Bytes)
    → put_all vs (at_state (list ∷ open_) out)
      ≡ (ok tt, at_state (list_state vs ∷ open_) (out ++ elements vs))
unfolding put_all put_number
put_all-list [] open_ out = simp append-nil
put_all-list (v ∷ vs) open_ out =
    put_all-list_value vs open_ (out ++ v)
    ∙ ap (λ o. (ok tt, at_state (list_value ∷ open_) o)) (simp append_assoc)

-- the text before a value
abbrev pub comma : State → Bytes
comma s = if holds_comma s then codes "," else []

start_list-takes :
    (s : State) (open_ : List State) (out : Bytes)
    → takes_value s ≡ true
    → start_list (at_state (s ∷ open_) out)
      ≡ (ok tt, at_state (list ∷ s ∷ open_) (out ++ (comma s ++ codes "[")))
unfolding start_list
start_list-takes value open_ out h = refl
start_list-takes list open_ out h = refl
start_list-takes list_value open_ out h = simp append_assoc
start_list-takes key_ended open_ out h = refl
start_list-takes _ open_ out h = cc

end_list-closes :
    (vs : List Bytes) (open_ : List State) (out : Bytes)
    → end_list (at_state (list_state vs ∷ open_) out)
      ≡ (ok tt, at_state (list_value ∷ open_) (out ++ codes "]"))
unfolding end_list
end_list-closes [] open_ out = refl
end_list-closes (v ∷ vs) open_ out = refl

-- Where a value may stand, the calls for a list of scalars write the list as JSON, behind a comma
-- if a value stands before it. They leave the state of the list on the stack, above what was there.
pub put_list_lem :
    (vs : List Bytes) (s : State) (open_ : List State) (out : Bytes)
    → takes_value s ≡ true
    → put_list vs (at_state (s ∷ open_) out) ≡ (
      ok tt,
      at_state (list_value ∷ s ∷ open_) (out ++ (comma s ++ (b'[' ∷ (elements vs ++ codes "]")))),
    )
unfolding put_list
put_list_lem vs s open_ out h =
    rw (start_list-takes s open_ out h, put_all-list vs (s ∷ open_), end_list-closes vs (s ∷ open_))
      (simp append_assoc)

put_pair_first :
    (key v : Bytes) (open_ : List State) (out : Bytes)
    → put_pair key v (at_state (object ∷ open_) out)
      ≡ (ok tt, at_state (object_value ∷ open_) (out ++ (key_text key ++ (b':' ∷ v))))
unfolding put_pair start_pair_key put_string end_pair_key put_number end_pair
put_pair_first key v open_ out = simp append_assoc

put_pair_more :
    (key v : Bytes) (open_ : List State) (out : Bytes)
    → put_pair key v (at_state (object_value ∷ open_) out)
      ≡ (ok tt, at_state (object_value ∷ open_) (out ++ (b',' ∷ (key_text key ++ (b':' ∷ v)))))
unfolding put_pair start_pair_key put_string end_pair_key put_number end_pair
put_pair_more key v open_ out = simp append_assoc

put_pairs-object_value :
    (ps : List (Bytes × Bytes)) (open_ : List State) (out : Bytes)
    → put_pairs ps (at_state (object_value ∷ open_) out)
      ≡ (ok tt, at_state (object_value ∷ open_) (out ++ more_members ps))
unfolding put_pairs
put_pairs-object_value [] open_ out = simp append-nil
put_pairs-object_value ((key, v) ∷ ps) open_ out = rw (put_pair_more key v open_ out) (
    put_pairs-object_value ps open_ _
    ∙ ap (λ o. (ok tt, at_state (object_value ∷ open_) o)) (simp append_assoc))

put_pairs-object :
    (ps : List (Bytes × Bytes)) (open_ : List State) (out : Bytes)
    → put_pairs ps (at_state (object ∷ open_) out)
      ≡ (ok tt, at_state (object_state ps ∷ open_) (out ++ members ps))
unfolding put_pairs
put_pairs-object [] open_ out = simp append-nil
put_pairs-object ((key, v) ∷ ps) open_ out = rw (put_pair_first key v open_ out) (
    put_pairs-object_value ps open_ _
    ∙ ap (λ o. (ok tt, at_state (object_value ∷ open_) o)) (simp append_assoc))

start_object-takes :
    (s : State) (open_ : List State) (out : Bytes)
    → takes_value s ≡ true
    → start_object (at_state (s ∷ open_) out)
      ≡ (ok tt, at_state (object ∷ s ∷ open_) (out ++ (comma s ++ codes "{")))
unfolding start_object
start_object-takes value open_ out h = refl
start_object-takes list open_ out h = refl
start_object-takes list_value open_ out h = simp append_assoc
start_object-takes key_ended open_ out h = refl
start_object-takes _ open_ out h = cc

end_object-closes :
    (ps : List (Bytes × Bytes)) (open_ : List State) (out : Bytes)
    → end_object (at_state (object_state ps ∷ open_) out)
      ≡ (ok tt, at_state (object_value ∷ open_) (out ++ codes "}"))
unfolding end_object
end_object-closes [] open_ out = refl
end_object-closes (p ∷ ps) open_ out = refl

-- Where a value may stand, the calls for an object of scalars write it as JSON, behind a comma if a
-- value stands before it. They leave the state of the object on the stack, above what was there.
pub put_object_lem :
    (ps : List (Bytes × Bytes)) (s : State) (open_ : List State) (out : Bytes)
    → takes_value s ≡ true
    → put_object ps (at_state (s ∷ open_) out) ≡ (
      ok tt,
      at_state (object_value ∷ s ∷ open_) (out ++ (comma s ++ (b'{' ∷ (members ps ++ codes "}")))),
    )
unfolding put_object
put_object_lem ps s open_ out h =
    rw
      (
        start_object-takes s open_ out h,
        put_pairs-object ps (s ∷ open_),
        end_object-closes ps (s ∷ open_),
      )
      (simp append_assoc)
