-- ===== src/Mime/Json/Tokens/Laws.antt =====
-- Lists and objects as they are built: what is found in them afterwards.
use liblw.Prelude.{
  ℕ, suc, zero, ◌≡◌, refl, ap, ◌∙◌, ◌⊎◌, inl, inr, Bool, true, false, Option, some, ltb, ◌==◌,
  if◌then◌else◌, arith, Option-cases,
}
use liblw.Base.Chars.{Bytes}
use liblw.Base.Views.{same_bytes}
use liblw.Err.{ok, throws, failed_precondition, out_of_range}
use liblw.Mime.Json.Tokens.{
  Value, list_of, object_of, Items, nil, cons, Fields, field, push_back, find_field, has_field,
  insert,
}
use liblw.Mime.Json.Tokens.Queries.{
  size, get_index, has_key, get_key, get_item, length_items, or_out_of_range,
}

-- A key that the object has is refused. Any other is added: it has its value, every other key
-- has what it had, and the size grows by one.
pub insert_lem :
    (key : Bytes) (v : Value) (fs : Fields) (n : ℕ)
    → size (object_of fs) ≡ ok n
    → ((has_key (object_of fs) key ≡ true) × (insert key v fs ≡ throws failed_precondition))
      ⊎ ((has_key (object_of fs) key ≡ false)
          × ((fs' : Fields) × ((insert key v fs ≡ ok fs')
                × ((size (object_of fs') ≡ ok (suc n))
                    × ((k : Bytes)
                        → get_key (object_of fs') k
                          ≡ (if same_bytes key k then ok v else get_key (object_of fs) k))))))
unfolding size has_key insert get_key find_field has_field
insert_lem key v fs n s = elim (Option-cases (find_field key fs)) [
  | inr (w, found) ↦ inl (rw (found, has_key) refl, rw (found, insert, has_field) refl)
  | inl none_ ↦ inr (
    rw (none_, has_key) refl,
    (
      field key v fs,
      (
        rw (none_, insert, has_field) refl,
        (ap_suc s, λ k. with_new (same_bytes key k) (find_field k fs)),
      ),
    ),
  )
]
  where
    ap_suc : {m n : ℕ} → ok m ≡ ok n → ok (suc m) ≡ ok (suc n)
    ap_suc h = cc

    with_new :
        (b : Bool) (o : Option Value)
        → or_out_of_range (if b then some v else o) ≡ (if b then ok v else or_out_of_range o)
    with_new true o = refl
    with_new false o = refl

get_item-push_back :
    (xs : Items) (v : Value) (i : ℕ)
    → or_out_of_range (get_item (push_back xs v) i) ≡ (
        if ltb i (length_items xs)
        then or_out_of_range (get_item xs i)
        else if i == length_items xs
        then ok v
        else throws out_of_range)
unfolding push_back get_item length_items
get_item-push_back nil v zero = refl
get_item-push_back nil v (suc i) = ground arith
get_item-push_back (cons x xs) v zero = ground arith
get_item-push_back (cons x xs) v (suc i) = get_item-push_back xs v i ∙ ground arith

-- A value that is pushed back is the last element: the others keep their index, and behind it
-- there is none.
pub get_index-push_back :
    (xs : Items) (v : Value) (i n : ℕ)
    → size (list_of xs) ≡ ok n
    → get_index (list_of (push_back xs v)) i
      ≡ (if ltb i n then get_index (list_of xs) i else if i == n then ok v else throws out_of_range)
unfolding size get_index
get_index-push_back xs v i n s =
    get_item-push_back xs v i
    ∙ ap
        (λ m.
          if ltb i m
          then or_out_of_range (get_item xs i)
          else if i == m
          then ok v
          else throws out_of_range)
        (injective s)
  where
    injective : {a b : ℕ} → ok a ≡ ok b → a ≡ b
    injective h = cc
