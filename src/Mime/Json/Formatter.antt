-- ===== src/Mime/Json/Formatter.antt =====
-- `JSONSerializationFormatter` of lw/mime/json.h and json.cpp: the stack of what is open, and the
-- text written. The digits of a number are an argument, what `operator<<` gives for it.
pub mod Flat
pub mod Nested
use liblw.Prelude.{ℕ, Bool, true, false, not, ◌||◌, List, [], ◌∷◌, ◌++◌, if◌then◌else◌}
use liblw.Base.Chars.{Bytes, codes}
use liblw.Err.{Error, ok, throws, undefined, failed_precondition, invalid_argument, internal}
use liblw.Err.Action.{Action, modify, lift, ◌>>=◌, ◌>>◌}
use liblw.Mime.Json.Escape.{quote, escape, escape_all}

pub data State : Type 0 where
  value list list_value object object_value key_started key_added key_ended : State

pub record Formatter : Type 0 where
  pub stack : List State
  pub output : Bytes

-- The constructor.
abbrev pub start : Formatter
start = record { stack = value ∷ []; output = [] }

abbrev pub Step : Type 0
Step = Action Formatter (Unit {0})

-- `_state.top()`, which is undefined on an empty stack, and what is done with it
abbrev with_top : (State → Step) → List State → Step
with_top k [] f = (undefined, f)
with_top k (s ∷ _) f = k s f

abbrev on_top : (State → Step) → Step
on_top k f = with_top k f.stack f

abbrev pub write : Bytes → Step
write text = modify (λ f. record f { output = f.output ++ text })

abbrev push : State → Step
push s = modify (λ f. record f { stack = s ∷ f.stack })

abbrev tail_of : List State → List State
tail_of [] = []
tail_of (_ ∷ rest) = rest

-- It is called where there is a top.
abbrev pop : Step
pop = modify (λ f. record f { stack = tail_of f.stack })

abbrev raise : Error → Step
raise e = lift (throws e)

abbrev done : Step
done = lift (ok tt)

abbrev holds_comma : State → Bool
holds_comma list_value = true
holds_comma object_value = true
holds_comma _ = false

maybe_comma : Step
maybe_comma = on_top (λ s. if holds_comma s then write (codes ",") else done)

abbrev takes_value : State → Bool
takes_value value = true
takes_value list = true
takes_value list_value = true
takes_value key_ended = true
takes_value _ = false

abbrev takes_string : State → Bool
takes_string key_started = true
takes_string s = takes_value s

check_can_add_value : Step
check_can_add_value = on_top (λ s. if takes_value s then done else raise invalid_argument)

check_can_add_string : Step
check_can_add_string = on_top (λ s. if takes_string s then done else raise invalid_argument)

-- the `switch` of `_value_added`
after_value : State → Step
after_value list = do pop; push list_value
after_value object = do pop; push object_value
after_value value = pop
after_value key_ended = pop
after_value list_value = done
after_value object_value = done
after_value _ = raise internal

value_added : Step
unfolding after_value
value_added = on_top after_value

after_string : State → Step
unfolding after_value
after_string key_started = do pop; push key_added
after_string s = after_value s

string_added : Step
unfolding after_string
string_added = on_top after_string

-- `_add_literal`, and the number methods
unfoldable pub add_literal : Bytes → Step
unfolding check_can_add_value maybe_comma value_added
add_literal text = do check_can_add_value; maybe_comma; write text; value_added

unfoldable pub put_null : Step
unfolding add_literal
put_null = add_literal (codes "null")

unfoldable pub put_boolean : Bool → Step
unfolding add_literal
put_boolean boolean = add_literal (if boolean then codes "true" else codes "false")

-- `put_signed_integer`, `put_unsigned_integer` and `put_floating_point`
unfoldable pub put_number : Bytes → Step
unfolding add_literal
put_number digits = add_literal digits

unfoldable pub put_string : Bytes → Step
unfolding check_can_add_string maybe_comma escape_all string_added
put_string str = do
  check_can_add_string
  maybe_comma
  write (quote ∷ (escape_all str ++ (quote ∷ [])))
  string_added

unfoldable pub put_char : ℕ → Step
unfolding check_can_add_string maybe_comma escape string_added
put_char c = do
  check_can_add_string
  maybe_comma
  write (quote ∷ (escape c ++ (quote ∷ [])))
  string_added

unfoldable pub start_list : Step
unfolding check_can_add_value maybe_comma
start_list = do check_can_add_value; maybe_comma; write (codes "["); push list

abbrev in_list : State → Bool
in_list list = true
in_list list_value = true
in_list _ = false

abbrev in_object : State → Bool
in_object object = true
in_object object_value = true
in_object _ = false

unfoldable pub end_list : Step
unfolding value_added
end_list = do
  on_top (λ s. if in_list s then done else raise failed_precondition)
  write (codes "]")
  value_added

unfoldable pub start_object : Step
unfolding check_can_add_value maybe_comma
start_object = do check_can_add_value; maybe_comma; write (codes "{"); push object

unfoldable pub end_object : Step
unfolding value_added
end_object = do
  on_top (λ s. if in_object s then done else raise failed_precondition)
  write (codes "}")
  value_added

unfoldable pub start_pair_key : Step
unfolding maybe_comma
start_pair_key = do
  on_top (λ s. if in_object s then done else raise failed_precondition)
  maybe_comma
  push key_started

abbrev is_key_added : State → Bool
is_key_added key_added = true
is_key_added _ = false

unfoldable pub end_pair_key : Step
end_pair_key = do
  on_top (λ s. if is_key_added s then done else raise failed_precondition)
  write (codes ":")
  pop
  push key_ended

unfoldable pub end_pair : Step
unfolding value_added
end_pair = do on_top (λ s. if in_object s then done else raise failed_precondition); value_added
