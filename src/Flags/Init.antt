-- ===== src/Flags/Init.antt =====
-- lw/base/init.cpp: the arguments of the program, of which `init` takes the flags that are defined.
-- The help text is not modelled.
pub mod Arguments
pub mod Written
use liblw.Prelude.{
  ℕ, zero, suc, ◌+◌, ◌-◌, Bool, true, false, ◌&&◌, ◌||◌, not, List, [], ◌∷◌, ◌++◌, Option, none,
  some, length, get_elem?, take, drop, ltb, leb, ◌==◌, if◌then◌else◌,
}
use liblw.Base.Chars.{Bytes, codes}
use liblw.Base.Views.{starts_with}
use liblw.Err.{Result, ok, throws, undefined, invalid_argument, ◌>>=◌}
use liblw.Err.Action.{Action, next}
use liblw.Flags.{Flags, flags_exists, flags_cli_set}

-- the bytes up to the first '='
unfoldable pub to_equals : Bytes → ℕ
to_equals [] = 0
to_equals (c ∷ cs) = let more = suc (to_equals cs) in if c == b'=' then 0 else more

-- a name without a value
unfoldable pub name_alone : Bytes → Bytes × Option Bytes
unfolding starts_with
name_alone name =
    if ltb 3 (length name) && starts_with name (codes "no-")
    then (drop 3 name, some (take 2 name))
    else (name, none)

-- `flag[end - 1]`, where `c` is the byte before the rest
unfoldable pub last : ℕ → Bytes → ℕ
last c [] = c
last c (d ∷ ds) = last d ds

-- What stands behind the '=', from `start` to the end: quotes around it are taken off.
unfoldable pub unquoted : Bytes → Result Bytes
unfolding last
unquoted [] = ok []
unquoted (c ∷ cs) =
    if c == b'"' || c == b'\''
    then (if last c cs == c then ok (take (length cs - 1) cs) else throws invalid_argument)
    else ok (c ∷ cs)

-- What `parse_flag` does once the loop has found the end of the name.
unfoldable pub split_flag : Bytes → (end : ℕ) → Result (Option (Bytes × Option Bytes))
unfolding name_alone unquoted
split_flag flag end =
    let name = take (end - 2) (drop 2 flag) in
    if leb (length flag - 1) end
    then ok (some (name_alone name))
    else unquoted (drop (end + 1) flag) >>= λ value. ok (some (name, some value))

-- `parse_flag`. The name has one byte at least, whatever that is.
unfoldable pub parse_flag : Bytes → Result (Option (Bytes × Option Bytes))
unfolding to_equals split_flag
parse_flag flag =
    if ltb (length flag) 3 || not (starts_with flag (codes "--"))
    then ok none
    else split_flag flag (3 + to_equals (drop 3 flag))

-- What the loop of `init` keeps: the flags, the arguments that are left for the program, and the
-- count that it gives back.
pub record Run : Type 0 where
  pub flags : Flags
  pub kept : List Bytes
  pub argc : ℕ

module _ (hash : Bytes → ℕ) where
  -- An argument that is no flag of the program is moved forward.
  unfoldable pub keep : Bytes → Run → Run
  keep arg run = record run { kept = run.kept ++ (arg ∷ []) }

  -- A flag that was set is taken out of the count, and so is the next argument if it was its value.
  unfoldable pub after_set : Run → Result Bool × Flags → Result Bool × Run
  after_set run (ok true, flags) = (ok true, record run { flags = flags; argc = run.argc - 1 - 1 })
  after_set run (ok false, flags) = (ok false, record run { flags = flags; argc = run.argc - 1 })
  after_set run (throws e, flags) = (throws e, record run { flags = flags })
  after_set run (undefined, flags) = (undefined, record run { flags = flags })

  -- The body of the loop, for an argument with the ones behind it. The result says whether the next
  -- one was used.
  unfoldable pub init_flag :
      Bytes → List Bytes → Result (Option (Bytes × Option Bytes)) → Action Run Bool
  unfolding keep after_set
  init_flag arg rest (throws e) run = (throws e, run)
  init_flag arg rest undefined run = (undefined, run)
  init_flag arg rest (ok none) run = (ok false, keep arg run)
  init_flag arg rest (ok (some (name, value))) run =
      if flags_exists hash name run.flags
      then after_set run (flags_cli_set hash name value rest run.flags)
      else (ok false, keep arg run)

  -- The loop, where the flag says that the next argument has been used.
  unfoldable pub init_loop : (used : Bool) → List Bytes → Action Run (Unit {0})
  unfolding init_flag parse_flag
  init_loop used [] run = (ok tt, run)
  init_loop true (arg ∷ rest) run = init_loop false rest run
  init_loop false (arg ∷ rest) run =
      let (r, run') = init_flag arg rest (parse_flag arg) run in
      next r (λ used. init_loop used rest) run'

  -- `init`, on the arguments behind the program's name
  unfoldable pub init : List Bytes → Flags → Result (Unit {0}) × Run
  unfolding init_loop
  init args flags =
      init_loop false args (record { flags = flags; kept = []; argc = suc (length args) })
