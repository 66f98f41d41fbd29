-- ===== src/Flags/Init/Arguments.antt =====
-- What `init` leaves of the arguments, and how a flag is read that was written with its value.
use liblw.Prelude.{
  ℕ, suc, ◌+◌, ◌≤◌, ◌≡◌, Bool, true, false, List, [], ◌∷◌, Option, none, some, arith, length,
  length-append, if◌then◌else◌, Bool-cases, inl, inr,
}
use mathlib.Core.Path.{subst}
use liblw.Base.Chars.{Bytes, codes}
use liblw.Base.Views.{starts_with}
use liblw.Err.{Result, ok, throws, undefined}
use liblw.Err.Action.{next}
use liblw.Flags.{
  Flag, Flags, find, flags_exists, flags_cli_set, hash_flag_name, to_set, set_if_found, set_found,
  or_yes, parse_value, and_return,
}
use liblw.Flags.Init.{Run, keep, after_set, init_flag, init_loop, init, parse_flag}

-- how many arguments a flag uses behind it
abbrev used_count : Bool → ℕ
used_count b = if b then 1 else 0

-- The next argument is used only if there is one.
abbrev UsesOne : List Bytes → Result Bool × Flags → Type 0
UsesOne rest (ok b, _) = used_count b ≤ length rest
UsesOne rest _ = Unit

module _ (hash : Bytes → ℕ) where
  and_return-UsesOne :
      (rest : List Bytes) (b : Bool) (r : Result (Unit {0}) × Flags)
      → used_count b ≤ length rest
      → UsesOne rest (and_return b r)
  unfolding and_return
  and_return-UsesOne rest b (ok _, flags) le = le
  and_return-UsesOne rest b (throws e, flags) le = tt
  and_return-UsesOne rest b (undefined, flags) le = tt

  set_found-UsesOne :
      (key : ℕ) (flag : Flag) (value : Option Bytes) (rest : List Bytes) (flags : Flags)
      → UsesOne rest (set_found key flag value rest flags)
  unfolding set_found
  set_found-UsesOne key flag (some value) rest flags = and_return-UsesOne rest false _ (omega arith)
  set_found-UsesOne key flag none [] flags = tt
  set_found-UsesOne key flag none (next_arg ∷ rest) flags =
      elim (Bool-cases (starts_with next_arg (codes "--"))) [
        | inl is_flag ↦ rw is_flag tt
        | inr other ↦ rw other (
            and_return-UsesOne (next_arg ∷ rest) true (parse_value key flag next_arg flags)
              (omega arith))
      ]

  set_if_found-UsesOne :
      (key : ℕ) (found : Option Flag) (value : Option Bytes) (rest : List Bytes) (flags : Flags)
      → UsesOne rest (set_if_found key found value rest flags)
  unfolding set_if_found
  set_if_found-UsesOne key none value rest flags = tt
  set_if_found-UsesOne key (some flag) value rest flags =
      set_found-UsesOne key flag (or_yes flag value) rest flags

  cli_set-UsesOne :
      (name : Bytes) (value : Option Bytes) (rest : List Bytes) (flags : Flags)
      → UsesOne rest (flags_cli_set hash name value rest flags)
  unfolding flags_cli_set
  cli_set-UsesOne name value rest flags =
      let (name', value') = to_set hash (find (hash_flag_name hash name) flags) name value in
      set_if_found-UsesOne (hash_flag_name hash name') (find (hash_flag_name hash name') flags)
        value' rest flags

  -- the count for the arguments that are kept and those that are still to come
  abbrev Counts : (used : Bool) → List Bytes → Run → Type 0
  Counts used rest run =
      (run.argc + used_count used ≡ 1 + length run.kept + length rest)
      × (used_count used ≤ length rest)

  abbrev StepCounts : List Bytes → Result Bool × Run → Type 0
  StepCounts rest (ok used, run) = Counts used rest run
  StepCounts rest _ = Unit

  after_set-StepCounts :
      (rest : List Bytes) (run : Run) (r : Result Bool × Flags)
      → run.argc ≡ 1 + length run.kept + suc (length rest)
      → UsesOne rest r
      → StepCounts rest (after_set hash run r)
  unfolding after_set
  after_set-StepCounts rest run (ok true, flags) c u = (omega arith, u)
  after_set-StepCounts rest run (ok false, flags) c u = (omega arith, u)
  after_set-StepCounts rest run (throws e, flags) c u = tt
  after_set-StepCounts rest run (undefined, flags) c u = tt

  keep-Counts :
      (arg : Bytes) (rest : List Bytes) (run : Run)
      → run.argc ≡ 1 + length run.kept + suc (length rest)
      → Counts false rest (keep hash arg run)
  unfolding keep
  keep-Counts arg rest run c = (omega (arith, length-append run.kept (arg ∷ [])), omega arith)

  init_flag-StepCounts :
      (arg : Bytes) (rest : List Bytes) (r : Result (Option (Bytes × Option Bytes))) (run : Run)
      → run.argc ≡ 1 + length run.kept + suc (length rest)
      → StepCounts rest (init_flag hash arg rest r run)
  unfolding init_flag
  init_flag-StepCounts arg rest (throws e) run c = tt
  init_flag-StepCounts arg rest undefined run c = tt
  init_flag-StepCounts arg rest (ok none) run c = keep-Counts arg rest run c
  init_flag-StepCounts arg rest (ok (some (name, value))) run c =
      elim (Bool-cases (flags_exists hash name run.flags)) [
        | inl there ↦
            rw there (after_set-StepCounts rest run _ c (cli_set-UsesOne name value rest run.flags))
        | inr absent ↦ rw absent (keep-Counts arg rest run c)
      ]

  abbrev IsCounted : Result (Unit {0}) × Run → Type 0
  IsCounted (ok _, run) = run.argc ≡ 1 + length run.kept
  IsCounted _ = Unit

  init_loop-IsCounted :
      (used : Bool) (args : List Bytes) (run : Run)
      → Counts used args run
      → IsCounted (init_loop hash used args run)
  unfolding init_loop
  init_loop-IsCounted used [] run c = omega (arith, c.0, c.1)
  init_loop-IsCounted true (arg ∷ rest) run c =
      init_loop-IsCounted false rest run (omega (arith, c.0), omega arith)
  init_loop-IsCounted false (arg ∷ rest) run c =
      by_step (init_flag hash arg rest (parse_flag arg) run)
        (init_flag-StepCounts arg rest (parse_flag arg) run (omega (arith, c.0)))
        (init_loop-IsCounted true rest) (init_loop-IsCounted false rest)
    where
      by_step :
          (s : Result Bool × Run)
          → StepCounts rest s
          → ((run : Run) → Counts true rest run → IsCounted (init_loop hash true rest run))
          → ((run : Run) → Counts false rest run → IsCounted (init_loop hash false rest run))
          → IsCounted (next s.0 (λ used. init_loop hash used rest) s.1)
      by_step (ok true, run) d ht hf = ht run d
      by_step (ok false, run) d ht hf = hf run d
      by_step (throws e, run) d ht hf = tt
      by_step (undefined, run) d ht hf = tt

  -- When `init` returns, the count that it gives back is the number of the arguments that it kept,
  -- and one for the program's name.
  pub init-argc :
      (args : List Bytes) (flags : Flags) (run : Run)
      → init hash args flags ≡ (ok tt, run)
      → run.argc ≡ 1 + length run.kept
  unfolding init
  init-argc args flags run e =
      subst IsCounted e (init_loop-IsCounted false args _ (omega arith, omega arith))
