-- ===== src/Flags/Settings.antt =====
-- What a flag that is set reads as, and what setting it leaves alone.
use liblw.Prelude.{
  ℕ, ◌≡◌, ◌≢◌, refl, sym, ap, ◌∙◌, Bool, false, List, [], ◌∷◌, ◌++◌, Option, none, some, arith,
  ◌==◌, if◌then◌else◌, Bool-cases, inl, inr,
}
use liblw.Base.Chars.{Bytes, codes}
use liblw.Base.Views.{starts_with}
use liblw.Err.{Result, ok}
use liblw.Flags.{
  Value, Flag, Flags, set_value, format_method, parse_method, find, put, store, parse_value,
  and_return, set_found, set_if_found, or_yes, to_set, alternate_name, without_no, hash_flag_name,
  flags_cli_set,
}
use liblw.Flags.Values.{IsValue, parse_method-format_method}

find-put :
    (key other : ℕ) (flag : Flag) (flags : Flags)
    → key ≢ other
    → find other (put key flag flags) ≡ find other flags
unfolding find put
find-put key other flag [] h = refl
find-put key other flag ((k, old) ∷ flags) h = elim (Bool-cases (k == key)) [
  | inl same ↦
      let different : (k == other) ≡ false = ground (arith, same, h) in rw same (rw different refl)
  | inr apart ↦
      rw apart (ap (λ r. if k == other then some old else r) (find-put key other flag flags h))
]

find-put_same :
    (key : ℕ) (flag old : Flag) (flags : Flags)
    → find key flags ≡ some old
    → find key (put key flag flags) ≡ some flag
unfolding find put
find-put_same key flag old [] h = absurd (cc)
find-put_same key flag old ((k, first) ∷ flags) h = elim (Bool-cases (k == key)) [
  | inl same ↦ rw same (rw same refl)
  | inr apart ↦ rw apart (
      rw apart (
        find-put_same key flag old flags
          (rw⁻¹ (ap (λ b. if b then some first else find key flags) apart) h)))
]

pub data Negation : Type 0 where
  no_hyphen no_underscore disable : Negation

module _ (hash : Bytes → ℕ) where
  cli_set-store :
      (name text : Bytes) (rest_args : List Bytes) (flags : Flags) (flag : Flag)
      (v : Value flag.kind)
      → find (hash_flag_name hash name) flags ≡ some flag
      → parse_method flag.kind text ≡ ok v
      → flags_cli_set hash name (some text) rest_args flags
        ≡ (ok false, put (hash_flag_name hash name) (set_value flag v) flags)
  unfolding flags_cli_set to_set set_if_found set_found parse_value store and_return or_yes
  cli_set-store name text rest_args flags flag v there parsed =
      ap
        (λ found.
          let (n, t) = to_set hash found name (some text) in
          set_if_found (hash_flag_name hash n) (find (hash_flag_name hash n) flags) t rest_args
            flags)
        there
      ∙ ap (λ o. set_if_found (hash_flag_name hash name) o (some text) rest_args flags) there
      ∙ ap (λ r. and_return false (store (hash_flag_name hash name) flag r flags)) parsed

  -- When a flag that is defined is set to the text of a value of its type, it has that value, no
  -- flag under another hash changes, and the next argument is not used.
  pub flags_cli_set-format_method :
      (name : Bytes) (rest_args : List Bytes) (flags : Flags) (flag : Flag) (v : Value flag.kind)
      → find (hash_flag_name hash name) flags ≡ some flag
      → IsValue flag.kind v
      → (after : Flags) × ((flags_cli_set hash name
              (some (format_method flag.kind v))
              rest_args
              flags
            ≡ (ok false, after))
          × ((find (hash_flag_name hash name) after ≡ some (set_value flag v))
              × ((other : ℕ)
                  → hash_flag_name hash name ≢ other
                  → find other after ≡ find other flags)))
  flags_cli_set-format_method name rest_args flags flag v there h =
      let key = hash_flag_name hash name in
      (
        put key (set_value flag v) flags,
        (
          cli_set-store name (format_method flag.kind v) rest_args flags flag v there
              (parse_method-format_method flag.kind v h),
          (
            find-put_same key (set_value flag v) flag flags there,
            λ other h. find-put key other (set_value flag v) flags h,
          ),
        ),
      )

  -- the ways to switch a flag off in its name, of which the last is for a name with "enable"
  abbrev pub switched_off : Negation → Bytes → Bytes
  switched_off no_hyphen name = codes "no-" ++ name
  switched_off no_underscore name = codes "no_" ++ name
  switched_off disable name = codes "disable" ++ name

  abbrev pub switched_on : Negation → Bytes → Bytes
  switched_on no_hyphen name = name
  switched_on no_underscore name = name
  switched_on disable name = codes "enable" ++ name

  alternate_name-switched_off :
      (n : Negation) (c : ℕ) (name : Bytes)
      → alternate_name (switched_off n (c ∷ name)) ≡ switched_on n (c ∷ name)
  unfolding alternate_name without_no starts_with
  alternate_name-switched_off no_hyphen c name = ground arith
  alternate_name-switched_off no_underscore c name = ground arith
  alternate_name-switched_off disable c name = ground arith

  to_set-some :
      (found : Option Flag) (name t : Bytes) → to_set hash found name (some t) ≡ (name, some t)
  unfolding to_set
  to_set-some none name t = refl
  to_set-some (some flag) name t = refl

  -- A flag that is not there under its name as "no-", "no_" or "disable" with more behind it, and
  -- has no value, is the flag without that prefix, or with "enable" in its place, set to "no".
  pub flags_cli_set-switched_off :
      (n : Negation) (c : ℕ) (name : Bytes) (rest_args : List Bytes) (flags : Flags)
      → find (hash_flag_name hash (switched_off n (c ∷ name))) flags ≡ none
      → flags_cli_set hash (switched_off n (c ∷ name)) none rest_args flags
        ≡ flags_cli_set hash (switched_on n (c ∷ name)) (some (codes "no")) rest_args flags
  unfolding flags_cli_set to_set
  flags_cli_set-switched_off n c name rest_args flags absent =
      let name' = switched_on n (c ∷ name) in
      ap (λ found. set_as (to_set hash found (switched_off n (c ∷ name)) none)) absent
      ∙ ap (λ m. set_as (m, some (codes "no"))) (alternate_name-switched_off n c name)
      ∙ sym (ap set_as (to_set-some (find (hash_flag_name hash name') flags) name' (codes "no")))
    where
      set_as : Bytes × Option Bytes → Result Bool × Flags
      set_as (m, t) =
          set_if_found (hash_flag_name hash m) (find (hash_flag_name hash m) flags) t rest_args
            flags
