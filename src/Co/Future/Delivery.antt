-- ===== src/Co/Future/Delivery.antt =====
-- What is set on a promise arrives at the futures whose chains end at the same state.
pub mod Once
pub mod Forward
use liblw.Prelude.{
  ℕ, zero, suc, ◌<◌, ◌≡◌, ◌≢◌, refl, sym, ap, ◌∙◌, Bool, true, false, Bool-cases, inl, inr, Option,
  none, some, List, length, get_elem?, set, get_elem?-set_self, get_elem?-set_ne, set-set, arith,
  if◌then◌else◌, eq_or_ne,
}
use liblw.Err.{Error, Result, ok, throws, undefined, failed_precondition}
use liblw.Err.Action.{Action}
use liblw.Co.Future.{
  State, Future, Promise, World, follow, get_state, await_resume, set_value, set_exception,
  schedule_handle, claim_state_set, store_value, store_exception, schedule_task, do_set_value,
}
use liblw.Co.Future.Chain.{Ends, follow-Ends, Ends-lt}
use liblw.Co.Future.Chain.Walk.{get_elem?-in}

module _ {T : Type 0} where
  -- A write that keeps the link of a state keeps the chains.
  pub Ends-set :
      (states : List (State T)) (n a b c : ℕ) (s s' : State T)
      → get_elem? states c ≡ some s
      → s'.chain_state ≡ s.chain_state
      → Ends states n a b
      → Ends (set states c s') n a b
  Ends-set states zero a b c s s' at same (t, e, k, end) = elim (eq_or_ne c a) [
    | inl eq ↦
        (s', rw (sym eq) (get_elem?-set_self states c s' (get_elem?-in states c at)), cc, end)
    | inr ne ↦ (t, get_elem?-set_ne states s' ne ∙ e, k, end)
  ]
  Ends-set states (suc n) a b c s s' at same (t, d, e, l, rest) =
      let more = Ends-set states n d b c s s' at same rest in
      elim (eq_or_ne c a) [
        | inl eq ↦ (
          s',
          d,
          rw (sym eq) (get_elem?-set_self states c s' (get_elem?-in states c at)),
          cc,
          more,
        )
        | inr ne ↦ (t, d, get_elem?-set_ne states s' ne ∙ e, l, more)
      ]

-- A state whose promise has a value, or an exception.
abbrev pub valued : {T : Type 0} → State T → T → State T
valued s v = record s { state_set = true; value = some v }

abbrev pub failed : {T : Type 0} → State T → Error → State T
failed s e = record s { state_set = true; exception = some e }

-- The state that a pointer leads to, along its chain.
pub record LeadsTo {T : Type 0} (states : List (State T)) (p : Option ℕ) (b : ℕ) (s : State T)
    : Type 0 where
  pub first : ℕ
  pub links : ℕ
  pub first_is : p ≡ some first
  pub ends : Ends states links first b
  pub stored : get_elem? states b ≡ some s

module _ {T S : Type 0} (moved : T → T) (schedule : ℕ → ℕ → Action S (Unit {0})) where
  pub get_state-LeadsTo :
      (p : Option ℕ) (w : World T S) (b : ℕ) (s : State T)
      → LeadsTo w.states p b s
      → get_state moved schedule p w ≡ (ok b, w)
  unfolding get_state
  get_state-LeadsTo none w b s h = absurd (cc h.first_is)
  get_state-LeadsTo (some a) w b s h =
      let same : h.first ≡ a = cc h.first_is in
      let lt = Ends-lt w.states h.links h.first b h.ends in
      let found =
        follow-Ends w.states h.links (suc (length w.states)) h.first b h.ends (omega arith) in
      ap (λ r. (r, w)) (rw (sym same) found)

  -- the coroutine that waits for the state, if there is one, is handed to its scheduler
  abbrev pub wake : State T → World T S → Result (Unit {0}) × World T S
  wake s w =
      if s.future_suspended
      then schedule_handle moved schedule s.scheduler s.handle w
      else (ok tt, w)

  claim_state_set_once :
      (b : ℕ) (w : World T S) (s : State T)
      → get_elem? w.states b ≡ some s
      → s.state_set ≡ false
      → claim_state_set moved schedule b w
        ≡ (ok tt, record w { states = set w.states b (record s { state_set = true }) })
  unfolding claim_state_set
  claim_state_set_once b w s at unset = rw (at, unset) refl

  -- A state that was set refuses, and stays as it was.
  pub claim_state_set_again :
      (b : ℕ) (w : World T S) (s : State T)
      → get_elem? w.states b ≡ some s
      → s.state_set ≡ true
      → claim_state_set moved schedule b w
        ≡ (throws failed_precondition, record w { states = set w.states b s })
  unfolding claim_state_set
  claim_state_set_again b w s at claimed = ground (arith, at, claimed)

  store_value_lem :
      (b : ℕ) (v : T) (w : World T S) (s : State T)
      → get_elem? w.states b ≡ some s
      → store_value moved schedule b v w
        ≡ (ok tt, record w { states = set w.states b (record s { value = some v }) })
  unfolding store_value
  store_value_lem b v w s at = rw at refl

  store_exception_lem :
      (b : ℕ) (e : Error) (w : World T S) (s : State T)
      → get_elem? w.states b ≡ some s
      → store_exception moved schedule b e w
        ≡ (ok tt, record w { states = set w.states b (record s { exception = some e }) })
  unfolding store_exception
  store_exception_lem b e w s at = rw at refl

  schedule_task_lem :
      (b : ℕ) (w : World T S) (s : State T)
      → get_elem? w.states b ≡ some s
      → schedule_task moved schedule b w ≡ wake s w
  unfolding schedule_task
  schedule_task_lem b w s at = elim (Bool-cases s.future_suspended) [
    | inl waits ↦ rw (at, waits) refl
    | inr alone ↦ rw (at, alone) refl
  ]

  -- A write is read back.
  written :
      (states : List (State T)) (b : ℕ) (s s' : State T)
      → get_elem? states b ≡ some s
      → get_elem? (set states b s') b ≡ some s'
  written states b s s' at = get_elem?-set_self states b s' (get_elem?-in states b at)

  module _ (p : Promise) (w : World T S) (b : ℕ) (s : State T) (h : LeadsTo w.states p.state b s)
      (unset : s.state_set ≡ false) where
    claimed : List (State T)
    claimed = set w.states b (record s { state_set = true })

    claimed_at : get_elem? claimed b ≡ some (record s { state_set = true })
    unfolding claimed
    claimed_at = written w.states b s (record s { state_set = true }) h.stored

    settled_at : (s' : State T) → get_elem? (set claimed b s') b ≡ some s'
    settled_at s' = written claimed b (record s { state_set = true }) s' claimed_at

    -- The value is stored, and then the waiting coroutine handed over.
    pub set_value_lem :
        (v : T)
        → set_value moved schedule p v w
          ≡ wake (valued s v) (record w { states = set w.states b (valued s v) })
    unfolding set_value claimed
    set_value_lem v =
        let s' = valued s v in
        rw
          (
            get_state-LeadsTo p.state w b s h,
            claim_state_set_once b w s h.stored unset,
            store_value_lem b v (record w { states = claimed }) (record s { state_set = true })
                claimed_at,
            schedule_task_lem b (record w { states = set claimed b s' }) s' (settled_at s'),
            set-set,
          )
          refl

    pub set_exception_lem :
        (e : Error)
        → set_exception moved schedule p e w
          ≡ wake (failed s e) (record w { states = set w.states b (failed s e) })
    unfolding set_exception claimed
    set_exception_lem e =
        let s' = failed s e in
        rw
          (
            get_state-LeadsTo p.state w b s h,
            claim_state_set_once b w s h.stored unset,
            store_exception_lem b e (record w { states = claimed }) (record s { state_set = true })
                claimed_at,
            schedule_task_lem b (record w { states = set claimed b s' }) s' (settled_at s'),
            set-set,
          )
          refl
