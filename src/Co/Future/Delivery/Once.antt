-- ===== src/Co/Future/Delivery/Once.antt =====
-- A promise is set once, and its futures give what it was set to.
use liblw.Prelude.{
  ℕ, ◌≡◌, refl, true, false, Bool-cases, inl, inr, Option, none, some, List, set,
  get_elem?-set_self,
}
use liblw.Err.{Error, ok, throws, failed_precondition}
use liblw.Err.Action.{Action}
use liblw.Co.Future.{
  State, Future, Promise, World, await_resume, set_value, set_exception, schedule_handle,
  resume_with,
}
use liblw.Co.Future.Chain.Walk.{get_elem?-in}
use liblw.Co.Future.Delivery.{
  LeadsTo, Ends-set, valued, failed, wake, get_state-LeadsTo, claim_state_set_again, set_value_lem,
  set_exception_lem,
}

pub LeadsTo-set :
    {T : Type 0} (states : List (State T)) (q : Option ℕ) (b : ℕ) (s s' : State T)
    → LeadsTo states q b s
    → s'.chain_state ≡ s.chain_state
    → LeadsTo (set states b s') q b s'
LeadsTo-set states q b s s' h same = record {
  first = h.first;
  links = h.links;
  first_is = h.first_is;
  ends = Ends-set states h.links h.first b b s s' h.stored same h.ends;
  stored = get_elem?-set_self states b s' (get_elem?-in states b h.stored);
}

module _ {T S : Type 0} (moved : T → T) (schedule : ℕ → ℕ → Action S (Unit {0})) where
  schedule_handle-states :
      (thread handle : Option ℕ) (w : World T S)
      → (schedule_handle moved schedule thread handle w).1.states ≡ w.states
  unfolding schedule_handle
  schedule_handle-states none handle w = refl
  schedule_handle-states (some thread) none w = refl
  schedule_handle-states (some thread) (some handle) w = refl

  -- Whatever comes of handing the coroutine over, the states stay.
  wake-states : (s : State T) (w : World T S) → (wake moved schedule s w).1.states ≡ w.states
  wake-states s w = elim (Bool-cases s.future_suspended) [
    | inl waits ↦ rw waits (schedule_handle-states s.scheduler s.handle w)
    | inr alone ↦ rw alone refl
  ]

  pub await_resume_value :
      (f : Future) (w : World T S) (b : ℕ) (s : State T) (v : T)
      → LeadsTo w.states f.state b s
      → s.state_set ≡ true
      → s.exception ≡ none
      → s.value ≡ some v
      → (await_resume moved schedule f w).0 ≡ ok v
  unfolding await_resume resume_with
  await_resume_value f w b s v h claimed fine stored =
      rw (get_state-LeadsTo moved schedule f.state w b s h, h.stored, claimed, fine, stored) refl

  await_resume_exception :
      (f : Future) (w : World T S) (b : ℕ) (s : State T) (e : Error)
      → LeadsTo w.states f.state b s
      → s.state_set ≡ true
      → s.exception ≡ some e
      → (await_resume moved schedule f w).0 ≡ throws e
  unfolding await_resume resume_with
  await_resume_exception f w b s e h claimed broken =
      rw (get_state-LeadsTo moved schedule f.state w b s h, h.stored, claimed, broken) refl

  set_value_again :
      (p : Promise) (v : T) (w : World T S) (b : ℕ) (s : State T)
      → LeadsTo w.states p.state b s
      → s.state_set ≡ true
      → (set_value moved schedule p v w).0 ≡ throws failed_precondition
  unfolding set_value
  set_value_again p v w b s h claimed =
      rw
        (
          get_state-LeadsTo moved schedule p.state w b s h,
          claim_state_set_again moved schedule b w s h.stored claimed,
        )
        refl

  module _ (p : Promise) (w : World T S) (b : ℕ) (s : State T) (hp : LeadsTo w.states p.state b s)
      (unset : s.state_set ≡ false) (q : Option ℕ) (hq : LeadsTo w.states q b s) where
    set_value-LeadsTo : (v : T) → LeadsTo (set_value moved schedule p v w).1.states q b (valued s v)
    set_value-LeadsTo v =
        let w' : World T S = record w { states = set w.states b (valued s v) } in
        rw (set_value_lem moved schedule p w b s hp unset v, wake-states (valued s v) w')
          (LeadsTo-set w.states q b s (valued s v) hq refl)

    set_exception-LeadsTo :
        (e : Error) → LeadsTo (set_exception moved schedule p e w).1.states q b (failed s e)
    set_exception-LeadsTo e =
        let w' : World T S = record w { states = set w.states b (failed s e) } in
        rw (set_exception_lem moved schedule p w b s hp unset e, wake-states (failed s e) w')
          (LeadsTo-set w.states q b s (failed s e) hq refl)

  module _ (p : Promise) (f : Future) (w : World T S) (b : ℕ) (s : State T) where
    -- If a promise and a future lead to the same state, which is not set, the future gives what
    -- the promise is set to, value or exception; a second value is refused. This holds whatever
    -- comes of scheduling a coroutine that waits.
    pub await_resume-set_value :
        (v u : T) (e : Error)
        → LeadsTo w.states p.state b s
        → LeadsTo w.states f.state b s
        → s.state_set ≡ false
        → s.exception ≡ none
        → let w' = (set_value moved schedule p v w).1 in
          let w'' = (set_exception moved schedule p e w).1 in
          ((await_resume moved schedule f w').0 ≡ ok v)
          × ((await_resume moved schedule f w'').0 ≡ throws e)
          × ((set_value moved schedule p u w').0 ≡ throws failed_precondition)
          × ((set_value moved schedule p u w'').0 ≡ throws failed_precondition)
    await_resume-set_value v u e hp hf unset fine =
        let w' = (set_value moved schedule p v w).1 in
        let w'' = (set_exception moved schedule p e w).1 in
        (
          await_resume_value f w' b (valued s v) v (set_value-LeadsTo p w b s hp unset f.state hf v)
              refl fine refl,
          await_resume_exception f w'' b (failed s e) e
              (set_exception-LeadsTo p w b s hp unset f.state hf e) refl refl,
          set_value_again p u w' b (valued s v) (set_value-LeadsTo p w b s hp unset p.state hp v)
              refl,
          set_value_again p u w'' b (failed s e)
              (set_exception-LeadsTo p w b s hp unset p.state hp e) refl,
        )
