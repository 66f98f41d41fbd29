-- ===== src/Co/Future.antt =====
-- lw/co/future.h. Promises and futures share states, which a `std::shared_ptr` keeps alive: a state
-- is its index in `states`, and none a pointer that was moved from. To go through such a pointer is
-- undefined, and so is the loop of `_get_state` when the states are chained in a ring. The void
-- specialisations, whose states have no value and no chain, are in Future/Void.
pub mod Chain
pub mod Delivery
pub mod Void
pub mod Race
mod Tests
use liblw.Prelude.{
  ℕ, zero, suc, Bool, true, false, not, Option, none, some, List, [], ◌∷◌, ◌++◌, length, get_elem?,
  set, if◌then◌else◌,
}
use liblw.Err.{Error, Result, ok, throws, undefined, failed_precondition}
use liblw.Err.Action.{Action, pure, lift, modify, next, ◌>>=◌, ◌>>◌}

-- `SharedPromiseState<T>`. `handle` is the coroutine that waits, `scheduler` the thread whose
-- scheduler resumes it.
pub record State (T : Type 0) : Type 0 where
  pub state_set : Bool
  pub future_suspended : Bool
  pub exception : Option Error
  pub scheduler : Option ℕ
  pub handle : Option ℕ
  pub value : Option T
  pub chain_state : Option ℕ

-- `FutureBase`, and `Future<T>`, which adds no member
pub record Future : Type 0 where
  pub state : Option ℕ

pub record Promise : Type 0 where
  pub future_obtained : Bool
  pub state : Option ℕ

-- The states, and the schedulers of the threads.
pub record World (T S : Type 0) : Type 0 where
  pub states : List (State T)
  pub schedulers : S

abbrev pub new_state : {T : Type 0} → State T
new_state = record {
  state_set = false;
  future_suspended = false;
  exception = none;
  scheduler = none;
  handle = none;
  value = none;
  chain_state = none;
}

-- Going through a pointer.
abbrev pub deref {ℓ} : {A : Type ℓ} → Option A → Result A
deref none = undefined
deref (some a) = ok a

-- `while (state->chain_state) state = state->chain_state`, at most `fuel` times
unfoldable pub follow : {T : Type 0} → ℕ → List (State T) → ℕ → Result ℕ
follow zero states a = undefined
follow (suc fuel) states a = elim (get_elem? states a) [
  | none ↦ undefined
  | some s ↦ elim s.chain_state [ none ↦ ok a | some b ↦ follow fuel states b ]
]

-- `Promise(Promise&& other)`, with what is left of `other`
unfoldable pub move_promise : Promise → Promise × Promise
move_promise other = (other, record other { state = none })

-- `Future<T> get_future()`, with the promise after it
unfoldable pub get_future : Promise → Result Future × Promise
get_future p = (
  (if p.future_obtained then throws failed_precondition else ok (record { state = p.state })),
  record p { future_obtained = true },
)

-- `moved` is what a value is after it was moved from. `schedule` is `Scheduler::schedule`, with the
-- thread of the scheduler.
module _ {T S : Type 0} (moved : T → T) (schedule : ℕ → ℕ → Action S (Unit {0})) where
  -- `_get_state()`. A chain that ends has fewer links than there are states.
  unfoldable pub get_state : Option ℕ → Action (World T S) ℕ
  get_state none w = (undefined, w)
  get_state (some a) w = (follow (suc (length w.states)) w.states a, w)

  unfoldable pub read_state : ℕ → Action (World T S) (State T)
  read_state a w = (deref (get_elem? w.states a), w)

  unfoldable pub write_state : ℕ → State T → Action (World T S) (Unit {0})
  write_state a s w = (ok tt, record w { states = set w.states a s })

  unfoldable pub alloc_state : Action (World T S) ℕ
  alloc_state w = (ok (length w.states), record w { states = w.states ++ (new_state ∷ []) })

  -- `bool FutureBase::await_ready() const`
  unfoldable pub await_ready : Future → Action (World T S) Bool
  unfolding read_state
  await_ready f = do a ← lift (deref f.state); s ← read_state a; pure s.state_set

  -- `bool FutureBase::await_suspend(handle)`, called on `thread`
  unfoldable pub await_suspend : ℕ → Future → ℕ → Action (World T S) Bool
  unfolding read_state write_state
  await_suspend thread f handle = do
    a ← lift (deref f.state)
    s ← read_state a
    let s' = record s {
      scheduler = some thread;
      handle = some handle;
      future_suspended = not s.state_set;
    }
    write_state a s'
    pure s'.future_suspended

  -- `std::move(*state->value)`
  unfoldable pub move_value : ℕ → State T → Option T → Action (World T S) T
  unfolding write_state
  move_value a s none = lift undefined
  move_value a s (some v) = write_state a (record s { value = some (moved v) }) >> pure v

  unfoldable pub resume_with : ℕ → State T → Option Error → Action (World T S) T
  unfolding move_value
  resume_with a s (some e) = lift (throws e)
  resume_with a s none = move_value a s s.value

  -- `T Future<T>::await_resume()`
  unfoldable pub await_resume : Future → Action (World T S) T
  unfolding get_state read_state resume_with
  await_resume f = do
    a ← get_state f.state
    s ← read_state a
    if not s.state_set then lift (throws failed_precondition) else resume_with a s s.exception

  -- `Promise()`
  unfoldable pub make_promise : Action (World T S) Promise
  unfolding alloc_state
  make_promise = do a ← alloc_state; pure (record { future_obtained = false; state = some a })

  -- `_claim_state_set`: `exchange` has set the flag when the exception is thrown.
  unfoldable pub claim_state_set : ℕ → Action (World T S) (Unit {0})
  unfolding read_state write_state
  claim_state_set a = do
    s ← read_state a
    write_state a (record s { state_set = true })
    if s.state_set then lift (throws failed_precondition) else pure tt

  -- `state->scheduler->schedule(state->handle)`. A null handle is not resumable.
  unfoldable pub schedule_handle : Option ℕ → Option ℕ → Action (World T S) (Unit {0})
  schedule_handle (some thread) (some handle) w =
      let (r, schedulers) = schedule thread handle w.schedulers in
      (r, record w { schedulers = schedulers })
  schedule_handle _ _ w = (undefined, w)

  unfoldable pub schedule_task : ℕ → Action (World T S) (Unit {0})
  unfolding read_state schedule_handle
  schedule_task a = do
    s ← read_state a
    if s.future_suspended then schedule_handle s.scheduler s.handle else pure tt

  unfoldable pub store_value : ℕ → T → Action (World T S) (Unit {0})
  unfolding read_state write_state
  store_value a v = do s ← read_state a; write_state a (record s { value = some v })

  unfoldable pub store_exception : ℕ → Error → Action (World T S) (Unit {0})
  unfolding read_state write_state
  store_exception a e = do s ← read_state a; write_state a (record s { exception = some e })

  -- `_do_set_value(value)`, where `value` is read when the state has been claimed
  unfoldable pub do_set_value : Promise → Action (World T S) T → Action (World T S) (Unit {0})
  unfolding get_state claim_state_set store_value schedule_task
  do_set_value p value = do
    a ← get_state p.state
    claim_state_set a
    v ← value
    store_value a v
    schedule_task a

  unfoldable pub set_value : Promise → T → Action (World T S) (Unit {0})
  unfolding do_set_value
  set_value p v = do_set_value p (pure v)

  unfoldable pub set_exception : Promise → Error → Action (World T S) (Unit {0})
  unfolding get_state claim_state_set store_exception schedule_task
  set_exception p e = do
    a ← get_state p.state
    claim_state_set a
    store_exception a e
    schedule_task a

  -- what the state `v` of the future holds, moved on to the promise
  unfoldable pub forward_state :
      Promise → ℕ → Option Error → Option T → Action (World T S) (Unit {0})
  unfolding set_exception do_set_value read_state move_value
  forward_state p v (some e) value = set_exception p e
  forward_state p v none none = lift undefined
  forward_state p v none (some x) = do_set_value p (do s ← read_state v; move_value v s s.value)

  -- `return_value(Future<T>&& value)`
  unfoldable pub return_future : Promise → Future → Action (World T S) (Unit {0})
  unfolding read_state write_state forward_state
  return_future p f = do
    v ← lift (deref f.state)
    s ← read_state v
    if s.state_set
        then forward_state p v s.exception s.value
        else write_state v (record s { chain_state = p.state })

  -- `make_resolved_future(value)`
  unfoldable pub make_resolved_future : T → Action (World T S) Future
  unfolding make_promise set_value get_future
  make_resolved_future v = do p ← make_promise; set_value p v; lift (get_future p).0

  -- `make_resolved_future(err)`
  unfoldable pub make_rejected_future : Error → Action (World T S) Future
  unfolding make_promise set_exception get_future
  make_rejected_future e = do p ← make_promise; set_exception p e; lift (get_future p).0
