-- ===== src/Co/Generator/Async/Asked.antt =====
-- A consumer that asks for the next value before the coroutine comes to it.
use liblw.Prelude.{
  ℕ, ◌≡◌, refl, Bool, true, false, some, List, [], ◌∷◌, ◌++◌, length, get_elem?, set, arith,
}
use liblw.Err.{Error, ok, throws, failed_precondition}
use liblw.Err.Action.{Action}
use liblw.Co.Future.{
  State, Future, Promise, World, new_state, alloc_state, make_promise, get_future, await_ready,
  await_suspend, await_resume, set_value, make_resolved_future,
}
use liblw.Co.Future.Delivery.{LeadsTo, valued, set_value_lem}
use liblw.Co.Future.Delivery.Once.{LeadsTo-set, await_resume_value, await_resume-set_value}
use liblw.Co.Generator.Async.{
  Shared, ask_next, yield_value, async_return_void, async_unhandled_exception, async_value,
}

get_elem?-append_new {ℓ} :
    {A : Type ℓ} (xs : List A) (x : A) → get_elem? (xs ++ (x ∷ [])) (length xs) ≡ some x
get_elem?-append_new [] x = refl
get_elem?-append_new (y ∷ xs) x = get_elem?-append_new xs x

module _ {S : Type 0} where
  -- the world with the state of one more promise
  more : World Bool S → World Bool S
  more w = record w { states = w.states ++ (new_state ∷ []) }

  new_leads :
      (w : World Bool S)
      → LeadsTo (more w).states (some (length w.states)) (length w.states) new_state
  unfolding more
  new_leads w = record {
    first = length w.states;
    links = 0;
    first_is = refl;
    ends = (new_state, get_elem?-append_new w.states new_state, refl, refl);
    stored = get_elem?-append_new w.states new_state;
  }

-- the state of the promise while the consumer, on that thread, waits
waiting : ℕ → ℕ → State Bool
waiting thread handle = record new_state {
  scheduler = some thread;
  handle = some handle;
  future_suspended = true;
}

module _ {S : Type 0} (moved : Bool → Bool) (schedule : ℕ → ℕ → Action S (Unit {0})) where
  -- A future that is resolved at once is ready.
  resolved_lem :
      (v : World Bool S) (b : Bool)
      → (h : Future) × (v' : World Bool S) × (make_resolved_future moved schedule b v ≡ (ok h, v'))
        × ((await_ready moved schedule h v').0 ≡ ok true)
        × ((await_resume moved schedule h v').0 ≡ ok b)
  unfolding make_resolved_future make_promise get_future alloc_state more await_ready
  resolved_lem v b =
      let n = length v.states in
      let p : Promise = record { future_obtained = false; state = some n } in
      let h : Future = record { state = some n } in
      let leads = new_leads v in
      let v' = record (more v) { states = set (more v).states n (valued new_state b) } in
      let settled : set_value moved schedule p b (more v) ≡ (ok tt, v') =
        set_value_lem moved schedule p (more v) n new_state leads refl b in
      let stored =
        LeadsTo-set (more v).states (some n) n new_state (valued new_state b) leads refl in
      (
        h,
        v',
        rw settled refl,
        rw (LeadsTo.stored stored) refl,
        await_resume_value moved schedule h v' n (valued new_state b) b stored refl refl refl,
      )

module _ {A S : Type 0} (moved : Bool → Bool) (schedule : ℕ → ℕ → Action S (Unit {0})) where
  -- If a generator that is not done is asked for its next value and the consumer waits for the
  -- future that it gives, the coroutine settles the future if it comes to a `co_yield`, to its end
  -- or to an exception: a value makes it true, the end makes it false, and an exception is thrown
  -- to the consumer. This holds whatever comes of scheduling the consumer. A second value before
  -- the consumer asks again throws. A generator that has come to its end gives a future that is
  -- ready at once, with false.
  pub await_resume-ask_next :
      (g : Shared A) (w v : World Bool S) (thread handle : ℕ) (a : A) (e : Error)
      → g.done ≡ false
      → (f : Future) × (g' : Shared A) × (w' : World Bool S) × (w'' : World Bool S) × (ask_next
            moved schedule g w
          ≡ (ok (f, g'), w'))
        × (await_suspend moved schedule thread f handle w' ≡ (ok true, w''))
        × ((await_resume moved schedule f ((yield_value moved schedule a g').1 w'').1).0 ≡ ok true)
        × ((await_resume moved schedule f ((async_return_void moved schedule g').1 w'').1).0
            ≡ ok false)
        × (async_value moved schedule (yield_value moved schedule a g').0 ≡ ok a)
        × ((await_resume moved schedule f (async_unhandled_exception moved schedule e g' w'').1).0
            ≡ throws e)
        × (((yield_value moved schedule a g').1 ((yield_value moved schedule a g').1 w'').1).0
            ≡ throws failed_precondition)
        × ((h : Future) × (v' : World Bool S) × (ask_next moved schedule
                (async_return_void moved schedule g').0
                v
              ≡ (ok (h, (async_return_void moved schedule g').0), v'))
            × ((await_ready moved schedule h v').0 ≡ ok true)
            × ((await_resume moved schedule h v').0 ≡ ok false))
  unfolding ask_next make_promise get_future more alloc_state yield_value async_return_void
      async_unhandled_exception async_value await_suspend waiting
  await_resume-ask_next g w v thread handle a e open_ =
      let n = length w.states in
      let f : Future = record { state = some n } in
      let p : Promise = record { future_obtained = true; state = some n } in
      let g' : Shared A = record g { next_promise = p } in
      let s = waiting thread handle in
      let w'' = record (more w) { states = set (more w).states n s } in
      let leads = LeadsTo-set (more w).states (some n) n new_state s (new_leads w) refl in
      let (yielded, thrown, again, _) =
        await_resume-set_value moved schedule p f w'' n s true true e leads leads refl refl in
      let (ended, _, _, _) =
        await_resume-set_value moved schedule p f w'' n s false true e leads leads refl refl in
      let (h, v', given, ready, resumed) = resolved_lem moved schedule v false in
      (
        f,
        g',
        more w,
        w'',
        ground (arith, open_),
        rw (LeadsTo.stored (new_leads w)) refl,
        yielded,
        ended,
        refl,
        thrown,
        again,
        (h, v', rw given refl, ready, resumed),
      )
