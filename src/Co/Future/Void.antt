-- ===== src/Co/Future/Void.antt =====
-- The void specialisations: `Future<void>` and `Promise<void>` of lw/co/future.h. Their state is the
-- base class, so that neither a value nor a chain is looked at.
use liblw.Prelude.{ℕ, not, none, some, if◌then◌else◌}
use liblw.Err.{Error, throws, failed_precondition}
use liblw.Err.Action.{Action, pure, lift, ◌>>=◌, ◌>>◌}
use liblw.Co.Future.{
  Future, Promise, World, deref, read_state, claim_state_set, store_exception, schedule_task,
  make_promise, get_future,
}

module _ {S : Type 0} (moved : Unit {0} → Unit {0}) (schedule : ℕ → ℕ → Action S (Unit {0})) where
  -- `void Future<void>::await_resume()`
  unfoldable pub await_resume : Future → Action (World (Unit {0}) S) (Unit {0})
  unfolding read_state
  await_resume f = do
    a ← lift (deref f.state)
    s ← read_state moved schedule a
    if not s.state_set
        then lift (throws failed_precondition)
        else elim s.exception [ none ↦ pure tt | some e ↦ lift (throws e) ]

  -- `void Promise<void>::set_value()`, which is `return_void` too
  unfoldable pub set_value : Promise → Action (World (Unit {0}) S) (Unit {0})
  unfolding claim_state_set schedule_task
  set_value p = do
    a ← lift (deref p.state)
    claim_state_set moved schedule a
    schedule_task moved schedule a

  -- `void Promise<void>::set_exception(err)`
  unfoldable pub set_exception : Promise → Error → Action (World (Unit {0}) S) (Unit {0})
  unfolding claim_state_set store_exception schedule_task
  set_exception p e = do
    a ← lift (deref p.state)
    claim_state_set moved schedule a
    store_exception moved schedule a e
    schedule_task moved schedule a

  -- `make_resolved_future()`
  unfoldable pub make_resolved_future : Action (World (Unit {0}) S) Future
  unfolding make_promise set_value get_future
  make_resolved_future = do p ← make_promise moved schedule; set_value p; lift (get_future p).0
