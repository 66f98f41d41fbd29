-- ===== src/Co/Future/Race.antt =====
-- `await_suspend` on one thread and `set_value` on another, one access of the shared state at a time.
-- Their bodies in lw/co/future.h are
--   scheduler = this_thread; handle = h; r = state_set; future_suspended = !r; return !r
--   b = exchange(state_set, true); if (b) throw; value = v; if (future_suspended) schedule(handle)
-- of which the writes that the other side reads under a flag are steps of their own.
pub mod Lost
pub mod Once
pub mod Live
use liblw.Prelude.{
  ℕ, suc, ◌+◌, ◌≤◌, ◌≡◌, ◌≢◌, refl, Bool, true, false, not, Option, none, some, arith,
}

-- Where the thread that awaits stands. `checking r` has read `state_set`; `asleep` has returned
-- true, so that the coroutine stays suspended, and `awake` false, so that it goes on.
pub data Awaiter : Type 0 where
  arriving registered : Awaiter
  checking : Bool → Awaiter
  asleep awake : Awaiter

-- Where the thread that sets the value stands.
pub data Setter : Type 0 where
  idle claimed stored finished refused : Setter

-- The shared state, where both threads stand, and how often the coroutine was handed to a scheduler.
pub record Shared (T : Type 0) : Type 0 where
  pub state_set : Bool
  pub future_suspended : Bool
  pub handle : Option ℕ
  pub value : Option T
  pub awaiter : Awaiter
  pub setter : Setter
  pub scheduled : ℕ

module _ {T : Type 0} (h : ℕ) (v : T) where
  unfoldable pub start : Shared T
  start = record {
    state_set = false;
    future_suspended = false;
    handle = none;
    value = none;
    awaiter = arriving;
    setter = idle;
    scheduled = 0;
  }

  -- One access, by either thread.
  pub data Step (s t : Shared T) : Type 0 where
    register :
        s.awaiter ≡ arriving → t ≡ record s { handle = some h; awaiter = registered } → Step s t
    check : s.awaiter ≡ registered → t ≡ record s { awaiter = checking s.state_set } → Step s t
    suspend :
        s.awaiter ≡ checking false
        → t ≡ record s { future_suspended = true; awaiter = asleep }
        → Step s t
    go_on :
        s.awaiter ≡ checking true
        → t ≡ record s { future_suspended = false; awaiter = awake }
        → Step s t
    claim :
        s.setter ≡ idle
        → s.state_set ≡ false
        → t ≡ record s { state_set = true; setter = claimed }
        → Step s t
    refuse : s.setter ≡ idle → s.state_set ≡ true → t ≡ record s { setter = refused } → Step s t
    store : s.setter ≡ claimed → t ≡ record s { value = some v; setter = stored } → Step s t
    schedule :
        s.setter ≡ stored
        → s.future_suspended ≡ true
        → t ≡ record s { scheduled = s.scheduled + 1; setter = finished }
        → Step s t
    leave :
        s.setter ≡ stored
        → s.future_suspended ≡ false
        → t ≡ record s { setter = finished }
        → Step s t

  pub data Reach (s : Shared T) : Shared T → Type 0 where
    here : Reach s s
    next : {t u : Shared T} → Reach s t → Step t u → Reach s u

  -- The setter does nothing between the awaiter's read of `state_set` and its write of
  -- `future_suspended`.
  pub data Calm (s t : Shared T) : Type 0 where
    undisturbed : Step s t → ((r : Bool) → s.awaiter ≡ checking r → s.setter ≡ t.setter) → Calm s t

  pub data CalmReach (s : Shared T) : Shared T → Type 0 where
    here : CalmReach s s
    next : {t u : Shared T} → CalmReach s t → Calm t u → CalmReach s u
