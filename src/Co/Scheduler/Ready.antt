-- ===== src/Co/Scheduler/Ready.antt =====
-- When a scheduler is ready to go on, and what leaves it so.
use liblw.Prelude.{
  ℕ, ◌≡◌, ◌≢◌, ◌<◌, Bool, false, Option, none, some, List, ◌∷◌, ◌++◌, length, eq_or_ne, inl, inr,
  arith,
}
use liblw.Err.{Error, Result, ok, throws}
use liblw.Memory.CircularQueue.Refine.{Represents}
use liblw.Co.Epoll.{find}
use liblw.Co.Scheduler.{
  Callback, resume_coro, Scheduler, Call, schedule_on, Body, finish, escape, call,
}
use liblw.Co.Scheduler.Notify.{OwnsFds, IsNotified}

-- a call that returned, or what it threw
abbrev pub outcome : Option Error → Result (Unit {0})
outcome none = ok tt
outcome (some e) = throws e

-- A coroutine does not wait for the loop's own descriptors, and catches what its calls throw.
abbrev pub Allows : (ℕ → Bool) → Call → Type 0
Allows reserved (schedule_on coro handle events) = reserved handle ≡ false
Allows reserved _ = Unit

abbrev pub IsPolite : (ℕ → Bool) → Body → Type 0
IsPolite reserved finish = Unit
IsPolite reserved (escape e) = ⊥
IsPolite reserved (call c k) = Allows reserved c × ((o : Option Error) → IsPolite reserved (k o))

-- The queue holds `xs`, and if it holds more than `m` coroutines, a notification is there. One is
-- there as well whenever the loop watches for it.
pub record Ready {K : Type 0} (reserved : ℕ → Bool) (counter : K → ℕ → ℕ) (s : Scheduler K)
    (xs : List ℕ) (m : ℕ) : Type 0 where
  pub owns : OwnsFds reserved counter s
  pub stores : Represents s.coro_queue xs
  pub announced : m < length xs → IsNotified reserved counter s
  pub live :
      (c : Callback × Bool)
      → find s.queue_notification_fd s.epoll.callbacks ≡ some c
      → s.queue_notification_fd ≢ 0
      → IsNotified reserved counter s

module _ {K : Type 0} (reserved : ℕ → Bool) (counter : K → ℕ → ℕ) (s : Scheduler K) (xs : List ℕ)
    (m : ℕ) where
  -- another note of what ran
  pub Ready-log :
      Ready reserved counter s xs m
      → (coros : List ℕ) → Ready reserved counter (record s { resumed = s.resumed ++ coros }) xs m
  Ready-log h coros = record {
    owns = record {
      fd_reserved = h.owns.fd_reserved;
      drains = h.owns.drains;
      resumes = h.owns.resumes;
    };
    stores = h.stores;
    announced = λ lt. still (h.announced lt);
    live = λ c at ne. still (h.live c at ne);
  }
    where
      still :
          IsNotified reserved counter s
          → IsNotified reserved counter (record s { resumed = s.resumed ++ coros })
      still told = record {
        fd_open = told.fd_open;
        watched = told.watched;
        signalled = told.signalled;
      }

module _ {K : Type 0} (reserved : ℕ → Bool) (counter : K → ℕ → ℕ) (s : Scheduler K) (xs : List ℕ)
    (m : ℕ) (k' : K) (same : (i : ℕ) → counter k' i ≡ counter s.epoll.kernel i) where
  -- the kernel changes, and no counter
  pub Ready-kernel :
      Ready reserved counter s xs m
      → Ready reserved counter (record s { epoll = record s.epoll { kernel = k' } }) xs m
  Ready-kernel h = record {
    owns = record {
      fd_reserved = h.owns.fd_reserved;
      drains = h.owns.drains;
      resumes = h.owns.resumes;
    };
    stores = h.stores;
    announced = λ lt. still (h.announced lt);
    live = λ c at ne. still (h.live c at ne);
  }
    where
      still :
          IsNotified reserved counter s
          → IsNotified reserved counter (record s { epoll = record s.epoll { kernel = k' } })
      still told = record {
        fd_open = told.fd_open;
        watched = told.watched;
        signalled = rw (same s.queue_notification_fd) told.signalled;
      }

  -- one more descriptor is watched, which is not the loop's own
  pub Ready-watch :
      (handle coro : ℕ) (shot : Bool)
      → reserved handle ≡ false
      → Ready reserved counter s xs m
      → Ready reserved counter
          (record s {
            epoll = record {
              callbacks = (handle, resume_coro coro, shot) ∷ s.epoll.callbacks;
              kernel = k';
            };
          })
          xs
          m
  unfolding find
  Ready-watch handle coro shot free h = record {
    owns = record {
      fd_reserved = h.owns.fd_reserved;
      drains = λ fd c' own at. h.owns.drains fd c' own (ground (arith, free, own, at));
      resumes = λ fd c' other at. elim (eq_or_ne handle fd) [
        | inl e ↦ (coro, ground (arith, e, at))
        | inr ne ↦ h.owns.resumes fd c' other (ground (arith, ne, at))
      ];
    };
    stores = h.stores;
    announced = λ lt. still (h.announced lt);
    live = λ c' at ne. still (h.live c' (ground (arith, free, h.owns.fd_reserved ne, at)) ne);
  }
    where
      still :
          IsNotified reserved counter s
          → IsNotified reserved counter (record s {
            epoll = record {
              callbacks = (handle, resume_coro coro, shot) ∷ s.epoll.callbacks;
              kernel = k';
            };
          })
      still told =
          let own = h.owns.fd_reserved told.fd_open in
          record {
            fd_open = told.fd_open;
            watched = ground (arith, free, own, told.watched);
            signalled = rw (same s.queue_notification_fd) told.signalled;
          }
