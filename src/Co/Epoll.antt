-- ===== src/Co/Epoll.antt =====
-- lw/co/systems/epoll.h and epoll.cpp: the file descriptors that are watched, each with its callback.
-- The calls of the operating system are a parameter; what the loop does with the events that
-- `epoll_wait` reports is in Co/Scheduler.antt, with the callbacks.
pub mod Reserved
use liblw.Prelude.{
  ℕ, ◌≡◌, ◌≢◌, Bool, true, false, not, Option, none, some, List, [], ◌∷◌, length, ltb, ◌==◌,
  if◌then◌else◌, ◌<◌,
}
use liblw.Err.{Error, Result, ok, throws, undefined, already_exists, failed_precondition, internal}
use liblw.Err.Action.{Action, pure, lift, modify, ◌>>=◌, ◌>>◌}
use liblw.Err.System.{check_system_error}
use liblw.Co.Event.{co_event_to_epoll_event, meets, one_shot}

-- What a system call gives: its result, or the error number it leaves.
pub data Sys (A : Type 0) : Type 0 where
  returned : A → Sys A
  failed : ℕ → Sys A

-- The system calls, on what they change. A file descriptor is a number, and 0 is none of these.
pub record Os (K : Type 0) : Type 0 where
  pub eventfd : K → Sys ℕ × K
  pub read_eventfd : ℕ → K → Sys (Unit {0}) × K
  pub write_eventfd : ℕ → K → Sys (Unit {0}) × K
  pub epoll_ctl_add : ℕ → ℕ → K → Sys (Unit {0}) × K
  pub epoll_ctl_del : ℕ → K → Sys (Unit {0}) × K
  pub epoll_wait : ℕ → K → Sys (List ℕ) × K

-- `check_system_error(); throw Internal()` after a call that failed
unfoldable pub checked : {A : Type 0} → Sys A → Result A
checked (returned a) = ok a
checked (failed err_code) = elim (check_system_error err_code) [
  | ok _ ↦ throws internal
  | throws e ↦ throws e
  | undefined ↦ undefined
]

-- `_callbacks`, with the flag of each for one shot
abbrev pub Callbacks : Type 0 → Type 0
Callbacks C = List (ℕ × C × Bool)

pub record Epoll (C K : Type 0) : Type 0 where
  pub callbacks : Callbacks C
  pub kernel : K

unfoldable pub find : {C : Type 0} → ℕ → Callbacks C → Option (C × Bool)
find fd [] = none
find fd ((i, callback, shot) ∷ more) =
    let later = find fd more in if i == fd then some (callback, shot) else later

unfoldable pub erase : {C : Type 0} → ℕ → Callbacks C → Callbacks C
erase fd [] = []
erase fd ((i, callback, shot) ∷ more) =
    let rest = erase fd more in if i == fd then rest else (i, callback, shot) ∷ rest

-- `bool EPoll::has_pending_items() const`
unfoldable pub has_pending_items : {C K : Type 0} → Epoll C K → Bool
has_pending_items e = elim e.callbacks [ [] ↦ false | _ ∷ _ ↦ true ]

module _ {C K : Type 0} (os : Os K) where
  -- a system call, on the kernel of the loop
  unfoldable pub sys : {A : Type 0} → (K → Sys A × K) → Action (Epoll C K) A
  unfolding checked
  sys f e = let (r, kernel) = f e.kernel in (checked r, record e { kernel = kernel })

  unfoldable pub watch : ℕ → ℕ → C → Action (Epoll C K) (Unit {0})
  unfolding sys
  watch fd events callback =
      sys (os.epoll_ctl_add fd (co_event_to_epoll_event events))
      >> modify (λ e. record e { callbacks = (fd, callback, meets events one_shot) ∷ e.callbacks })

  -- `void EPoll::add(fd, events, callback)`
  unfoldable pub add : ℕ → ℕ → C → Action (Epoll C K) (Unit {0})
  unfolding watch find
  add fd events callback e = elim (find fd e.callbacks) [
    | some _ ↦ (throws already_exists, e)
    | none ↦ watch fd events callback e
  ]

  -- `void EPoll::remove(fd)`
  unfoldable pub remove : ℕ → Action (Epoll C K) (Unit {0})
  unfolding sys find erase
  remove fd e = elim (find fd e.callbacks) [
    | none ↦ (throws failed_precondition, e)
    | some _ ↦ sys (os.epoll_ctl_del fd) (record e { callbacks = erase fd e.callbacks })
  ]
