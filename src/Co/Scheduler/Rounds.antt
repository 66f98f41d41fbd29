-- ===== src/Co/Scheduler/Rounds.antt =====
-- Rounds of the loop, and whatever else happens to a scheduler between them.
pub mod Reachable
pub mod Ended
use liblw.Prelude.{
  ℕ, zero, suc, ◌≡◌, ◌≢◌, ◌<◌, refl, sym, ap, ◌∙◌, Bool, true, false, Option, none, some, List, [],
  ◌∷◌, ◌==◌, ◌++◌, length, ltb, Bool-cases, Option-cases, inl, inr, arith, eq_or_ne, if◌then◌else◌,
}
use liblw.Err.{Error, Result, ok, throws, undefined, internal}
use liblw.Err.Action.{Action, next, ◌>>=◌, ◌>>◌, lift, pure}
use liblw.Co.Epoll.{Os, Sys, Epoll, returned, failed, find, erase, sys, checked, remove}
use liblw.Co.Epoll.Reserved.{Reliable, find-erase_self, find-erase_ne}
use liblw.Co.Scheduler.{
  Callback, resume_coro, drain_queue, Scheduler, Body, on_epoll, resume, run_callback,
  run_registered, as_internal, fire, fire_all, wait, check_count, handle_events,
}
use liblw.Co.Scheduler.Notify.{OwnsFds, IsNotified}
use liblw.Co.Scheduler.Ready.{IsPolite, Ready, Ready-kernel}
use liblw.Co.Scheduler.Work.{resume-Worked, checked-throws}
use liblw.Co.Scheduler.Drain.{fire_resumes}

checked-defined : {A : Type 0} (r : Sys A) → checked r ≢ undefined
unfolding checked
checked-defined (returned a) = λ u. cc
checked-defined {A} (failed n) =
    let (e, same) = checked-throws {A = A} n in λ u. ground (arith, u, same)

module _ {K : Type 0} (os : Os K) (queue_size buffer_size : ℕ) (code : ℕ → List ℕ → Body)
    (reserved : ℕ → Bool) (counter : K → ℕ → ℕ) (reliable : Reliable os reserved counter)
    (polite : (i : ℕ) (log : List ℕ) → IsPolite reserved (code i log)) where
  -- The scheduler can go on: nothing undefined has been done, and its queue is announced.
  pub record GoesOn {A : Type 0} (r : Result A × Scheduler K) : Type 0 where
    pub queued : List ℕ
    pub ready : Ready reserved counter r.1 queued 0
    pub defined : r.0 ≢ undefined

  next-GoesOn :
      {A B : Type 0} (r : Result A × Scheduler K) (k : A → Action (Scheduler K) B)
      → GoesOn r
      → ((a : A) (xs : List ℕ) (t : Scheduler K) → Ready reserved counter t xs 0 → GoesOn (k a t))
      → GoesOn (next r.0 k r.1)
  next-GoesOn (ok a, t) k h more = more a h.queued t h.ready
  next-GoesOn (throws e, t) k h more = record {
    queued = h.queued;
    ready = h.ready;
    defined = λ u. cc;
  }
  next-GoesOn (undefined, t) k h more = absurd (h.defined refl)

  as_internal-GoesOn :
      (r : Result (Unit {0}) × Scheduler K)
      → GoesOn r
      → GoesOn (as_internal os queue_size buffer_size code r)
  unfolding as_internal
  as_internal-GoesOn (ok a, t) h = h
  as_internal-GoesOn (throws e, t) h = record {
    queued = h.queued;
    ready = h.ready;
    defined = λ u. cc;
  }
  as_internal-GoesOn (undefined, t) h = absurd (h.defined refl)

  -- a descriptor is removed that is not the loop's own
  removed_other-Ready :
      (fd : ℕ) (s : Scheduler K) (xs : List ℕ)
      → reserved fd ≡ false
      → Ready reserved counter s xs 0
      → let e = s.epoll in
        Ready reserved counter
          (record s { epoll = record e { callbacks = erase fd e.callbacks } })
          xs
          0
  removed_other-Ready fd s xs other h = record {
    owns = record {
      fd_reserved = h.owns.fd_reserved;
      drains = λ i c own at. h.owns.drains i c own (earlier i c at);
      resumes = λ i c free at. h.owns.resumes i c free (earlier i c at);
    };
    stores = h.stores;
    announced = λ lt. still (h.announced lt);
    live = λ c at ne. still (h.live c (earlier s.queue_notification_fd c at) ne);
  }
    where
      earlier :
          (i : ℕ) (c : Callback × Bool)
          → find i (erase fd s.epoll.callbacks) ≡ some c
          → find i s.epoll.callbacks ≡ some c
      earlier i c at = elim (eq_or_ne fd i) [
        | inl e ↦ absurd (ground (arith, e, at, find-erase_self fd s.epoll.callbacks))
        | inr ne ↦ sym (find-erase_ne i fd s.epoll.callbacks ne) ∙ at
      ]

      still :
          IsNotified reserved counter s
          → IsNotified reserved counter
              (record s { epoll = record s.epoll { callbacks = erase fd s.epoll.callbacks } })
      still told =
          let own = h.owns.fd_reserved told.fd_open in
          let apart : fd ≢ s.queue_notification_fd = λ e. ground (arith, e, own, other) in
          record {
            fd_open = told.fd_open;
            watched =
                find-erase_ne s.queue_notification_fd fd s.epoll.callbacks apart ∙ told.watched;
            signalled = told.signalled;
          }

  -- a system call that touches no counter
  sys-GoesOn :
      {A : Type 0} (f : K → Sys A × K) (s : Scheduler K) (xs : List ℕ)
      → ((i : ℕ) → counter (f s.epoll.kernel).1 i ≡ counter s.epoll.kernel i)
      → Ready reserved counter s xs 0
      → GoesOn (on_epoll os queue_size buffer_size code (sys os f) s)
  unfolding on_epoll sys checked
  sys-GoesOn f s xs same h = record {
    queued = xs;
    ready = Ready-kernel reserved counter s xs 0 (f s.epoll.kernel).1 same h;
    defined = checked-defined (f s.epoll.kernel).0;
  }

  -- The callback of a descriptor on which a coroutine waits.
  resume-GoesOn :
      (coro : ℕ) (s : Scheduler K) (xs : List ℕ)
      → Ready reserved counter s xs 0
      → GoesOn (resume os queue_size buffer_size code coro s)
  resume-GoesOn coro s xs h =
      let (t, ys, ran, h', log) =
        resume-Worked os queue_size buffer_size code reserved counter reliable coro s xs 0 polite
          h in
      rw ran (record { queued = xs ++ ys; ready = h'; defined = λ u. cc })

  remove_found :
      (fd : ℕ) (s : Scheduler K) (c : Callback × Bool)
      → find fd s.epoll.callbacks ≡ some c
      → on_epoll os queue_size buffer_size code (remove os fd) s
        ≡ on_epoll os queue_size buffer_size code
            (sys os (os.epoll_ctl_del fd))
            (record s { epoll = record s.epoll { callbacks = erase fd s.epoll.callbacks } })
  unfolding remove on_epoll
  remove_found fd s c at = ground (arith, at)

  run_registered-GoesOn :
      (fd coro : ℕ) (shot : Bool) (s : Scheduler K) (xs : List ℕ) (c : Callback × Bool)
      → reserved fd ≡ false
      → find fd s.epoll.callbacks ≡ some c
      → Ready reserved counter s xs 0
      → GoesOn (run_registered os queue_size buffer_size code fd (resume_coro coro, shot) s)
  unfolding run_registered run_callback
  run_registered-GoesOn fd coro false s xs c other at h = resume-GoesOn coro s xs h
  run_registered-GoesOn fd coro true s xs c other at h =
      let s' : Scheduler K = record s {
        epoll = record s.epoll { callbacks = erase fd s.epoll.callbacks };
      } in
      next-GoesOn (on_epoll os queue_size buffer_size code (remove os fd) s)
        (λ a. resume os queue_size buffer_size code coro)
        (rw (remove_found fd s c at) (
          sys-GoesOn (os.epoll_ctl_del fd) s' xs (reliable.del_counter s.epoll.kernel fd)
            (removed_other-Ready fd s xs other h)))
        (λ a ys t. resume-GoesOn coro t ys)

  -- One event, whichever it is.
  fire-GoesOn :
      (fd : ℕ) (s : Scheduler K) (xs : List ℕ)
      → Ready reserved counter s xs 0
      → GoesOn (fire os queue_size buffer_size code fd s)
  unfolding fire
  fire-GoesOn fd s xs h = by_callback (find fd s.epoll.callbacks) refl
    where
      by_owner :
          (c : Callback × Bool)
          → find fd s.epoll.callbacks ≡ some c
          → (b : Bool) → reserved fd ≡ b
          → GoesOn (fire os queue_size buffer_size code fd s)
      by_owner c at true own =
          let (_, same, ne) = h.owns.drains fd c own at in
          let (t, ys, ran, log, v, h') =
            fire_resumes os queue_size buffer_size code reserved counter reliable polite s xs h
              (h.live c (rw (sym same) at) ne) in
          rw (same, ran) (record { queued = ys; ready = h'; defined = λ u. cc })
      by_owner (resume_coro coro, shot) at false other =
          let registered : Callback × Bool = (resume_coro coro, shot) in
          rw (fire, at)
            (as_internal-GoesOn (run_registered os queue_size buffer_size code fd registered s)
              (run_registered-GoesOn fd coro shot s xs registered other at h))
      by_owner (drain_queue, shot) at false other =
          let (coro, e) = h.owns.resumes fd (drain_queue, shot) other at in absurd (cc e)

      by_callback :
          (o : Option (Callback × Bool))
          → find fd s.epoll.callbacks ≡ o
          → GoesOn (fire os queue_size buffer_size code fd s)
      by_callback none at = rw (fire, at) (record { queued = xs; ready = h; defined = λ u. cc })
      by_callback (some c) at = by_owner c at (reserved fd) refl

  fire_all-GoesOn :
      (fds : List ℕ) (s : Scheduler K) (xs : List ℕ)
      → Ready reserved counter s xs 0
      → GoesOn (fire_all os queue_size buffer_size code fds s)
  unfolding fire_all
  fire_all-GoesOn [] s xs h = record { queued = xs; ready = h; defined = λ u. cc }
  fire_all-GoesOn (fd ∷ fds) s xs h =
      next-GoesOn (fire os queue_size buffer_size code fd s)
        (λ a. fire_all os queue_size buffer_size code fds) (fire-GoesOn fd s xs h)
        (λ a ys t. fire_all-GoesOn fds t ys)

  handle_events-GoesOn :
      (fds : List ℕ) (s : Scheduler K) (xs : List ℕ)
      → Ready reserved counter s xs 0
      → GoesOn (handle_events os queue_size buffer_size code fds s)
  unfolding handle_events check_count
  handle_events-GoesOn fds s xs h = elim (Bool-cases (ltb buffer_size (length fds))) [
    | inl e ↦ rw e (record { queued = xs; ready = h; defined = λ u. cc })
    | inr e ↦ rw e (
        next-GoesOn (fire_all os queue_size buffer_size code fds s) (λ a. pure (length fds))
          (fire_all-GoesOn fds s xs h)
          (λ a ys t h'. record { queued = ys; ready = h'; defined = λ u. cc }))
  ]

  -- A round of `EPoll::_wait`, whatever is reported and in whatever order.
  pub wait-GoesOn :
      (s : Scheduler K) (xs : List ℕ)
      → Ready reserved counter s xs 0
      → GoesOn (wait os queue_size buffer_size code s)
  unfolding wait
  wait-GoesOn s xs h =
      next-GoesOn (on_epoll os queue_size buffer_size code (sys os (os.epoll_wait buffer_size)) s)
        (handle_events os queue_size buffer_size code)
        (sys-GoesOn (os.epoll_wait buffer_size) s xs
          (reliable.wait_counter s.epoll.kernel buffer_size) h)
        (λ fds ys t. handle_events-GoesOn fds t ys)
