-- ===== src/Co/Scheduler/Notify.antt =====
-- `_schedule_queue_drain`: afterwards the loop is watching for a notification, and there is one.
use liblw.Prelude.{
  ℕ, ◌≡◌, ◌≢◌, ◌<◌, refl, ap, ◌∙◌, Bool, true, false, some, List, ◌∷◌, ◌==◌, Bool-cases,
  Option-cases, inl, inr, arith, if◌then◌else◌,
}
use liblw.Err.{ok}
use liblw.Co.Event.{join, readable, one_shot, meets, co_event_to_epoll_event}
use liblw.Co.Epoll.{Os, find, sys, checked, add, watch}
use liblw.Co.Epoll.Reserved.{Reliable}
use liblw.Co.Scheduler.{
  Callback, resume_coro, drain_queue, Scheduler, Body, on_epoll, schedule_callback, create_eventfd,
  ignore_already_exists, schedule_queue_drain,
}

notification_shot : meets (join readable one_shot) one_shot ≡ true
unfolding meets join
notification_shot = refl

module _ {K : Type 0} (reserved : ℕ → Bool) (counter : K → ℕ → ℕ) where
  -- Of the descriptors that are the loop's own at most its eventfd is watched, and for the queue;
  -- on the others coroutines wait.
  pub record OwnsFds (s : Scheduler K) : Type 0 where
    pub fd_reserved : s.queue_notification_fd ≢ 0 → reserved s.queue_notification_fd ≡ true
    pub drains :
        (fd : ℕ) (c : Callback × Bool)
        → reserved fd ≡ true
        → find fd s.epoll.callbacks ≡ some c
        → (c ≡ (drain_queue, true)) × (fd ≡ s.queue_notification_fd) × (s.queue_notification_fd ≢ 0)
    pub resumes :
        (fd : ℕ) (c : Callback × Bool)
        → reserved fd ≡ false
        → find fd s.epoll.callbacks ≡ some c
        → (coro : ℕ) × (c.0 ≡ resume_coro coro)

  -- The loop watches for the notification, and the notification is there.
  pub record IsNotified (s : Scheduler K) : Type 0 where
    pub fd_open : s.queue_notification_fd ≢ 0
    pub watched : find s.queue_notification_fd s.epoll.callbacks ≡ some (drain_queue, true)
    pub signalled : 0 < counter s.epoll.kernel s.queue_notification_fd

-- Neither the queue nor what ran is touched.
pub record Keeps {K : Type 0} (s t : Scheduler K) : Type 0 where
  pub queue_is : t.coro_queue ≡ s.coro_queue
  pub resumed_is : t.resumed ≡ s.resumed

module _ {K : Type 0} (os : Os K) (queue_size buffer_size : ℕ) (code : ℕ → List ℕ → Body)
    (reserved : ℕ → Bool) (counter : K → ℕ → ℕ) (reliable : Reliable os reserved counter) where
  -- the first step: there is an eventfd
  fd_opened :
      (s : Scheduler K)
      → OwnsFds reserved counter s
      → (t : Scheduler K) × ((if s.queue_notification_fd == 0
              then create_eventfd os queue_size buffer_size code
              else (λ u. (ok tt, u)))
            s
          ≡ (ok tt, t))
        × OwnsFds reserved counter t
        × Keeps s t
        × (t.queue_notification_fd ≢ 0)
  unfolding create_eventfd on_epoll sys checked
  fd_opened s owns = elim (Bool-cases (s.queue_notification_fd == 0)) [
    | inl e ↦
        let (fd, k', got, own, ne) = reliable.eventfd_ok s.epoll.kernel in
        (
          record s { epoll = record s.epoll { kernel = k' }; queue_notification_fd = fd },
          ground (arith, e, got, ne),
          record {
            fd_reserved = λ h. own;
            drains = λ i c r at. absurd ((owns.drains i c r at).2 (ground (arith, e)));
            resumes = owns.resumes;
          },
          record { queue_is = refl; resumed_is = refl },
          ne,
        )
    | inr e ↦ (
      s,
      ground (arith, e),
      owns,
      record { queue_is = refl; resumed_is = refl },
      ground (arith, e),
    )
  ]

  -- the second: it is watched, by this call or by an earlier one
  fd_watched :
      (s : Scheduler K)
      → OwnsFds reserved counter s
      → s.queue_notification_fd ≢ 0
      → (t : Scheduler K) × (ignore_already_exists os queue_size buffer_size code (
            schedule_callback os queue_size buffer_size code s.queue_notification_fd
              (join readable one_shot)
              drain_queue
              s)
          ≡ (ok tt, t))
        × OwnsFds reserved counter t
        × Keeps s t
        × (t.queue_notification_fd ≡ s.queue_notification_fd)
        × (find s.queue_notification_fd t.epoll.callbacks ≡ some (drain_queue, true))
  unfolding schedule_callback ignore_already_exists on_epoll add watch sys checked find
  fd_watched s owns ne = elim (Option-cases (find s.queue_notification_fd s.epoll.callbacks)) [
    | inl e ↦
        let fd = s.queue_notification_fd in
        let (k', added) =
          reliable.add_ok s.epoll.kernel fd (co_event_to_epoll_event (join readable one_shot))
            (owns.fd_reserved ne) in
        (
          record s {
            epoll = record { callbacks = (fd, drain_queue, true) ∷ s.epoll.callbacks; kernel = k' };
          },
          ground (arith, e, added, notification_shot),
          record {
            fd_reserved = owns.fd_reserved;
            drains = λ i c r at. ground (arith, at, ne, owns.drains i c r);
            resumes = λ i c r at. owns.resumes i c r (ground (arith, at, r, owns.fd_reserved ne));
          },
          record { queue_is = refl; resumed_is = refl },
          refl,
          ground arith,
        )
    | inr (c, e) ↦ (
      s,
      ground (arith, e),
      owns,
      record { queue_is = refl; resumed_is = refl },
      refl,
      e ∙ ap some (owns.drains s.queue_notification_fd c (owns.fd_reserved ne) e).0,
    )
  ]

  -- Whether or not a notification was waiting already, afterwards one is, and nothing is thrown.
  pub schedule_queue_drain-IsNotified :
      (s : Scheduler K)
      → OwnsFds reserved counter s
      → (t : Scheduler K) × (schedule_queue_drain os queue_size buffer_size code s ≡ (ok tt, t))
        × OwnsFds reserved counter t
        × Keeps s t
        × IsNotified reserved counter t
  unfolding schedule_queue_drain on_epoll sys checked
  schedule_queue_drain-IsNotified s owns =
      let (t, opened, owns', kept, ne) = fd_opened s owns in
      let (u, watching, owns'', kept', same, at) = fd_watched t owns' ne in
      let (k', pinged, counted) =
        reliable.write_ok u.epoll.kernel u.queue_notification_fd
          (owns''.fd_reserved (rw same ne)) in
      (
        record u { epoll = record u.epoll { kernel = k' } },
        rw (opened, watching, pinged) refl,
        record {
          fd_reserved = owns''.fd_reserved;
          drains = owns''.drains;
          resumes = owns''.resumes;
        },
        record {
          queue_is = kept'.queue_is ∙ kept.queue_is;
          resumed_is = kept'.resumed_is ∙ kept.resumed_is;
        },
        record { fd_open = rw same ne; watched = rw same at; signalled = counted },
      )
