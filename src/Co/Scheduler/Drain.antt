-- ===== src/Co/Scheduler/Drain.antt =====
-- The notification: the callback that empties the queue.
use liblw.Prelude.{
  ℕ, suc, ◌≡◌, ◌≢◌, ◌<◌, refl, sym, ap, ◌∙◌, Bool, some, List, [], ◌∷◌, ◌++◌, append_assoc,
  append-nil, length, inl, inr, arith, eq_or_ne,
}
use liblw.Err.{ok}
use liblw.Memory.CircularQueue.{CircularQueue}
use liblw.Memory.CircularQueue.Refine.{Represents, pop_front-Pops}
use liblw.Co.Epoll.{Os, find, erase, sys, checked, remove}
use liblw.Co.Epoll.Reserved.{Reliable, find-erase_self, find-erase_ne}
use liblw.Co.Scheduler.{
  Callback, Scheduler, Body, on_epoll, pop_coro, resume_all, drain, run_callback, run_registered,
  as_internal, fire,
}
use liblw.Co.Scheduler.Notify.{IsNotified}
use liblw.Co.Scheduler.Ready.{IsPolite, Ready}
use liblw.Co.Scheduler.Work.{Worked, resume-Worked}

module _ {K : Type 0} (os : Os K) (queue_size buffer_size : ℕ) (code : ℕ → List ℕ → Body)
    (reserved : ℕ → Bool) (counter : K → ℕ → ℕ) (reliable : Reliable os reserved counter)
    (polite : (i : ℕ) (log : List ℕ) → IsPolite reserved (code i log)) where
  pop_coro-Ready :
      (x : ℕ) (xs : List ℕ) (m : ℕ) (s : Scheduler K)
      → Ready reserved counter s (x ∷ xs) (suc m)
      → (t : Scheduler K) × (pop_coro os queue_size buffer_size code s ≡ (ok x, t))
        × Ready reserved counter t xs m
        × (t.resumed ≡ s.resumed)
  unfolding pop_coro
  pop_coro-Ready x xs m s h =
      let (q, popped, cap, v) = pop_front-Pops s.coro_queue (x ∷ xs) h.stores in
      (
        record s { coro_queue = q },
        ground (arith, popped),
        record {
          owns = record {
            fd_reserved = h.owns.fd_reserved;
            drains = h.owns.drains;
            resumes = h.owns.resumes;
          };
          stores = v;
          announced = λ lt. still (h.announced (omega arith));
          live = λ c at ne. still (h.live c at ne);
        },
        refl,
      )
    where
      still :
          {q : CircularQueue ℕ}
          → IsNotified reserved counter s
          → IsNotified reserved counter (record s { coro_queue = q })
      still told = record {
        fd_open = told.fd_open;
        watched = told.watched;
        signalled = told.signalled;
      }

  -- The coroutines of the queue are resumed in their order; what they add stands behind the rest.
  resume_all-Worked :
      (xs zs : List ℕ) (s : Scheduler K)
      → Ready reserved counter s (xs ++ zs) (length xs)
      → Worked os queue_size buffer_size code reserved counter reliable s zs 0 xs
          (resume_all os queue_size buffer_size code (length xs) s)
  unfolding resume_all
  resume_all-Worked [] zs s h = (s, [], refl, rw append-nil h, sym (append-nil s.resumed))
  resume_all-Worked (x ∷ xs) zs s h =
      let (t, popped, h', log) = pop_coro-Ready x (xs ++ zs) (length xs) s h in
      let (u, ys, ran, h'', log') =
        resume-Worked os queue_size buffer_size code reserved counter reliable x t (xs ++ zs)
          (length xs) polite h' in
      let (w, ws, rest, h3, log'') = resume_all-Worked xs (zs ++ ys) u (rw append_assoc at h'') in
      (
        w,
        ys ++ ws,
        ground (arith, h.stores.size_is, popped, ran, rest),
        rw append_assoc at h3,
        log''
            ∙ ap (λ l. l ++ xs) (log' ∙ ap (λ l. l ++ (x ∷ [])) log)
            ∙ append_assoc s.resumed (x ∷ []) xs,
      )

  -- once the descriptor is removed, nothing is announced
  removed-Ready :
      (s : Scheduler K) (xs : List ℕ) (k' : K)
      → Ready reserved counter s xs 0
      → let fd = s.queue_notification_fd in
        Ready reserved counter
          (record s { epoll = record { callbacks = erase fd s.epoll.callbacks; kernel = k' } })
          xs
          (length xs)
  removed-Ready s xs k' h = record {
    owns = record {
      fd_reserved = h.owns.fd_reserved;
      drains = λ i c own at. elim (eq_or_ne s.queue_notification_fd i) [
        | inl e ↦ absurd (gone i e c at)
        | inr ne ↦
            h.owns.drains i c own
              (sym (find-erase_ne i s.queue_notification_fd s.epoll.callbacks ne) ∙ at)
      ];
      resumes = λ i c other at. elim (eq_or_ne s.queue_notification_fd i) [
        | inl e ↦ absurd (gone i e c at)
        | inr ne ↦
            h.owns.resumes i c other
              (sym (find-erase_ne i s.queue_notification_fd s.epoll.callbacks ne) ∙ at)
      ];
    };
    stores = h.stores;
    announced = λ lt. absurd (omega arith);
    live = λ c at ne. absurd (gone s.queue_notification_fd refl c at);
  }
    where
      gone :
          (i : ℕ)
          → s.queue_notification_fd ≡ i
          → (c : Callback × Bool)
          → find i (erase s.queue_notification_fd s.epoll.callbacks) ≢ some c
      gone i e c at =
          let none_left = find-erase_self s.queue_notification_fd s.epoll.callbacks in
          ground (arith, e, at, none_left)

  -- If a notification is there, the round of the loop that handles it resumes all the coroutines
  -- of the queue, in their order, and throws nothing. Those that they add in the meantime make up
  -- the queue that is left, and unless it is empty the next notification is there.
  pub fire_resumes :
      (s : Scheduler K) (xs : List ℕ)
      → Ready reserved counter s xs 0
      → IsNotified reserved counter s
      → (t : Scheduler K) × (ys : List ℕ) × (fire os queue_size buffer_size code
            s.queue_notification_fd s
          ≡ (ok tt, t))
        × (t.resumed ≡ s.resumed ++ xs)
        × Represents t.coro_queue ys
        × Ready reserved counter t ys 0
  unfolding fire run_registered run_callback drain on_epoll remove sys checked as_internal
  fire_resumes s xs h told =
      let own = h.owns.fd_reserved told.fd_open in
      let (k', deleted) = reliable.del_ok s.epoll.kernel s.queue_notification_fd own in
      let counted : 0 < counter k' s.queue_notification_fd = ground (
        arith,
        deleted,
        told.signalled,
        reliable.del_counter s.epoll.kernel s.queue_notification_fd s.queue_notification_fd,
      ) in
      let (k'', cleared) = reliable.read_ok k' s.queue_notification_fd own counted in
      let s' : Scheduler K = record s {
        epoll = record {
          callbacks = erase s.queue_notification_fd s.epoll.callbacks;
          kernel = k'';
        };
      } in
      let h' : Ready reserved counter s' (xs ++ []) (length xs) =
        rw append-nil (removed-Ready s xs k'' h) in
      let (t, ys, ran, h'', log) = resume_all-Worked xs [] s' h' in
      (
        t,
        ys,
        ground (arith, told.watched, deleted, cleared, h.stores.size_is, ran),
        log,
        h''.stores,
        h'',
      )
