-- ===== src/Co/Scheduler/Work.antt =====
-- What the coroutines ask of the scheduler keeps the queue, and announces what they add to it.
use liblw.Prelude.{
  ℕ, ◌≡◌, refl, sym, ap, ◌∙◌, Bool, false, Option, none, some, List, [], ◌∷◌, ◌++◌, append_assoc,
  append-nil, ltb, Bool-cases, Option-cases, inl, inr, arith,
}
use liblw.Err.{Error, Result, ok, throws, resource_exhausted, internal, already_exists}
use liblw.Err.System.{check_system_error-cases}
use liblw.Memory.CircularQueue.Refine.{push_back-Represents, push_back-full}
use liblw.Co.Event.{co_event_to_epoll_event, meets, one_shot}
use liblw.Co.Epoll.{Os, Sys, returned, failed, find, sys, checked, add, watch}
use liblw.Co.Epoll.Reserved.{Reliable}
use liblw.Co.Scheduler.{
  resume_coro, Scheduler, Call, schedule, schedule_on, stop, Body, finish, escape, call, on_epoll,
  schedule_callback, add_to_queue, do_stop, do_call, run_body, resume,
}
use liblw.Co.Scheduler.Ready.{
  outcome, Allows, IsPolite, Ready, Ready-log, Ready-kernel, Ready-watch,
}
use liblw.Co.Scheduler.Notify.{OwnsFds, schedule_queue_drain-IsNotified}

pub checked-throws : {A : Type 0} (n : ℕ) → (e : Error) × (checked {A = A} (failed n) ≡ throws e)
unfolding checked
checked-throws n = elim (check_system_error-cases n) [
  | inl e ↦ (internal, ground (arith, e))
  | inr (e, thrown) ↦ (e, ground (arith, thrown))
]

module _ {K : Type 0} (os : Os K) (queue_size buffer_size : ℕ) (code : ℕ → List ℕ → Body)
    (reserved : ℕ → Bool) (counter : K → ℕ → ℕ) (reliable : Reliable os reserved counter) where
  -- What a call leaves: the coroutines it has added stand behind those that were there.
  abbrev pub Adds : Scheduler K → List ℕ → ℕ → Result (Unit {0}) × Scheduler K → Type 0
  Adds s xs m r =
      (o : Option Error) × (t : Scheduler K) × (ys : List ℕ) × (r ≡ (outcome o, t))
      × Ready reserved counter t (xs ++ ys) m
      × (t.resumed ≡ s.resumed)

  add_to_queue-Adds :
      (coro : ℕ) (s : Scheduler K) (xs : List ℕ) (m : ℕ)
      → Ready reserved counter s xs m
      → Adds s xs m (add_to_queue os queue_size buffer_size code coro s)
  unfolding add_to_queue
  add_to_queue-Adds coro s xs m h =
      elim (Bool-cases (ltb s.coro_queue.size s.coro_queue.capacity)) [
        | inl room ↦
            let (q, pushed, cap, v) =
              push_back-Represents s.coro_queue xs coro h.stores (ground (arith, room)) in
            let s' : Scheduler K = record s { coro_queue = q } in
            let owns' : OwnsFds reserved counter s' = record {
              fd_reserved = h.owns.fd_reserved;
              drains = h.owns.drains;
              resumes = h.owns.resumes;
            } in
            let (t, drained, owns, kept, told) =
              schedule_queue_drain-IsNotified os queue_size buffer_size code reserved counter
                reliable s' owns' in
            (
              none,
              t,
              coro ∷ [],
              rw (pushed, drained) refl,
              record {
                owns = owns;
                stores = rw kept.queue_is v;
                announced = λ lt. told;
                live = λ c at ne. told;
              },
              kept.resumed_is,
            )
        | inr full ↦
            let at_capacity : s.coro_queue.size ≡ s.coro_queue.capacity =
              ground (arith, full, h.stores.fits) in
            (
              some resource_exhausted,
              s,
              [],
              rw (push_back-full s.coro_queue coro at_capacity) refl,
              rw append-nil h,
              refl,
            )
      ]

  stop-Adds :
      (s : Scheduler K) (xs : List ℕ) (m : ℕ)
      → Ready reserved counter s xs m
      → Adds s xs m (do_stop os queue_size buffer_size code s)
  unfolding do_stop
  stop-Adds s xs m h =
      let s' : Scheduler K = record s { continue_polling = false } in
      let owns' : OwnsFds reserved counter s' = record {
        fd_reserved = h.owns.fd_reserved;
        drains = h.owns.drains;
        resumes = h.owns.resumes;
      } in
      let (t, drained, owns, kept, told) =
        schedule_queue_drain-IsNotified os queue_size buffer_size code reserved counter reliable s'
          owns' in
      (
        none,
        t,
        [],
        drained,
        record {
          owns = owns;
          stores = rw (kept.queue_is, append-nil) h.stores;
          announced = λ lt. told;
          live = λ c at ne. told;
        },
        kept.resumed_is,
      )

  -- the system call decides what is thrown, and the loop's own descriptors stay as they were
  watch-Adds :
      (coro handle events : ℕ) (s : Scheduler K) (xs : List ℕ) (m : ℕ)
      → reserved handle ≡ false
      → Ready reserved counter s xs m
      → find handle s.epoll.callbacks ≡ none
      → Adds s xs m
          (schedule_callback os queue_size buffer_size code handle events (resume_coro coro) s)
  unfolding schedule_callback on_epoll add watch sys checked
  watch-Adds coro handle events s xs m free h absent =
      by_result (os.epoll_ctl_add handle (co_event_to_epoll_event events) s.epoll.kernel) refl
    where
      ok_kernel :
          {r : Sys (Unit {0})} {k' : K}
          → os.epoll_ctl_add handle (co_event_to_epoll_event events) s.epoll.kernel ≡ (r, k')
          → (os.epoll_ctl_add handle (co_event_to_epoll_event events) s.epoll.kernel).1 ≡ k'
      ok_kernel e = cc

      unchanged :
          (k' : K)
          → (os.epoll_ctl_add handle (co_event_to_epoll_event events) s.epoll.kernel).1 ≡ k'
          → (i : ℕ) → counter k' i ≡ counter s.epoll.kernel i
      unchanged k' e i =
          rw (sym e) (reliable.add_counter s.epoll.kernel handle (co_event_to_epoll_event events) i)

      by_result :
          (r : Sys (Unit {0}) × K)
          → os.epoll_ctl_add handle (co_event_to_epoll_event events) s.epoll.kernel ≡ r
          → Adds s xs m
              (schedule_callback os queue_size buffer_size code handle events (resume_coro coro) s)
      by_result (returned _, k') e = (
        none,
        record s {
          epoll = record {
            callbacks = (handle, resume_coro coro, meets events one_shot) ∷ s.epoll.callbacks;
            kernel = k';
          };
        },
        [],
        ground (arith, absent, e),
        rw append-nil (
            Ready-watch reserved counter s xs m k' (unchanged k' (ok_kernel e)) handle coro
              (meets events one_shot) free h),
        refl,
      )
      by_result (failed n, k') e =
          let (thrown, same) = checked-throws {A = Unit {0}} n in
          (
            some thrown,
            record s { epoll = record s.epoll { kernel = k' } },
            [],
            ground (arith, absent, e, same),
            rw append-nil (Ready-kernel reserved counter s xs m k' (unchanged k' (ok_kernel e)) h),
            refl,
          )

  schedule_on-Adds :
      (coro handle events : ℕ) (s : Scheduler K) (xs : List ℕ) (m : ℕ)
      → reserved handle ≡ false
      → Ready reserved counter s xs m
      → Adds s xs m
          (schedule_callback os queue_size buffer_size code handle events (resume_coro coro) s)
  unfolding schedule_callback on_epoll add
  schedule_on-Adds coro handle events s xs m free h =
      elim (Option-cases (find handle s.epoll.callbacks)) [
        | inl absent ↦ watch-Adds coro handle events s xs m free h absent
        | inr (c, e) ↦ (some already_exists, s, [], ground (arith, e), rw append-nil h, refl)
      ]

  pub do_call-Adds :
      (c : Call) (s : Scheduler K) (xs : List ℕ) (m : ℕ)
      → Allows reserved c
      → Ready reserved counter s xs m
      → Adds s xs m (do_call os queue_size buffer_size code c s)
  unfolding do_call
  do_call-Adds (schedule coro) s xs m a h = add_to_queue-Adds coro s xs m h
  do_call-Adds (schedule_on coro handle events) s xs m a h =
      schedule_on-Adds coro handle events s xs m a h
  do_call-Adds stop s xs m a h = stop-Adds s xs m h

  -- What a coroutine leaves that was resumed and threw nothing.
  abbrev pub Worked : Scheduler K → List ℕ → ℕ → List ℕ → Result (Unit {0}) × Scheduler K → Type 0
  Worked s xs m coros r =
      (t : Scheduler K) × (ys : List ℕ) × (r ≡ (ok tt, t))
      × Ready reserved counter t (xs ++ ys) m
      × (t.resumed ≡ s.resumed ++ coros)

  run_body-call :
      (c : Call) (k : Option Error → Body) (s t : Scheduler K) (o : Option Error)
      → do_call os queue_size buffer_size code c s ≡ (outcome o, t)
      → run_body os queue_size buffer_size code (call c k) s
        ≡ run_body os queue_size buffer_size code (k o) t
  unfolding run_body
  run_body-call c k s t none e = ground (arith, e)
  run_body-call c k s t (some x) e = ground (arith, e)

  run_body-Worked :
      (b : Body) (s : Scheduler K) (xs : List ℕ) (m : ℕ)
      → IsPolite reserved b
      → Ready reserved counter s xs m
      → Worked s xs m [] (run_body os queue_size buffer_size code b s)
  unfolding run_body
  run_body-Worked finish s xs m p h = (s, [], refl, rw append-nil h, sym (append-nil s.resumed))
  run_body-Worked (escape e) s xs m p h = elim p [ ]
  run_body-Worked (call c k) s xs m (a, p) h =
      let (o, t, ys, called, h', same) = do_call-Adds c s xs m a h in
      let (u, zs, ran, h'', same') = run_body-Worked (k o) t (xs ++ ys) m (p o) h' in
      (
        u,
        ys ++ zs,
        run_body-call c k s t o called ∙ ran,
        rw append_assoc at h'',
        same' ∙ ap (λ l. l ++ []) same,
      )

  -- `coro.resume()`, where every coroutine is polite
  pub resume-Worked :
      (coro : ℕ) (s : Scheduler K) (xs : List ℕ) (m : ℕ)
      → ((i : ℕ) (log : List ℕ) → IsPolite reserved (code i log))
      → Ready reserved counter s xs m
      → Worked s xs m (coro ∷ []) (resume os queue_size buffer_size code coro s)
  unfolding resume
  resume-Worked coro s xs m polite h =
      let s' : Scheduler K = record s { resumed = s.resumed ++ (coro ∷ []) } in
      let (t, ys, ran, h', same) =
        run_body-Worked (code coro s.resumed) s' xs m (polite coro s.resumed)
          (Ready-log reserved counter s xs m h (coro ∷ [])) in
      (t, ys, ran, h', same ∙ append-nil (s.resumed ++ (coro ∷ [])))
