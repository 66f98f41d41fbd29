-- ===== src/Co/Scheduler/Rounds/Reachable.antt =====
-- Every state that a scheduler comes to, from its constructor on.
use liblw.Prelude.{ℕ, ◌≡◌, ◌⊎◌, inl, inr, refl, Bool, true, some, List, [], ◌∷◌, ◌++◌, arith}
use liblw.Err.{ok}
use liblw.Memory.CircularQueue.Refine.{Represents, make-Represents}
use liblw.Co.Epoll.{Os, find, has_pending_items}
use liblw.Co.Epoll.Reserved.{Reliable}
use liblw.Co.Scheduler.{
  Callback, Scheduler, Call, Body, make_scheduler, do_call, fire, wait, keeps_polling,
}
use liblw.Co.Scheduler.Notify.{IsNotified}
use liblw.Co.Scheduler.Ready.{IsPolite, Allows, Ready}
use liblw.Co.Scheduler.Work.{do_call-Adds}
use liblw.Co.Scheduler.Drain.{fire_resumes}
use liblw.Co.Scheduler.Rounds.{wait-GoesOn}

module _ {K : Type 0} (os : Os K) (queue_size buffer_size : ℕ) (code : ℕ → List ℕ → Body)
    (reserved : ℕ → Bool) where
  -- One event in the life of a scheduler: somebody calls it, its loop makes a round, or `run` begins.
  pub data Step (s t : Scheduler K) : Type 0 where
    asked :
        (c : Call)
        → Allows reserved c
        → t ≡ (do_call os queue_size buffer_size code c s).1
        → Step s t
    waited : t ≡ (wait os queue_size buffer_size code s).1 → Step s t
    started : t ≡ record s { continue_polling = true } → Step s t

  pub data Reach (s : Scheduler K) : Scheduler K → Type 0 where
    here : Reach s s
    after : {t u : Scheduler K} → Reach s t → Step t u → Reach s u

module _ {K : Type 0} (os : Os K) (queue_size buffer_size : ℕ) (code : ℕ → List ℕ → Body)
    (reserved : ℕ → Bool) (counter : K → ℕ → ℕ) (reliable : Reliable os reserved counter)
    (polite : (i : ℕ) (log : List ℕ) → IsPolite reserved (code i log)) where
  make_scheduler-Ready :
      (k : K) → Ready reserved counter (make_scheduler os queue_size buffer_size code k) [] 0
  unfolding make_scheduler find
  make_scheduler-Ready k = record {
    owns = record {
      fd_reserved = λ ne. absurd (ne refl);
      drains = λ fd c own at. absurd (cc);
      resumes = λ fd c other at. absurd (cc);
    };
    stores = make-Represents queue_size;
    announced = λ lt. absurd (omega arith);
    live = λ c at ne. absurd (ne refl);
  }

  pub polling-Ready :
      (s : Scheduler K) (xs : List ℕ) (b : Bool)
      → Ready reserved counter s xs 0
      → Ready reserved counter (record s { continue_polling = b }) xs 0
  polling-Ready s xs b h = record {
    owns = record {
      fd_reserved = h.owns.fd_reserved;
      drains = h.owns.drains;
      resumes = h.owns.resumes;
    };
    stores = h.stores;
    announced = λ lt. still (h.announced lt);
    live = λ c at ne. still (h.live c at ne);
  }
    where
      still :
          IsNotified reserved counter s
          → IsNotified reserved counter (record s { continue_polling = b })
      still told = record {
        fd_open = told.fd_open;
        watched = told.watched;
        signalled = told.signalled;
      }

  Step-Ready :
      (s t : Scheduler K) (xs : List ℕ)
      → Ready reserved counter s xs 0
      → Step os queue_size buffer_size code reserved s t
      → (ys : List ℕ) × Ready reserved counter t ys 0
  Step-Ready s t xs h (asked c allowed e) =
      let (o, u, ys, called, h', log) =
        do_call-Adds os queue_size buffer_size code reserved counter reliable c s xs 0 allowed h in
      (xs ++ ys, rw (e, called) h')
  Step-Ready s t xs h (waited e) =
      let g = wait-GoesOn os queue_size buffer_size code reserved counter reliable polite s xs h in
      (g.queued, rw e g.ready)
  Step-Ready s t xs h (started e) = (xs, rw e (polling-Ready s xs true h))

  pub Reach-Ready :
      (k : K) {t : Scheduler K}
      → Reach os queue_size buffer_size code reserved
          (make_scheduler os queue_size buffer_size code k)
          t
      → (xs : List ℕ) × Ready reserved counter t xs 0
  Reach-Ready k here = ([], make_scheduler-Ready k)
  Reach-Ready k (after {t} {u} r st) = let (xs, h) = Reach-Ready k r in Step-Ready t u xs h st

  -- a loop that watches anything goes on until it is stopped
  keeps_polling_watched :
      (s : Scheduler K) (fd : ℕ) (c : Callback × Bool)
      → find fd s.epoll.callbacks ≡ some c
      → keeps_polling os queue_size buffer_size code s ≡ s.continue_polling
  unfolding keeps_polling find has_pending_items
  keeps_polling_watched s fd c at = by_list s.epoll.callbacks refl
    where
      by_list :
          (l : List (ℕ × Callback × Bool))
          → s.epoll.callbacks ≡ l
          → keeps_polling os queue_size buffer_size code s ≡ s.continue_polling
      by_list [] e = absurd (ground (arith, at, e))
      by_list (x ∷ l) e = ground (arith, e)

  empty_or_told :
      (s : Scheduler K) (xs : List ℕ)
      → Ready reserved counter s xs 0
      → (xs ≡ []) ⊎ IsNotified reserved counter s
  empty_or_told s [] h = inl refl
  empty_or_told s (x ∷ xs) h = inr (h.announced (omega arith))

  pub empty_or_announced :
      (s : Scheduler K) (xs : List ℕ)
      → Ready reserved counter s xs 0
      → (xs ≡ [])
        ⊎ (IsNotified reserved counter s
            × (keeps_polling os queue_size buffer_size code s ≡ s.continue_polling))
  empty_or_announced s xs h = elim (empty_or_told s xs h) [
    | inl e ↦ inl e
    | inr told ↦ inr (told, keeps_polling_watched s s.queue_notification_fd _ told.watched)
  ]

  module _ (k : K) {t : Scheduler K}
      (r : Reach os queue_size buffer_size code reserved
        (make_scheduler os queue_size buffer_size code k)
        t) where
    -- Suppose that no coroutine lets an exception escape from `resume()` or waits for the loop's own
    -- eventfd, and that the calls of eventfd, and of epoll for it, succeed. Then in every state
    -- that can be reached with coroutines in the queue, the round of the loop for the notification
    -- resumes exactly these, oldest first, and throws nothing; those that were scheduled in the
    -- meantime are then in the queue, and announced.
    pub queue_resumed :
        (xs : List ℕ) × Represents t.coro_queue xs
        × ((xs ≡ [])
            ⊎ ((u : Scheduler K) × (ys : List ℕ) × (fire os queue_size buffer_size code
                    t.queue_notification_fd t
                  ≡ (ok tt, u))
                × (u.resumed ≡ t.resumed ++ xs)
                × Represents u.coro_queue ys
                × ((ys ≡ []) ⊎ IsNotified reserved counter u)))
    queue_resumed = let (xs, h) = Reach-Ready k r in (xs, h.stores, by_list xs h)
      where
        by_list :
            (xs : List ℕ)
            → Ready reserved counter t xs 0
            → (xs ≡ [])
              ⊎ ((u : Scheduler K) × (ys : List ℕ) × (fire os queue_size buffer_size code
                      t.queue_notification_fd t
                    ≡ (ok tt, u))
                  × (u.resumed ≡ t.resumed ++ xs)
                  × Represents u.coro_queue ys
                  × ((ys ≡ []) ⊎ IsNotified reserved counter u))
        by_list [] h = inl refl
        by_list (x ∷ xs) h =
            let (u, ys, ran, log, v, h') =
              fire_resumes os queue_size buffer_size code reserved counter reliable polite t
                (x ∷ xs) h (h.announced (omega arith)) in
            inr (u, ys, ran, log, v, empty_or_told u ys h')
