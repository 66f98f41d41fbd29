-- ===== src/Co/Scheduler/Rounds/Ended.antt =====
-- How the loop of `run` ends.
use liblw.Prelude.{
  ℕ, zero, suc, ◌≡◌, ◌⊎◌, inl, inr, refl, sym, ◌∙◌, Bool, true, false, List, [], arith,
}
use liblw.Err.{Result, ok, throws, undefined}
use liblw.Err.Action.{next}
use liblw.Memory.CircularQueue.Refine.{Represents}
use liblw.Co.Epoll.{Os}
use liblw.Co.Epoll.Reserved.{Reliable}
use liblw.Co.Scheduler.{Scheduler, Body, make_scheduler, wait, keeps_polling, run_rounds, run}
use liblw.Co.Scheduler.Ready.{IsPolite, Ready}
use liblw.Co.Scheduler.Rounds.{GoesOn, wait-GoesOn}
use liblw.Co.Scheduler.Rounds.Reachable.{Reach, Reach-Ready, polling-Ready, empty_or_announced}

module _ {K : Type 0} (os : Os K) (queue_size buffer_size : ℕ) (code : ℕ → List ℕ → Body)
    (reserved : ℕ → Bool) (counter : K → ℕ → ℕ) (reliable : Reliable os reserved counter)
    (polite : (i : ℕ) (log : List ℕ) → IsPolite reserved (code i log)) where
  -- what holds when the loop of `run` has ended
  Ended : Scheduler K → Type 0
  Ended t = (t.continue_polling ≡ false) ⊎ Represents t.coro_queue []

  guard-Ended :
      (s : Scheduler K) (xs : List ℕ)
      → Ready reserved counter s xs 0
      → keeps_polling os queue_size buffer_size code s ≡ false
      → Ended s
  unfolding Ended
  guard-Ended s xs h e =
      elim (empty_or_announced os queue_size buffer_size code reserved counter reliable polite s xs
        h) [
          | inl none_left ↦ inr (rw none_left at h.stores)
          | inr (told, same) ↦ inl (sym same ∙ e)
        ]

  next-Ended :
      (rounds : ℕ) (t : Scheduler K) (r : Result ℕ × Scheduler K)
      → GoesOn os queue_size buffer_size code reserved counter reliable polite r
      → next r.0 (λ n. run_rounds os queue_size buffer_size code rounds) r.1 ≡ (ok true, t)
      → ((u : Scheduler K) (xs : List ℕ)
          → Ready reserved counter u xs 0
          → run_rounds os queue_size buffer_size code rounds u ≡ (ok true, t)
          → Ended t)
      → Ended t
  next-Ended rounds t (ok n, u) g e again = again u g.queued g.ready e
  next-Ended rounds t (throws x, u) g e again = absurd (cc)
  next-Ended rounds t (undefined, u) g e again = absurd (cc)

  run_rounds-Ended :
      (rounds : ℕ) (s t : Scheduler K) (xs : List ℕ)
      → Ready reserved counter s xs 0
      → run_rounds os queue_size buffer_size code rounds s ≡ (ok true, t)
      → Ended t
  unfolding run_rounds
  run_rounds-Ended zero s t xs h e = absurd (cc)
  run_rounds-Ended (suc rounds) s t xs h e =
      by_guard (keeps_polling os queue_size buffer_size code s) refl
        (λ u ys h' e'. run_rounds-Ended rounds u t ys h' e')
    where
      by_guard :
          (b : Bool)
          → keeps_polling os queue_size buffer_size code s ≡ b
          → ((u : Scheduler K) (ys : List ℕ)
              → Ready reserved counter u ys 0
              → run_rounds os queue_size buffer_size code rounds u ≡ (ok true, t)
              → Ended t)
          → Ended t
      by_guard true p again =
          let g =
            wait-GoesOn os queue_size buffer_size code reserved counter reliable polite s xs h in
          next-Ended rounds t (wait os queue_size buffer_size code s) g (ground (arith, p, e)) again
      by_guard false p again =
          let same : s ≡ t = ground (arith, p, e) in rw (sym same) (guard-Ended s xs h p)

  -- Suppose that no coroutine lets an exception escape from `resume()` or waits for the loop's own
  -- eventfd, and that the calls of eventfd, and of epoll for it, succeed. If `run` then returns
  -- without an exception, in any state that can be reached and after any number of rounds, it was
  -- stopped or no coroutine is queued.
  pub run_ends :
      (k : K) {s : Scheduler K}
      → Reach os queue_size buffer_size code reserved
          (make_scheduler os queue_size buffer_size code k)
          s
      → (rounds : ℕ) {t : Scheduler K} → run os queue_size buffer_size code rounds s ≡ (ok true, t)
      → (t.continue_polling ≡ false) ⊎ Represents t.coro_queue []
  unfolding run Ended
  run_ends k {s} r rounds {t} e =
      let (xs, h) =
        Reach-Ready os queue_size buffer_size code reserved counter reliable polite k r in
      run_rounds-Ended rounds (record s { continue_polling = true }) t xs
        (polling-Ready os queue_size buffer_size code reserved counter reliable polite s xs true h)
        e
