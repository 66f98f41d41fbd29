-- ===== src/Co/Scheduler/Threads/Registry.antt =====
-- One scheduler for each thread.
use liblw.Prelude.{ℕ, ◌≡◌, ◌≢◌, refl, Option-cases, inl, inr, arith}
use liblw.Err.{ok, throws, failed_precondition}
use liblw.Memory.Store.{Slots, update}
use liblw.Co.Scheduler.Threads.{construct, this_thread, for_thread, check_thread, insert_new}

module _ {S : Type 0} (new_scheduler : S) where
  -- A thread always gets a scheduler, and from then on the same one, from every thread; the other
  -- threads keep theirs. `run` on it is refused on every other thread.
  this_thread_lem :
      (thread other : ℕ) (schedulers : Slots S)
      → other ≢ thread
      → (s : S) × (after : Slots S) × (this_thread new_scheduler thread schedulers ≡ ok (s, after))
        × (this_thread new_scheduler thread after ≡ ok (s, after))
        × (for_thread new_scheduler thread after ≡ ok s)
        × (after other ≡ schedulers other)
        × (check_thread new_scheduler thread thread after ≡ ok tt)
        × (check_thread new_scheduler other thread after ≡ throws failed_precondition)
  unfolding this_thread for_thread check_thread construct insert_new
  this_thread_lem thread other schedulers ne = elim (Option-cases (schedulers thread)) [
    | inl absent ↦ (
      new_scheduler,
      update schedulers thread new_scheduler,
      ground (arith, absent),
      ground arith,
      ground arith,
      ground (arith, ne),
      ground arith,
      refuse (update schedulers thread new_scheduler),
    )
    | inr (s, e) ↦ (
      s,
      schedulers,
      ground (arith, e),
      ground (arith, e),
      ground (arith, e),
      refl,
      ground (arith, e),
      refuse schedulers,
    )
  ]
    where
      refuse :
          (after : Slots S)
          → check_thread new_scheduler other thread after ≡ throws failed_precondition
      refuse after = elim (Option-cases (after other)) [
        | inl e ↦ ground (arith, e)
        | inr (s, e) ↦ ground (arith, e, ne)
      ]
