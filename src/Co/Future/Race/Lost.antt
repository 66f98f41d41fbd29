-- ===== src/Co/Future/Race/Lost.antt =====
-- The interleaving in which the coroutine is never resumed.
use liblw.Prelude.{ℕ, ◌≡◌, refl, true, none, some}
use liblw.Co.Future.Race.{
  Shared, Step, Reach, start, asleep, awake, claimed, finished, register, check, suspend, go_on,
  claim, refuse, store, schedule, leave, here, next,
}

module _ {T : Type 0} (h : ℕ) (v : T) where
  lost : Shared T
  lost = record {
    state_set = true;
    future_suspended = true;
    handle = some h;
    value = some v;
    awaiter = asleep;
    setter = finished;
    scheduled = 0;
  }

  lost-Reach : Reach h v (start h v) lost
  unfolding start lost
  lost-Reach =
      next
        (next
          (next
            (next (next (next here (register refl refl)) (check refl refl)) (claim refl refl refl))
            (store refl refl))
          (leave refl refl refl))
        (suspend refl refl)

  lost-stuck : (u : Shared T) → ¬ Step h v lost u
  unfolding lost
  lost-stuck u (register e k) = absurd (cc)
  lost-stuck u (check e k) = absurd (cc)
  lost-stuck u (suspend e k) = absurd (cc)
  lost-stuck u (go_on e k) = absurd (cc)
  lost-stuck u (claim e l k) = absurd (cc)
  lost-stuck u (refuse e l k) = absurd (cc)
  lost-stuck u (store e k) = absurd (cc)
  lost-stuck u (schedule e l k) = absurd (cc)
  lost-stuck u (leave e l k) = absurd (cc)

  -- With two threads a wakeup can be lost: a state can be reached in which the value is set and its
  -- setter has returned, the coroutine sleeps, nobody has scheduled it, and no step is left.
  pub wakeup_lost :
      (s : Shared T) × Reach h v (start h v) s
      × (s.value ≡ some v)
      × (s.setter ≡ finished)
      × (s.awaiter ≡ asleep)
      × (s.scheduled ≡ 0)
      × ((u : Shared T) → ¬ Step h v s u)
  unfolding lost
  wakeup_lost = (lost, lost-Reach, refl, refl, refl, refl, lost-stuck)

  -- The value can be read before it is there: a state can be reached in which the coroutine goes
  -- on, with the flag set and no value stored.
  pub value_missing :
      (s : Shared T) × Reach h v (start h v) s
      × (s.awaiter ≡ awake)
      × (s.state_set ≡ true)
      × (s.value ≡ none)
  unfolding start
  value_missing = (
    record (start h v) { state_set = true; handle = some h; awaiter = awake; setter = claimed },
    next (next (next (next here (register refl refl)) (claim refl refl refl)) (check refl refl))
        (go_on refl refl),
    refl,
    refl,
    refl,
  )
