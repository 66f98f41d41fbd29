-- ===== src/Co/Future/Race/Once.antt =====
-- How often the coroutine goes on.
use liblw.Prelude.{ℕ, ◌+◌, ◌≤◌, ◌<◌, ◌≡◌, ◌≢◌, ◌⊎◌, Bool, true, false, some, arith}
use liblw.Co.Future.Race.{
  Shared, Step, Reach, Calm, CalmReach, start, checking, asleep, awake, idle, stored, finished,
  refused, register, check, suspend, go_on, claim, refuse, store, schedule, leave, here, next,
  undisturbed,
}

-- how often the coroutine has gone on, or was handed over to go on
abbrev pub resumptions : {T : Type 0} → Shared T → ℕ
resumptions s = elim s.awaiter [ awake ↦ s.scheduled + 1 | _ ↦ s.scheduled ]

module _ {T : Type 0} (h : ℕ) (v : T) where
  -- What holds whatever the two threads do.
  pub record Inv (s : Shared T) : Type 0 where
    pub once : s.scheduled ≤ 1
    pub late : 0 < s.scheduled → s.setter ≡ finished
    pub sleeper : s.future_suspended ≡ true → s.awaiter ≡ asleep
    pub woken : 0 < s.scheduled → s.future_suspended ≡ true
    pub valued : (s.setter ≡ stored) ⊎ (s.setter ≡ finished) → s.value ≡ some v
    pub flagged : s.setter ≢ idle → s.state_set ≡ true
    pub unflagged : s.setter ≡ idle → s.state_set ≡ false
    pub single : s.setter ≢ refused

  start-Inv : Inv (start h v)
  unfolding start
  start-Inv = ground arith

  Step-Inv : (s t : Shared T) → Inv s → Step h v s t → Inv t
  Step-Inv s t i (register e k) = rw k (ground arith)
  Step-Inv s t i (check e k) = rw k (ground arith)
  Step-Inv s t i (suspend e k) = rw k (ground arith)
  Step-Inv s t i (go_on e k) = rw k (ground arith)
  Step-Inv s t i (claim e l k) = rw k (ground arith)
  Step-Inv s t i (refuse e l k) = rw k (ground arith)
  Step-Inv s t i (store e k) = rw k (ground arith)
  Step-Inv s t i (schedule e l k) = rw k (ground arith)
  Step-Inv s t i (leave e l k) = rw k (ground arith)

  Reach-Inv : {s t : Shared T} → Inv s → Reach h v s t → Inv t
  Reach-Inv i here = i
  Reach-Inv i (next {t} {u} r st) = Step-Inv t u (Reach-Inv i r) st

  -- However the accesses of the two threads interleave, the coroutine does not go on twice, and it
  -- is handed over only when it sleeps and the value is stored.
  pub resumed_at_most_once :
      {t : Shared T}
      → Reach h v (start h v) t
      → (resumptions t ≤ 1) × ((t.scheduled ≡ 0) ⊎ ((t.awaiter ≡ asleep) × (t.value ≡ some v)))
  resumed_at_most_once {t} r =
      let i = Reach-Inv start-Inv r in ground (arith, i.once, i.late, i.sleeper, i.woken, i.valued)

  -- What holds as well if the read and the write of `await_suspend` are not disturbed.
  pub record CalmInv (s : Shared T) : Type 0 where
    pub inv : Inv s
    pub agreed : (r : Bool) → s.awaiter ≡ checking r → s.state_set ≡ r
    pub slept : s.awaiter ≡ asleep → s.future_suspended ≡ true
    pub went : s.awaiter ≡ awake → s.state_set ≡ true
    pub sent : s.awaiter ≡ asleep → s.setter ≡ finished → s.scheduled ≡ 1

  start-CalmInv : CalmInv (start h v)
  unfolding start
  start-CalmInv = record {
    inv = start-Inv;
    agreed = λ r e. absurd (cc);
    slept = λ e. absurd (cc);
    went = λ e. absurd (cc);
    sent = λ e. absurd (cc);
  }

  -- a step keeps what is said of the flag that was read
  Step-agreed :
      (s t : Shared T)
      → CalmInv s
      → Step h v s t
      → ((r : Bool) → s.awaiter ≡ checking r → s.setter ≡ t.setter)
      → (r : Bool) → t.awaiter ≡ checking r
      → t.state_set ≡ r
  Step-agreed s t i (register e k) quiet r a = ground (arith, i.agreed r, quiet r)
  Step-agreed s t i (check e k) quiet r a = ground (arith, i.agreed r, quiet r)
  Step-agreed s t i (suspend e k) quiet r a = ground (arith, i.agreed r, quiet r)
  Step-agreed s t i (go_on e k) quiet r a = ground (arith, i.agreed r, quiet r)
  Step-agreed s t i (claim e l k) quiet r a = ground (arith, i.agreed r, quiet r)
  Step-agreed s t i (refuse e l k) quiet r a = ground (arith, i.agreed r, quiet r)
  Step-agreed s t i (store e k) quiet r a = ground (arith, i.agreed r, quiet r)
  Step-agreed s t i (schedule e l k) quiet r a = ground (arith, i.agreed r, quiet r)
  Step-agreed s t i (leave e l k) quiet r a = ground (arith, i.agreed r, quiet r)

  Step-rest :
      (s t : Shared T)
      → CalmInv s
      → Step h v s t
      → (t.awaiter ≡ asleep → t.future_suspended ≡ true)
        × (t.awaiter ≡ awake → t.state_set ≡ true)
        × (t.awaiter ≡ asleep → t.setter ≡ finished → t.scheduled ≡ 1)
  Step-rest s t i (register e k) = ground (arith, i.agreed true, i.agreed false)
  Step-rest s t i (check e k) = ground (arith, i.agreed true, i.agreed false)
  Step-rest s t i (suspend e k) = ground (arith, i.agreed true, i.agreed false)
  Step-rest s t i (go_on e k) = ground (arith, i.agreed true, i.agreed false)
  Step-rest s t i (claim e l k) = ground (arith, i.agreed true, i.agreed false)
  Step-rest s t i (refuse e l k) = ground (arith, i.agreed true, i.agreed false)
  Step-rest s t i (store e k) = ground (arith, i.agreed true, i.agreed false)
  Step-rest s t i (schedule e l k) = ground (arith, i.agreed true, i.agreed false)
  Step-rest s t i (leave e l k) = ground (arith, i.agreed true, i.agreed false)

  Calm-CalmInv : (s t : Shared T) → CalmInv s → Calm h v s t → CalmInv t
  Calm-CalmInv s t i (undisturbed st quiet) =
      let (slept, went, sent) = Step-rest s t i st in
      record {
        inv = Step-Inv s t i.inv st;
        agreed = Step-agreed s t i st quiet;
        slept = slept;
        went = went;
        sent = sent;
      }

  pub Reach-CalmInv : {t : Shared T} → CalmReach h v (start h v) t → CalmInv t
  Reach-CalmInv here = start-CalmInv
  Reach-CalmInv (next {t} {u} r st) = Calm-CalmInv t u (Reach-CalmInv r) st
