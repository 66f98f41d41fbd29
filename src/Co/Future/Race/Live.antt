-- ===== src/Co/Future/Race/Live.antt =====
-- Undisturbed, the two threads come to an end, and the coroutine goes on.
use liblw.Prelude.{
  ℕ, ◌+◌, ◌<◌, ◌≡◌, refl, Bool, true, false, some, Bool-cases, inl, inr, arith, ltb, eq_or_ne, ◌⊎◌,
}
use liblw.Co.Future.Race.{
  Awaiter, Setter, Shared, Step, Calm, CalmReach, start, arriving, registered, checking, asleep,
  awake, idle, claimed, stored, finished, refused, register, check, suspend, go_on, claim, refuse,
  store, schedule, leave, undisturbed,
}
use liblw.Co.Future.Race.Once.{Inv, CalmInv, Reach-CalmInv, resumptions}

-- the accesses that are left
abbrev pub awaiter_left : Awaiter → ℕ
awaiter_left arriving = 3
awaiter_left registered = 2
awaiter_left (checking r) = 1
awaiter_left _ = 0

abbrev pub setter_left : Setter → ℕ
setter_left idle = 3
setter_left claimed = 2
setter_left stored = 1
setter_left _ = 0

abbrev pub left : {T : Type 0} → Shared T → ℕ
left s = awaiter_left s.awaiter + setter_left s.setter

module _ {T : Type 0} (h : ℕ) (v : T) where
  Step-left : {s t : Shared T} → Step h v s t → left t < left s
  Step-left (register e k) = ground (arith, e, k)
  Step-left (check e k) = ground (arith, e, k)
  Step-left (suspend e k) = ground (arith, e, k)
  Step-left (go_on e k) = ground (arith, e, k)
  Step-left (claim e l k) = ground (arith, e, k)
  Step-left (refuse e l k) = ground (arith, e, k)
  Step-left (store e k) = ground (arith, e, k)
  Step-left (schedule e l k) = ground (arith, e, k)
  Step-left (leave e l k) = ground (arith, e, k)

  Calm-left : {s t : Shared T} → Calm h v s t → left t < left s
  Calm-left (undisturbed st quiet) = Step-left st

  -- the thread that awaits can go on
  awaiter_moves : (s : Shared T) → 0 < awaiter_left s.awaiter → (t : Shared T) × Calm h v s t
  awaiter_moves s some_left = by_place s.awaiter refl
    where
      by_place : (a : Awaiter) → s.awaiter ≡ a → (t : Shared T) × Calm h v s t
      by_place arriving e = (_, undisturbed (register e refl) (λ r k. refl))
      by_place registered e = (_, undisturbed (check e refl) (λ r k. refl))
      by_place (checking false) e = (_, undisturbed (suspend e refl) (λ r k. refl))
      by_place (checking true) e = (_, undisturbed (go_on e refl) (λ r k. refl))
      by_place asleep e = absurd (ground (arith, e, some_left))
      by_place awake e = absurd (ground (arith, e, some_left))

  -- the thread that sets can go on, once the other is done
  setter_moves :
      (s : Shared T)
      → Inv h v s
      → awaiter_left s.awaiter ≡ 0
      → 0 < setter_left s.setter
      → (t : Shared T) × Calm h v s t
  setter_moves s i done some_left = by_place s.setter refl
    where
      apart : (p : Setter) (r : Bool) → s.awaiter ≡ checking r → s.setter ≡ p
      apart p r k = absurd (ground (arith, k, done))

      by_flag :
          s.setter ≡ stored → (b : Bool) → s.future_suspended ≡ b → (t : Shared T) × Calm h v s t
      by_flag e true f = (
        record s { scheduled = s.scheduled + 1; setter = finished },
        undisturbed (schedule e f refl) (apart finished),
      )
      by_flag e false f =
          (record s { setter = finished }, undisturbed (leave e f refl) (apart finished))

      by_place : (p : Setter) → s.setter ≡ p → (t : Shared T) × Calm h v s t
      by_place idle e = (
        record s { state_set = true; setter = claimed },
        undisturbed (claim e (i.unflagged e) refl) (apart claimed),
      )
      by_place claimed e =
          (record s { value = some v; setter = stored }, undisturbed (store e refl) (apart stored))
      by_place stored e = by_flag e s.future_suspended refl
      by_place finished e = absurd (ground (arith, e, some_left))
      by_place refused e = absurd (i.single e)

  -- If the setter does nothing between the read of `state_set` and the write of
  -- `future_suspended`, then either no access is left, the value is stored, and the coroutine has
  -- gone on, or was handed over, exactly once; or one of the threads can go on, and leaves fewer
  -- accesses to do. That the value is stored when the coroutine goes on is not claimed.
  pub resumed_in_the_end :
      {t : Shared T}
      → CalmReach h v (start h v) t
      → ((left t ≡ 0) × (resumptions t ≡ 1) × (t.value ≡ some v))
        ⊎ ((u : Shared T) × Calm h v t u × (left u < left t))
  resumed_in_the_end {t} r = elim (eq_or_ne (left t) 0) [
    | inl none_left ↦ inl (none_left, (ends none_left).0, (ends none_left).1)
    | inr ne ↦ let (u, move) = moves (omega arith) in inr (u, move, Calm-left move)
  ]
    where
      i : CalmInv h v t
      i = Reach-CalmInv h v r

      moves : 0 < left t → (u : Shared T) × Calm h v t u
      moves some_left = elim (Bool-cases (ltb 0 (awaiter_left t.awaiter))) [
        | inl e ↦ awaiter_moves t (ground (arith, e))
        | inr e ↦ setter_moves t i.inv (ground (arith, e)) (ground (arith, e, some_left))
      ]

      ends : left t ≡ 0 → (resumptions t ≡ 1) × (t.value ≡ some v)
      ends none_left = ground (
        arith, none_left, i.slept, i.went, i.sent, i.inv.once, i.inv.late, i.inv.woken,
        i.inv.valued, i.inv.flagged, i.inv.sleeper, i.inv.single,
      )
