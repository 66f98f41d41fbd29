-- ===== src/Memory/Store.antt =====
-- A block of storage: what each of its slots holds, if anything has been written there.
use liblw.Prelude.{ℕ, Option, some, ◌==◌, if◌then◌else◌}

abbrev pub Slots {ℓ} : Type ℓ → Type ℓ
Slots A = ℕ → Option A

abbrev pub update {ℓ} : {A : Type ℓ} → Slots A → ℕ → A → Slots A
update f p v q = if p == q then some v else f q
