-- ===== src/Co/Epoll/Reserved.antt =====
-- Some file descriptors are the event loop's own: what it relies on when it uses them.
use liblw.Prelude.{
  ℕ, ◌≡◌, ◌≢◌, ◌<◌, refl, Bool, true, none, [], ◌∷◌, inl, inr, arith, ◌==◌, Bool-cases,
}
use liblw.Co.Epoll.{Os, returned, Callbacks, find, erase}

-- What `eventfd(2)` and `epoll_ctl(2)` document, for the descriptors that `eventfd` gives: they are
-- not 0, a write adds to the counter, a read of a counter that is not 0 succeeds, and so do
-- the calls of `epoll_ctl`, which touch no counter. Left out are what the kernel reports for
-- a full counter, a lack of descriptors or of memory (EMFILE, ENFILE, ENOMEM, ENOSPC), and for a
-- descriptor that is added twice (EEXIST).
pub record Reliable {K : Type 0} (os : Os K) (reserved : ℕ → Bool) (counter : K → ℕ → ℕ)
    : Type 0 where
  pub eventfd_ok :
      (k : K)
      → (fd : ℕ) × (k' : K) × (os.eventfd k ≡ (returned fd, k')) × (reserved fd ≡ true) × (fd ≢ 0)
  pub write_ok :
      (k : K) (fd : ℕ)
      → reserved fd ≡ true
      → (k' : K) × (os.write_eventfd fd k ≡ (returned tt, k')) × (0 < counter k' fd)
  pub read_ok :
      (k : K) (fd : ℕ)
      → reserved fd ≡ true
      → 0 < counter k fd
      → (k' : K) × (os.read_eventfd fd k ≡ (returned tt, k'))
  pub add_ok :
      (k : K) (fd events : ℕ)
      → reserved fd ≡ true
      → (k' : K) × (os.epoll_ctl_add fd events k ≡ (returned tt, k'))
  pub del_ok :
      (k : K) (fd : ℕ) → reserved fd ≡ true → (k' : K) × (os.epoll_ctl_del fd k ≡ (returned tt, k'))
  pub add_counter :
      (k : K) (fd events i : ℕ) → counter (os.epoll_ctl_add fd events k).1 i ≡ counter k i
  pub del_counter : (k : K) (fd i : ℕ) → counter (os.epoll_ctl_del fd k).1 i ≡ counter k i
  pub wait_counter : (k : K) (n i : ℕ) → counter (os.epoll_wait n k).1 i ≡ counter k i

module _ {C : Type 0} where
  pub find-erase_self : (fd : ℕ) (cs : Callbacks C) → find fd (erase fd cs) ≡ none
  unfolding find erase
  find-erase_self fd [] = refl
  find-erase_self fd ((i, callback, shot) ∷ more) = elim (Bool-cases (i == fd)) [
    | inl e ↦ ground (arith, e, find-erase_self fd more)
    | inr e ↦ ground (arith, e, find-erase_self fd more)
  ]

  pub find-erase_ne : (fd i : ℕ) (cs : Callbacks C) → i ≢ fd → find fd (erase i cs) ≡ find fd cs
  unfolding find erase
  find-erase_ne fd i [] ne = refl
  find-erase_ne fd i ((j, callback, shot) ∷ more) ne =
      ground (arith, ne, find-erase_ne fd i more ne)
