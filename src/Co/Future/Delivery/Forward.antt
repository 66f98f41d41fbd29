-- ===== src/Co/Future/Delivery/Forward.antt =====
-- A coroutine that returns the future of another: `return_value(Future<T>&&)`.
use liblw.Prelude.{
  ℕ, zero, suc, ◌≡◌, ◌≢◌, refl, ◌∙◌, false, none, some, List, get_elem?, set, get_elem?-set_self,
  get_elem?-set_ne,
}
use liblw.Err.{Error, ok, throws}
use liblw.Err.Action.{Action}
use liblw.Co.Future.{
  State, Future, Promise, World, return_future, set_value, set_exception, await_resume,
}
use liblw.Co.Future.Chain.{Ends}
use liblw.Co.Future.Chain.Walk.{get_elem?-in}
use liblw.Co.Future.Delivery.{LeadsTo, get_state-LeadsTo}
use liblw.Co.Future.Delivery.Once.{await_resume-set_value}

module _ {T : Type 0} where
  -- A new link from the end of another chain leaves this one.
  Ends-link :
      (states : List (State T)) (n a b v : ℕ) (t t' : State T)
      → get_elem? states v ≡ some t
      → t.chain_state ≡ none
      → b ≢ v
      → Ends states n a b
      → Ends (set states v t') n a b
  Ends-link states zero a b v t t' at free ne (s, e, k, end) =
      (s, get_elem?-set_ne states t' (λ eq. ne (cc)) ∙ e, k, end)
  Ends-link states (suc n) a b v t t' at free ne (s, c, e, l, rest) = (
    s,
    c,
    get_elem?-set_ne states t' (λ eq. absurd (cc)) ∙ e,
    l,
    Ends-link states n c b v t t' at free ne rest,
  )

module _ {T S : Type 0} (moved : T → T) (schedule : ℕ → ℕ → Action S (Unit {0})) where
  return_future_links :
      (outer inner : Promise) (f : Future) (w : World T S) (b v : ℕ) (s t : State T)
      → LeadsTo w.states outer.state b s
      → f.state ≡ some v
      → inner.state ≡ some v
      → get_elem? w.states v ≡ some t
      → t.state_set ≡ false
      → t.chain_state ≡ none
      → b ≢ v
      → (x : T) (e : Error)
      → (w' : World T S) × (return_future moved schedule outer f w ≡ (ok tt, w'))
        × (set_value moved schedule inner x w' ≡ set_value moved schedule outer x w')
        × (set_exception moved schedule inner e w' ≡ set_exception moved schedule outer e w')
        × LeadsTo w'.states inner.state b s
        × LeadsTo w'.states outer.state b s
  unfolding return_future set_value set_exception
  return_future_links outer inner f w b v s t ho ef ei at unset free ne x e = (
    w',
    rw (ef, at, unset) refl,
    rw
        (
          get_state-LeadsTo moved schedule outer.state w' b s outer_leads,
          get_state-LeadsTo moved schedule inner.state w' b s inner_leads,
        )
        refl,
    rw
        (
          get_state-LeadsTo moved schedule outer.state w' b s outer_leads,
          get_state-LeadsTo moved schedule inner.state w' b s inner_leads,
        )
        refl,
    inner_leads,
    outer_leads,
  )
    where
      t' : State T
      t' = record t { chain_state = outer.state }

      w' : World T S
      w' = record w { states = set w.states v t' }

      kept : Ends w'.states ho.links ho.first b
      kept = Ends-link w.states ho.links ho.first b v t t' at free ne ho.ends

      still : get_elem? w'.states b ≡ some s
      still = get_elem?-set_ne w.states t' (λ eq. ne (cc)) ∙ ho.stored

      outer_leads : LeadsTo w'.states outer.state b s
      outer_leads = record {
        first = ho.first;
        links = ho.links;
        first_is = ho.first_is;
        ends = kept;
        stored = still;
      }

      inner_leads : LeadsTo w'.states inner.state b s
      inner_leads = record {
        first = v;
        links = suc ho.links;
        first_is = ei;
        ends = (
          t',
          ho.first,
          get_elem?-set_self w.states v t' (get_elem?-in w.states v at),
          ho.first_is,
          kept,
        );
        stored = still;
      }

  -- A coroutine has returned a future whose state is not set. Then to set the promise of that
  -- future is to set the coroutine's own promise, with the same result and the same world, and the
  -- coroutine's own future gives what is set. The chain of its promise may have any length, if it
  -- does not end at the returned future, and ends at a state that is not set.
  pub return_future_forwards :
      (outer inner : Promise) (f own : Future) (w : World T S) (b v : ℕ) (s t : State T)
      → LeadsTo w.states outer.state b s
      → s.state_set ≡ false
      → s.exception ≡ none
      → own.state ≡ outer.state
      → f.state ≡ some v
      → inner.state ≡ some v
      → get_elem? w.states v ≡ some t
      → t.state_set ≡ false
      → t.chain_state ≡ none
      → b ≢ v
      → (x : T) (e : Error)
      → (w' : World T S) × (return_future moved schedule outer f w ≡ (ok tt, w'))
        × (set_value moved schedule inner x w' ≡ set_value moved schedule outer x w')
        × (set_exception moved schedule inner e w' ≡ set_exception moved schedule outer e w')
        × ((await_resume moved schedule own (set_value moved schedule inner x w').1).0 ≡ ok x)
        × ((await_resume moved schedule own (set_exception moved schedule inner e w').1).0
            ≡ throws e)
  return_future_forwards outer inner f own w b v s t ho open_ fine eo ef ei at unset free ne x e =
      let (w', returned, same, same_e, hi, ho') =
        return_future_links outer inner f w b v s t ho ef ei at unset free ne x e in
      let own_leads : LeadsTo w'.states own.state b s = rw eo ho' in
      let (given, thrown, _, _) =
        await_resume-set_value moved schedule inner own w' b s x x e hi own_leads open_ fine in
      (w', returned, same, same_e, given, thrown)
