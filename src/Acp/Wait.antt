-- ===== src/Acp/Wait.antt =====
-- adapters/acp/errors.ts, `waitFor`: a promise that settles with the first of the pending promise's
-- outcome and the abort of a signal, and the listener on the signal that it takes off again.
use d3r.Base.{
  Bool, true, false, ◌≡◌, refl, sym, ◌∙◌, inl, inr, Bool-cases, List, [], ◌∷◌, Option, none, some,
  if◌then◌else◌,
}

-- What happens to the promise that is waited for and to the signal, in order. `A` is the type of
-- values, `E` that of errors and reasons.
pub data Signalled (A E : Type 0) : Type 0 where
  resolves : A → Signalled A E
  rejects : E → Signalled A E
  aborts : (reason : E) → Signalled A E

pub data Promised (A E : Type 0) : Type 0 where
  open_still : Promised A E
  resolved : A → Promised A E
  rejected : E → Promised A E

-- The promise that `waitFor` returns; whether its `onAbort` is on the signal; and whether the functions
-- that it gave to `then` are still to be called.
pub record Wait (A E : Type 0) : Type 0 where
  pub promise : Promised A E
  pub listens : Bool
  pub pends : Bool

module _ {A E : Type 0} where
  -- A promise's `resolve` and `reject` do nothing once it has settled.
  abbrev settle : Promised A E → Promised A E → Promised A E
  settle open_still new = new
  settle p new = p

  unfoldable pub on_abort : E → Wait A E → Wait A E
  on_abort reason w = record w { listens = false; promise = settle w.promise (rejected reason) }

  unfoldable pub on_value : A → Wait A E → Wait A E
  on_value a w = record w { listens = false; promise = settle w.promise (resolved a) }

  unfoldable pub on_error : E → Wait A E → Wait A E
  on_error e w = record w { listens = false; promise = settle w.promise (rejected e) }

  -- A signal calls the listeners that are on it, and a promise that settles calls once what `then` was
  -- given.
  unfoldable pub react : Signalled A E → Wait A E → Wait A E
  unfolding on_abort on_value on_error
  react (aborts reason) w = if w.listens then on_abort reason w else w
  react (resolves a) w = if w.pends then on_value a (record w { pends = false }) else w
  react (rejects e) w = if w.pends then on_error e (record w { pends = false }) else w

  unfoldable pub react_all : List (Signalled A E) → Wait A E → Wait A E
  unfolding react
  react_all [] w = w
  react_all (s ∷ ss) w = react_all ss (react s w)

  -- `already` is the reason of a signal that is aborted when the wait begins.
  unfoldable pub begin_wait : (already : Option E) → Wait A E
  unfolding on_abort
  begin_wait none = record { promise = open_still; listens = true; pends = true }
  begin_wait (some reason) =
      on_abort reason (record { promise = open_still; listens = true; pends = true })

  unfoldable pub wait_for : (already : Option E) → List (Signalled A E) → Wait A E
  unfolding begin_wait react_all
  wait_for already events = react_all events (begin_wait already)

  abbrev pub is_open : Promised A E → Bool
  is_open open_still = true
  is_open _ = false

  -- The listener is there exactly while the promise is open.
  abbrev Sound : Wait A E → Type 0
  Sound w = w.listens ≡ is_open w.promise

  closes : (p q : Promised A E) → is_open q ≡ false → false ≡ is_open (settle p q)
  closes open_still q h = rw h refl
  closes (resolved a) q h = refl
  closes (rejected e) q h = refl

  if_Sound : (b : Bool) (w u : Wait A E) → Sound w → Sound u → Sound (if b then w else u)
  if_Sound true w u h k = h
  if_Sound false w u h k = k

  react-Sound : (s : Signalled A E) (w : Wait A E) → Sound w → Sound (react s w)
  unfolding react on_abort on_value on_error
  react-Sound (aborts reason) w h =
      if_Sound w.listens (on_abort reason w) w (closes w.promise (rejected reason) refl) h
  react-Sound (resolves a) w h =
      if_Sound w.pends (on_value a (record w { pends = false })) w
        (closes w.promise (resolved a) refl) h
  react-Sound (rejects e) w h =
      if_Sound w.pends (on_error e (record w { pends = false })) w
        (closes w.promise (rejected e) refl) h

  react_all-Sound :
      (events : List (Signalled A E)) (w : Wait A E) → Sound w → Sound (react_all events w)
  unfolding react_all
  react_all-Sound [] w h = h
  react_all-Sound (s ∷ ss) w h = react_all-Sound ss (react s w) (react-Sound s w h)

  wait_for-Sound :
      (already : Option E) (events : List (Signalled A E)) → Sound (wait_for already events)
  unfolding wait_for begin_wait on_abort
  wait_for-Sound none events = react_all-Sound events (begin_wait none) refl
  wait_for-Sound (some reason) events = react_all-Sound events (begin_wait (some reason)) refl

  settle_closed : (p q : Promised A E) → is_open p ≡ false → is_open (settle p q) ≡ false
  settle_closed open_still q h = cc
  settle_closed (resolved a) q h = refl
  settle_closed (rejected e) q h = refl

  abbrev IsClosed : Wait A E → Type 0
  IsClosed w = is_open w.promise ≡ false

  if_IsClosed :
      (b : Bool) (w u : Wait A E) → IsClosed w → IsClosed u → IsClosed (if b then w else u)
  if_IsClosed true w u h k = h
  if_IsClosed false w u h k = k

  react-IsClosed : (s : Signalled A E) (w : Wait A E) → IsClosed w → IsClosed (react s w)
  unfolding react on_abort on_value on_error
  react-IsClosed (aborts reason) w h =
      if_IsClosed w.listens (on_abort reason w) w (settle_closed w.promise (rejected reason) h) h
  react-IsClosed (resolves a) w h =
      if_IsClosed w.pends (on_value a (record w { pends = false })) w
        (settle_closed w.promise (resolved a) h) h
  react-IsClosed (rejects e) w h =
      if_IsClosed w.pends (on_error e (record w { pends = false })) w
        (settle_closed w.promise (rejected e) h) h

  react_all-IsClosed :
      (events : List (Signalled A E)) (w : Wait A E) → IsClosed w → IsClosed (react_all events w)
  unfolding react_all
  react_all-IsClosed [] w h = h
  react_all-IsClosed (s ∷ ss) w h = react_all-IsClosed ss (react s w) (react-IsClosed s w h)

  abort_closes : (reason : E) (w : Wait A E) → Sound w → IsClosed (react (aborts reason) w)
  unfolding react on_abort
  abort_closes reason w h = elim (Bool-cases w.listens) [
    | inl q ↦ rw q (sym (closes w.promise (rejected reason) refl))
    | inr q ↦ rw q (sym h ∙ q)
  ]

  -- Whatever has happened to the promise and the signal, and whether or not the signal was aborted before,
  -- the listener is on the signal exactly as long as the wait is open, so a wait that has ended leaves
  -- none behind; an abort of the signal ends the wait if nothing did before; and a wait on a signal that was
  -- aborted before is never open.
  pub wait_for-listens :
      (already : Option E) (events : List (Signalled A E)) (reason : E)
      → let w = wait_for already events in
        (w.listens ≡ is_open w.promise)
        × (is_open (react (aborts reason) w).promise ≡ false)
        × (is_open (wait_for (some reason) events).promise ≡ false)
  unfolding wait_for begin_wait on_abort
  wait_for-listens already events reason =
      let h = wait_for-Sound already events in
      (
        h,
        abort_closes reason (wait_for already events) h,
        react_all-IsClosed events (begin_wait (some reason)) refl,
      )
