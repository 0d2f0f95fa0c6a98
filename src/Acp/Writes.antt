-- ===== src/Acp/Writes.antt =====
-- adapters/acp/client-writes.ts: file writes that the client has been asked for and has not answered.
use d3r.Base.{
  ℕ, suc, ◌≡◌, refl, Bool, true, false, not, ◌&&◌, ◌||◌, List, [], ◌∷◌, arith, ◌==◌, if◌then◌else◌,
}

-- `pending` names the writes that wait by their number; `listening` tells whether the handler of the
-- disconnection is still registered.
pub record Writes : Type 0 where
  pub pending : List ℕ
  pub issued : ℕ
  pub unknown : Bool
  pub disconnected : Bool
  pub listening : Bool

unfoldable pub create_client_writes : (disconnected : Bool) → Writes
create_client_writes disconnected = record {
  pending = [];
  issued = 0;
  unknown = false;
  disconnected = disconnected;
  listening = true;
}

unfoldable pub remove : ℕ → List ℕ → List ℕ
remove n [] = []
remove n (k ∷ ks) = if k == n then ks else k ∷ remove n ks

abbrev pub is_nil : List ℕ → Bool
is_nil [] = true
is_nil (k ∷ ks) = false

pub data Event : Type 0 where
  -- `write`, with the state of the request's own signal
  writes : (signal_aborted : Bool) → Event
  -- a write settles: by the peer's answer, or by the disconnection
  settles : (n : ℕ) (succeeds : Bool) → Event
  disconnects : Event
  disposes : Event

abbrev pub is_pending : ℕ → List ℕ → Bool
is_pending n [] = false
is_pending n (k ∷ ks) = k == n || is_pending n ks

unfoldable pub step : Event → Writes → Writes
unfolding remove
step (writes signal_aborted) w =
    if signal_aborted || w.disconnected
    then w
    else record w { pending = w.issued ∷ w.pending; issued = suc w.issued }
step (settles n succeeds) w = if not (is_pending n w.pending) then w else record w {
  pending = remove n w.pending;
  unknown = w.unknown || (not succeeds && w.disconnected);
}
step disconnects w = record w {
  disconnected = true;
  listening = false;
  unknown = w.unknown || (w.listening && not w.disconnected && not (is_nil w.pending));
}
step disposes w = record w { listening = false }

unfoldable pub run : List Event → Writes → Writes
unfolding step
run [] w = w
run (e ∷ es) w = run es (step e w)

step-unknown : (e : Event) (w : Writes) → w.unknown ≡ true → (step e w).unknown ≡ true
unfolding step
step-unknown (writes a) w h = ground arith
step-unknown (settles n ok) w h = ground arith
step-unknown disconnects w h = ground arith
step-unknown disposes w h = h

run-unknown : (es : List Event) (w : Writes) → w.unknown ≡ true → (run es w).unknown ≡ true
unfolding run
run-unknown [] w h = h
run-unknown (e ∷ es) w h = run-unknown es (step e w) (step-unknown e w h)

-- A connection that is lost while a write waits, and while the handler is registered, leaves an
-- unknown outcome for good, whatever settles or is disposed of later.
pub disconnect-unknown :
    (es : List Event) (w : Writes)
    → w.listening ≡ true
    → w.disconnected ≡ false
    → is_nil w.pending ≡ false
    → (run es (step disconnects w)).unknown ≡ true
unfolding step
disconnect-unknown es w l d p = run-unknown es (step disconnects w) (ground arith)

step-known :
    (e : Event) (w : Writes)
    → (w.unknown ≡ true → w.disconnected ≡ true)
    → (step e w).unknown ≡ true
    → (step e w).disconnected ≡ true
unfolding step
step-known (writes a) w h = ground arith
step-known (settles n ok) w h = ground arith
step-known disconnects w h = λ k. refl
step-known disposes w h = h

run-known :
    (es : List Event) (w : Writes)
    → (w.unknown ≡ true → w.disconnected ≡ true)
    → (run es w).unknown ≡ true
    → (run es w).disconnected ≡ true
unfolding run
run-known [] w h = h
run-known (e ∷ es) w h = run-known es (step e w) (step-known e w h)

-- An outcome is never called unknown while the connection lasts: cancelling a request, a refused
-- write or disposal do not make it so.
unknown-disconnected :
    (es : List Event) (d : Bool)
    → (run es (create_client_writes d)).unknown ≡ true
    → (run es (create_client_writes d)).disconnected ≡ true
unfolding create_client_writes
unknown-disconnected es d = run-known es (create_client_writes d) (λ h. cc)
