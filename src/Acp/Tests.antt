-- ===== src/Acp/Tests.antt =====
-- adapters/acp: the theorems about the server's parts, each at a short run.
use d3r.Base.{some, ◌≡◌, refl, ℕ, true, false, List, [], ◌∷◌, none}
use d3r.Acp.Wait.{wait_for, wait_for-listens, react, Signalled, Promised, is_open}
use d3r.Acp.Notifications
use d3r.Acp.Notifications.{Stream, closed_final}
use d3r.Acp.Writes
use d3r.Acp.Writes.{disconnect-unknown}

-- A response that arrives after the cancellation.
abbrev late : List (Signalled ℕ ℕ)
late = Signalled.aborts 7 ∷ Signalled.resolves 5 ∷ []

late-rejected : (wait_for none late).promise ≡ Promised.rejected 7
unfolding wait_for
late-rejected = refl

wait_for-listens_example :
    ((wait_for none late).listens ≡ is_open (wait_for none late).promise)
    × (is_open (react (Signalled.aborts 8) (wait_for none late)).promise ≡ false)
    × (is_open (wait_for (some 8) late).promise ≡ false)
wait_for-listens_example = wait_for-listens none late 8

abbrev events : List (Notifications.Event ℕ)
events =
    Notifications.defers (Notifications.number 1) 11 false
    ∷ Notifications.defers (Notifications.number 2) 12 false
    ∷ Notifications.begins Notifications.has_method
    ∷ Notifications.ends true false
    ∷ Notifications.begins (Notifications.response (Notifications.number 2) true)
    ∷ Notifications.ends true false
    ∷ Notifications.ends true false
    ∷ Notifications.begins (Notifications.response (Notifications.number 1) false)
    ∷ Notifications.ends true false
    ∷ []

written :
    (Notifications.run events Notifications.start).written
    ≡ Notifications.message (Notifications.response (Notifications.number 1) false)
      ∷ Notifications.behind (Notifications.number 2) 12
      ∷ Notifications.message (Notifications.response (Notifications.number 2) true)
      ∷ Notifications.message Notifications.has_method
      ∷ []
unfolding Notifications.run Notifications.start
written = refl

-- The stream is closed while a response is being written.
abbrev busy : Stream ℕ
busy =
    Notifications.run
      (Notifications.begins (Notifications.response (Notifications.number 3) true) ∷ [])
      Notifications.start

closed_final_example :
    ((Notifications.run events (Notifications.close busy)).written ≡ busy.written)
    × ((Notifications.run events (Notifications.close busy)).pending ≡ [])
closed_final_example = closed_final events busy

-- One write waits.
abbrev waiting : Writes.Writes
waiting = record {
  pending = 0 ∷ [];
  issued = 1;
  unknown = false;
  disconnected = false;
  listening = true;
}

abbrev later : List Writes.Event
later = Writes.settles 0 false ∷ Writes.disposes ∷ []

disconnect-unknown_example :
    (Writes.run later (Writes.step Writes.disconnects waiting)).unknown ≡ true
disconnect-unknown_example = disconnect-unknown later waiting refl refl refl
