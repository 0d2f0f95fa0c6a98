-- ===== src/Acp/Notifications.antt =====
-- adapters/acp/response-notifications.ts: a notification is put behind the response to a request. A
-- write waits twice, for the message and for the notification, so it is `begin_write` and one or two
-- `end_write`; the stream calls `write` again only after it has settled.
use Prim.Native.String.{String}
use d3r.Base.{
  ℕ, ◌≡◌, refl, Bool, true, false, not, ◌&&◌, ◌||◌, List, [], ◌∷◌, Option, none, some, arith,
  str_eq, ◌==◌, if◌then◌else◌, Bool-cases, inl, inr,
}

pub data JsonRpcId : Type 0 where
  null : JsonRpcId
  number : ℕ → JsonRpcId
  text : String → JsonRpcId

abbrev pub same_id : JsonRpcId → JsonRpcId → Bool
same_id null null = true
same_id (number m) (number n) = m == n
same_id (text s) (text t) = str_eq s t
same_id _ _ = false

-- A message with a method (a request or a notification of the server's own), or a response.
pub data Message : Type 0 where
  has_method : Message
  response : (id : JsonRpcId) (has_result : Bool) → Message

-- What is written to the stream below.
pub data Written (N : Type 0) : Type 0 where
  message : Message → Written N
  behind : JsonRpcId → N → Written N

-- The write that waits.
pub data Flight (N : Type 0) : Type 0 where
  idle : Flight N
  first : Message → Option N → Flight N
  second : Flight N

module _ {N : Type 0} where
  -- `Map.get`, `Map.delete` and `Map.set`
  unfoldable pub get : JsonRpcId → List (JsonRpcId × N) → Option N
  get id [] = none
  get id ((k, n) ∷ rest) = if same_id k id then some n else get id rest

  unfoldable pub delete : JsonRpcId → List (JsonRpcId × N) → List (JsonRpcId × N)
  delete id [] = []
  delete id ((k, n) ∷ rest) = if same_id k id then rest else (k, n) ∷ delete id rest

  unfoldable pub set : JsonRpcId → N → List (JsonRpcId × N) → List (JsonRpcId × N)
  set id n [] = (id, n) ∷ []
  set id n ((k, m) ∷ rest) = if same_id k id then (k, n) ∷ rest else (k, m) ∷ set id n rest

-- `written` has the newest first.
pub record Stream (N : Type 0) : Type 0 where
  pub pending : List (JsonRpcId × N)
  pub closed : Bool
  pub flight : Flight N
  pub written : List (Written N)

module _ {N : Type 0} where
  unfoldable pub close : Stream N → Stream N
  close s = record s { pending = []; closed = true }

  unfoldable pub defer : JsonRpcId → N → (signal_aborted : Bool) → Stream N → Stream N
  unfolding set
  defer id n signal_aborted s =
      if not s.closed && not signal_aborted then record s { pending = set id n s.pending } else s

  -- The rows that a message takes out: `pending.get` and `pending.delete` of a response's identity.
  abbrev pub row_of : Message → List (JsonRpcId × N) → Option N
  row_of has_method rows = none
  row_of (response id has_result) rows = get id rows

  abbrev pub rows_after : Message → List (JsonRpcId × N) → List (JsonRpcId × N)
  rows_after has_method rows = rows
  rows_after (response id has_result) rows = delete id rows

  abbrev pub is_idle : Flight N → Bool
  is_idle idle = true
  is_idle _ = false

  -- `throwIfAborted` on a closed stream closes it again and throws.
  unfoldable pub begin_write : Message → Stream N → Stream N
  unfolding close get delete
  begin_write m s = if not (is_idle s.flight) then s else if s.closed then close s else record s {
    pending = rows_after m s.pending;
    flight = first m (row_of m s.pending);
    written = message m ∷ s.written;
  }

  -- After the response: its notification, if the response has a result and the row's signal is not
  -- aborted.
  abbrev pub follow : Message → Option N → (row_aborted : Bool) → Stream N → Stream N
  follow (response id true) (some n) false s = record s {
    flight = second;
    written = behind id n ∷ s.written;
  }
  follow _ _ _ s = record s { flight = idle }

  -- What is done when the wait has ended well.
  abbrev pub proceed : Flight N → (row_aborted : Bool) → Stream N → Stream N
  proceed idle row_aborted s = s
  proceed (first m row) row_aborted s = follow m row row_aborted s
  proceed second row_aborted s = record s { flight = idle }

  -- One of the two waits ends, well or not; a closed stream aborts the wait.
  unfoldable pub end_write : (succeeds row_aborted : Bool) → Stream N → Stream N
  unfolding close
  end_write succeeds row_aborted s =
      if is_idle s.flight
      then s
      else if s.closed || not succeeds
      then close (record s { flight = idle })
      else proceed s.flight row_aborted s

-- The events of the server and of its peer.
pub data Event (N : Type 0) : Type 0 where
  defers : JsonRpcId → N → (signal_aborted : Bool) → Event N
  begins : Message → Event N
  ends : (succeeds row_aborted : Bool) → Event N
  closes : Event N

module _ {N : Type 0} where
  unfoldable pub step : Event N → Stream N → Stream N
  unfolding defer begin_write end_write close
  step (defers id n a) s = defer id n a s
  step (begins m) s = begin_write m s
  step (ends succeeds a) s = end_write succeeds a s
  step closes s = close s

  unfoldable pub run : List (Event N) → Stream N → Stream N
  unfolding step
  run [] s = s
  run (e ∷ es) s = run es (step e s)

  unfoldable pub start : Stream N
  start = record { pending = []; closed = false; flight = idle; written = [] }

  -- The stream has shut: it holds no row.
  abbrev IsShut : List (Written N) → Stream N → Type 0
  IsShut out s = (s.closed ≡ true) × (s.pending ≡ []) × (s.written ≡ out)

  step-IsShut :
      (out : List (Written N)) (e : Event N) (s : Stream N) → IsShut out s → IsShut out (step e s)
  unfolding step
  step-IsShut out (defers id n a) s (c, p, w) = elim (Bool-cases (not s.closed && not a)) [
    | inl q ↦ absurd (open_of s.closed a q c)
    | inr q ↦ rw q (c, p, w)
  ]
    where
      open_of : (b d : Bool) → (not b && not d) ≡ true → b ≡ true → ⊥
      open_of b d = grind arith
  step-IsShut out (begins m) s (c, p, w) = elim (Bool-cases (is_idle s.flight)) [
    | inl q ↦ rw (q, c) (refl, refl, w)
    | inr q ↦ rw q (c, p, w)
  ]
  step-IsShut out (ends succeeds a) s (c, p, w) = elim (Bool-cases (is_idle s.flight)) [
    | inl q ↦ rw q (c, p, w)
    | inr q ↦ rw (q, c) (refl, refl, w)
  ]
  step-IsShut out closes s (c, p, w) = (refl, refl, w)

  run-IsShut :
      (out : List (Written N)) (es : List (Event N)) (s : Stream N)
      → IsShut out s
      → IsShut out (run es s)
  unfolding run
  run-IsShut out [] s h = h
  run-IsShut out (e ∷ es) s h = run-IsShut out es (step e s) (step-IsShut out e s h)

  -- Once the stream is closed nothing more is written, whatever is deferred or written later and
  -- however the write that was under way ends, and no row is kept.
  pub closed_final :
      (es : List (Event N)) (s : Stream N)
      → ((run es (close s)).written ≡ s.written) × ((run es (close s)).pending ≡ [])
  unfolding close
  closed_final es s = let (_, p, w) = run-IsShut s.written es (close s) (refl, refl, refl) in (w, p)
