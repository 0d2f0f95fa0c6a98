-- ===== src/Acp/Behind.antt =====
-- adapters/acp/response-notifications.ts: which response a deferred notification stands behind.
use d3r.Base.{◌≡◌, true, false, List, [], ◌∷◌, Option, some, All, ◌⊎◌}
use d3r.Acp.Notifications.{
  JsonRpcId, Message, response, Written, message, behind, Flight, first, Stream, Event, defers,
}

module _ {N : Type 0} where
  -- The newest thing written is the successful response with this identity.
  abbrev pub Answers : JsonRpcId → List (Written N) → Type 0
  Answers id (message (response k true) ∷ rest) = k ≡ id
  Answers id _ = ⊥

  -- The notification was deferred for this request, with a signal that was not aborted.
  abbrev pub IsAsked : List (Event N) → JsonRpcId → N → Type 0
  IsAsked [] id n = ⊥
  IsAsked (e ∷ es) id n = (e ≡ defers id n false) ⊎ IsAsked es id n

  -- Every deferred notification stands directly behind the response to its own request.
  abbrev pub IsOrdered : List (Event N) → List (Written N) → Type 0
  IsOrdered es [] = Unit
  IsOrdered es (message m ∷ rest) = IsOrdered es rest
  IsOrdered es (behind id n ∷ rest) = IsAsked es id n × Answers id rest × IsOrdered es rest

  abbrev Newest : Message → List (Written N) → Type 0
  Newest m (message k ∷ rest) = k ≡ m
  Newest m _ = ⊥

  -- The row that a message takes out was asked for by the request that it answers.
  abbrev IsRow : List (Event N) → Message → Option N → Type 0
  IsRow es (response id b) (some n) = IsAsked es id n
  IsRow es _ _ = Unit

  abbrev InFlight : List (Event N) → Flight N → List (Written N) → Type 0
  InFlight es (first m row) out = IsRow es m row × Newest m out
  InFlight es _ out = Unit

  abbrev Rows : List (Event N) → List (JsonRpcId × N) → Type 0
  Rows es = All (λ row. IsAsked es row.0 row.1)

  -- `es` holds the events of the whole run.
  abbrev IsSound : List (Event N) → Stream N → Type 0
  IsSound es s = Rows es s.pending × IsOrdered es s.written × InFlight es s.flight s.written

  -- What an event of the run may defer.
  abbrev Asks : List (Event N) → Event N → Type 0
  Asks es (defers id n false) = IsAsked es id n
  Asks es _ = Unit
