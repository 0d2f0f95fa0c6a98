-- ===== src/Runtime/Ends.antt =====
-- cli/src/workflow-runtime.ts, `drive`: how many batches it can take.
use d3r.Base.{
  ℕ, ◌≤◌, ◌<◌, Bool, true, false, not, ◌||◌, ◌≡◌, refl, ◌∙◌, List, [], ◌∷◌, ◌++◌, inl, inr, filter,
  length, arith, Bool-cases, if◌then◌else◌,
}
use d3r.Base.Outcome.{ok, fail, OnOk, OnOk-map, OnOk-if, OnOk-both}
use d3r.Engine.State.{ExecutionRecord, EngineStatus, EngineState, is_running}
use d3r.Engine.Transition.{Next, begin_batch, record_outcome, is_ready, is_active}
use d3r.Engine.Settle.{settle_batch}
use d3r.Engine.Lifecycle.{Evolved, Evolved-refl, Evolved-trans}
use d3r.Engine.Steps.{record_outcome-Grows}
use d3r.Engine.Settlement.{settle_batch-Grows}
use d3r.Runtime.Turn.{Turned, run_role}
use d3r.Runtime.Drive.{
  Work, Done, goes_on, thrown, state_of, is_thrown, put_engine, finish_role, Round, is_going,
  Driven, broken, unfinished, end_role, end_all, begin_if_ready, is_aborted, settle_round,
  run_batch, run_round, drive_loop, role_of, drop_row, row_of, as_report,
}
use d3r.Runtime.Load.{
  count_pending, load, loaded, unloaded, Evolved-pending, begin_batch-fewer, record_outcome-status,
  settle_batch-status,
}

abbrev pub is_unfinished : {C : Type 0} → Driven C → Bool
is_unfinished (unfinished w) = true
is_unfinished _ = false

abbrev OnGoing : {W : Type 0} → (W → Type 0) → Done W → Type 0
OnGoing P (goes_on w) = P w
OnGoing P (thrown w) = Unit

OnGoing-if :
    {W : Type 0} (P : W → Type 0) (b : Bool) (x y : Done W)
    → OnGoing P x
    → OnGoing P y
    → OnGoing P (if b then x else y)
OnGoing-if P true x y h k = h
OnGoing-if P false x y h k = k

OnGoing-map :
    {W : Type 0} {P Q : W → Type 0} (done : Done W)
    → ((w : W) → P w → Q w)
    → OnGoing P done
    → OnGoing Q done
OnGoing-map (goes_on w) f h = f w h
OnGoing-map (thrown w) f h = tt

module _ {C : Type 0} where
  -- The roles of a batch change no status of the engine and make nothing wait again.
  abbrev Same : EngineState → Work C → Type 0
  Same e w = (w.engine.status ≡ e.status) × Evolved e.records w.engine.records

  put_engine-Same :
      (e : EngineState) (w : Work C) (m : Next)
      → Same e w
      → OnOk (λ t. (t.status ≡ e.status) × Evolved e.records t.records) m
      → Same e (state_of (put_engine w m))
  put_engine-Same e w (ok t) h k = k
  put_engine-Same e w (fail x) h k = h

  finish_role-Same :
      (r : ExecutionRecord) (turned : Turned C) (w : Work C)
      → Same w.engine (state_of (finish_role r turned w))
  unfolding finish_role
  finish_role-Same r turned w =
      let kept : Work C = record w {
        continuations = drop_row r.id w.continuations ++ row_of r.id turned.retained;
      } in
      let o = as_report turned.result.outcome in
      elim (Bool-cases turned.recorded) [
        | inl e ↦
            rw (e, finish_role)
              (put_engine-Same w.engine kept (record_outcome w.engine r.id o turned.result.error)
                (refl, Evolved-refl w.engine.records)
                (OnOk-both _ _ (record_outcome w.engine r.id o turned.result.error)
                  (record_outcome-status w.engine r.id o turned.result.error)
                  (record_outcome-Grows w.engine r.id o turned.result.error)))
        | inr e ↦ rw (e, finish_role) (refl, Evolved-refl w.engine.records)
      ]

  Same-trans : (e : EngineState) (w v : Work C) → Same e w → Same w.engine v → Same e v
  Same-trans e w v (h, hs) (k, ks) =
      (k ∙ h, Evolved-trans e.records w.engine.records v.engine.records hs ks)

  either_state :
      (b : Bool) (rest : Done (Work C)) (e : EngineState)
      → Same e (state_of rest)
      → Same e (state_of (if b then thrown (state_of rest) else rest))
  either_state true rest e h = h
  either_state false rest e h = h

module _ {C : Type 0} (orchestrated : Bool) (round : Round C) where
  pub end_all-Same :
      (rs : List ExecutionRecord) (w : Work C)
      → Same w.engine (state_of (end_all orchestrated round rs w))
  unfolding end_all end_role
  end_all-Same [] w = (refl, Evolved-refl w.engine.records)
  end_all-Same (r ∷ rs) w =
      let done = end_role orchestrated round r w in
      let rest = end_all orchestrated round rs (state_of done) in
      either_state (is_thrown done || not (round.delivered r.id)) rest w.engine (
        Same-trans w.engine (state_of done) (state_of rest)
          (finish_role-Same r (run_role (role_of r) orchestrated (round.attempt r.id)) w)
          (end_all-Same rs (state_of done)))

  active_of : (s : EngineStatus) → is_going s ≡ true → is_ready s ≡ false → is_active s ≡ true
  active_of s h k = ground arith

  -- What a barrier leaves: no batch, and no record more that waits for one.
  abbrev Settled : ℕ → Work C → Type 0
  Settled n w = (is_active w.engine.status ≡ false) × (count_pending w.engine.records ≤ n)

  put_engine-OnGoing :
      (P : EngineState → Type 0) (w : Work C) (m : Next)
      → OnOk P m
      → OnGoing (λ v. P v.engine) (put_engine w m)
  put_engine-OnGoing P w (ok e) h = h
  put_engine-OnGoing P w (fail x) h = tt

  settle_round-Settled :
      (batch : List ExecutionRecord) (done : Done (Work C)) (e : EngineState)
      → Same e (state_of done)
      → OnGoing (Settled (count_pending e.records)) (settle_round orchestrated round batch done)
  unfolding settle_round
  settle_round-Settled batch (thrown w) e h = tt
  settle_round-Settled batch (goes_on w) e (_, h) =
      OnGoing-if _ (is_aborted orchestrated round batch) (thrown w) _ tt (
        put_engine-OnGoing
          (λ t. (is_active t.status ≡ false) × (count_pending t.records ≤ count_pending e.records))
          w (settle_batch w.engine)
          (OnOk-both _ _ (settle_batch w.engine) (settle_batch-status w.engine) (
            OnOk-map _ _ (settle_batch w.engine)
              (λ t k.
                Evolved-pending e.records t.records
                  (Evolved-trans e.records w.engine.records t.records h k))
              (settle_batch-Grows w.engine))))

  -- What an engine that is going has when its batch runs.
  abbrev Begun : EngineState → Work C → Type 0
  Begun e w = (is_active w.engine.status ≡ true) × (count_pending w.engine.records < load e)

  begin-Begun :
      (w : Work C)
      → is_going w.engine.status ≡ true
      → OnGoing (Begun w.engine) (put_engine w (begin_if_ready w.engine))
  unfolding begin_if_ready
  begin-Begun w h =
      let P : EngineState → Type 0 =
        λ t. (is_active t.status ≡ true) × (count_pending t.records < load w.engine) in
      put_engine-OnGoing P w (begin_if_ready w.engine) (
        OnOk-if P (is_ready w.engine.status) (begin_batch w.engine) (ok w.engine)
          (OnOk-map _ P (begin_batch w.engine) (λ t (a, k). (a, omega (arith, k)))
            (begin_batch-fewer w.engine))
          λ e.
            let active = active_of w.engine.status h e in
            (active, omega (arith, loaded w.engine active)))

  run_batch-Settled :
      (e : EngineState) (done : Done (Work C))
      → OnGoing (Begun e) done
      → OnGoing (λ w. load w.engine < load e) (run_batch orchestrated round done)
  unfolding run_batch
  run_batch-Settled e (thrown w) h = tt
  run_batch-Settled e (goes_on w) (_, h) =
      let batch = filter is_running w.engine.records in
      let done = end_all orchestrated round (round.order batch) w in
      OnGoing-if _ round.planned (settle_round orchestrated round batch done) (thrown w)
        (OnGoing-map (settle_round orchestrated round batch done)
          (λ v (i, k). omega (arith, h, k, unloaded v.engine i))
          (settle_round-Settled batch done w.engine (end_all-Same (round.order batch) w)))
        tt

  run_round-smaller :
      (w : Work C)
      → is_going w.engine.status ≡ true
      → OnGoing (λ v. load v.engine < load w.engine) (run_round orchestrated round w)
  unfolding run_round
  run_round-smaller w h =
      let settled = run_batch orchestrated round (put_engine w (begin_if_ready w.engine)) in
      let smaller =
        run_batch-Settled w.engine (put_engine w (begin_if_ready w.engine)) (begin-Begun w h) in
      elim (Bool-cases round.aborted_before) [
        | inl q ↦ rw (q, run_round) tt
        | inr q ↦ elim (Bool-cases (is_thrown settled || not round.planned_after)) [
          | inl k ↦ rw (q, run_round, k) tt
          | inr k ↦ rw (q, run_round, k) smaller
        ]
      ]

module _ {C : Type 0} (orchestrated : Bool) where
  after_round :
      (n : ℕ) (next : Done (Work C)) (rest : Work C → Driven C)
      → OnGoing (λ v. load v.engine < n) next
      → ((v : Work C) → load v.engine < n → is_unfinished (rest v) ≡ false)
      → is_unfinished (if is_thrown next then broken (state_of next) else rest (state_of next))
        ≡ false
  after_round n (thrown v) rest h k = refl
  after_round n (goes_on v) rest h k = k v h

  -- With more rounds than there are pending records, counting one more if a batch runs already, the loop
  -- over the batches ends, paused, completed or with an error, whatever the roles, the client and the
  -- signal do and in whatever order the roles end.
  pub drive_loop-ends :
      (rounds : List (Round C)) (w : Work C)
      → load w.engine < length rounds
      → is_unfinished (drive_loop orchestrated rounds w) ≡ false
  unfolding drive_loop
  drive_loop-ends [] w h = absurd (omega (arith, h))
  drive_loop-ends (round ∷ rounds) w h = elim (Bool-cases (is_going w.engine.status)) [
    | inr e ↦ rw e refl
    | inl e ↦ rw e (
        after_round (load w.engine) (run_round orchestrated round w)
          (drive_loop orchestrated rounds) (run_round-smaller orchestrated round w e)
          λ v k. drive_loop-ends rounds v (omega (arith, h, k)))
  ]
