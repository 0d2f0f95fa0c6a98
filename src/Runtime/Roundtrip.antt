-- ===== src/Runtime/Roundtrip.antt =====
-- cli/src/workflow-runtime.ts, `snapshot` and `restore`: a session that is restored, saved and restored.
use Prim.Native.String.{String}
use mathlib.Core.Path.{subst}
use d3r.Base.{Bool, true, false, not, ◌≡◌, refl, sym, List}
use d3r.Base.Outcome.{ok, >>=-eq-ok, guard-eq-ok}
use d3r.Schema.{Workflow}
use d3r.Runtime.Session.{Session}
use d3r.Runtime.Saved.{Checkpoint, parse_engine, is_unsound, parse_checkpoint, snapshot}
use d3r.Runtime.Restored.{same_mode, session_from, restore}
use d3r.Runtime.Passed.{result_injective, accept-Passed}
use d3r.Runtime.Resaved.{brought_back, parse_engine-stable, saved, resaved}

module _ {C S : Type 0} where
  parsed_checkpoint :
      (checkpoint c : Checkpoint C S)
      → parse_checkpoint checkpoint ≡ ok c
      → (parse_engine c.engine ≡ ok c.engine) × (is_unsound c ≡ false)
  unfolding parse_checkpoint
  parsed_checkpoint checkpoint c h =
      let (engine, e, h1) = >>=-eq-ok (parse_engine checkpoint.engine) _ h in
      let (sound, made) = guard-eq-ok (is_unsound (record checkpoint { engine = engine })) _ _ h1 in
      subst (λ x. (parse_engine x.engine ≡ ok x.engine) × (is_unsound x ≡ false))
        (result_injective made) (parse_engine-stable checkpoint.engine engine e, sound)

same_mode-eq : (a b : Bool) → not (same_mode a b) ≡ false → a ≡ b
same_mode-eq true true h = refl
same_mode-eq false false h = refl
same_mode-eq true false h = h
same_mode-eq false true h = sym h

module _ {C S : Type 0} (stringify : Workflow → String) (agents : List String) where
  -- A session that was restored can be saved while no prompt runs, and restoring what was saved gives the
  -- same session again, with the routing conversation as it was at the saving: as the one to go back to,
  -- unless a routing turn was interrupted. Only an orchestrated session keeps the phase's history and the
  -- conversations of its roles, and only one that is not has an interrupted turn.
  pub restore-snapshot :
      (orchestrated : Bool) (s0 s : Session C S) (checkpoint : Checkpoint C S) (current : S)
      → restore stringify agents orchestrated s0 checkpoint ≡ ok s
      → (again : Checkpoint C S) × (snapshot orchestrated false current s ≡ ok again)
        × (restore stringify agents orchestrated s0 again
            ≡ ok (brought_back orchestrated current s))
  unfolding restore
  restore-snapshot orchestrated s0 s checkpoint current h =
      let (c, p, h1) = >>=-eq-ok (parse_checkpoint checkpoint) _ h in
      let (parsed, sound) = parsed_checkpoint checkpoint c p in
      let (engine, passed, made) = accept-Passed stringify agents orchestrated s0 s c h1 in
      let mode = same_mode-eq c.orchestrated orchestrated passed.mode in
      let (told, back) =
        resaved stringify agents s0 c current engine orchestrated parsed sound passed in
      subst
        (λ x.
          (again : Checkpoint C S) × (snapshot orchestrated false current x ≡ ok again)
          × (restore stringify agents orchestrated s0 again
              ≡ ok (brought_back orchestrated current x)))
        made
        (subst
          (λ o.
            let x = session_from s0 engine c in
            (again : Checkpoint C S) × (snapshot o false current x ≡ ok again)
            × (restore stringify agents o s0 again ≡ ok (brought_back o current x)))
          mode (saved current (session_from s0 engine c) c.orchestrated, told, back))
