-- ===== src/Engine/Measure.antt =====
-- core/engine.ts, `compileWorkflow`: which chains expand, to how many records, and what adding records to
-- the list does.
use Prim.Native.String.{String}
use d3r.Base.{
  ℕ, zero, suc, ◌+◌, ◌*◌, ◌≤◌, ◌≡◌, refl, Bool, true, false, not, ◌&&◌, ◌||◌, List, [], ◌∷◌, ◌++◌,
  Option, none, some, inl, inr, any, length, leb, All, All-append, arith, Bool-cases, length-append,
  leb-false, and-true_iff,
}
use d3r.Base.Text.{◌<>◌, decimal, is_blank}
use d3r.Base.Outcome.{Result, ◌>>=◌, ◌>>◌, reject_if, OnOk, OnOk-bind, OnOk-map}
use d3r.Schema.{ChainStep, Steps, nil, cons, in_range}
use d3r.Engine.State.{
  max_records, max_depth, LoopScope, RecordKind, RecordStatus, ExecutionRecord, EngineError,
}
use d3r.Engine.Compile.{fresh, add, add_roles, iterate, rounds}

-- The chains that the compiler takes, at a nesting depth.
unfoldable mutual
  pub is_valid_step : ℕ → ChainStep → Bool
  is_valid_step d (ChainStep.agent name) = not (is_blank name)
  is_valid_step d (ChainStep.parallel agents) = not (leb (length agents) 0 || any is_blank agents)
  is_valid_step d (ChainStep.human prompt) = not (is_blank prompt)
  is_valid_step d (ChainStep.loop max body) = in_range 1 max_records max && is_valid (suc d) body

  pub is_valid : ℕ → Steps → Bool
  is_valid d nil = false
  is_valid d (cons s ss) = leb d max_depth && is_valid_step d s && is_valid_rest d ss

  pub is_valid_rest : ℕ → Steps → Bool
  is_valid_rest d nil = true
  is_valid_rest d (cons s ss) = is_valid_step d s && is_valid_rest d ss

-- The number of records: every round of a loop holds its body's and one that ends the round.
unfoldable mutual
  pub weight_step : ChainStep → ℕ
  weight_step (ChainStep.agent name) = 1
  weight_step (ChainStep.parallel agents) = length agents
  weight_step (ChainStep.human prompt) = 1
  weight_step (ChainStep.loop max body) = rounds max * (weight body + 1)

  pub weight : Steps → ℕ
  weight nil = 0
  weight (cons s ss) = weight_step s + weight ss

abbrev pub InScope : LoopScope → Type 0
InScope l = (1 ≤ l.iteration) × (l.iteration ≤ l.max) × (l.max ≤ max_records)

-- A record that has not run, inside a bounded number of bounded loops.
pub record IsFresh (r : ExecutionRecord) : Type 0 where
  pub unstarted : r.status ≡ RecordStatus.pending
  pub shallow : length r.loops ≤ max_depth
  pub scoped : All InScope r.loops

-- What an expansion that succeeds has done to the list.
pub record Expanded (valid : Bool) (w : ℕ) (out out' : List ExecutionRecord) : Type 0 where
  pub accepted : valid ≡ true
  pub counted : length out' ≡ length out + w
  pub bounded : length out ≤ max_records → length out' ≤ max_records
  pub kept : All IsFresh out → All IsFresh out'

pub Expanded-nil : (out : List ExecutionRecord) → Expanded true 0 out out
Expanded-nil out = record {
  accepted = refl;
  counted = omega arith;
  bounded = λ b. b;
  kept = λ f. f;
}

pub Expanded-then :
    {v v' : Bool} {w w' : ℕ} {out mid out' : List ExecutionRecord}
    → Expanded v w out mid
    → Expanded v' w' mid out'
    → Expanded (v && v') (w + w') out out'
Expanded-then {v} {v'} h k = record {
  accepted = (and-true_iff v v').1 (h.accepted, k.accepted);
  counted = omega (arith, h.counted, k.counted);
  bounded = λ b. k.bounded (h.bounded b);
  kept = λ f. k.kept (h.kept f);
}

pub Expanded-cast :
    {v v' : Bool} {w w' : ℕ} {out out' : List ExecutionRecord}
    → (v ≡ true → v' ≡ true)
    → w ≡ w'
    → Expanded v w out out'
    → Expanded v' w' out out'
Expanded-cast f e h = record {
  accepted = f h.accepted;
  counted = omega (arith, h.counted, e);
  bounded = h.bounded;
  kept = h.kept;
}

pub add-Expanded :
    (r : ExecutionRecord) (out : List ExecutionRecord)
    → IsFresh r
    → OnOk (Expanded true 1 out) (add r out)
unfolding add
add-Expanded r out h = elim (Bool-cases (leb max_records (length out))) [
  | inl q ↦ rw q tt
  | inr q ↦ rw q (record {
    accepted = refl;
    counted = length-append out (r ∷ []);
    bounded = λ b. omega (arith, length-append out (r ∷ []), leb-false _ _ q);
    kept = λ f. All-append IsFresh out (r ∷ []) f (h, tt);
  })
]

pub OnOk-Expanded :
    (v v' u : Bool) (w w' x : ℕ) (out : List ExecutionRecord)
    (m : Result (List ExecutionRecord) EngineError)
    (f : List ExecutionRecord → Result (List ExecutionRecord) EngineError)
    → ((v && v') ≡ true → u ≡ true)
    → w + w' ≡ x
    → OnOk (Expanded v w out) m
    → ((mid : List ExecutionRecord) → v ≡ true → OnOk (Expanded v' w' mid) (f mid))
    → OnOk (Expanded u x out) (m >>= f)
OnOk-Expanded v v' u w w' x out m f g e h k =
    OnOk-bind (Expanded v w out) (Expanded u x out) m f h λ mid hm.
      OnOk-map (Expanded v' w' mid) (Expanded u x out) (f mid)
        (λ out' ho. Expanded-cast g e (Expanded-then hm ho)) (k mid hm.accepted)

module _ (loops : List LoopScope) (shallow : length loops ≤ max_depth)
    (scoped : All InScope loops) where
  pub fresh-IsFresh :
      (id batch : String) (kind : RecordKind) (role prompt : Option String)
      → IsFresh (fresh id batch kind role prompt loops)
  fresh-IsFresh id batch kind role prompt = record {
    unstarted = refl;
    shallow = shallow;
    scoped = scoped;
  }

  pub add_roles-Expanded :
      (id : String) (slot : ℕ) (roles : List String) (out : List ExecutionRecord)
      → OnOk (Expanded true (length roles) out) (add_roles id loops slot roles out)
  unfolding add_roles
  add_roles-Expanded id slot [] out = Expanded-nil out
  add_roles-Expanded id slot (role ∷ roles) out =
      OnOk-Expanded true true true 1 (length roles) (suc (length roles)) out
        (add (fresh (id <> "/" <> decimal slot) id RecordKind.agent (some role) none loops) out)
        (λ mid. add_roles id loops (suc slot) roles mid) (λ e. e) (omega arith)
        (add-Expanded _ out (fresh-IsFresh _ _ _ _ _))
        (λ mid _. add_roles-Expanded id (suc slot) roles mid)

-- Behind a test that throws.
pub guarded :
    (b u v : Bool) (w : ℕ) (out : List ExecutionRecord) (e : EngineError)
    (m : Result (List ExecutionRecord) EngineError)
    → (b ≡ false → v ≡ true → u ≡ true)
    → (b ≡ false → OnOk (Expanded v w out) m)
    → OnOk (Expanded u w out) (reject_if b e >> m)
guarded true u v w out e m f h = tt
guarded false u v w out e m f h =
    OnOk-map (Expanded v w out) (Expanded u w out) m (λ out' k. Expanded-cast (f refl) refl k)
      (h refl)

-- With no round there is nothing to be valid.
abbrev pub when_any : Bool → ℕ → Bool
when_any v zero = true
when_any v (suc n) = v

module _
    (expand_body : String
      → List LoopScope
      → List ExecutionRecord
      → Result (List ExecutionRecord) EngineError)
    (id : String) (loops : List LoopScope) (max : ℕ) (v : Bool) (w : ℕ) (small : max ≤ max_records)
    (scoped : All InScope loops) (deep : v ≡ true → suc (length loops) ≤ max_depth)
    (body : (prefix : String) (scope : List LoopScope) (out : List ExecutionRecord)
      → length scope ≡ suc (length loops)
      → All InScope scope
      → OnOk (Expanded v w out) (expand_body prefix scope out)) where
  pub iterate-Expanded :
      (iteration left : ℕ) (out : List ExecutionRecord)
      → 1 ≤ iteration
      → iteration + left ≡ suc max
      → OnOk
          (Expanded (when_any v left) (left * (w + 1)) out)
          (iterate expand_body id loops max iteration left out)
  unfolding iterate
  iterate-Expanded iteration zero out h e = Expanded-cast (λ q. q) (omega arith) (Expanded-nil out)
  iterate-Expanded iteration (suc left) out h e =
      let here : LoopScope = record { id = id; iteration = iteration; max = max } in
      let scope : List LoopScope = loops ++ here ∷ [] in
      let fits : length scope ≡ suc (length loops) =
        omega (arith, length-append loops (here ∷ [])) in
      let inside : All InScope scope =
        All-append InScope loops (here ∷ []) scoped ((h, omega arith, small), tt) in
      let end : String = (id <> "@" <> decimal iteration) <> "/end" in
      let last : ExecutionRecord = fresh end end RecordKind.loop_end none none scope in
      OnOk-Expanded v (when_any v left) v w (1 + left * (w + 1)) (suc left * (w + 1)) out
        (expand_body (id <> "@" <> decimal iteration) scope out)
        (λ mid. add last mid >>= iterate expand_body id loops max (suc iteration) left)
        (λ q. ((and-true_iff v (when_any v left)).0 q).0) (grind arith)
        (body (id <> "@" <> decimal iteration) scope out fits inside)
        λ mid valid.
          OnOk-Expanded true (when_any v left) (when_any v left) 1 (left * (w + 1))
            (1 + left * (w + 1)) mid (add last mid)
            (iterate expand_body id loops max (suc iteration) left) (λ q. q) refl
            (add-Expanded last mid (
              fresh-IsFresh scope (rw fits (deep valid)) inside end end RecordKind.loop_end none
                none))
            (λ out' _. iterate-Expanded (suc iteration) left out' (omega arith) (omega arith))
