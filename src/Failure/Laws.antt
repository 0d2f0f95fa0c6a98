-- ===== src/Failure/Laws.antt =====
-- core/runtime-failure.ts: what a reading of untrusted data can and cannot let through, and the round
-- trip of a failure through the error that carries it.
use Prim.Native.String.{String}
use mathlib.Core.Path.{subst}
use d3r.Base.{
  ℕ, Bool, true, false, not, ◌||◌, Option, none, some, leb, ◌≡◌, refl, inl, inr, Bool-cases, arith,
  ap, sym, ◌∙◌,
}
use d3r.Base.Outcome.{Result, ok, fail}
use d3r.Schema.{whole, other}
use d3r.Failure.Codes.{
  category_name, categories, detail_name, details, stage_name, stages, is_code, parse_enum,
  Category, Stage, Detail,
}
use d3r.Failure.Parse.{
  Field, Fields, object, text, number, truth, RuntimeFailure, is_identity, is_part, is_separator,
  is_alphanumeric, matches_identity, read_identity, is_status, combine, ◌>>=◌, read_status,
  read_code, read_enum, read_optional, read_truth, is_refused, refuses, parse_schema, parse_failure,
  size, max_identity_length, has_dots,
}
use d3r.Failure.Report.{
  as_fields, InvalidFailure, Reported, report, created, create_runtime_failure,
  read_runtime_failure, format_runtime_failure,
}
use d3r.Failure.ReadBack.{
  Holds, IsPlain, is_identity-IsPlain, IsReportable, read_identity-Holds, IsCode,
  parse_failure-as_fields,
}

-- What is read from any field is reportable.
read_optional-Holds :
    {A : Type 0} (P : A → Type 0) (read : Option Field → Option A) (f : Option Field)
    → ((g : Field) → Holds P (read (some g)))
    → Holds (Holds P) (read_optional read f)
unfolding read_optional
read_optional-Holds P read none h = tt
read_optional-Holds {A} P read (some g) h = kept (read (some g)) (h g)
  where
    kept : (o : Option A) → Holds P o → Holds (Holds P) (o >>= λ v. some (some v))
    kept none q = tt
    kept (some a) q = q

read_status-Holds : (g : Field) → Holds (λ n. is_status n ≡ true) (read_status (some g))
unfolding read_status
read_status-Holds (number (whole n)) = elim (Bool-cases (is_status n)) [
  | inl q ↦ rw q q
  | inr q ↦ rw q tt
]
read_status-Holds (number other) = tt
read_status-Holds (text s) = tt
read_status-Holds (truth b) = tt
read_status-Holds object = tt

not-false : (b : Bool) → not b ≡ false → b ≡ true
not-false b = grind arith

read_code-Holds :
    (g : Option Field) → is_refused g ≡ false → Holds (Holds IsCode) (read_optional read_code g)
unfolding read_optional read_code is_refused
read_code-Holds none k = tt
read_code-Holds (some (text s)) k = elim (Bool-cases (is_code s)) [
  | inl q ↦ rw q (q, not-false (leb (size s) max_identity_length) k)
  | inr q ↦ rw q tt
]
read_code-Holds (some (number m)) k = tt
read_code-Holds (some (truth b)) k = tt
read_code-Holds (some object) k = tt

combine-IsReportable :
    (a : Option Stage) (b : Option Category) (c : Option (Option ℕ)) (p m : Option String)
    (d : Option Bool) (e : Option (Option String)) (g : Option (Option Detail))
    → Holds (Holds (λ n. is_status n ≡ true)) c
    → Holds (λ s. is_identity s ≡ true) p
    → Holds (λ s. is_identity s ≡ true) m
    → Holds (Holds IsCode) e
    → Holds IsReportable (combine a b c p m d e g)
unfolding combine
combine-IsReportable (some a) (some b) (some c) p m (some d) (some e) (some g) hc hp hm he =
    (hc, hp, hm, he)
combine-IsReportable _ _ _ _ _ _ _ _ hc hp hm he = tt

parse_schema-IsReportable :
    (f : Fields) → is_refused f.code_field ≡ false → Holds IsReportable (parse_schema f)
unfolding d3r.Failure.Parse.parse_schema
parse_schema-IsReportable f k =
    combine-IsReportable (read_enum (parse_enum stage_name stages) f.stage)
      (read_enum (parse_enum category_name categories) f.category)
      (read_optional read_status f.http_status) (read_identity f.provider) (read_identity f.model)
      (read_truth f.tools_started) (read_optional read_code f.code_field)
      (read_optional (read_enum (parse_enum detail_name details)) f.detail)
      (read_optional-Holds (λ n. is_status n ≡ true) read_status f.http_status read_status-Holds)
      (read_identity-Holds f.provider) (read_identity-Holds f.model)
      (read_code-Holds f.code_field k)

parse_failure-Holds : (f : Fields) → Holds IsReportable (parse_failure f)
unfolding parse_failure
parse_failure-Holds f = elim (Bool-cases (refuses f)) [
  | inl q ↦ rw q tt
  | inr q ↦ rw q (parse_schema-IsReportable f (code_of q))
]
  where
    fifth : (a b c d e g : Bool) → (a || b || c || d || e || g) ≡ false → e ≡ false
    fifth a b c d e g = grind arith

    code_of : refuses f ≡ false → is_refused f.code_field ≡ false
    code_of =
        fifth (is_refused f.stage) (is_refused f.category) (is_refused f.http_status)
          (is_refused f.tools_started) (is_refused f.code_field) (is_refused f.detail)

Holds-some : {A : Type 0} (P : A → Type 0) (o : Option A) (a : A) → Holds P o → o ≡ some a → P a
Holds-some P o a h e = subst (Holds P) e h

identity-IsPlain : (o : Option String) → Holds (λ s. is_identity s ≡ true) o → Holds IsPlain o
identity-IsPlain none h = tt
identity-IsPlain (some s) h = is_identity-IsPlain s h

-- A failure that is read from any object has a status from 100 to 599, a code of the list and, as
-- provider and model, only texts made of letters, digits and `. _ - / :`; and the data that it is
-- stored as is read back as the same failure.
pub parse_failure-IsReportable :
    (f : Fields) (r : RuntimeFailure)
    → parse_failure f ≡ some r
    → IsReportable r
      × Holds IsPlain r.provider
      × Holds IsPlain r.model
      × (parse_failure (as_fields r) ≡ some r)
parse_failure-IsReportable f r e =
    let h = Holds-some IsReportable (parse_failure f) r (parse_failure-Holds f) e in
    (h, identity-IsPlain r.provider h.1, identity-IsPlain r.model h.2, parse_failure-as_fields r h)

-- What a caller sees of an error that was or was not created.
abbrev pub IsCreated : Fields → Option RuntimeFailure → Result Reported InvalidFailure → Type 0
IsCreated f (some r) (ok e) =
    (read_runtime_failure e ≡ some r) × (e.message ≡ format_runtime_failure f)
IsCreated f none (fail e) = Unit
IsCreated f _ _ = ⊥

created-IsCreated :
    (f : Fields) (o : Option RuntimeFailure) → parse_failure f ≡ o → IsCreated f o (created o)
unfolding created read_runtime_failure format_runtime_failure
created-IsCreated f none e = tt
created-IsCreated f (some r) e =
    let back = (parse_failure-IsReportable f r e).3 in (back, ap report (back ∙ sym e))

-- An error is created for exactly the data that is a failure; it is read back as the failure that was
-- read from that data, and its message is the report of that data.
pub create_runtime_failure-IsCreated :
    (f : Fields) → IsCreated f (parse_failure f) (create_runtime_failure f)
unfolding create_runtime_failure
create_runtime_failure-IsCreated f = created-IsCreated f (parse_failure f) refl
