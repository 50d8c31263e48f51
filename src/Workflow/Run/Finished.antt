-- ===== src/Workflow/Run/Finished.antt =====
-- The two stages of src/workflow.mjs that end a run: the verification and the publication.
use bimo.Base.{
  ℕ, suc, String, true, List, [], ◌∷◌, ◌++◌, Result, ok, ◌≡◌, ◌∙◌, sym, ap, subst, subst₂, arith,
}
use bimo.Js.{Value, Fields, fields_of, get, is_text}
use bimo.Actions.Blocks.{>>=-returns, require-returns, pure-returns}
use bimo.Actions.Keeps.{Keeps}
use bimo.Workflow.Receipt.{validate_verification, validate_publication}
use bimo.Workflow.World.{
  World, Env, Run, M, Call, verify, publish, perform, event, record_event, lift,
}
use bimo.Workflow.Run.{Step, result_input, accept_verification, verify_result, publish_result}
use bimo.Workflow.Run.Traces.{Traces}
use bimo.Workflow.Run.Calls.{Traces-remaining, Traces-accept_verification}
use bimo.Workflow.Run.Silent.{Log, log, Silent, Silent-remaining, Silent-perform, record_event-log}

-- an event at the end of a log
abbrev pub extended : Run → String → String → Fields → Log → Log
extended r timestamp type details l =
    (l.0 ++ event r (suc l.1) timestamp type details ∷ [], suc l.1)

-- the log after a silent action, and after an event
pub Silent-log {ℓ} :
    {A : Type ℓ} (m : M A)
    → Silent m
    → (env : Env) (w : World) {v : World} {out : Result A} → m env w ≡ (out, v)
    → log v ≡ log w
unfolding Silent Keeps
Silent-log m quiet env w h = ap (λ (p : Result _ × World). log p.1) (sym h) ∙ quiet env w

-- an event that is added to the log of a state
abbrev pub Added : Run → World → World → String → Fields → Type 0
Added r w v type details =
    (timestamp : String) × (log v ≡ extended r timestamp type details (log w))

-- an action that only adds to the trace, and one event at its end
pub recorded-Added :
    (r : Run) (type : String) (details : Fields) (env : Env) (w v : World) {u : World}
    {out : Result Value}
    → log v ≡ log w
    → record_event r type details env v ≡ (out, u)
    → Added r w u type details
recorded-Added r type details env w v same h = (
  env.timestamp v.trace,
  ap (λ (p : Result Value × World). log p.1) (sym h)
      ∙ record_event-log r type details env v
      ∙ ap (extended r (env.timestamp v.trace) type details) same,
)

pub Added-before :
    (r : Run) (w w2 v : World) (type : String) (details : Fields)
    → log w2 ≡ log w
    → Added r w2 v type details
    → Added r w v type details
Added-before r w w2 v type details same (timestamp, told) =
    (timestamp, told ∙ ap (extended r timestamp type details) same)

pub performed :
    (c : Call) (env : Env) (w : World) {v : World} {a : Value}
    → perform c env w ≡ (ok a, v)
    → (env.respond w.trace c ≡ ok a) × (v.trace ≡ c ∷ w.trace)
unfolding perform
performed c env w h =
    (ap (λ (p : Result Value × World). p.0) h, ap (λ (p : Result Value × World). p.1.trace) (sym h))

-- what is in the trace stays in the trace
pub trace-grows {ℓ} :
    (r : Run) (k : ℕ) {A : Type ℓ} (m : M A)
    → Traces r k m
    → (env : Env) (w : World) {v : World} {out : Result A} → m env w ≡ (out, v)
    → (new : List Call) × (v.trace ≡ new ++ w.trace)
unfolding Traces
trace-grows r k m t env w h =
    let e = t env w in (e.new, ap (λ (p : Result _ × World). p.1.trace) (sym h) ∙ e.grows)

pub validated-same : (v u : Value) → validate_verification v ≡ ok u → u ≡ v
unfolding validate_verification
validated-same v u h = ground (arith, h)

pub publication-same : (v u : Value) → validate_publication v ≡ ok u → u ≡ v
unfolding validate_publication
publication-same v u h = ground (arith, h)

-- The verifier answered that the result passed, and the event tells of it.
pub record Verified (r : Run) (env : Env) (w v : World) (verification : Value) : Type 0 where
  pub seconds : ℕ
  pub at : List Call
  pub answered : env.respond at (verify (result_input r seconds)) ≡ ok verification
  pub passed : is_text (get verification "status") "passed" ≡ true
  pub later : List Call
  pub called : v.trace ≡ later ++ verify (result_input r seconds) ∷ at
  pub told : Added r w v "verification.finished" (fields_of verification)

pub accept_verification-facts :
    (r : Run) (s : Step) (verified : Value) (env : Env) (w v : World) (verification : Value)
    → accept_verification r s verified env w ≡ (ok verification, v)
    → (verified ≡ verification)
      × (is_text (get verification "status") "passed" ≡ true)
      × Added r w v "verification.finished" (fields_of verification)
unfolding accept_verification
accept_verification-facts r s verified env w v verification h =
    let (checked, w3, h3, k3) = >>=-returns (lift (validate_verification verified)) _ env h in
    let (_, w4, h4, k4) = >>=-returns _ _ env k3 in
    let (_, w5, h5, k5) = >>=-returns _ _ env k4 in
    let (passed, k6) = require-returns _ _ _ env k5 in
    let (same, ended) = pure-returns checked env k6 in
    let valid : validate_verification verified ≡ ok checked =
      ap (λ (p : Result Value × World). p.0) h3 in
    let quiet : log w4 ≡ log w =
      Silent-log _ (Silent-remaining s.deadline 1) env w3 h4
      ∙ ap (λ (p : Result Value × World). log p.1) (sym h3) in
    let added = recorded-Added r "verification.finished" (fields_of checked) env w w4 quiet h5 in
    (
      sym (validated-same verified checked valid) ∙ sym same,
      subst (λ z. is_text (get z "status") "passed" ≡ true) (sym same) passed,
      subst₂ (λ z u. Added r w u "verification.finished" (fields_of z)) (sym same) (sym ended)
          added,
    )

pub verify_result-Verified :
    (r : Run) (s : Step) (env : Env) (w v : World) (verification : Value)
    → verify_result r s env w ≡ (ok verification, v)
    → Verified r env w v verification
unfolding verify_result
verify_result-Verified r s env w v verification h =
    let (seconds, w1, h1, k1) = >>=-returns _ _ env h in
    let (verified, w2, h2, k2) = >>=-returns _ _ env k1 in
    let (same, passed, added) = accept_verification-facts r s verified env w2 v verification k2 in
    let (later, grown) = trace-grows r 0 _ (Traces-accept_verification r s verified) env w2 k2 in
    let (answered, called) = performed (verify (result_input r seconds)) env w1 h2 in
    let quiet : log w2 ≡ log w =
      Silent-log _ (Silent-perform (verify (result_input r seconds))) env w1 h2
      ∙ Silent-log _ (Silent-remaining s.deadline 1) env w h1 in
    record {
      seconds = seconds;
      at = w1.trace;
      answered = answered ∙ ap ok same;
      passed = passed;
      later = later;
      called = grown ∙ ap (λ t. later ++ t) called;
      told = Added-before r w w2 v "verification.finished" (fields_of verification) quiet added;
    }

-- The publisher answered, after what was called before, and the event tells of it.
pub record Published (r : Run) (env : Env) (w v : World) (publication : Value) : Type 0 where
  pub seconds : ℕ
  pub at : List Call
  pub answered : env.respond at (publish (result_input r seconds)) ≡ ok publication
  pub later : List Call
  pub after : at ≡ later ++ w.trace
  pub told : Added r w v "publication.finished" (fields_of publication)

pub publish_result-Published :
    (r : Run) (s : Step) (env : Env) (w v : World) (publication : Value)
    → publish_result r s env w ≡ (ok publication, v)
    → Published r env w v publication
unfolding publish_result
publish_result-Published r s env w v publication h =
    let (seconds, w1, h1, k1) = >>=-returns _ _ env h in
    let (published, w2, h2, k2) = >>=-returns _ _ env k1 in
    let (checked, w3, h3, k3) = >>=-returns (lift (validate_publication published)) _ env k2 in
    let (_, w4, h4, k4) = >>=-returns _ _ env k3 in
    let (same, ended) = pure-returns checked env k4 in
    let (answered, _) = performed (publish (result_input r seconds)) env w1 h2 in
    let (later, grown) = trace-grows r 0 _ (Traces-remaining r s.deadline 1) env w h1 in
    let valid : published ≡ checked =
      sym (publication-same published checked (ap (λ (p : Result Value × World). p.0) h3)) in
    let quiet : log w3 ≡ log w =
      ap (λ (p : Result Value × World). log p.1) (sym h3)
      ∙ Silent-log _ (Silent-perform (publish (result_input r seconds))) env w1 h2
      ∙ Silent-log _ (Silent-remaining s.deadline 1) env w h1 in
    record {
      seconds = seconds;
      at = w1.trace;
      answered = answered ∙ ap ok (valid ∙ sym same);
      later = later;
      after = grown;
      told =
          subst₂ (λ z u. Added r w u "publication.finished" (fields_of z)) (sym same) (sym ended)
            (recorded-Added r "publication.finished" (fields_of checked) env w w3 quiet h4);
    }
