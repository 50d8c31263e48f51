-- ===== src/Workflow/Run/Failed.antt =====
-- A run of src/workflow.mjs that throws: its last event says why.
use bimo.Base.{
  ℕ, suc, String, List, [], ◌∷◌, ◌++◌, Result, ok, err, ◌≡◌, inl, inr, refl, sym, ap, ◌∙◌, subst₂,
}
use bimo.Js.{Value, Fields}
use bimo.Actions.Blocks.{>>=-throws}
use bimo.Actions.Keeps.{Keeps}
use bimo.Workflow.World.{World, initial, Env, Run, event, record_event}
use bimo.Workflow.Run.{
  prepare, started_details, failed_details, run_body, run_failed, supervise, run_workflow,
}
use bimo.Workflow.Run.Silent.{Log, log, Silent, Silent-prepare, record_event-events}

module _ (r : Run) where
  first_event :
      (type : String) (details : Fields) (env : Env) (w : World)
      → w.events ≡ []
      → w.sequence ≡ 0
      → (record_event r type details env w).1.events
        ≡ event r 1 (env.timestamp w.trace) type details ∷ []
  first_event type details env w none_yet zero_yet =
      subst₂
        (λ es n.
          (record_event r type details env w).1.events
          ≡ es ++ event r (suc n) (env.timestamp w.trace) type details ∷ [])
        none_yet zero_yet (record_event-events r type details env w)

  -- the last event is the given one, numbered by its place
  abbrev pub EndsWith : World → String → Fields → Type 0
  EndsWith w type details =
      (before : List Value) × (n : ℕ) × (timestamp : String) × (w.events
        ≡ before ++ event r (suc n) timestamp type details ∷ [])

  recorded-EndsWith :
      (type : String) (details : Fields) (env : Env) (w w' : World)
      → w' ≡ (record_event r type details env w).1
      → EndsWith w' type details
  recorded-EndsWith type details env w w' h = (
    w.events,
    w.sequence,
    env.timestamp w.trace,
    ap (λ (v : World). v.events) h ∙ record_event-events r type details env w,
  )

  run_failed-EndsWith :
      (out : Result Value) (env : Env) (v w' : World) (e : String)
      → run_failed r out env v ≡ (err e, w')
      → (cause : String) × (out ≡ err cause) × EndsWith w' "run.failed" (failed_details cause)
  unfolding run_failed
  run_failed-EndsWith (ok result) env v w' e h = cc
  run_failed-EndsWith (err cause) env v w' e h = (
    cause,
    refl,
    recorded-EndsWith "run.failed" (failed_details cause) env v w'
        (elim (>>=-throws (record_event r "run.failed" (failed_details cause)) _ env h) [
          | inl threw ↦ sym (ap (λ (p : Result Value × World). p.1) threw)
          | inr (a, u, wrote, ended) ↦
              sym (ap (λ (p : Result Value × World). p.1) ended)
              ∙ sym (ap (λ (p : Result Value × World). p.1) wrote)
        ]),
  )

-- How the events stand when a run has thrown.
pub data Ending (r : Run) (env : Env) (e : String) (w' : World) : Type 0 where
  -- the preparation threw: it was refused, or could not make its files; nothing is recorded
  not_started : prepare r env initial ≡ (err e, w') → w'.events ≡ [] → Ending r env e w'
  -- the preparation returned, and `record` of the first event threw
  not_recorded :
      (previous : (Value × String) × ℕ) (v : World)
      → prepare r env initial ≡ (ok previous, v)
      → record_event r "run.started" (started_details r previous.0.0) env v ≡ (err e, w')
      → w'.events
        ≡ event r 1 (env.timestamp v.trace) "run.started" (started_details r previous.0.0) ∷ []
      → Ending r env e w'
  -- the body of the run threw, from some state, and its cause is in the last event
  told :
      (cause previous : String) (deadline : ℕ) (w : World)
      → (run_body r previous deadline env w).0 ≡ err cause
      → EndsWith r w' "run.failed" (failed_details cause)
      → Ending r env e w'

supervise-Ending :
    (r : Run) (env : Env) (previous : String) (deadline : ℕ) (w w' : World) (e : String)
    → supervise r previous deadline env w ≡ (err e, w')
    → Ending r env e w'
unfolding supervise
supervise-Ending r env previous deadline w w' e h =
    let out = run_body r previous deadline env w in
    let (cause, threw, ends) = run_failed-EndsWith r out.0 env out.1 w' e h in
    told cause previous deadline w threw ends

-- A run that throws has recorded no event, since its preparation threw, or `record` of its first event
-- run.started threw, or its last event is run.failed and gives the reason of what the body of the
-- run threw.
pub run_workflow-Ending :
    (r : Run) (env : Env) (w' : World) (e : String)
    → run_workflow r env initial ≡ (err e, w')
    → Ending r env e w'
unfolding run_workflow Silent Keeps
run_workflow-Ending r env w' e h = elim (>>=-throws (prepare r) _ env h) [
  | inl refused ↦ not_started refused (
      ap (λ (p : Result ((Value × String) × ℕ) × World). p.1.events) (sym refused)
      ∙ ap (λ (l : Log). l.0) (Silent-prepare r env initial))
  | inr ((previous, deadline), v, prepared, rest) ↦
      elim (>>=-throws (record_event r "run.started" (started_details r previous.0)) _ env rest) [
        | inl unwritten ↦
            let quiet : log v ≡ ([], 0) =
              ap (λ (p : Result ((Value × String) × ℕ) × World). log p.1) (sym prepared)
              ∙ Silent-prepare r env initial in
            not_recorded (previous, deadline) v prepared unwritten
              (ap (λ (p : Result Value × World). p.1.events) (sym unwritten)
                ∙ first_event r "run.started" (started_details r previous.0) env v
                    (ap (λ (l : Log). l.0) quiet) (ap (λ (l : Log). l.1) quiet))
        | inr (a, u, wrote, ended) ↦ supervise-Ending r env previous.1 deadline u w' e ended
      ]
]
