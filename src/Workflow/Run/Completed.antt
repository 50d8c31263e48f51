-- ===== src/Workflow/Run/Completed.antt =====
-- A run of src/workflow.mjs that returns: what went before.
use bimo.Base.{
  err, ◌⊎◌, inl, inr, if◌then◌else◌, ℕ, suc, ◌+◌, ◌≤◌, String, Bool, true, false, List, [], ◌∷◌,
  ◌++◌, append_assoc, Result, ok, ◌≡◌, ◌∙◌, refl, sym, ap, subst, arith, zero,
}
use bimo.Workflow.Graph.{is_done}
use bimo.Js.{Value, undefined, fields_of, get, is_text, text_of, nat_of}
use bimo.Actions.Blocks.{>>=-returns, pure-returns}
use bimo.Workflow.World.{
  World, initial, Env, Run, M, Call, verify, publish, event, lift, gets, modify, pure,
}
use bimo.Workflow.Run.{
  prompt_of, Attempts, continue_with, Step, Next, finished, hand_over, result_input, finish_run,
  finished_details, run_result, run_step, run_steps, run_body, run_failed, supervise, run_workflow,
}
use bimo.Workflow.Run.Silent.{Log}
use bimo.Workflow.Run.Finished.{
  extended, recorded-Added, verify_result-Verified, publish_result-Published,
}

-- The verifier passed the result, the publisher was called after that, and then the run ended: the
-- last three events tell of this, and the answer gives the step and the URL.
pub record Completion (r : Run) (env : Env) (w' : World) (step : ℕ) (result : Value) : Type 0 where
  pub verification : Value
  pub publication : Value
  pub verify_seconds : ℕ
  pub publish_seconds : ℕ
  -- the traces at the two calls
  pub at_verify : List Call
  pub at_publish : List Call
  pub between : List Call
  pub order : at_publish ≡ between ++ verify (result_input r verify_seconds) ∷ at_verify
  pub verified : env.respond at_verify (verify (result_input r verify_seconds)) ≡ ok verification
  pub passed : is_text (get verification "status") "passed" ≡ true
  pub published : env.respond at_publish (publish (result_input r publish_seconds)) ≡ ok publication
  pub before : List Value
  pub number : ℕ
  pub times : String × String × String
  pub events :
      w'.events
      ≡ ((before
            ++ event r (suc number) times.0 "verification.finished" (fields_of verification) ∷ [])
          ++ event r (suc (suc number)) times.1 "publication.finished" (fields_of publication) ∷ [])
        ++ event r (suc (suc (suc number))) times.2 "run.finished" (finished_details step) ∷ []
  pub answer : result ≡ run_result r step publication

finish_run-Completion :
    (r : Run) (s : Step) (env : Env) (w w' : World) (next : Next)
    → finish_run r s env w ≡ (ok next, w')
    → (result : Value) × (next ≡ finished result) × Completion r env w' s.step result
unfolding finish_run
finish_run-Completion r s env w w' next h =
    let (verification, w1, h1, k1) = >>=-returns _ _ env h in
    let (publication, w2, h2, k2) = >>=-returns _ _ env k1 in
    let (_, w3, h3, k3) = >>=-returns _ _ env k2 in
    let (same, ended) = pure-returns (finished (run_result r s.step publication)) env k3 in
    let v = verify_result-Verified r s env w w1 verification h1 in
    let p = publish_result-Published r s env w1 w2 publication h2 in
    let (time, told) =
      recorded-Added r "run.finished" (finished_details s.step) env w2 w2 refl h3 in
    (
      run_result r s.step publication,
      same,
      record {
        verification = verification;
        publication = publication;
        verify_seconds = v.seconds;
        publish_seconds = p.seconds;
        at_verify = v.at;
        at_publish = p.at;
        between = p.later ++ v.later;
        order = p.after ∙ ap (λ t. p.later ++ t) v.called ∙ sym (append_assoc p.later v.later _);
        verified = v.answered;
        passed = v.passed;
        published = p.answered;
        before = w.events;
        number = w.sequence;
        times = (v.told.0, p.told.0, time);
        events =
            ap (λ (u : World). u.events) ended
            ∙ ap (λ (l : Log). l.0)
                (told
                  ∙ ap (extended r time "run.finished" (finished_details s.step)) (
                      p.told.1
                      ∙ ap (extended r p.told.0 "publication.finished" (fields_of publication))
                          v.told.1));
        answer = refl;
      },
    )

finished-injective : {a b : Value} → finished a ≡ finished b → a ≡ b
finished-injective h = cc

-- the end of a step: only the branch that finishes the run ends with a result
at_end :
    (r : Run) (s : Step) (done : Bool) (next : Value) (env : Env) (w w' : World) (result : Value)
    → (if done then finish_run r s else pure (hand_over next)) env w ≡ (ok (finished result), w')
    → Completion r env w' s.step result
at_end r s true next env w w' result h =
    let (answer, same, completion) = finish_run-Completion r s env w w' (finished result) h in
    subst (Completion r env w' s.step) (sym (finished-injective same)) completion
at_end r s false next env w w' result h = cc

run_step-Completion :
    (r : Run) (previous : String) (s : Step) (env : Env) (w w' : World) (result : Value)
    → run_step r previous s env w ≡ (ok (finished result), w')
    → Completion r env w' s.step result
unfolding run_step
run_step-Completion r previous s env w w' result h =
    let (_, w1, h1, k1) = >>=-returns _ _ env h in
    let (events, w2, h2, k2) = >>=-returns (gets (λ w. w.events)) _ env k1 in
    let (prompt, w3, h3, k3) = >>=-returns (lift (prompt_of r previous s events)) _ env k2 in
    let (_, w4, h4, k4) = >>=-returns _ _ env k3 in
    let (_, w5, h5, k5) = >>=-returns (modify (λ w. record w { result = undefined })) _ env k4 in
    let (receipt, w6, h6, k6) = >>=-returns _ _ env k5 in
    let (outcome, w7, h7, k7) = >>=-returns (gets (λ w. w.result)) _ env k6 in
    let (_, w8, h8, k8) = >>=-returns _ _ env k7 in
    at_end r s (is_done (get (get s.role "on") (text_of (get receipt "outcome")))) _ env w8 w'
      result k8

continue-cases :
    (rest : Value → M Value) (next : Next) (env : Env) (v w' : World) (result : Value)
    → continue_with rest next env v ≡ (ok result, w')
    → ((next ≡ finished result) × (w' ≡ v)) ⊎ ((role : Value) × (rest role env v ≡ (ok result, w')))
continue-cases rest (finished answer) env v w' result h = inl (cc, cc)
continue-cases rest (hand_over role) env v w' result h = inr (role, h)

-- the handler of the run throws again
handled :
    (r : Run) (out : Result Value) (env : Env) (v w' : World) (result : Value)
    → run_failed r out env v ≡ (ok result, w')
    → ◌≡◌ {A = Result Value × World} (out, v) (ok result, w')
unfolding run_failed
handled r (ok answer) env v w' result h = h
handled r (err e) env v w' result h = let (_, w1, h1, k1) = >>=-returns _ _ env h in cc

run_steps-Completion :
    (r : Run) (previous : String) (deadline left step : ℕ) (active : Value) (attempts : Attempts)
    (env : Env) (w w' : World) (result : Value)
    → run_steps r previous deadline left step active attempts env w ≡ (ok result, w')
    → (last : ℕ) × (step ≤ last) × (last + 1 ≤ step + left) × Completion r env w' last result
unfolding run_steps
run_steps-Completion r previous deadline zero step active attempts env w w' result h = cc
run_steps-Completion r previous deadline (suc left) step active attempts env w w' result h =
    let (next, v, stepped, rest) = >>=-returns _ _ env h in
    elim (continue-cases _ next env v w' result rest) [
      | inl (same, ended) ↦ (
        step,
        omega arith,
        omega arith,
        subst (λ u. Completion r env u step result) (sym ended)
            (run_step-Completion r previous _ env w v result
              (stepped ∙ ap (λ (n : Next). (ok n, v)) same)),
      )
      | inr (role, later) ↦
          let (last, from, upto, completion) =
            run_steps-Completion r previous deadline left (suc step) role _ env v w' result later in
          (last, omega (arith, from), omega (arith, upto), completion)
    ]

supervise-returns :
    (r : Run) (previous : String) (deadline : ℕ) (env : Env) (w w' : World) (result : Value)
    → supervise r previous deadline env w ≡ (ok result, w')
    → run_body r previous deadline env w ≡ (ok result, w')
unfolding supervise
supervise-returns r previous deadline env w w' result h =
    let out = run_body r previous deadline env w in handled r out.0 env out.1 w' result h

-- A run that returns has verified its result in one of its steps, at most maxSteps of them, and the
-- verification passed; after that it published the result; its last three events tell of the
-- verification, the publication and the end; and the answer names that step and the URL published.
pub run_workflow-Completion :
    (r : Run) (env : Env) (w' : World) (result : Value)
    → run_workflow r env initial ≡ (ok result, w')
    → (step : ℕ) × (1 ≤ step)
      × (step ≤ nat_of (get r.workflow "maxSteps"))
      × Completion r env w' step result
unfolding run_workflow run_body
run_workflow-Completion r env w' result h =
    let ((previous, deadline), w1, h1, k1) = >>=-returns _ _ env h in
    let (_, w2, h2, k2) = >>=-returns _ _ env k1 in
    let body = supervise-returns r previous.1 deadline env w2 w' result k2 in
    let (_, w3, h3, k3) = >>=-returns _ _ env body in
    let (last, from, upto, completion) =
      run_steps-Completion r previous.1 deadline (nat_of (get r.workflow "maxSteps")) 1
        (get r.workflow "start") [] env w3 w' result k3 in
    (last, from, omega (arith, upto), completion)
