-- ===== src/Workflow/Run/Bounds.antt =====
-- The calls of roles by a run of src/workflow.mjs: at most one for each step, and in the time left.
use bimo.Base.{
  all, ap, sym, subst, ◌∙◌, append-nil, >>=-eq-ok, arith, ℕ, zero, suc, ◌≤◌, String, true, [],
  Result, ok, err, ◌≡◌, refl, from_ok,
}
use bimo.Js.{Value, undefined, get, nat_of, text_of}
use bimo.Workflow.History.{trim}
use bimo.Workflow.Definition.{validate_workflow}
use bimo.Workflow.Definition.Accepted.{validate_workflow-WorkflowAccepted}
use bimo.Workflow.Arguments.{check_run, deadline_from}
use bimo.Actions.Blocks.{>>=-returns}
use bimo.Workflow.World.{
  initial, Env, Run, M, latest, read_latest, read_changelog, make_state_root, make_workspace,
  make_run_dir, create_events, pure, lift, gets, modify,
}
use bimo.Workflow.Run.{
  previous_history, no_history, Step, Next, finished, hand_over, prompt_of, continue_with, run_step,
  run_steps, Attempts, run_body, run_failed, supervise, prepare, run_workflow,
}
use bimo.Workflow.Run.Traces.{
  step_seconds, Returned, Traces-weaken, within, roles_called, Traces, Traces->>=,
  Traces->>=-returns, Traces-attempt, Traces-after, Traces-before, Traces-same, Traces-lift,
  Traces-perform, Traces-atomic_write, Traces-record_event,
}
use bimo.Workflow.Run.Calls.{
  Traces-if, Traces-now, Traces-remaining, Traces-receipt_or_failure, Traces-finish_run,
}

module _ (r : Run) where
  Traces-run_step :
      (previous : String) (s : Step) → 10 ≤ step_seconds r → Traces r 1 (run_step r previous s)
  unfolding run_step
  Traces-run_step previous s long = Traces-after r 1 _ _ (Traces-remaining r s.deadline 1) λ _.
      Traces-after r 1 (gets (λ w. w.events)) _ (Traces-same r 0 _ (λ env w. refl)) λ events.
        Traces-after r 1 (lift (prompt_of r previous s events)) _ (Traces-lift r 0 _) λ prompt.
          Traces-after r 1 _ _ (Traces-record_event r _ _) λ _.
            Traces-after r 1 (modify (λ w. record w { result = undefined })) _
              (Traces-same r 0 _ (λ env w. refl))
              λ _. Traces-before r 1 _ _ (Traces-receipt_or_failure r s prompt long) λ receipt.
                Traces-after r 0 (gets (λ w. w.result)) _ (Traces-same r 0 _ (λ env w. refl))
                  λ result.
                    Traces-after r 0 _ _ (Traces-record_event r _ _)
                      λ _. Traces-if r 0 _ _ _ (Traces-finish_run r s) (Traces-lift r 0 (ok _))

  Traces-continue :
      (n : ℕ) (rest : Value → M Value)
      → ((role : Value) → Traces r n (rest role))
      → (next : Next) → Traces r n (continue_with rest next)
  Traces-continue n rest h (finished result) = Traces-lift r n (ok result)
  Traces-continue n rest h (hand_over role) = h role

  -- every step takes one of those left
  Traces-run_steps :
      (previous : String) (deadline left step : ℕ) (active : Value) (attempts : Attempts)
      → 10 ≤ step_seconds r
      → Traces r left (run_steps r previous deadline left step active attempts)
  unfolding run_steps
  Traces-run_steps previous deadline zero step active attempts long = Traces-lift r 0 _
  Traces-run_steps previous deadline (suc left) step active attempts long =
      Traces->>= r 1 left (suc left) _ _ (omega arith) (Traces-run_step previous _ long) (
        Traces-continue left _
          λ role. Traces-run_steps previous deadline left (suc step) role _ long)

  Traces-previous_history : Traces r 0 previous_history
  unfolding previous_history
  Traces-previous_history =
      Traces-attempt r 0 0 0 _ (λ outcome. pure (from_ok no_history outcome)) (omega arith)
        (Traces-after r 0 _ _ (Traces-perform r 0 read_latest refl (omega arith)) λ text.
          Traces-if r 0 _ _ _
            (Traces-after r 0 _ _
              (Traces-perform r 0 (read_changelog (trim (text_of text))) refl (omega arith))
              λ log. Traces-lift r 0 (ok _))
            (Traces-lift r 0 (ok no_history)))
        (λ out. Traces-lift r 0 (ok (from_ok no_history out)))

  Traces-prepare : Traces r 0 (prepare r)
  unfolding prepare
  Traces-prepare = Traces-after r 0 (lift (check_run r)) _ (Traces-lift r 0 _) λ _.
      Traces-after r 0 _ _ (Traces-now r) λ invoked_at.
        Traces-after r 0 (lift (deadline_from r invoked_at)) _ (Traces-lift r 0 _) λ deadline.
          Traces-after r 0 _ _ (Traces-perform r 0 make_state_root refl (omega arith)) λ _.
            Traces-after r 0 _ _ (Traces-perform r 0 make_workspace refl (omega arith)) λ _.
              Traces-after r 0 _ _ Traces-previous_history λ previous.
                Traces-after r 0 _ _ (Traces-perform r 0 make_run_dir refl (omega arith)) λ _.
                  Traces-after r 0 _ _ (Traces-perform r 0 create_events refl (omega arith))
                    λ _. Traces-lift r 0 (ok (previous, deadline))

  pub max_steps : ℕ
  max_steps = nat_of (get r.workflow "maxSteps")

  Traces-supervise :
      (previous : String) (deadline : ℕ)
      → 10 ≤ step_seconds r
      → Traces r max_steps (supervise r previous deadline)
  unfolding supervise run_body max_steps run_failed
  Traces-supervise previous deadline long =
      Traces-attempt r max_steps 0 max_steps _ _ (omega arith)
        (Traces-after r max_steps _ _ (Traces-atomic_write r latest _)
          λ _. Traces-run_steps previous deadline max_steps 1 (get r.workflow "start") [] long)
        handler
    where
      handler : (out : Result Value) → Traces r 0 (run_failed r out)
      handler (ok result) = Traces-lift r 0 (ok result)
      handler (err e) =
          Traces-after r 0 _ _ (Traces-record_event r "run.failed" _) λ _. Traces-lift r 0 (err e)

  -- only a validated workflow gets past the preparation
  prepared-limits :
      (a : (Value × String) × ℕ) → Returned (prepare r) a → (10 ≤ step_seconds r) × (max_steps ≤ 20)
  unfolding prepare check_run max_steps
  prepared-limits a (env, w, v, h) =
      let (_, _, checked, _) = >>=-returns (lift (check_run r)) _ env h in
      let (u, valid, _) = >>=-eq-ok (validate_workflow r.workflow) _ (ap (λ p. p.0) checked) in
      let accepted = validate_workflow-WorkflowAccepted r.workflow u valid in
      (accepted.step_shortest, accepted.steps.1)

  Traces-run_workflow :
      (n : ℕ)
      → ((a : (Value × String) × ℕ) → Returned (prepare r) a → max_steps ≤ n)
      → Traces r n (run_workflow r)
  unfolding run_workflow
  Traces-run_workflow n fits =
      Traces->>=-returns r 0 n n _ _ (omega arith) Traces-prepare λ (previous, deadline) returned.
        Traces-after r n _ _ (Traces-record_event r "run.started" _) λ _.
          Traces-weaken r max_steps n _ (fits _ returned)
            (Traces-supervise previous.1 deadline (prepared-limits _ returned).0)

  -- A run calls roles at most maxSteps times, and so at most 20 times, whether it returns or
  -- throws and whatever the ports answer; every call of a role has a timeout of at least ten
  -- seconds and at most stepSeconds.
  pub run_workflow-roles_called-le :
      (env : Env)
      → let trace = (run_workflow r env initial).1.trace in
        (roles_called trace ≤ nat_of (get r.workflow "maxSteps"))
        × (roles_called trace ≤ 20)
        × (all (within r) trace ≡ true)
  unfolding Traces max_steps
  run_workflow-roles_called-le env =
      let few = Traces-run_workflow max_steps (λ a h. omega arith) env initial in
      let capped = Traces-run_workflow 20 (λ a h. (prepared-limits a h).1) env initial in
      let whole : (run_workflow r env initial).1.trace ≡ few.new = few.grows ∙ append-nil few.new in
      let same : (run_workflow r env initial).1.trace ≡ capped.new =
        capped.grows ∙ append-nil capped.new in
      (
        subst (λ t. roles_called t ≤ max_steps) (sym whole) few.few,
        subst (λ t. roles_called t ≤ 20) (sym same) capped.few,
        subst (λ t. all (within r) t ≡ true) (sym whole) few.safe,
      )
