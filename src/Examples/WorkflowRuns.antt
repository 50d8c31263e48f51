-- ===== src/Examples/WorkflowRuns.antt =====
-- Runs of the example workflow (src/workflow.mjs): one in an environment in which everything goes
-- well, and one whose roles never come to an end.
use bimo.Base.{
  ℕ, String, true, List, [], ◌∷◌, all, some, Result, ok, err, ◌≡◌, ◌≤◌, refl, decimal, split_from,
  split_slash, if◌then◌else◌,
}
use bimo.Js.{
  Value, undefined, nat, str, arr, texts, object, get, is_text, nat_of, to_text, stringify,
  pretty_from,
}
use bimo.Contract.Fields.{assert_plain_object, assert_exact_fields, assert_integer, assert_text}
use bimo.Workflow.Fields.{
  assert_relative_file, normalize_receipt_file, validate_string_array, is_name,
}
use bimo.Workflow.Graph.{node_of, targets, queued, search, reach_from}
use bimo.Workflow.Definition.{
  is_target, check_transition, check_role, check_found, check_reachable, check_timeouts,
  check_smoke, check_output, check_roles, validate_workflow,
}
use bimo.Workflow.Receipt.{
  sort, normalize_files, validate_receipt, safe_reason, text_fields, natural_fields, runtime_fields,
  validate_verification, validate_publication,
}
use bimo.Workflow.History.{
  truncate_history, markdown_quote, bullets, files_text, event_lines, all_lines, render_changelog,
  receipt_of_event, candidate_text, history_from, current_history, build_prompt,
}
use bimo.Workflow.World.{
  perform, read_clock, clean_up, atomic_write, event, push_event, record_event, World, Env, Run,
  Call, run_role, verify, publish, initial, ◌>>=◌,
}
use bimo.Workflow.Arguments.{deadline_from, check_run}
use bimo.Workflow.Run.{
  now, remaining_timeout_seconds, previous_history, execute_role, runtime_of_failure, role_failed,
  receipt_or_failure, accept_verification, verify_result, publish_result, finish_run, prompt_of,
  run_step, run_steps, run_body, run_failed, supervise, prepare, run_workflow,
}
use bimo.Workflow.Run.Traces.{roles_called, within}
use bimo.Workflow.Run.Bounds.{run_workflow-roles_called-le}
use bimo.Workflow.Run.Completed.{Completion, run_workflow-Completion}
use bimo.Workflow.Run.Failed.{Ending, run_workflow-Ending}
use bimo.Examples.Workflows.{workflow}

abbrev run : Run
run = record {
  workflow = workflow;
  prompts = object (("builder", str "Build.") ∷ ("reviewer", str "Review.") ∷ []);
  template_digest = undefined;
  task = str "A page";
  workspace = "/w";
  run_dir = "/s/run-1";
  run_id = "run-1";
  model = str "m";
  agent_runtime = str "a";
  image_digest = str "i";
  deadline_at = undefined;
  sha256 = λ s. s;
}

abbrev receipt : String → List String → Value
receipt outcome files = object (
    (
      "receipt",
      object (
          ("outcome", str outcome)
          ∷ ("what", str "page")
          ∷ ("why", str "task")
          ∷ ("evidence", arr (texts ("ls" ∷ [])))
          ∷ ("files", arr (texts files))
          ∷ []),
    )
    ∷ [])

-- the verdict is the outcome that the reviewer reports
abbrev respond : String → List Call → Call → Result Value
respond verdict calls (run_role input) = ok (
    if is_text (get input "role") "builder"
    then receipt "built" ("dist" ∷ [])
    else receipt verdict [])
respond verdict calls (verify input) =
    ok (object (("status", str "passed") ∷ ("evidence", arr (texts ("ok" ∷ []))) ∷ []))
respond verdict calls (publish input) = ok (object (("url", str "http://site") ∷ []))
respond verdict calls _ = ok undefined

abbrev environment : String → Env
environment verdict = record {
  respond = respond verdict;
  time = λ calls. ok (some 1000);
  timestamp = λ calls. "now";
  thrown_runtime = λ calls. undefined;
}

abbrev result : Value
result = object (
    ("runId", str "run-1")
    ∷ ("runDir", str "/s/run-1")
    ∷ ("status", str "completed")
    ∷ ("steps", nat 2)
    ∷ ("url", str "http://site")
    ∷ [])

abbrev approved : World
approved = (run_workflow run (environment "approved") initial).1

abbrev rejected : World
rejected = (run_workflow run (environment "rejected") initial).1

completes : run_workflow run (environment "approved") initial ≡ (ok result, approved)
unfolding decimal split_from split_slash to_text stringify pretty_from assert_plain_object
    assert_exact_fields assert_integer assert_text assert_relative_file normalize_receipt_file
    validate_string_array is_name node_of targets queued search reach_from is_target
    check_transition check_role check_found check_reachable check_timeouts check_smoke check_output
    check_roles validate_workflow sort normalize_files validate_receipt safe_reason text_fields
    natural_fields runtime_fields validate_verification validate_publication truncate_history
    markdown_quote bullets files_text event_lines all_lines render_changelog receipt_of_event
    candidate_text history_from current_history build_prompt perform read_clock clean_up
    atomic_write event push_event record_event deadline_from check_run now remaining_timeout_seconds
    previous_history execute_role runtime_of_failure role_failed receipt_or_failure
    accept_verification verify_result publish_result finish_run prompt_of run_step run_steps
    run_body run_failed supervise prepare run_workflow ◌>>=◌
completes = refl

gives_up : run_workflow run (environment "rejected") initial ≡ (err "maxSteps 4 reached", rejected)
unfolding decimal split_from split_slash to_text stringify pretty_from assert_plain_object
    assert_exact_fields assert_integer assert_text assert_relative_file normalize_receipt_file
    validate_string_array is_name node_of targets queued search reach_from is_target
    check_transition check_role check_found check_reachable check_timeouts check_smoke check_output
    check_roles validate_workflow sort normalize_files validate_receipt safe_reason text_fields
    natural_fields runtime_fields validate_verification validate_publication truncate_history
    markdown_quote bullets files_text event_lines all_lines render_changelog receipt_of_event
    candidate_text history_from current_history build_prompt perform read_clock clean_up
    atomic_write event push_event record_event deadline_from check_run now remaining_timeout_seconds
    previous_history execute_role runtime_of_failure role_failed receipt_or_failure
    accept_verification verify_result publish_result finish_run prompt_of run_step run_steps
    run_body run_failed supervise prepare run_workflow ◌>>=◌
gives_up = refl

run_workflow-Completion_example :
    (step : ℕ) × (1 ≤ step)
    × (step ≤ nat_of (get run.workflow "maxSteps"))
    × Completion run (environment "approved") approved step result
run_workflow-Completion_example =
    run_workflow-Completion run (environment "approved") approved result completes

run_workflow-Ending_example : Ending run (environment "rejected") "maxSteps 4 reached" rejected
run_workflow-Ending_example =
    run_workflow-Ending run (environment "rejected") rejected "maxSteps 4 reached" gives_up

run_workflow-roles_called-le_example :
    let trace = (run_workflow run (environment "rejected") initial).1.trace in
    (roles_called trace ≤ nat_of (get run.workflow "maxSteps"))
    × (roles_called trace ≤ 20)
    × (all (within run) trace ≡ true)
run_workflow-roles_called-le_example = run_workflow-roles_called-le run (environment "rejected")
