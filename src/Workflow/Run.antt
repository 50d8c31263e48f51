-- ===== src/Workflow/Run.antt =====
-- `runWorkflow` of src/workflow.mjs: the roles hand over to one another until an outcome ends the
-- workflow; then the result is verified and published.
pub mod Traces
pub mod Calls
pub mod Bounds
pub mod Silent
pub mod Finished
pub mod Completed
pub mod Failed
use bimo.Base.{
  ℕ, zero, suc, ◌+◌, ◌-◌, ◌*◌, ◌/◌, String, Bool, true, false, List, [], ◌∷◌, ◌++◌, all, leb, ltb,
  min, codes, ◌<>◌, decimal, length, ◌==◌, Option, none, some, Result, ok, err, check, from_ok,
  if◌then◌else◌, ◌&&◌, ◌||◌, is_upper, is_lower, is_digit,
}
use bimo.Js.{
  Value, undefined, null, nat, str, Fields, fields_from, object, fields_of, set_field, spread, get,
  keys_of, is_plain_object, is_string, is_text, text_of, to_text, nat_of, or_else, in_range,
  max_safe_integer,
}
use bimo.Contract.Fields.{assert_text, assert_plain_object}
use bimo.Workflow.Graph.{Node, node_of, key_of, same_node, is_done}
use bimo.Workflow.Definition.{validate_workflow}
use bimo.Workflow.Receipt.{
  validate_receipt, validate_verification, validate_publication, runtime_fields, safe_reason,
}
use bimo.Js.{is_truthy}
use bimo.Workflow.History.{truncate_history, trim, build_prompt}
use bimo.Workflow.Arguments.{matches_run_id, deadline_from, check_run}
use bimo.Workflow.World.{
  World, Env, Run, M, Call, clock, make_state_root, make_workspace, make_run_dir, read_latest,
  read_changelog, create_events, run_role, verify, publish, latest, perform, read_clock,
  atomic_write, record_event, ◌>>=◌, ◌>>◌, pure, throw, lift, require, gets, modify, attempt_to,
}

-- `clock()`, and the test that it is finite
abbrev pub finite : Option ℕ → M ℕ
finite none = throw "clock must return a finite millisecond timestamp"
finite (some ms) = pure ms

unfoldable pub now : M ℕ
now = read_clock >>= finite

-- `remainingTimeoutSeconds(minimum)`: the whole seconds up to the deadline, rounded up
unfoldable pub remaining_timeout_seconds : ℕ → ℕ → M ℕ
remaining_timeout_seconds deadline minimum = do
  current ← now
  require (ltb current deadline) "workflow timeout reached"
  let seconds = (deadline - current + 999) / 1000
  require (leb minimum seconds) "workflow timeout reached"
  pure seconds

-- `previousHistory(stateRoot)`: an error of any kind means that there is none
abbrev pub no_history : Value × String
no_history = (null, "None.")

unfoldable pub previous_history : M (Value × String)
previous_history =
    let read = do
      text ← perform read_latest
      let previous = trim (text_of text)
      let found = do
        log ← perform (read_changelog previous)
        pure (str previous, truncate_history (text_of log) 49152)
      if matches_run_id (codes previous) then found else pure no_history
    in attempt_to read (λ outcome. pure (from_ok no_history outcome))

-- `attempts.get(role) ?? 0`, and `attempts.set(role, attempt)`
abbrev pub Attempts : Type 0
Attempts = List (Node × ℕ)

abbrev pub attempts_of : Node → Attempts → ℕ
attempts_of n [] = 0
attempts_of n ((m, k) ∷ rest) = let later = attempts_of n rest in if same_node n m then k else later

-- what a step ends with: the result of the run, or the role that is active next
pub data Next : Type 0 where
  finished : Value → Next
  hand_over : Value → Next

pub record Step : Type 0 where
  pub deadline : ℕ
  pub step : ℕ
  pub active : Value
  pub role : Value
  pub attempt : ℕ

abbrev pub access_of : Value → Value
access_of role = str (if is_truthy (get role "write") then "write" else "read")

-- the calls of `runRole`, `verify` and `publish`
abbrev pub role_input : Run → Step → String → ℕ → Value
role_input r s prompt seconds = object (
    ("role", s.active)
    ∷ ("step", nat s.step)
    ∷ ("attempt", nat s.attempt)
    ∷ ("access", access_of s.role)
    ∷ ("prompt", str prompt)
    ∷ ("timeoutSeconds", nat seconds)
    ∷ ("workspace", str r.workspace)
    ∷ ("runDir", str r.run_dir)
    ∷ [])

abbrev pub result_input : Run → ℕ → Value
result_input r seconds = object (
    ("workflow", r.workflow)
    ∷ ("workspace", str r.workspace)
    ∷ ("runDir", str r.run_dir)
    ∷ ("timeoutSeconds", nat seconds)
    ∷ [])

-- the body of the inner `try`
unfoldable pub execute_role : Run → Step → String → M Value
execute_role r s prompt = do
  remaining ← remaining_timeout_seconds s.deadline 10
  let seconds = min (nat_of (get (get r.workflow "timeouts") "stepSeconds")) remaining
  result ← perform (run_role (role_input r s prompt seconds))
  modify (λ w. record w { result = result })
  remaining_timeout_seconds s.deadline 1
  lift (assert_plain_object result "role result")
  lift (validate_receipt (get result "receipt") s.role)

-- `result?.runtime ?? error?.runtime`; only an error of the role itself has the field
unfoldable pub runtime_of_failure : M Value
runtime_of_failure env w =
    let thrown : Value = elim w.trace [
      | (run_role input ∷ rest) ↦ env.thrown_runtime w.trace
      | _ ↦ undefined
    ] in
    (ok (runtime_fields (or_else (get w.result "runtime") thrown)), w)

-- the handler of the inner `try`
unfoldable pub role_failed : Run → Step → Result Value → M Value
role_failed r s (ok receipt) = pure receipt
role_failed r s (err e) = do
  runtime ← runtime_of_failure
  record_event r "role.failed" (
      fields_from (
        ("role", s.active)
        ∷ ("step", nat s.step)
        ∷ ("attempt", nat s.attempt)
        ∷ ("reason", str (safe_reason e))
        ∷ ("runtime", runtime)
        ∷ []))
  throw e

unfoldable pub receipt_or_failure : Run → Step → String → M Value
receipt_or_failure r s prompt = attempt_to (execute_role r s prompt) (role_failed r s)

-- the branch of the outcome that ends the workflow: first the verification, which must pass
unfoldable pub accept_verification : Run → Step → Value → M Value
accept_verification r s verified = do
  verification ← lift (validate_verification verified)
  remaining_timeout_seconds s.deadline 1
  record_event r "verification.finished" (fields_of verification)
  require (is_text (get verification "status") "passed") "deterministic verification failed"
  pure verification

unfoldable pub verify_result : Run → Step → M Value
verify_result r s = do
  seconds ← remaining_timeout_seconds s.deadline 1
  verified ← perform (verify (result_input r seconds))
  accept_verification r s verified

-- then the publication
unfoldable pub publish_result : Run → Step → M Value
publish_result r s = do
  seconds ← remaining_timeout_seconds s.deadline 1
  published ← perform (publish (result_input r seconds))
  publication ← lift (validate_publication published)
  record_event r "publication.finished" (fields_of publication)
  pure publication

abbrev pub finished_details : ℕ → Fields
finished_details step = fields_from (("status", str "completed") ∷ ("steps", nat step) ∷ [])

abbrev pub run_result : Run → ℕ → Value → Value
run_result r step publication = object (
    ("runId", str r.run_id)
    ∷ ("runDir", str r.run_dir)
    ∷ ("status", str "completed")
    ∷ ("steps", nat step)
    ∷ ("url", get publication "url")
    ∷ [])

unfoldable pub finish_run : Run → Step → M Next
finish_run r s = do
  verify_result r s
  publication ← publish_result r s
  record_event r "run.finished" (finished_details s.step)
  pure (finished (run_result r s.step publication))

unfoldable pub prompt_of : Run → String → Step → List Value → Result String
prompt_of r previous s events =
    build_prompt (to_text s.active) (text_of (get r.prompts (key_of (node_of s.active))))
      (text_of r.task) previous events (keys_of (get s.role "on"))

-- one round of the loop; every active role of a validated workflow has a definition
unfoldable pub run_step : Run → String → Step → M Next
run_step r previous s = do
  remaining_timeout_seconds s.deadline 1
  events ← gets (λ w. w.events)
  prompt ← lift (prompt_of r previous s events)
  record_event r "role.started" (
      fields_from (
        ("role", s.active)
        ∷ ("step", nat s.step)
        ∷ ("attempt", nat s.attempt)
        ∷ ("access", access_of s.role)
        ∷ []))
  modify (λ w. record w { result = undefined })
  receipt ← receipt_or_failure r s prompt
  result ← gets (λ w. w.result)
  record_event r "role.finished" (
      set_field "runtime" (runtime_fields (get result "runtime")) (
        spread
          (fields_from
            (("role", s.active) ∷ ("step", nat s.step) ∷ ("attempt", nat s.attempt) ∷ []))
          (fields_of receipt)))
  let next = get (get s.role "on") (text_of (get receipt "outcome"))
  if is_done next then finish_run r s else pure (hand_over next)

-- the loop ends with the run, or goes on with the next role
abbrev pub continue_with : (Value → M Value) → Next → M Value
continue_with rest (finished result) = pure result
continue_with rest (hand_over role) = rest role

abbrev step_of : Run → ℕ → ℕ → Value → Attempts → Step
step_of r deadline step active attempts = record {
  deadline = deadline;
  step = step;
  active = active;
  role = get (get r.workflow "roles") (key_of (node_of active));
  attempt = suc (attempts_of (node_of active) attempts);
}

-- the loop from a step, with the number of steps left
unfoldable pub run_steps : Run → String → ℕ → ℕ → ℕ → Value → Attempts → M Value
run_steps r previous deadline zero step active attempts =
    throw ("maxSteps " <> to_text (get r.workflow "maxSteps") <> " reached")
run_steps r previous deadline (suc left) step active attempts =
    let s = step_of r deadline step active attempts in
    run_step r previous s
    >>= continue_with (λ role.
      run_steps r previous deadline left (suc step) role ((node_of active, s.attempt) ∷ attempts))

-- the outer `try` and its handler
unfoldable pub run_body : Run → String → ℕ → M Value
run_body r previous deadline = do
  atomic_write latest (r.run_id <> "\n")
  run_steps r previous deadline (nat_of (get r.workflow "maxSteps")) 1 (get r.workflow "start") []

abbrev pub failed_details : String → Fields
failed_details e = fields_from (("status", str "failed") ∷ ("reason", str (safe_reason e)) ∷ [])

unfoldable pub run_failed : Run → Result Value → M Value
run_failed r (ok result) = pure result
run_failed r (err e) = do record_event r "run.failed" (failed_details e); throw e

unfoldable pub supervise : Run → String → ℕ → M Value
supervise r previous deadline = attempt_to (run_body r previous deadline) (run_failed r)

-- up to the file of the events: the previous history and the deadline
unfoldable pub prepare : Run → M ((Value × String) × ℕ)
prepare r = do
  lift (check_run r)
  invoked_at ← now
  deadline ← lift (deadline_from r invoked_at)
  perform make_state_root
  perform make_workspace
  previous ← previous_history
  perform make_run_dir
  perform create_events
  pure (previous, deadline)

abbrev pub started_details : Run → Value → Fields
started_details r previous = fields_from (
    ("template", get r.workflow "name")
    ∷ ("templateDigest", or_else r.template_digest (str "unspecified"))
    ∷ ("taskSha256", str (r.sha256 (text_of r.task)))
    ∷ ("previousRunId", previous)
    ∷ ("model", r.model)
    ∷ ("agentRuntime", r.agent_runtime)
    ∷ ("imageDigest", r.image_digest)
    ∷ [])

unfoldable pub run_workflow : Run → M Value
run_workflow r = do
  (previous, deadline) ← prepare r
  record_event r "run.started" (started_details r previous.0)
  supervise r previous.1 deadline
