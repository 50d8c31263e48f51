-- ===== src/Examples/FailedRun.antt =====
-- A run whose preflight finds that the verification of the base does not pass, and the commit of one
-- writer (src/pod-controller.mjs).
use bimo.Base.{
  String, false, List, [], ◌∷◌, Result, ok, err, ◌≡◌, refl, split_from, split_slash, normalize,
  join_slash, decimal,
}
use bimo.Js.{to_text, strict_equal, stringify, canonical_json, pretty_from, Value, str}
use bimo.Contract.Fields.{
  assert_plain_object, assert_exact_fields, assert_integer, assert_text, assert_fixed_keys,
  assert_trace_id, assert_git_sha, ids_from, validate_id_array, assert_exact_string_array,
  validate_evidence,
}
use bimo.Contract.Paths.{
  assert_prompt_path, assert_repository_directory, assert_repository_file, directory_contains,
  directories_overlap, path_is_owned,
}
use bimo.Contract.Directories.{validate_existing_directories}
use bimo.Contract.Template.{
  check_writer, check_writers, check_timeouts, check_changes, check_prompts, validate_pod_template,
}
use bimo.Contract.Plan.{
  requirement_ids_from, criteria_from, check_write_path, claim_paths, check_plan_writer,
  check_plan_writers, check_coverage, check_trace, check_assignment, validate_attempt_plan,
}
use bimo.Contract.Inbox.{
  assert_ids_covered, validate_dependency_request, check_entry, deliver_from,
  validate_delivered_inbox,
}
use bimo.Contract.Receipts.{
  check_account, check_request, check_writer_context, check_writer_claims, validate_writer_receipt,
  check_checker_context, check_checker_identity, validate_checker_receipt, check_gate_identity,
  validate_conformance_receipt,
}
use bimo.Controller.World.{
  finish, World, Env, Call, verify, object, ◌>>=◌, perform, structured_clone,
}
use bimo.Controller.Reasons.{reason_of, terminal_interruption}
use bimo.Controller.Time.{
  now_from_clock, remaining_ms, execution_seconds, agent_request, run_agent, build_prompt,
  receipt_of,
}
use bimo.Controller.Writers.{
  Attempt, assert_sha, work_item, record_work_result, record_gate, check_paths, commit_record,
  check_commit, commit_writer_result, checker_details, checker_gate, check_writer_result,
  retry_context, writer_details, writer_input, execute_writer, validate_writer,
}
use bimo.Controller.Race.{
  cancel_active, writer_inputs, launch, outcome_of, queue_request, handle_blocked, handle_value,
  note_error, handle_settled, after_value, settle_all,
}
use bimo.Controller.Candidate.{
  integrate, review, qa_gate, testing_gate, trusted_verification, publication_scan, ready_gate,
  all_gates,
}
use bimo.Controller.AttemptRun.{
  create_worktrees, run_writers, require_receipts, commit_slot, commit_all, check_all, run_owner,
  run_requester, resolve_dependency, run_attempt,
}
use bimo.Controller.Run.{
  first_world, preflight, prepare, plan_attempt, commit_ready, try_attempt, note_failure,
  next_attempt, attempts, run_body, settle_failure, close_source, settle_run, run_pod,
}
use bimo.Controller.Closing.{closing, FailureTold, run_pod-failed}
use bimo.Controller.Scope.{InScope, commit_writer_result-InScope}
use bimo.Examples.Plans.{plan, sha}
use bimo.Examples.ReadyRun.{
  config, respond as answers, environment, delta, workspace, writer_receipt,
}

abbrev refusing : List Call → Call → Result Value
refusing calls (verify input) = ok (object (("status", str "failed") ∷ []))
refusing calls call = answers calls call

abbrev strict_environment : Env
strict_environment = record environment { respond = refusing }

abbrev final : World
final = (run_pod config strict_environment first_world).1

not_ready : final.ready_committed ≡ false
unfolding to_text stringify pretty_from canonical_json strict_equal split_from split_slash normalize
    join_slash decimal assert_plain_object assert_exact_fields assert_integer assert_text
    assert_fixed_keys assert_trace_id assert_git_sha ids_from validate_id_array
    assert_exact_string_array validate_evidence assert_prompt_path assert_repository_directory
    assert_repository_file directory_contains directories_overlap path_is_owned
    validate_existing_directories check_writer check_writers check_timeouts check_changes
    check_prompts validate_pod_template requirement_ids_from criteria_from check_write_path
    claim_paths check_plan_writer check_plan_writers check_coverage check_trace check_assignment
    validate_attempt_plan assert_ids_covered validate_dependency_request check_entry deliver_from
    validate_delivered_inbox check_account check_request check_writer_context check_writer_claims
    validate_writer_receipt check_checker_context check_checker_identity validate_checker_receipt
    check_gate_identity validate_conformance_receipt ◌>>=◌ perform structured_clone reason_of
    terminal_interruption now_from_clock remaining_ms execution_seconds agent_request run_agent
    build_prompt receipt_of assert_sha work_item record_work_result record_gate check_paths
    commit_record check_commit commit_writer_result checker_details checker_gate check_writer_result
    retry_context writer_details writer_input execute_writer validate_writer cancel_active
    writer_inputs launch outcome_of queue_request handle_blocked handle_value note_error
    handle_settled after_value settle_all integrate review qa_gate testing_gate trusted_verification
    publication_scan ready_gate all_gates create_worktrees run_writers require_receipts commit_slot
    commit_all check_all run_owner run_requester resolve_dependency run_attempt preflight prepare
    plan_attempt commit_ready try_attempt note_failure next_attempt attempts run_body settle_failure
    close_source settle_run run_pod
not_ready = refl

run_pod-failed_example :
    (e : String) × (details : Value) × (calls : List Call) × ((run_body config strict_environment
        first_world).0
      ≡ err e)
    × FailureTold config (run_body config strict_environment first_world).1.base_sha e details
    × (final.trace ≡ closing false ∷ finish "failed" details ∷ calls)
run_pod-failed_example = run_pod-failed config strict_environment first_world not_ready

abbrev pub attempt : Attempt
attempt = record { number = 1; base_sha = str sha; base_snapshot = workspace; deadline = 3600000 }

abbrev pub before : World
before = record first_world { plan = plan }

abbrev item : Value
item = work_item plan "engineering-a"

abbrev committed : Value
committed = commit_record writer_receipt item (delta item)

abbrev after : World
after = (commit_writer_result config attempt item workspace writer_receipt environment before).1

commits :
    commit_writer_result config attempt item workspace writer_receipt environment before
    ≡ (ok committed, after)
unfolding to_text stringify pretty_from canonical_json strict_equal split_from split_slash normalize
    join_slash decimal assert_plain_object assert_exact_fields assert_integer assert_text
    assert_fixed_keys assert_trace_id assert_git_sha ids_from validate_id_array
    assert_exact_string_array validate_evidence assert_prompt_path assert_repository_directory
    assert_repository_file directory_contains directories_overlap path_is_owned
    validate_existing_directories check_writer check_writers check_timeouts check_changes
    check_prompts validate_pod_template requirement_ids_from criteria_from check_write_path
    claim_paths check_plan_writer check_plan_writers check_coverage check_trace check_assignment
    validate_attempt_plan assert_ids_covered validate_dependency_request check_entry deliver_from
    validate_delivered_inbox check_account check_request check_writer_context check_writer_claims
    validate_writer_receipt check_checker_context check_checker_identity validate_checker_receipt
    check_gate_identity validate_conformance_receipt ◌>>=◌ perform structured_clone reason_of
    terminal_interruption now_from_clock remaining_ms execution_seconds agent_request run_agent
    build_prompt receipt_of assert_sha work_item record_work_result record_gate check_paths
    commit_record check_commit commit_writer_result checker_details checker_gate check_writer_result
    retry_context writer_details writer_input execute_writer validate_writer cancel_active
    writer_inputs launch outcome_of queue_request handle_blocked handle_value note_error
    handle_settled after_value settle_all integrate review qa_gate testing_gate trusted_verification
    publication_scan ready_gate all_gates create_worktrees run_writers require_receipts commit_slot
    commit_all check_all run_owner run_requester resolve_dependency run_attempt preflight prepare
    plan_attempt commit_ready try_attempt note_failure next_attempt attempts run_body settle_failure
    close_source settle_run run_pod
commits = refl

commit_writer_result-InScope_example :
    (delta : Value) × (committed ≡ commit_record writer_receipt item delta)
    × InScope config item delta
commit_writer_result-InScope_example =
    commit_writer_result-InScope config attempt item workspace writer_receipt environment before
      after committed commits
