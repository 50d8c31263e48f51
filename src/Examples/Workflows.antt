-- ===== src/Examples/Workflows.antt =====
-- A workflow of two roles (src/workflow.mjs), its receipts, and the texts of its histories.
use bimo.Base.{
  String, Bool, true, false, from_ok, len, some, ◌↔◌, List, [], ◌∷◌, ok, ◌≡◌, ◌≤◌, refl, arith,
  decimal, split_from, split_slash,
}
use bimo.Js.{
  Value, nat, str, bool, arr, texts, object, Fields, field, end, to_text, stringify, pretty_from,
}
use bimo.Contract.Fields.{assert_plain_object, assert_exact_fields, assert_integer, assert_text}
use bimo.Workflow.Fields.{
  assert_relative_file, normalize_receipt_file, validate_string_array, is_name,
}
use bimo.Workflow.Graph.{node_of, targets, queued, search, reach_from, Node, named, seen}
use bimo.Workflow.Definition.{
  is_target, check_transition, check_role, check_found, check_reachable, check_timeouts,
  check_smoke, check_output, check_roles, validate_workflow,
}
use bimo.Workflow.Receipt.{
  sort, normalize_files, validate_receipt, safe_reason, text_fields, natural_fields, runtime_fields,
  validate_verification, validate_publication,
}
use bimo.Workflow.History.{
  truncate_history, markdown_quote, bullets, files_text, event_lines, all_lines, render_changelog,
  receipt_of_event, candidate_text, history_from, current_history, build_prompt,
  max_current_history_bytes, max_agent_prompt_bytes,
}
use bimo.Workflow.Graph.Transitions.{Reach, ReachesDone}
use bimo.Workflow.Graph.Reached.{reach_from-Reach}
use bimo.Workflow.Definition.Accepted.{WorkflowAccepted, validate_workflow-WorkflowAccepted}
use bimo.Workflow.Receipt.Accepted.{ReceiptAccepted, validate_receipt-ReceiptAccepted}
use bimo.Workflow.History.Bounded.{truncate_history-le, build_prompt-le}

abbrev role : Bool → List (String × Value) → Value
role write on =
    object (("prompt", str "prompts/role.md") ∷ ("write", bool write) ∷ ("on", object on) ∷ [])

abbrev pub builder : Value
builder = role true (("built", str "reviewer") ∷ [])

abbrev pub reviewer : Value
reviewer = role false (("approved", str "done") ∷ ("rejected", str "builder") ∷ [])

abbrev smoke : Value
smoke = object (("path", str "/") ∷ ("status", nat 200) ∷ ("contains", str "Hello") ∷ [])

abbrev pub workflow : Value
workflow = object (
    ("version", nat 1)
    ∷ ("name", str "site")
    ∷ ("start", str "builder")
    ∷ ("maxSteps", nat 4)
    ∷ ("timeouts", object (("stepSeconds", nat 60) ∷ ("workflowSeconds", nat 600) ∷ []))
    ∷ ("roles", object (("builder", builder) ∷ ("reviewer", reviewer) ∷ []))
    ∷ (
      "output",
      object (
          ("directory", str "dist")
          ∷ ("maxFiles", nat 10)
          ∷ ("maxBytes", nat 4096)
          ∷ ("smoke", smoke)
          ∷ []),
    )
    ∷ [])

validates : validate_workflow workflow ≡ ok workflow
unfolding decimal split_from split_slash to_text stringify pretty_from assert_plain_object
    assert_exact_fields assert_integer assert_text assert_relative_file normalize_receipt_file
    validate_string_array is_name node_of targets queued search reach_from is_target
    check_transition check_role check_found check_reachable check_timeouts check_smoke check_output
    check_roles validate_workflow
validates = refl

validate_workflow-WorkflowAccepted_example : WorkflowAccepted workflow
validate_workflow-WorkflowAccepted_example =
    validate_workflow-WorkflowAccepted workflow workflow validates

abbrev roles : Fields
roles = field "builder" builder (field "reviewer" reviewer end)

reaches : reach_from roles (str "builder") ≡ some (named "reviewer" ∷ named "builder" ∷ [], true)
unfolding node_of targets queued search reach_from
reaches = refl

reach_from-Reach_example :
    ((n : Node)
      → (seen n (named "reviewer" ∷ named "builder" ∷ []) ≡ true)
        ↔ Reach roles (node_of (str "builder")) n)
    × ((true ≡ true) ↔ ReachesDone roles (node_of (str "builder")))
reach_from-Reach_example = reach_from-Reach roles (str "builder") reaches

abbrev receipt : Value → Value
receipt files = object (
    ("outcome", str "built")
    ∷ ("what", str "page")
    ∷ ("why", str "task")
    ∷ ("evidence", arr (texts ("ls" ∷ [])))
    ∷ ("files", files)
    ∷ [])

accepts :
    validate_receipt (receipt (arr (texts ("dist/" ∷ [])))) builder
    ≡ ok (receipt (arr (texts ("dist" ∷ []))))
unfolding decimal split_from split_slash to_text stringify pretty_from assert_plain_object
    assert_exact_fields assert_integer assert_text assert_relative_file normalize_receipt_file
    validate_string_array is_name sort normalize_files validate_receipt safe_reason text_fields
    natural_fields runtime_fields validate_verification validate_publication
accepts = refl

validate_receipt-ReceiptAccepted_example :
    ReceiptAccepted
      (receipt (arr (texts ("dist/" ∷ []))))
      builder
      (receipt (arr (texts ("dist" ∷ []))))
validate_receipt-ReceiptAccepted_example =
    validate_receipt-ReceiptAccepted (receipt (arr (texts ("dist/" ∷ [])))) builder
      (receipt (arr (texts ("dist" ∷ [])))) accepts

abbrev long_history : String
long_history = "0123456789 0123456789 0123456789 0123456789"

truncates : truncate_history long_history 35 ≡ "01\n...[history truncated]...\n456789"
unfolding truncate_history
truncates = refl

truncate_history-le_example :
    (len (truncate_history long_history 35) ≤ 35)
    × (len long_history ≤ 35 → truncate_history long_history 35 ≡ long_history)
truncate_history-le_example = truncate_history-le long_history 35 (omega arith)

abbrev prompt : String
prompt = from_ok "" (build_prompt "builder" "Build." "A page" "None." [] ("built" ∷ []))

builds : build_prompt "builder" "Build." "A page" "None." [] ("built" ∷ []) ≡ ok prompt
unfolding decimal split_from split_slash to_text stringify pretty_from truncate_history
    markdown_quote bullets files_text event_lines all_lines render_changelog receipt_of_event
    candidate_text history_from current_history build_prompt
builds = refl

build_prompt-le_example :
    (len (current_history []) ≤ max_current_history_bytes) × (len prompt ≤ max_agent_prompt_bytes)
build_prompt-le_example =
    build_prompt-le "builder" "Build." "A page" "None." [] ("built" ∷ []) prompt builds
