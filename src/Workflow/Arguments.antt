-- ===== src/Workflow/Arguments.antt =====
-- The checks that `runWorkflow` of src/workflow.mjs makes of its arguments.
use bimo.Base.{
  ℕ, ◌+◌, ◌*◌, Bool, true, false, List, [], ◌∷◌, all, leb, codes, length, ◌==◌, Result, ok, check,
  ◌>>◌, if◌then◌else◌, ◌&&◌, ◌||◌, is_upper, is_lower, is_digit,
}
use bimo.Js.{
  Value, undefined, get, keys_of, is_plain_object, is_string, nat_of, in_range, max_safe_integer,
}
use bimo.Contract.Fields.{assert_text}
use bimo.Workflow.Definition.{validate_workflow}
use bimo.Workflow.World.{Run}

-- /^[A-Za-z0-9][A-Za-z0-9._-]{0,79}$/
abbrev pub matches_run_id : List ℕ → Bool
matches_run_id [] = false
matches_run_id (c ∷ cs) =
    (is_upper c || is_lower c || is_digit c)
    && all (λ d. is_upper d || is_lower d || is_digit d || d == b'.' || d == b'_' || d == b'-') cs
    && leb (length cs) 79

abbrev is_undefined : Value → Bool
is_undefined undefined = true
is_undefined _ = false

-- the deadline, from the time of the call
unfoldable pub deadline_from : Run → ℕ → Result ℕ
deadline_from r invoked_at = do
  let maximum = invoked_at + nat_of (get (get r.workflow "timeouts") "workflowSeconds") * 1000
  check (is_undefined r.deadline_at || in_range r.deadline_at 0 max_safe_integer)
      "deadlineAt must be a non-negative safe integer millisecond timestamp"
  check (is_undefined r.deadline_at || leb (nat_of r.deadline_at) maximum)
      "deadlineAt cannot extend the workflow timeout"
  ok (if is_undefined r.deadline_at then maximum else nat_of r.deadline_at)

abbrev has_prompts : Run → Bool
has_prompts r =
    is_plain_object r.prompts
    && all (λ k. is_string (get r.prompts k)) (keys_of (get r.workflow "roles"))

-- the checks of the arguments; the functions are ports here
unfoldable pub check_run : Run → Result (Unit {0})
check_run r = do
  validate_workflow r.workflow
  assert_text r.task "task" 65536
  check (matches_run_id (codes r.run_id)) "invalid run ID"
  check (has_prompts r) "prompts must contain every workflow role"
