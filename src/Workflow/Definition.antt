-- ===== src/Workflow/Definition.antt =====
-- `validateWorkflow` of src/workflow.mjs. It returns the workflow as it was given.
pub mod Accepted
pub mod Searched
use bimo.Base.{
  ℕ, String, Bool, true, false, not, List, [], ◌∷◌, length, keep, any, leb, codes, begins, len,
  mem_text, ◌<>◌, Result, ok, check, each, ◌>>◌, ◌>>=◌, ◌&&◌, ◌||◌, Option, none, some, text_eq,
}
use bimo.Js.{
  Value, bool, str, Fields, fields_of, get, keys_of, has_own, is_text, is_nat, nat_of, is_string,
  text_of, to_text,
}
use bimo.Contract.Fields.{
  Checked, listed, assert_plain_object, assert_exact_fields, assert_integer, assert_text,
}
use bimo.Workflow.Fields.{
  entries_of, assert_relative_file, units, includes_codes, is_name, matches_output_directory,
}
use bimo.Workflow.Graph.{Node, named, seen, is_done, reach_from}

abbrev pub workflow_fields : List String
workflow_fields = "version" ∷ "name" ∷ "start" ∷ "maxSteps" ∷ "timeouts" ∷ "roles" ∷ "output" ∷ []

abbrev pub role_fields : List String
role_fields = "prompt" ∷ "write" ∷ "on" ∷ []

abbrev pub timeout_fields : List String
timeout_fields = "stepSeconds" ∷ "workflowSeconds" ∷ []

abbrev pub output_fields : List String
output_fields = "directory" ∷ "maxFiles" ∷ "maxBytes" ∷ "smoke" ∷ []

abbrev pub smoke_fields : List String
smoke_fields = "path" ∷ "status" ∷ "contains" ∷ []

abbrev pub is_bool : Value → Bool
is_bool (bool b) = true
is_bool _ = false

-- a target is "done" or names a role
unfoldable pub is_target : Value → Value → Bool
is_target roles target = is_done target || is_name target && has_own roles (to_text target)

-- the loop over the transitions of a role
unfoldable pub check_transition : Value → String → String × Value → Checked
check_transition roles role_name (outcome, target) = do
  check (is_name (str outcome)) ("invalid outcome for role " <> role_name <> ": " <> outcome)
  check (is_target roles target)
      ("role " <> role_name <> " targets unknown role: " <> to_text target)

-- the loop over the roles
unfoldable pub check_role : Value → String → Checked
check_role roles role_name = do
  check (is_name (str role_name)) ("invalid role name: " <> role_name)
  let role = get roles role_name
  assert_plain_object role ("role " <> role_name)
  assert_exact_fields role role_fields ("role " <> role_name)
  assert_relative_file (get role "prompt") ("role " <> role_name <> " prompt")
  check (is_bool (get role "write")) ("role " <> role_name <> " write must be boolean")
  assert_plain_object (get role "on") ("role " <> role_name <> " transitions")
  let transitions = entries_of (get role "on")
  check (leb 1 (length transitions) && leb (length transitions) 8)
      ("role " <> role_name <> " must contain 1 to 8 transitions")
  each (check_transition roles role_name) transitions

-- what the search found; it always ends
abbrev pub found : Option (List Node × Bool) → List Node × Bool
found none = ([], false)
found (some r) = r

-- `reachesDone`, and the names of roles that are not reached
unfoldable pub check_found : List String → List Node × Bool → Checked
check_found role_names (reachable, done) = do
  check done "workflow start cannot reach done"
  let unreachable = keep (λ k. not (seen (named k) reachable)) role_names
  check (leb (length unreachable) 0) ("workflow has unreachable roles: " <> listed unreachable)

unfoldable pub check_reachable : Value → Value → Checked
check_reachable roles start =
    check_found (keys_of roles) (found (reach_from (fields_of roles) start))

unfoldable pub check_timeouts : Value → Checked
check_timeouts timeouts = do
  assert_plain_object timeouts "workflow timeouts"
  assert_exact_fields timeouts timeout_fields "timeouts"
  assert_integer (get timeouts "stepSeconds") 10 1800 "timeouts.stepSeconds"
  assert_integer (get timeouts "workflowSeconds") (nat_of (get timeouts "stepSeconds")) 7200
      "timeouts.workflowSeconds"

unfoldable pub check_smoke : Value → Checked
check_smoke smoke = do
  assert_plain_object smoke "output smoke"
  assert_exact_fields smoke smoke_fields "smoke"
  let path = text_of (get smoke "path")
  check
      (is_string (get smoke "path")
        && begins path "/"
        && not (includes_codes (codes "..") (codes path))
        && leb (units path) 256)
      "smoke.path must be a safe absolute URL path"
  check (not (is_text (get smoke "path") "/healthz"))
      "smoke.path /healthz is reserved for server health"
  assert_integer (get smoke "status") 100 599 "smoke.status"
  assert_text (get smoke "contains") "smoke.contains" 256

unfoldable pub check_output : Value → Checked
check_output output = do
  assert_plain_object output "workflow output"
  assert_exact_fields output output_fields "output"
  assert_relative_file (get output "directory") "output.directory"
  check (matches_output_directory (codes (to_text (get output "directory"))))
      "output.directory must be one safe path component"
  assert_integer (get output "maxFiles") 1 5000 "output.maxFiles"
  assert_integer (get output "maxBytes") 1024 104857600 "output.maxBytes"
  check_smoke (get output "smoke")

unfoldable pub check_roles : Value → Value → Checked
check_roles roles start = do
  assert_plain_object roles "workflow roles"
  let role_names = keys_of roles
  check (leb 1 (length role_names) && leb (length role_names) 12)
      "workflow must contain 1 to 12 roles"
  check (has_own roles (to_text start)) ("unknown start role: " <> to_text start)
  each (check_role roles) role_names

unfoldable pub validate_workflow : Value → Result Value
validate_workflow workflow = do
  assert_plain_object workflow "workflow"
  assert_exact_fields workflow workflow_fields "workflow"
  check (is_nat (get workflow "version") 1) "workflow version must be 1"
  check (is_name (get workflow "name"))
      "workflow name must use lowercase letters, numbers, and dashes"
  check (is_name (get workflow "start")) "workflow start must name a role"
  assert_integer (get workflow "maxSteps") 1 20 "workflow maxSteps"
  check_timeouts (get workflow "timeouts")
  check_roles (get workflow "roles") (get workflow "start")
  check_reachable (get workflow "roles") (get workflow "start")
  check_output (get workflow "output")
  ok workflow
