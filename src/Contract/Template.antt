-- ===== src/Contract/Template.antt =====
-- `validatePodTemplate` of src/pod-contract.mjs. The names of the writers, prompts and fields are
-- the source's constants.
pub mod Budgets
pub mod WriteRoots
use bimo.Base.{
  ℕ, String, Bool, true, false, not, List, [], ◌∷◌, length, leb, text_eq, mem_text, codes, ◌<>◌,
  Result, ok, err, check, each, ◌>>=◌, ◌>>◌, ◌==◌, ◌&&◌, ◌++◌,
}
use bimo.Js.{Value, is_array, elements, get, is_nat, is_string, nat_of, text_of, to_text, undefined}
use bimo.Contract.Fields.{
  Checked, assert_plain_object, assert_exact_fields, assert_integer, assert_fixed_keys,
  matches_name,
}
use bimo.Contract.Paths.{assert_prompt_path, assert_repository_directory, directories_overlap}

abbrev pub writer_ids : List String
writer_ids = "engineering-a" ∷ "engineering-b" ∷ "qa-tests" ∷ []

abbrev template_fields : List String
template_fields =
    "version" ∷ "name" ∷ "maxAttempts" ∷ "timeouts" ∷ "changes" ∷ "writers" ∷ "prompts"
    ∷ "verificationProfile" ∷ []

abbrev writer_fields : List String
writer_fields = "prompt" ∷ "allowedWriteRoots" ∷ []

abbrev prompt_ids : List String
prompt_ids = "planner" ∷ "checker" ∷ "qa" ∷ "testing" ∷ []

abbrev timeout_fields : List String
timeout_fields = "executionSeconds" ∷ "attemptSeconds" ∷ "workflowSeconds" ∷ []

abbrev change_fields : List String
change_fields = "maxFiles" ∷ "maxBytes" ∷ []

abbrev verification_profiles : List String
verification_profiles = "bimo-repo-v1" ∷ "pi-palantir-v1" ∷ []

-- a directory with the writer that claims it
abbrev pub Claim : Type 0
Claim = String × String

-- the loop that refuses a directory overlapping one that is claimed
abbrev pub refuse_overlap : String → String → String → List Claim → Checked
refuse_overlap what writer_id root claimed =
    each
      (λ c.
        check (not (directories_overlap c.1 root))
          (what <> " overlap: " <> c.0 <> ":" <> c.1 <> " and " <> writer_id <> ":" <> root))
      claimed

-- `writer.allowedWriteRoots[0]`
abbrev pub first_element : Value → Value
first_element v = elim (elements v) [ [] ↦ undefined | w ∷ ws ↦ w ]

-- one round of the loop over the writers: the write root that the writer claims
unfoldable pub check_writer : Value → List Claim → String → Result String
check_writer writers claimed writer_id = do
  let writer = get writers writer_id
  assert_plain_object writer ("writer " <> writer_id)
  assert_exact_fields writer writer_fields ("writer " <> writer_id)
  assert_prompt_path (get writer "prompt") ("writer " <> writer_id <> " prompt")
  let roots = get writer "allowedWriteRoots"
  check (is_array roots && length (elements roots) == 1)
      ("writer " <> writer_id <> " allowedWriteRoots must contain exactly one directory")
  let root = first_element roots
  assert_repository_directory root ("writer " <> writer_id <> " allowedWriteRoots[0]")
  refuse_overlap "writer write roots" writer_id (text_of root) claimed
  ok (text_of root)

-- the loop, with the roots claimed so far
unfoldable pub check_writers : Value → List Claim → List String → Checked
check_writers writers claimed [] = ok tt
check_writers writers claimed (writer_id ∷ rest) = do
  root ← check_writer writers claimed writer_id
  check_writers writers (claimed ++ (writer_id, root) ∷ []) rest

unfoldable pub check_timeouts : Value → Checked
check_timeouts timeouts = do
  assert_plain_object timeouts "timeouts"
  assert_exact_fields timeouts timeout_fields "timeouts"
  assert_integer (get timeouts "executionSeconds") 10 1800 "timeouts.executionSeconds"
  assert_integer (get timeouts "attemptSeconds") (nat_of (get timeouts "executionSeconds")) 7200
      "timeouts.attemptSeconds"
  assert_integer (get timeouts "workflowSeconds") (nat_of (get timeouts "attemptSeconds")) 43200
      "timeouts.workflowSeconds"

unfoldable pub check_changes : Value → Checked
check_changes changes = do
  assert_plain_object changes "changes"
  assert_exact_fields changes change_fields "changes"
  assert_integer (get changes "maxFiles") 1 5000 "changes.maxFiles"
  assert_integer (get changes "maxBytes") 1024 104857600 "changes.maxBytes"

unfoldable pub check_prompts : Value → Checked
check_prompts prompts = do
  assert_plain_object prompts "prompts"
  assert_fixed_keys prompts prompt_ids "prompts"
  each (λ prompt_id. assert_prompt_path (get prompts prompt_id) ("prompt " <> prompt_id)) prompt_ids

-- `validatePodTemplate`; the source returns its argument
unfoldable pub validate_pod_template : Value → Result Value
validate_pod_template template = do
  assert_plain_object template "pod template"
  assert_exact_fields template template_fields "pod template"
  check (is_nat (get template "version") 1) "pod template version must be 1"
  check (matches_name (codes (to_text (get template "name"))))
      "pod template name must use lowercase letters, numbers, and dashes"
  assert_integer (get template "maxAttempts") 1 10 "maxAttempts"
  check_timeouts (get template "timeouts")
  check_changes (get template "changes")
  assert_plain_object (get template "writers") "writers"
  assert_fixed_keys (get template "writers") writer_ids "writers"
  check_writers (get template "writers") [] writer_ids
  check_prompts (get template "prompts")
  check (is_string (get template "verificationProfile")) "verificationProfile must be a string"
  check (mem_text (text_of (get template "verificationProfile")) verification_profiles)
      ("unsupported verificationProfile: " <> text_of (get template "verificationProfile"))
  ok template
