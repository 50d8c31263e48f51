-- ===== src/Examples/Templates.antt =====
-- The template of the repository's templates/pi-palantir-pod/pod.json, and what its validation
-- (src/pod-contract.mjs) makes of it.
use bimo.Base.{
  ◌≤◌, false, String, [], ◌∷◌, ◌≡◌, refl, ok, err, split_from, split_slash, normalize, join_slash,
}
use bimo.Js.{to_text, Value, nat, str, arr, texts, get, nat_of}
use bimo.Contract.Fields.{
  assert_plain_object, assert_exact_fields, assert_integer, assert_text, assert_fixed_keys,
}
use bimo.Contract.Paths.{assert_prompt_path, assert_repository_directory, directories_overlap}
use bimo.Contract.Template.{
  validate_pod_template, check_writer, check_writers, check_timeouts, check_changes, check_prompts,
}
use bimo.Controller.World.{object}
use bimo.Contract.Template.Budgets.{budget, template_budgets}
use bimo.Contract.Template.WriteRoots.{write_root, template_roots_disjoint}

abbrev pub timeouts : Value
timeouts = object (
    ("executionSeconds", nat 1200)
    ∷ ("attemptSeconds", nat 3600)
    ∷ ("workflowSeconds", nat 7200)
    ∷ [])

abbrev pub writer : String → String → Value
writer prompt root =
    object (("prompt", str prompt) ∷ ("allowedWriteRoots", arr (texts (root ∷ []))) ∷ [])

-- the template with the write root of `engineering-b`
abbrev pub template_with : String → Value
template_with root = object (
    ("version", nat 1)
    ∷ ("name", str "pi-palantir-pod")
    ∷ ("maxAttempts", nat 3)
    ∷ ("timeouts", timeouts)
    ∷ ("changes", object (("maxFiles", nat 200) ∷ ("maxBytes", nat 5242880) ∷ []))
    ∷ (
      "writers",
      object (
          ("engineering-a", writer "roles/engineering.md" "extensions")
          ∷ ("engineering-b", writer "roles/engineering.md" root)
          ∷ ("qa-tests", writer "roles/qa-tests.md" "test")
          ∷ []),
    )
    ∷ (
      "prompts",
      object (
          ("planner", str "roles/planner.md")
          ∷ ("checker", str "roles/checker.md")
          ∷ ("qa", str "roles/qa.md")
          ∷ ("testing", str "roles/testing.md")
          ∷ []),
    )
    ∷ ("verificationProfile", str "pi-palantir-v1")
    ∷ [])

abbrev pub template : Value
template = template_with "omp"

pub template_accepted : validate_pod_template template ≡ ok template
unfolding validate_pod_template check_writer check_writers check_timeouts check_changes
    check_prompts assert_plain_object assert_exact_fields assert_integer assert_text
    assert_fixed_keys assert_prompt_path assert_repository_directory directories_overlap split_from
    split_slash normalize join_slash to_text
template_accepted = refl

-- a write root inside another one, up to case, is refused
overlap_refused :
    validate_pod_template (template_with "Extensions/lib")
    ≡ err "writer write roots overlap: engineering-a:extensions and engineering-b:Extensions/lib"
unfolding validate_pod_template check_writer check_writers check_timeouts check_changes
    check_prompts assert_plain_object assert_exact_fields assert_integer assert_text
    assert_fixed_keys assert_prompt_path assert_repository_directory directories_overlap split_from
    split_slash normalize join_slash to_text
overlap_refused = refl

template_budgets_example :
    (10 ≤ budget template "executionSeconds")
    × (budget template "executionSeconds" ≤ 1800)
    × (budget template "executionSeconds" ≤ budget template "attemptSeconds")
    × (budget template "attemptSeconds" ≤ 7200)
    × (budget template "attemptSeconds" ≤ budget template "workflowSeconds")
    × (budget template "workflowSeconds" ≤ 43200)
    × (1 ≤ nat_of (get template "maxAttempts"))
    × (nat_of (get template "maxAttempts") ≤ 10)
template_budgets_example = template_budgets template template template_accepted

template_roots_disjoint_example :
    (directories_overlap (write_root template "engineering-a") (write_root template "engineering-b")
      ≡ false)
    × (directories_overlap (write_root template "engineering-a") (write_root template "qa-tests")
        ≡ false)
    × (directories_overlap (write_root template "engineering-b") (write_root template "qa-tests")
        ≡ false)
template_roots_disjoint_example = template_roots_disjoint template template template_accepted
