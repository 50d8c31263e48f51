-- ===== src/Examples/Plans.antt =====
-- A plan, an inbox and receipts for the example template, and what their validation
-- (src/pod-contract.mjs) makes of them.
use bimo.Base.{
  ◌≤◌, String, List, [], ◌∷◌, All, ok, ◌≡◌, refl, split_from, split_slash, normalize, join_slash,
  decimal,
}
use bimo.Js.{to_text, strict_equal, Value, nat, str, arr, texts, from_list, get, elements}
use bimo.Contract.Fields.{
  assert_plain_object, assert_exact_fields, assert_integer, assert_text, assert_fixed_keys,
  assert_trace_id, assert_git_sha, ids_from, validate_id_array,
}
use bimo.Contract.Paths.{
  assert_prompt_path, assert_repository_directory, directory_contains, directories_overlap,
}
use bimo.Contract.Directories.{validate_existing_directories}
use bimo.Contract.Template.{
  writer_ids, validate_pod_template, check_timeouts, check_changes, check_prompts, check_writers,
  check_writer,
}
use bimo.Contract.Plan.{
  requirement_ids_from, criteria_from, check_write_path, claim_paths, check_plan_writer,
  check_plan_writers, check_coverage, check_trace, check_assignment, validate_attempt_plan,
}
use bimo.Contract.Plan.WritePaths.{
  plan_claims, Permitted, Disjoint, owners, plan_claims-Sound, plan_owners-le-one,
}
use bimo.Contract.Plan.Assigned.{Within, ids_of, criteria_requirements, assigned_ids, plan_covers}
use bimo.Controller.World.{object}
use bimo.Examples.Templates.{template}

abbrev pub sha : String
sha = "0123456789abcdef0123456789abcdef01234567"

abbrev pub digest : String
digest = "0123456789abcdef0123456789abcdef0123456789abcdef0123456789abcdef"

-- a stand-in for the hash
abbrev pub constant_hash : String → String
constant_hash s = digest

abbrev pub directories : Value
directories = arr (texts ("extensions" ∷ "extensions/a" ∷ "omp" ∷ "test" ∷ []))

abbrev pub assigned : List String → List String → String → Value
assigned requirements acceptance path = object (
    ("brief", str "Do the work.")
    ∷ ("requirementIds", arr (texts requirements))
    ∷ ("acceptanceIds", arr (texts acceptance))
    ∷ ("writePaths", arr (texts (path ∷ [])))
    ∷ [])

abbrev pub plan : Value
plan = object (
    ("version", nat 1)
    ∷ ("attempt", nat 1)
    ∷ ("baseSha", str sha)
    ∷ (
      "requirements",
      arr (from_list (object (("id", str "R1") ∷ ("text", str "It works.") ∷ []) ∷ [])),
    )
    ∷ (
      "acceptanceCriteria",
      arr (
          from_list (
            object (
              ("id", str "A1")
              ∷ ("requirementIds", arr (texts ("R1" ∷ [])))
              ∷ ("text", str "A test passes.")
              ∷ [])
            ∷ [])),
    )
    ∷ (
      "writers",
      object (
          ("engineering-a", assigned ("R1" ∷ []) ("A1" ∷ []) "extensions/a")
          ∷ ("engineering-b", assigned ("R1" ∷ []) ("A1" ∷ []) "omp")
          ∷ ("qa-tests", assigned ("R1" ∷ []) ("A1" ∷ []) "test")
          ∷ []),
    )
    ∷ [])

pub plan_accepted : validate_attempt_plan plan template (str sha) directories ≡ ok plan
unfolding validate_attempt_plan validate_pod_template assert_plain_object assert_exact_fields
    to_text assert_integer check_timeouts check_changes assert_fixed_keys check_writers check_writer
    assert_prompt_path assert_text split_slash normalize assert_repository_directory
    directories_overlap check_prompts decimal join_slash split_from validate_existing_directories
    assert_git_sha assert_trace_id ids_from validate_id_array directory_contains check_assignment
    check_coverage check_plan_writer check_plan_writers check_trace check_write_path claim_paths
    criteria_from requirement_ids_from strict_equal
plan_accepted = refl

plan_claims-Sound_example :
    Disjoint (plan_claims (get plan "writers") writer_ids)
    × All (Permitted template) (plan_claims (get plan "writers") writer_ids)
plan_claims-Sound_example = plan_claims-Sound plan template (str sha) directories plan plan_accepted

plan_owners-le-one_example :
    owners "extensions/a/index.ts" (plan_claims (get plan "writers") writer_ids) ≤ 1
plan_owners-le-one_example =
    plan_owners-le-one plan template (str sha) directories plan "extensions/a/index.ts"
      plan_accepted

plan_covers_example :
    Within
      (ids_of (elements (get plan "requirements")))
      (criteria_requirements (elements (get plan "acceptanceCriteria")))
    × Within
        (ids_of (elements (get plan "requirements")))
        (assigned_ids "requirementIds" (get plan "writers") writer_ids)
    × Within
        (ids_of (elements (get plan "acceptanceCriteria")))
        (assigned_ids "acceptanceIds" (get plan "writers") writer_ids)
plan_covers_example = plan_covers plan template (str sha) directories plan plan_accepted
