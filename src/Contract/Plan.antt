-- ===== src/Contract/Plan.antt =====
-- `validateAttemptPlan` of src/pod-contract.mjs, one function for each of its loops. A set of the
-- source is the list of its members in the order of insertion.
pub mod Parts
pub mod WritePaths
pub mod Assigned
use bimo.Base.{
  ℕ, suc, String, Bool, true, false, not, List, [], ◌∷◌, ◌++◌, length, any, leb, text_eq, mem_text,
  ◌<>◌, Result, ok, err, check, each, ◌>>=◌, ◌>>◌, ◌&&◌, ◌||◌, if◌then◌else◌, Option, none, some,
}
use bimo.Js.{Value, is_array, elements, get, is_nat, nat_of, text_of, strict_equal, is_text}
use bimo.Contract.Fields.{
  Checked, assert_plain_object, assert_exact_fields, assert_integer, assert_fixed_keys, assert_text,
  assert_trace_id, assert_git_sha, validate_id_array, at_index,
}
use bimo.Contract.Paths.{assert_repository_directory, directory_contains}
use bimo.Contract.Directories.{validate_existing_directories}
use bimo.Contract.Template.{validate_pod_template, writer_ids, Claim, refuse_overlap}

abbrev plan_fields : List String
plan_fields =
    "version" ∷ "attempt" ∷ "baseSha" ∷ "requirements" ∷ "acceptanceCriteria" ∷ "writers" ∷ []

abbrev requirement_fields : List String
requirement_fields = "id" ∷ "text" ∷ []

abbrev acceptance_fields : List String
acceptance_fields = "id" ∷ "requirementIds" ∷ "text" ∷ []

abbrev plan_writer_fields : List String
plan_writer_fields = "brief" ∷ "requirementIds" ∷ "acceptanceIds" ∷ "writePaths" ∷ []

-- the loop over the requirements, with the IDs seen
unfoldable pub requirement_ids_from : ℕ → List String → List Value → Result (List String)
requirement_ids_from i seen [] = ok seen
requirement_ids_from i seen (r ∷ rs) = do
  let label = at_index "requirements" i
  assert_plain_object r label
  assert_exact_fields r requirement_fields label
  assert_trace_id (get r "id") (label <> ".id")
  let id = text_of (get r "id")
  check (not (mem_text id seen)) ("duplicate requirement ID: " <> id)
  assert_text (get r "text") (label <> ".text") 4000
  requirement_ids_from (suc i) (seen ++ id ∷ []) rs

-- what the loop over the acceptance criteria builds
pub record Criteria : Type 0 where
  pub ids : List String  -- acceptanceIds
  pub linked : List (String × List String)  -- acceptanceRequirements
  pub covered : List String  -- requirementsWithAcceptance

abbrev pub no_criteria : Criteria
no_criteria = record { ids = []; linked = []; covered = [] }

abbrev pub add_criterion : String → List String → Criteria → Criteria
add_criterion id requirements c = record {
  ids = c.ids ++ id ∷ [];
  linked = (id, requirements) ∷ c.linked;
  covered = c.covered ++ requirements;
}

unfoldable pub criteria_from : List String → ℕ → Criteria → List Value → Result Criteria
criteria_from requirement_ids i c [] = ok c
criteria_from requirement_ids i c (v ∷ vs) = do
  let label = at_index "acceptanceCriteria" i
  assert_plain_object v label
  assert_exact_fields v acceptance_fields label
  assert_trace_id (get v "id") (label <> ".id")
  let id = text_of (get v "id")
  check (not (mem_text id c.ids)) ("duplicate acceptance ID: " <> id)
  requirements ←
      validate_id_array (get v "requirementIds") requirement_ids (label <> ".requirementIds") 50
  assert_text (get v "text") (label <> ".text") 4000
  criteria_from requirement_ids (suc i) (add_criterion id requirements c) vs

-- `acceptanceRequirements.get(id)`
abbrev linked_to : String → List (String × List String) → List String
linked_to id [] = []
linked_to id ((j, rs) ∷ rest) = if text_eq j id then rs else linked_to id rest

-- the acceptance criteria of a writer need its requirements
abbrev check_linked : String → Criteria → List String → List String → Checked
check_linked writer_id criteria requirements acceptance =
    each
      (λ a.
        each
          (λ r.
            check (mem_text r requirements)
              ("attempt writer " <> writer_id <> " acceptance " <> a <> " requires " <> r))
          (linked_to a criteria.linked))
      acceptance

-- one round of the loop over a writer's `writePaths`
unfoldable pub check_write_path :
    String → List String → List String → String → List Claim → Value → Checked
check_write_path writer_id roots directories label claimed v = do
  assert_repository_directory v label
  let path = text_of v
  check (mem_text path directories)
      ("attempt writer " <> writer_id <> " writePath is not an existing directory: " <> path)
  check (any (λ root. directory_contains root path) roots)
      ("attempt writer " <> writer_id <> " writePath is outside its template-owned root: " <> path)
  refuse_overlap "attempt writePaths" writer_id path claimed

unfoldable pub claim_paths :
    String → List String → List String → ℕ → List Claim → List Value → Result (List Claim)
claim_paths writer_id roots directories i claimed [] = ok claimed
claim_paths writer_id roots directories i claimed (v ∷ vs) = do
  check_write_path writer_id roots directories
      (at_index ("attempt writer " <> writer_id <> " writePaths") i) claimed v
  claim_paths writer_id roots directories (suc i) (claimed ++ (writer_id, text_of v) ∷ []) vs

-- what the loop over the writers builds
pub record Coverage : Type 0 where
  pub claimed : List Claim
  pub requirements : List String  -- coveredRequirements
  pub acceptance : List String  -- coveredAcceptance

abbrev pub no_coverage : Coverage
no_coverage = record { claimed = []; requirements = []; acceptance = [] }

abbrev pub text_list : List Value → List String
text_list [] = []
text_list (v ∷ vs) = text_of v ∷ text_list vs

-- `template.writers[writerId].allowedWriteRoots`
abbrev pub allowed_roots : Value → String → List String
allowed_roots template writer_id =
    text_list (elements (get (get (get template "writers") writer_id) "allowedWriteRoots"))

unfoldable pub check_plan_writer :
    Value → List String → List String → Criteria → Value → Coverage → String → Result Coverage
check_plan_writer template directories requirement_ids criteria writers c writer_id = do
  let writer = get writers writer_id
  let label = "attempt writer " <> writer_id
  assert_plain_object writer label
  assert_exact_fields writer plan_writer_fields label
  assert_text (get writer "brief") (label <> " brief") 8000
  requirements ←
      validate_id_array (get writer "requirementIds") requirement_ids (label <> " requirementIds")
        50
  acceptance ←
      validate_id_array (get writer "acceptanceIds") criteria.ids (label <> " acceptanceIds") 100
  check_linked writer_id criteria requirements acceptance
  let paths = elements (get writer "writePaths")
  check (is_array (get writer "writePaths") && leb 1 (length paths) && leb (length paths) 20)
      (label <> " writePaths must contain 1 to 20 directories")
  each
      (λ root.
        check (mem_text root directories)
          ("template write root does not exist: " <> writer_id <> ":" <> root))
      (allowed_roots template writer_id)
  claimed ← claim_paths writer_id (allowed_roots template writer_id) directories 0 c.claimed paths
  ok (record {
    claimed = claimed;
    requirements = c.requirements ++ requirements;
    acceptance = c.acceptance ++ acceptance;
  })

unfoldable pub check_plan_writers :
    Value → List String → List String → Criteria → Value → Coverage → List String → Result Coverage
check_plan_writers template directories requirement_ids criteria writers c [] = ok c
check_plan_writers template directories requirement_ids criteria writers c (w ∷ ws) = do
  c' ← check_plan_writer template directories requirement_ids criteria writers c w
  check_plan_writers template directories requirement_ids criteria writers c' ws

-- the closing loops: every ID is linked and assigned
unfoldable pub check_coverage : List String → Criteria → Coverage → Checked
check_coverage requirement_ids criteria c = do
  each
      (λ r.
        check (mem_text r criteria.covered) ("requirement has no acceptance criterion: " <> r)
        >> check (mem_text r c.requirements) ("requirement is not assigned to a writer: " <> r))
      requirement_ids
  each
      (λ a.
        check (mem_text a c.acceptance) ("acceptance criterion is not assigned to a writer: " <> a))
      criteria.ids

-- the length tests on `plan.requirements` and `plan.acceptanceCriteria`
abbrev in_size : Value → ℕ → Bool
in_size v maximum = is_array v && leb 1 (length (elements v)) && leb (length (elements v)) maximum

-- the part on `plan.requirements` and `plan.acceptanceCriteria`: the IDs and what links them
unfoldable pub check_trace : Value → Result (List String × Criteria)
check_trace plan = do
  check (in_size (get plan "requirements") 50) "requirements must contain 1 to 50 records"
  requirement_ids ← requirement_ids_from 0 [] (elements (get plan "requirements"))
  check (in_size (get plan "acceptanceCriteria") 100)
      "acceptanceCriteria must contain 1 to 100 records"
  criteria ← criteria_from requirement_ids 0 no_criteria (elements (get plan "acceptanceCriteria"))
  ok (requirement_ids, criteria)

-- the part on `plan.writers`
unfoldable pub check_assignment : Value → List String → List String → Criteria → Value → Checked
check_assignment template directories requirement_ids criteria writers = do
  assert_plain_object writers "attempt writers"
  assert_fixed_keys writers writer_ids "attempt writers"
  coverage ←
      check_plan_writers template directories requirement_ids criteria writers no_coverage
        writer_ids
  check_coverage requirement_ids criteria coverage

-- `validateAttemptPlan`; the source returns its argument
unfoldable pub validate_attempt_plan : Value → Value → Value → Value → Result Value
validate_attempt_plan plan template run_base_sha existing_directories = do
  validate_pod_template template
  assert_git_sha run_base_sha "runBaseSha"
  directories ← validate_existing_directories existing_directories
  assert_plain_object plan "attempt plan"
  assert_exact_fields plan plan_fields "attempt plan"
  check (is_nat (get plan "version") 1) "attempt plan version must be 1"
  assert_integer (get plan "attempt") 1 (nat_of (get template "maxAttempts")) "attempt"
  assert_git_sha (get plan "baseSha") "attempt plan baseSha"
  check (strict_equal (get plan "baseSha") run_base_sha)
      "attempt plan baseSha must equal the immutable run base"
  trace ← check_trace plan
  check_assignment template directories trace.0 trace.1 (get plan "writers")
  ok plan
