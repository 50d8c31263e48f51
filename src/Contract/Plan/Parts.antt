-- ===== src/Contract/Plan/Parts.antt =====
-- What the loops of an accepted plan returned.
use bimo.Base.{String, List, [], ok, ◌≡◌, true, from_ok, arith}
use bimo.Js.{Value, get, elements, strict_equal, nat_of}
use bimo.Contract.Fields.{assert_integer, assert_git_sha}
use bimo.Contract.Template.{writer_ids}
use bimo.Contract.Directories.{validate_existing_directories}
use bimo.Contract.Plan.{
  Coverage, Criteria, no_coverage, no_criteria, requirement_ids_from, criteria_from,
  check_plan_writers, check_coverage, check_trace, check_assignment, validate_attempt_plan,
}

pub record Parts (plan template sha : Value) : Type 0 where
  pub directories : List String
  pub requirement_ids : List String
  pub criteria : Criteria
  pub coverage : Coverage
  pub same_base : strict_equal (get plan "baseSha") sha ≡ true
  pub base_form : assert_git_sha (get plan "baseSha") "attempt plan baseSha" ≡ ok tt
  pub attempt :
      assert_integer (get plan "attempt") 1 (nat_of (get template "maxAttempts")) "attempt" ≡ ok tt
  pub requirements :
      requirement_ids_from 0 [] (elements (get plan "requirements")) ≡ ok requirement_ids
  pub acceptance :
      criteria_from requirement_ids 0 no_criteria (elements (get plan "acceptanceCriteria"))
      ≡ ok criteria
  pub writers :
      check_plan_writers template directories requirement_ids criteria
        (get plan "writers")
        no_coverage
        writer_ids
      ≡ ok coverage
  pub covered : check_coverage requirement_ids criteria coverage ≡ ok tt

assignment-coverage :
    (template : Value) (found ids : List String) (criteria : Criteria) (writers : Value)
    → check_assignment template found ids criteria writers ≡ ok tt
    → (coverage : Coverage) × (check_plan_writers template found ids criteria writers no_coverage
          writer_ids
        ≡ ok coverage)
      × (check_coverage ids criteria coverage ≡ ok tt)
unfolding check_assignment
assignment-coverage template found ids criteria writers h =
    let coverage =
      from_ok no_coverage
        (check_plan_writers template found ids criteria writers no_coverage writer_ids) in
    (coverage, ground arith, ground arith)

trace-parts :
    (plan : Value) (trace : List String × Criteria)
    → check_trace plan ≡ ok trace
    → (requirement_ids_from 0 [] (elements (get plan "requirements")) ≡ ok trace.0)
      × (criteria_from trace.0 0 no_criteria (elements (get plan "acceptanceCriteria"))
          ≡ ok trace.1)
unfolding check_trace
trace-parts plan trace h = ground arith

plan-stages :
    (plan template sha dirs result : Value)
    → validate_attempt_plan plan template sha dirs ≡ ok result
    → (found : List String) × (trace : List String × Criteria) × (check_trace plan ≡ ok trace)
      × (check_assignment template found trace.0 trace.1 (get plan "writers") ≡ ok tt)
      × (strict_equal (get plan "baseSha") sha ≡ true)
      × (assert_git_sha (get plan "baseSha") "attempt plan baseSha" ≡ ok tt)
      × (assert_integer (get plan "attempt") 1 (nat_of (get template "maxAttempts")) "attempt"
          ≡ ok tt)
unfolding validate_attempt_plan
plan-stages plan template sha dirs result h = (
  from_ok [] (validate_existing_directories dirs),
  from_ok ([], no_criteria) (check_trace plan),
  ground arith,
  ground arith,
  ground arith,
  ground arith,
  ground arith,
)

pub validate_attempt_plan-Parts :
    (plan template sha dirs result : Value)
    → validate_attempt_plan plan template sha dirs ≡ ok result
    → Parts plan template sha
validate_attempt_plan-Parts plan template sha dirs result h =
    let (found, trace, traced, assigned, base, form, attempt) =
      plan-stages plan template sha dirs result h in
    let (coverage, writers, covered) =
      assignment-coverage template found trace.0 trace.1 (get plan "writers") assigned in
    let (requirements, acceptance) = trace-parts plan trace traced in
    record {
      directories = found;
      requirement_ids = trace.0;
      criteria = trace.1;
      coverage = coverage;
      same_base = base;
      base_form = form;
      attempt = attempt;
      requirements = requirements;
      acceptance = acceptance;
      writers = writers;
      covered = covered;
    }
