-- ===== src/Contract/Plan/Assigned.antt =====
-- Every requirement and every acceptance criterion of an accepted plan is assigned.
use bimo.Base.{
  ℕ, suc, String, List, [], ◌∷◌, ◌++◌, ok, ◌>>◌, >>=-eq-ok, >>-eq-ok, ◌≡◌, sym, ◌∙◌, ap, arith, All,
  true, append_assoc, append-nil, mem_text, each-check, each-check_twice, each, check, subst₂,
  from_ok, ◌<>◌, Result,
}
use bimo.Js.{Value, get, text_of, elements}
use bimo.Contract.Fields.{ids_from, validate_id_array, at_index}
use bimo.Contract.Template.{writer_ids}
use bimo.Contract.Plan.{
  Coverage, Criteria, no_coverage, no_criteria, text_list, requirement_ids_from, criteria_from,
  check_plan_writer, check_plan_writers, check_coverage, add_criterion, validate_attempt_plan,
}
use bimo.Contract.Plan.Parts.{validate_attempt_plan-Parts}

ids_from-eq :
    (known : List String) (label : String) (i : ℕ) (seen : List String) (vs : List Value)
    (r : List String)
    → ids_from known label i seen vs ≡ ok r
    → r ≡ seen ++ text_list vs
unfolding ids_from
ids_from-eq known label i seen [] r h =
    let e : seen ≡ r = ground arith in sym e ∙ sym (append-nil seen)
ids_from-eq known label i seen (v ∷ vs) r h =
    let next : ids_from known label (suc i) (seen ++ text_of v ∷ []) vs ≡ ok r = ground arith in
    ids_from-eq known label (suc i) (seen ++ text_of v ∷ []) vs r next
    ∙ append_assoc seen (text_of v ∷ []) (text_list vs)

validate_id_array-eq :
    (v : Value) (known : List String) (label : String) (m : ℕ) (r : List String)
    → validate_id_array v known label m ≡ ok r
    → r ≡ text_list (elements v)
unfolding validate_id_array
validate_id_array-eq v known label m r h =
    ids_from-eq known label 0 [] (elements v) r (ground arith)

-- the IDs of the requirements and of the acceptance criteria, in the order of the plan
abbrev pub ids_of : List Value → List String
ids_of [] = []
ids_of (v ∷ vs) = text_of (get v "id") ∷ ids_of vs

requirement_ids_from-eq :
    (i : ℕ) (seen : List String) (vs : List Value) (r : List String)
    → requirement_ids_from i seen vs ≡ ok r
    → r ≡ seen ++ ids_of vs
unfolding requirement_ids_from
requirement_ids_from-eq i seen [] r h =
    let e : seen ≡ r = ground arith in sym e ∙ sym (append-nil seen)
requirement_ids_from-eq i seen (v ∷ vs) r h =
    let next : requirement_ids_from (suc i) (seen ++ text_of (get v "id") ∷ []) vs ≡ ok r =
      ground arith in
    requirement_ids_from-eq (suc i) (seen ++ text_of (get v "id") ∷ []) vs r next
    ∙ append_assoc seen (text_of (get v "id") ∷ []) (ids_of vs)

-- the requirements that the acceptance criteria name
abbrev pub criteria_requirements : List Value → List String
criteria_requirements [] = []
criteria_requirements (v ∷ vs) =
    text_list (elements (get v "requirementIds")) ++ criteria_requirements vs

-- the IDs that the writers of a plan name in a field
abbrev pub assigned_ids : String → Value → List String → List String
assigned_ids f writers [] = []
assigned_ids f writers (w ∷ ws) =
    text_list (elements (get (get writers w) f)) ++ assigned_ids f writers ws

criteria_from-eq :
    (known : List String) (i : ℕ) (c d : Criteria) (vs : List Value)
    → criteria_from known i c vs ≡ ok d
    → (d.ids ≡ c.ids ++ ids_of vs) × (d.covered ≡ c.covered ++ criteria_requirements vs)
unfolding criteria_from
criteria_from-eq known i c d [] h = (
  ap (λ (x : Criteria). x.ids) (sym (same h)) ∙ sym (append-nil c.ids),
  ap (λ (x : Criteria). x.covered) (sym (same h)) ∙ sym (append-nil c.covered),
)
  where
    same : Result.ok c ≡ ok d → c ≡ d
    same h = ground arith
criteria_from-eq known i c d (v ∷ vs) h =
    let label = at_index "acceptanceCriteria" i in
    let rs =
      from_ok []
        (validate_id_array (get v "requirementIds") known (label <> ".requirementIds") 50) in
    let linked : validate_id_array (get v "requirementIds") known (label <> ".requirementIds") 50
        ≡ ok rs =
      ground arith in
    let next : criteria_from known (suc i) (add_criterion (text_of (get v "id")) rs c) vs ≡ ok d =
      ground arith in
    let (ids, covered) =
      criteria_from-eq known (suc i) (add_criterion (text_of (get v "id")) rs c) d vs next in
    (
      ids ∙ append_assoc c.ids (text_of (get v "id") ∷ []) (ids_of vs),
      covered
          ∙ append_assoc c.covered rs (criteria_requirements vs)
          ∙ ap (λ xs. c.covered ++ (xs ++ criteria_requirements vs))
              (validate_id_array-eq (get v "requirementIds") known (label <> ".requirementIds") 50
                rs linked),
    )

check_plan_writer-eq :
    (template : Value) (dirs ids : List String) (criteria : Criteria) (writers : Value)
    (c d : Coverage) (w : String)
    → check_plan_writer template dirs ids criteria writers c w ≡ ok d
    → (d.requirements
        ≡ c.requirements ++ text_list (elements (get (get writers w) "requirementIds")))
      × (d.acceptance ≡ c.acceptance ++ text_list (elements (get (get writers w) "acceptanceIds")))
unfolding check_plan_writer
check_plan_writer-eq template dirs ids criteria writers c d w h =
    let label = "attempt writer " <> w in
    ground (
      arith,
      validate_id_array-eq (get (get writers w) "requirementIds") ids (label <> " requirementIds")
          50
          (from_ok [] (
            validate_id_array (get (get writers w) "requirementIds") ids
              (label <> " requirementIds") 50)),
      validate_id_array-eq (get (get writers w) "acceptanceIds") criteria.ids
          (label <> " acceptanceIds") 100
          (from_ok [] (
            validate_id_array (get (get writers w) "acceptanceIds") criteria.ids
              (label <> " acceptanceIds") 100)),
    )

check_plan_writers-eq :
    (template : Value) (dirs ids : List String) (criteria : Criteria) (writers : Value)
    (c d : Coverage) (ws : List String)
    → check_plan_writers template dirs ids criteria writers c ws ≡ ok d
    → (d.requirements ≡ c.requirements ++ assigned_ids "requirementIds" writers ws)
      × (d.acceptance ≡ c.acceptance ++ assigned_ids "acceptanceIds" writers ws)
unfolding check_plan_writers
check_plan_writers-eq template dirs ids criteria writers c d [] h =
    let e : c ≡ d = ground arith in
    (
      ap (λ (x : Coverage). x.requirements) (sym e) ∙ sym (append-nil c.requirements),
      ap (λ (x : Coverage). x.acceptance) (sym e) ∙ sym (append-nil c.acceptance),
    )
check_plan_writers-eq template dirs ids criteria writers c d (w ∷ ws) h =
    let (c', step, rest) = >>=-eq-ok _ _ h in
    let (r, a) = check_plan_writer-eq template dirs ids criteria writers c c' w step in
    let (r', a') = check_plan_writers-eq template dirs ids criteria writers c' d ws rest in
    (
      r'
          ∙ ap (λ xs. xs ++ assigned_ids "requirementIds" writers ws) r
          ∙ append_assoc c.requirements _ (assigned_ids "requirementIds" writers ws),
      a'
          ∙ ap (λ xs. xs ++ assigned_ids "acceptanceIds" writers ws) a
          ∙ append_assoc c.acceptance _ (assigned_ids "acceptanceIds" writers ws),
    )

-- every ID of the first list is in the second
abbrev pub Within : List String → List String → Type 0
Within ids all_ids = All (λ i. mem_text i all_ids ≡ true) ids

check_coverage-Within :
    (ids : List String) (criteria : Criteria) (c : Coverage)
    → check_coverage ids criteria c ≡ ok tt
    → Within ids criteria.covered × Within ids c.requirements × Within criteria.ids c.acceptance
unfolding check_coverage
check_coverage-Within ids criteria c h =
    let ((_, first), second) =
      >>-eq-ok
        (each
          (λ r.
            check (mem_text r criteria.covered) ("requirement has no acceptance criterion: " <> r)
            >> check (mem_text r c.requirements) ("requirement is not assigned to a writer: " <> r))
          ids)
        _ h in
    let (linked, given) =
      each-check_twice (λ r. mem_text r criteria.covered) (λ r. mem_text r c.requirements) _ _ ids
        first in
    (linked, given, each-check (λ a. mem_text a c.acceptance) _ criteria.ids second)

-- In an accepted plan every requirement is named by an acceptance criterion and by a writer, and
-- every acceptance criterion is named by a writer: no part of the work is left without an owner.
pub plan_covers :
    (plan template sha dirs result : Value)
    → validate_attempt_plan plan template sha dirs ≡ ok result
    → Within
        (ids_of (elements (get plan "requirements")))
        (criteria_requirements (elements (get plan "acceptanceCriteria")))
      × Within
          (ids_of (elements (get plan "requirements")))
          (assigned_ids "requirementIds" (get plan "writers") writer_ids)
      × Within
          (ids_of (elements (get plan "acceptanceCriteria")))
          (assigned_ids "acceptanceIds" (get plan "writers") writer_ids)
plan_covers plan template sha dirs result h =
    let p = validate_attempt_plan-Parts plan template sha dirs result h in
    let ids =
      requirement_ids_from-eq 0 [] (elements (get plan "requirements")) p.requirement_ids
        p.requirements in
    let (criteria, covered) =
      criteria_from-eq p.requirement_ids 0 no_criteria p.criteria
        (elements (get plan "acceptanceCriteria")) p.acceptance in
    let (requirements, acceptance) =
      check_plan_writers-eq template p.directories p.requirement_ids p.criteria (get plan "writers")
        no_coverage p.coverage writer_ids p.writers in
    let (a, b, c) = check_coverage-Within p.requirement_ids p.criteria p.coverage p.covered in
    (
      subst₂ Within ids covered a,
      subst₂ Within ids requirements b,
      subst₂ Within criteria acceptance c,
    )
