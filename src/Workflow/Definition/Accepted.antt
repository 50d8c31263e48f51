-- ===== src/Workflow/Definition/Accepted.antt =====
-- What `runWorkflow` (src/workflow.mjs) may rely on when `validateWorkflow` returned.
use bimo.Base.{
  arith, String, Bool, true, false, not, List, [], ◌∷◌, length, keep, ◌≤◌, ok, each, each-eq-ok,
  All, ◌≡◌, ◌⊎◌, refl, sym, subst, inl, inr, Bool-cases, eq_iff, text_eq,
}
use bimo.Js.{
  find_field, Value, undefined, null, bool, nat, neg, real, str, arr, obj, other, Fields, end,
  field, get, has_field, has_own, keys, keys_of, nat_of, to_text, is_plain_object,
}
use bimo.Contract.Template.Budgets.{integer_bounds}
use bimo.Workflow.Fields.{entries_of}
use bimo.Workflow.Graph.{
  Node, named, node_of, key_of, same_node, seen, seconds, targets, queued, is_done,
}
use bimo.Workflow.Graph.Ends.{reach_from-ends, same_node-eq}
use bimo.Contract.Fields.{assert_plain_object}
use bimo.Workflow.Graph.Transitions.{Reach, here, along, ReachesDone, member-queued}
use bimo.Workflow.Graph.Reached.{reach_from-Reach}
use bimo.Workflow.Definition.{
  is_target, check_transition, check_role, check_roles, check_reachable, check_timeouts,
  check_found, found, validate_workflow,
}

validated-timeouts :
    (w u : Value) → validate_workflow w ≡ ok u → check_timeouts (get w "timeouts") ≡ ok tt
unfolding validate_workflow
validated-timeouts w u h = ground arith

validated-roles :
    (w u : Value) → validate_workflow w ≡ ok u → check_roles (get w "roles") (get w "start") ≡ ok tt
unfolding validate_workflow
validated-roles w u h = ground arith

validated-reachable :
    (w u : Value)
    → validate_workflow w ≡ ok u
    → check_reachable (get w "roles") (get w "start") ≡ ok tt
unfolding validate_workflow
validated-reachable w u h = ground arith

validated-steps :
    (w u : Value)
    → validate_workflow w ≡ ok u
    → (1 ≤ nat_of (get w "maxSteps")) × (nat_of (get w "maxSteps") ≤ 20)
unfolding validate_workflow
validated-steps w u h = ground (arith, integer_bounds (get w "maxSteps") 1 20 "workflow maxSteps")

timeouts-ordered :
    (ts : Value)
    → check_timeouts ts ≡ ok tt
    → (10 ≤ nat_of (get ts "stepSeconds"))
      × (nat_of (get ts "stepSeconds") ≤ 1800)
      × (nat_of (get ts "stepSeconds") ≤ nat_of (get ts "workflowSeconds"))
      × (nat_of (get ts "workflowSeconds") ≤ 7200)
unfolding check_timeouts
timeouts-ordered ts h = ground (
  arith,
  integer_bounds (get ts "stepSeconds") 10 1800 "timeouts.stepSeconds",
  integer_bounds (get ts "workflowSeconds") (nat_of (get ts "stepSeconds")) 7200
      "timeouts.workflowSeconds",
)

-- the roles are an object, the start is one of them, and each passed its checks
roles-facts :
    (roles start : Value)
    → check_roles roles start ≡ ok tt
    → (is_plain_object roles ≡ true)
      × (has_own roles (to_text start) ≡ true)
      × (each (check_role roles) (keys_of roles) ≡ ok tt)
unfolding check_roles
roles-facts roles start h = ground (arith, h)

role-transitions :
    (roles : Value) (k : String)
    → check_role roles k ≡ ok tt
    → each (check_transition roles k) (entries_of (get (get roles k) "on")) ≡ ok tt
unfolding check_role
role-transitions roles k h = ground arith

transitions-object :
    (roles : Value) (k : String)
    → check_role roles k ≡ ok tt
    → is_plain_object (get (get roles k) "on") ≡ true
unfolding check_role assert_plain_object
transitions-object roles k h = ground arith

transition-target :
    (roles : Value) (k : String) (t : String × Value)
    → check_transition roles k t ≡ ok tt
    → is_target roles t.1 ≡ true
unfolding check_transition
transition-target roles k (o, v) h = ground arith

All-at_key :
    (P : String → Type 0) (fs : Fields) (k : String) → All P (keys fs) → has_field k fs ≡ true → P k
All-at_key P end k h e = cc
All-at_key P (field j v fs) k (p, ps) e = elim (Bool-cases (text_eq j k)) [
  | inl same ↦ subst P ((eq_iff j k).0 same) p
  | inr apart ↦ All-at_key P fs k ps (ground (arith, eq_iff j k, eq_iff k j))
]

All-seconds :
    (roles : Value) (k : String) (ts : List (String × Value))
    → All (λ t. check_transition roles k t ≡ ok tt) ts
    → All (λ v. is_target roles v ≡ true) (seconds ts)
All-seconds roles k [] h = tt
All-seconds roles k (t ∷ ts) (p, ps) = (transition-target roles k t p, All-seconds roles k ts ps)

length-zero : (ks : List String) → length ks ≤ 0 → ks ≡ []
length-zero [] h = refl
length-zero (k ∷ ks) h = absurd (omega (arith, h))

key-node_of : (v : Value) → key_of (node_of v) ≡ to_text v
unfolding node_of to_text
key-node_of (str s) = refl
key-node_of undefined = refl
key-node_of null = refl
key-node_of (bool b) = refl
key-node_of (nat n) = refl
key-node_of (neg n) = refl
key-node_of (real s) = refl
key-node_of (arr vs) = refl
key-node_of (obj fs) = refl
key-node_of (other n) = refl

queued-cases :
    (m : Node) (v : Value) (vs : List Value)
    → seen m (queued (v ∷ vs)) ≡ true
    → ((is_done v ≡ false) × (m ≡ node_of v)) ⊎ (seen m (queued vs) ≡ true)
unfolding queued
queued-cases m v vs e = elim (Bool-cases (is_done v)) [
  | inl d ↦ inr (ground (arith, e, d))
  | inr d ↦ elim (Bool-cases (same_node m (node_of v))) [
    | inl s ↦ inl (d, same_node-eq m (node_of v) s)
    | inr s ↦ inr (ground (arith, e, d, s))
  ]
]

-- a target that does not end the workflow names a role
target-role :
    (fs : Fields) (v : Value)
    → is_target (obj fs) v ≡ true
    → is_done v ≡ false
    → has_field (key_of (node_of v)) fs ≡ true
unfolding is_target
target-role fs v h d = rw (key-node_of v) (ground (arith, h, d))

queued-role :
    (fs : Fields) (m : Node) (vs : List Value)
    → All (λ v. is_target (obj fs) v ≡ true) vs
    → seen m (queued vs) ≡ true
    → has_field (key_of m) fs ≡ true
unfolding queued
queued-role fs m [] h e = cc
queued-role fs m (v ∷ vs) (p, ps) e = elim (queued-cases m v vs e) [
  | inl (d, same) ↦ subst (λ n. has_field (key_of n) fs ≡ true) (sym same) (target-role fs v p d)
  | inr later ↦ queued-role fs m vs ps later
]

module _ (fs : Fields) (start : Value) (checked : check_roles (obj fs) start ≡ ok tt) where
  role-targets :
      (n : Node)
      → has_field (key_of n) fs ≡ true
      → All (λ v. is_target (obj fs) v ≡ true) (targets fs n)
  unfolding targets
  role-targets n h =
      let checks =
        each-eq-ok (check_role (obj fs)) (keys fs) (roles-facts (obj fs) start checked).2 in
      let at_n = All-at_key (λ k. check_role (obj fs) k ≡ ok tt) fs (key_of n) checks h in
      All-seconds (obj fs) (key_of n) _ (
        each-eq-ok (check_transition (obj fs) (key_of n)) _
          (role-transitions (obj fs) (key_of n) at_n))

  -- the transitions of the roles lead to roles only
  pub Reach-role : (n : Node) → Reach fs (node_of start) n → has_field (key_of n) fs ≡ true
  unfolding targets
  Reach-role _ here = rw (key-node_of start) (roles-facts (obj fs) start checked).1
  Reach-role _ (along {n} outcome target before leads on) =
      queued-role fs (node_of target) (targets fs n) (role-targets n (Reach-role n before))
        (member-queued (entries_of (get (find_field (key_of n) fs) "on")) outcome target leads on)

  -- the transitions of a role are an object
  pub role-transitions-object :
      (n : Node)
      → has_field (key_of n) fs ≡ true
      → is_plain_object (get (find_field (key_of n) fs) "on") ≡ true
  role-transitions-object n h =
      let checks =
        each-eq-ok (check_role (obj fs)) (keys fs) (roles-facts (obj fs) start checked).2 in
      transitions-object (obj fs) (key_of n)
        (All-at_key (λ k. check_role (obj fs) k ≡ ok tt) fs (key_of n) checks h)

found-facts :
    (ks : List String) (reachable : List Node) (done : Bool)
    → check_found ks (reachable, done) ≡ ok tt
    → (done ≡ true) × (keep (λ k. not (seen (named k) reachable)) ks ≡ [])
unfolding check_found
found-facts ks reachable done h =
    ground (arith, h, length-zero (keep (λ k. not (seen (named k) reachable)) ks))

All-not_kept :
    (p : String → Bool) (P : String → Type 0)
    → ((k : String) → p k ≡ true → P k)
    → (ks : List String) → keep (λ k. not (p k)) ks ≡ []
    → All P ks
All-not_kept p P f [] h = tt
All-not_kept p P f (k ∷ ks) h = elim (Bool-cases (p k)) [
  | inl e ↦ (f k e, All-not_kept p P f ks (ground (arith, h, e)))
  | inr e ↦ absurd (ground (arith, h, e))
]

-- What the search stands for, when the check on it passed.
reachable-facts :
    (fs : Fields) (start : Value)
    → check_reachable (obj fs) start ≡ ok tt
    → ReachesDone fs (node_of start) × All (λ k. Reach fs (node_of start) (named k)) (keys fs)
unfolding check_reachable
reachable-facts fs start h =
    let ((reachable, done), e) = reach_from-ends fs start in
    let (nodes, ends) = reach_from-Reach fs start e in
    let (d, none_left) =
      found-facts (keys fs) reachable done
        (subst (λ r. check_found (keys fs) (found r) ≡ ok tt) e h) in
    (
      ends.0 d,
      All-not_kept (λ k. seen (named k) reachable) _ (λ k. (nodes (named k)).0) (keys fs) none_left,
    )

pub record WorkflowAccepted (workflow : Value) : Type 0 where
  pub roles : Fields
  pub roles_object : get workflow "roles" ≡ obj roles
  pub steps : (1 ≤ nat_of (get workflow "maxSteps")) × (nat_of (get workflow "maxSteps") ≤ 20)
  -- a step has ten seconds to half an hour, and the workflow at least a step and at most two hours
  pub step_shortest : 10 ≤ nat_of (get (get workflow "timeouts") "stepSeconds")
  pub step_longest : nat_of (get (get workflow "timeouts") "stepSeconds") ≤ 1800
  pub step_within :
      nat_of (get (get workflow "timeouts") "stepSeconds")
      ≤ nat_of (get (get workflow "timeouts") "workflowSeconds")
  pub workflow_longest : nat_of (get (get workflow "timeouts") "workflowSeconds") ≤ 7200
  -- every step leads to a role
  pub closed :
      (n : Node)
      → Reach roles (node_of (get workflow "start")) n
      → has_field (key_of n) roles ≡ true
  -- every role is reached, and one of those reached can end the workflow
  pub reached : All (λ k. Reach roles (node_of (get workflow "start")) (named k)) (keys roles)
  pub ends : ReachesDone roles (node_of (get workflow "start"))

is_object : (v : Value) → is_plain_object v ≡ true → (fs : Fields) × (v ≡ obj fs)
is_object (obj fs) h = (fs, refl)
is_object _ h = cc

-- A validated workflow has 1 to 20 steps, ten seconds to half an hour for each, and at least one
-- step's time and at most two hours in all; the outcomes of the roles lead from
-- the start to roles of the workflow only, they reach every role, and one of the outcomes of the
-- roles reached ends the workflow.
pub validate_workflow-WorkflowAccepted :
    (w u : Value) → validate_workflow w ≡ ok u → WorkflowAccepted w
validate_workflow-WorkflowAccepted w u h =
    let checked = validated-roles w u h in
    let (shortest, longest, within_budget, budget) =
      timeouts-ordered (get w "timeouts") (validated-timeouts w u h) in
    let (fs, e) =
      is_object (get w "roles") (roles-facts (get w "roles") (get w "start") checked).0 in
    let (ends, reached) =
      reachable-facts fs (get w "start")
        (subst (λ r. check_reachable r (get w "start") ≡ ok tt) e (validated-reachable w u h)) in
    record {
      roles = fs;
      roles_object = e;
      steps = validated-steps w u h;
      step_shortest = shortest;
      step_longest = longest;
      step_within = within_budget;
      workflow_longest = budget;
      closed =
          Reach-role fs (get w "start")
            (subst (λ r. check_roles r (get w "start") ≡ ok tt) e checked);
      reached = reached;
      ends = ends;
    }
