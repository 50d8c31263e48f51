-- ===== src/Contract/Template/Budgets.antt =====
-- What a validated template promises of its time budgets.
use bimo.Base.{ℕ, String, ok, ◌≤◌, ◌≡◌, arith}
use bimo.Js.{Value, get, nat_of, nat}
use bimo.Contract.Fields.{assert_integer}
use bimo.Contract.Template.{validate_pod_template, check_timeouts}

-- a range check that passes bounds the number
pub integer_bounds :
    (v : Value) (lo hi : ℕ) (label : String)
    → assert_integer v lo hi label ≡ ok tt
    → (lo ≤ nat_of v) × (nat_of v ≤ hi)
unfolding assert_integer
integer_bounds (nat n) lo hi label h = ground arith
integer_bounds _ lo hi label h = ground arith

template-timeouts :
    (t u : Value) → validate_pod_template t ≡ ok u → check_timeouts (get t "timeouts") ≡ ok tt
unfolding validate_pod_template
template-timeouts t u h = ground arith

abbrev pub budget : Value → String → ℕ
budget template name = nat_of (get (get template "timeouts") name)

timeouts-ordered :
    (ts : Value)
    → check_timeouts ts ≡ ok tt
    → (10 ≤ nat_of (get ts "executionSeconds"))
      × (nat_of (get ts "executionSeconds") ≤ 1800)
      × (nat_of (get ts "executionSeconds") ≤ nat_of (get ts "attemptSeconds"))
      × (nat_of (get ts "attemptSeconds") ≤ 7200)
      × (nat_of (get ts "attemptSeconds") ≤ nat_of (get ts "workflowSeconds"))
      × (nat_of (get ts "workflowSeconds") ≤ 43200)
unfolding check_timeouts
timeouts-ordered ts h = ground (
  arith,
  integer_bounds (get ts "executionSeconds") 10 1800 "timeouts.executionSeconds",
  integer_bounds (get ts "attemptSeconds") (nat_of (get ts "executionSeconds")) 7200
      "timeouts.attemptSeconds",
  integer_bounds (get ts "workflowSeconds") (nat_of (get ts "attemptSeconds")) 43200
      "timeouts.workflowSeconds",
)

template-attempts :
    (t u : Value)
    → validate_pod_template t ≡ ok u
    → (1 ≤ nat_of (get t "maxAttempts")) × (nat_of (get t "maxAttempts") ≤ 10)
unfolding validate_pod_template
template-attempts t u h = ground (arith, integer_bounds (get t "maxAttempts") 1 10 "maxAttempts")

-- A validated template orders its time budgets: an execution takes 10 to 1800 seconds, an attempt
-- at least as long as an execution and at most 7200, the workflow at least as long as an attempt
-- and at most 43200; the attempts are 1 to 10.
pub template_budgets :
    (t u : Value)
    → validate_pod_template t ≡ ok u
    → (10 ≤ budget t "executionSeconds")
      × (budget t "executionSeconds" ≤ 1800)
      × (budget t "executionSeconds" ≤ budget t "attemptSeconds")
      × (budget t "attemptSeconds" ≤ 7200)
      × (budget t "attemptSeconds" ≤ budget t "workflowSeconds")
      × (budget t "workflowSeconds" ≤ 43200)
      × (1 ≤ nat_of (get t "maxAttempts"))
      × (nat_of (get t "maxAttempts") ≤ 10)
template_budgets t u h =
    ground (
      arith,
      timeouts-ordered (get t "timeouts") (template-timeouts t u h),
      template-attempts t u h,
    )
