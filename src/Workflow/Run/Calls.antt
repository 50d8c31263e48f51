-- ===== src/Workflow/Run/Calls.antt =====
-- The calls of roles by the parts of a step of src/workflow.mjs.
use bimo.Base.{
  arith, ℕ, ◌+◌, ◌-◌, ◌/◌, ◌≤◌, String, Bool, true, false, min, leb, leb→le, ltb, Option, none,
  some, Result, ok, err, ◌≡◌, refl, if◌then◌else◌,
}
use bimo.Js.{Value, get}
use bimo.Contract.Fields.{assert_plain_object}
use bimo.Workflow.Receipt.{validate_receipt, validate_verification, validate_publication}
use bimo.Actions.Blocks.{>>=-returns, require-returns, pure-returns}
use bimo.Workflow.World.{
  World, Env, Run, M, run_role, verify, publish, read_clock, lift, require, modify,
}
use bimo.Workflow.Run.{
  now, finite, remaining_timeout_seconds, Step, role_input, result_input, execute_role,
  runtime_of_failure, role_failed, receipt_or_failure, accept_verification, verify_result,
  publish_result, finish_run,
}
use bimo.Workflow.Run.Traces.{
  step_seconds, within, Traces, Traces->>=-returns, Traces-attempt, Traces-after, Traces-before,
  Traces-same, Traces-lift, Traces-perform, Traces-read_clock, Traces-record_event,
}

pub Traces-if {ℓ} :
    (r : Run) (k : ℕ) {A : Type ℓ} (c : Bool) (x y : M A)
    → Traces r k x
    → Traces r k y
    → Traces r k (if c then x else y)
Traces-if r k true x y a b = a
Traces-if r k false x y a b = b

-- the time left is at least what was asked for
pub remaining-ge :
    (deadline minimum : ℕ) (env : Env) (w v : World) (s : ℕ)
    → remaining_timeout_seconds deadline minimum env w ≡ (ok s, v)
    → minimum ≤ s
unfolding remaining_timeout_seconds
remaining-ge deadline minimum env w v s h =
    let (current, _, _, rest) = >>=-returns now _ env h in
    let (_, rest2) = require-returns (ltb current deadline) _ _ env rest in
    let (enough, rest3) =
      require-returns (leb minimum ((deadline - current + 999) / 1000)) _ _ env rest2 in
    let (same, _) = pure-returns ((deadline - current + 999) / 1000) env rest3 in
    omega (arith, same, leb→le _ _ enough)

module _ (r : Run) where
  pub Traces-now : Traces r 0 now
  unfolding now
  Traces-now = Traces-after r 0 read_clock finite (Traces-read_clock r) on
    where
      on : (o : Option ℕ) → Traces r 0 (finite o)
      on none = Traces-lift r 0 _
      on (some ms) = Traces-lift r 0 (ok ms)

  pub Traces-remaining :
      (deadline minimum : ℕ) → Traces r 0 (remaining_timeout_seconds deadline minimum)
  unfolding remaining_timeout_seconds
  Traces-remaining deadline minimum = Traces-after r 0 _ _ Traces-now λ current.
      Traces-after r 0 (require _ _) _ (Traces-lift r 0 _)
        λ _. Traces-after r 0 (require _ _) _ (Traces-lift r 0 _) λ _. Traces-lift r 0 (ok _)

  pub role_within :
      (s : Step) (prompt : String) (left : ℕ)
      → 10 ≤ step_seconds r
      → 10 ≤ left
      → within r (run_role (role_input r s prompt (min (step_seconds r) left))) ≡ true
  role_within s prompt left h k = ground arith

  pub Traces-execute_role :
      (s : Step) (prompt : String) → 10 ≤ step_seconds r → Traces r 1 (execute_role r s prompt)
  unfolding execute_role
  Traces-execute_role s prompt long =
      Traces->>=-returns r 0 1 1 _ _ (omega arith) (Traces-remaining s.deadline 10)
        λ left (env, w, v, h).
          Traces-before r 1 _ _
            (Traces-perform r 1 (run_role (role_input r s prompt (min (step_seconds r) left)))
              (role_within s prompt left long (remaining-ge s.deadline 10 env w v left h))
              (omega arith))
            (λ result.
              Traces-after r 0 (modify (λ w. record w { result = result })) _
                (Traces-same r 0 _ (λ env w. refl))
                λ _. Traces-after r 0 _ _ (Traces-remaining s.deadline 1) λ _.
                  Traces-after r 0 (lift (assert_plain_object result "role result")) _
                    (Traces-lift r 0 _)
                    λ _. Traces-lift r 0 (validate_receipt (get result "receipt") s.role))

  pub Traces-role_failed : (s : Step) (out : Result Value) → Traces r 0 (role_failed r s out)
  unfolding role_failed runtime_of_failure
  Traces-role_failed s (ok receipt) = Traces-lift r 0 (ok receipt)
  Traces-role_failed s (err e) =
      Traces-after r 0 runtime_of_failure _ silent
        λ runtime. Traces-after r 0 _ _ (Traces-record_event r _ _) λ _. Traces-lift r 0 (err e)
    where
      silent : Traces r 0 runtime_of_failure
      silent = Traces-same r 0 runtime_of_failure (λ env w. refl)

  pub Traces-receipt_or_failure :
      (s : Step) (prompt : String)
      → 10 ≤ step_seconds r
      → Traces r 1 (receipt_or_failure r s prompt)
  unfolding receipt_or_failure
  Traces-receipt_or_failure s prompt long =
      Traces-attempt r 1 0 1 _ _ (omega arith) (Traces-execute_role s prompt long)
        (Traces-role_failed s)

  pub Traces-accept_verification :
      (s : Step) (verified : Value) → Traces r 0 (accept_verification r s verified)
  unfolding accept_verification
  Traces-accept_verification s verified =
      Traces-after r 0 (lift (validate_verification verified)) _ (Traces-lift r 0 _) λ verification.
        Traces-after r 0 _ _ (Traces-remaining s.deadline 1) λ _.
          Traces-after r 0 _ _ (Traces-record_event r _ _) λ _.
            Traces-after r 0 (require _ _) _ (Traces-lift r 0 _)
              λ _. Traces-lift r 0 (ok verification)

  pub Traces-verify_result : (s : Step) → Traces r 0 (verify_result r s)
  unfolding verify_result
  Traces-verify_result s = Traces-after r 0 _ _ (Traces-remaining s.deadline 1) λ seconds.
      Traces-after r 0 _ _ (Traces-perform r 0 (verify (result_input r seconds)) refl (omega arith))
        λ verified. Traces-accept_verification s verified

  pub Traces-publish_result : (s : Step) → Traces r 0 (publish_result r s)
  unfolding publish_result
  Traces-publish_result s = Traces-after r 0 _ _ (Traces-remaining s.deadline 1) λ left.
      Traces-after r 0 _ _ (Traces-perform r 0 (publish (result_input r left)) refl (omega arith))
        λ published.
          Traces-after r 0 (lift (validate_publication published)) _ (Traces-lift r 0 _)
            λ publication.
              Traces-after r 0 _ _ (Traces-record_event r _ _) λ _. Traces-lift r 0 (ok publication)

  pub Traces-finish_run : (s : Step) → Traces r 0 (finish_run r s)
  unfolding finish_run
  Traces-finish_run s = Traces-after r 0 _ _ (Traces-verify_result s) λ verification.
      Traces-after r 0 _ _ (Traces-publish_result s)
        λ publication. Traces-after r 0 _ _ (Traces-record_event r _ _) λ _. Traces-lift r 0 (ok _)
