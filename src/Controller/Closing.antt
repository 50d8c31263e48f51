-- ===== src/Controller/Closing.antt =====
-- How every run of src/pod-controller.mjs ends: the `catch` and `finally` blocks of
-- `runEngineeringPod`.
use bimo.Base.{
  arith, String, Bool, true, false, List, [], ◌∷◌, Result, ok, err, ◌≡◌, ◌∙◌, refl, ap, sym, subst,
}
use bimo.Js.{Value, bool, str, undefined, get}
use bimo.Controller.Writers.{is_named}
use bimo.Controller.Reasons.{reason_of}
use bimo.Controller.World.{World, Env, Call, source, finish, ◌>>=◌, perform, object}
use bimo.Controller.Time.{Config}
use bimo.Controller.Race.{cancel_active}
use bimo.Controller.Run.{
  Ready, run_body, settle_run, settle_failure, close_source, run_pod, failure_details,
}
use bimo.Controller.Publishing.{run_body-returns}

-- the call that closes the source workspace
abbrev pub closing : Bool → Call
closing ready = source "close" (object (("retainForPublication", bool ready) ∷ []))

close_source-world :
    (out : Result Ready) (env : Env) (w : World)
    → (close_source out env w).1 ≡ (record w { trace = closing w.ready_committed ∷ w.trace })
unfolding close_source perform ◌>>=◌
close_source-world out env w = ground arith

-- the state when the outer `try` and `catch` blocks are done
abbrev settled : Config → Env → World → Result Ready × World
settled cfg env w = settle_run cfg (run_body cfg env w).0 env (run_body cfg env w).1

settle_failure-ready :
    (cfg : Config) (e : String) (env : Env) (w : World)
    → (settle_failure cfg e env w).1.ready_committed ≡ w.ready_committed
unfolding settle_failure cancel_active perform ◌>>=◌
settle_failure-ready cfg e env w = ground arith

settle_failure-finishes :
    (cfg : Config) (e : String) (env : Env) (w : World)
    → w.ready_committed ≡ false
    → (settle_failure cfg e env w).1.trace
      ≡ finish "failed" (failure_details cfg (cancel_active env w).1 e)
        ∷ (cancel_active env w).1.trace
unfolding settle_failure cancel_active perform ◌>>=◌
settle_failure-finishes cfg e env w h = ground arith

cancel_active-base_sha : (env : Env) (w : World) → (cancel_active env w).1.base_sha ≡ w.base_sha
unfolding cancel_active perform ◌>>=◌
cancel_active-base_sha env w = ground arith

settle-failed :
    (cfg : Config) (env : Env) (w v : World) (out : Result Ready)
    → run_body cfg env w ≡ (out, v)
    → (settle_run cfg out env v).1.ready_committed ≡ false
    → (e : String) × (u : World) × (out ≡ err e)
      × (u.base_sha ≡ v.base_sha)
      × ((settle_run cfg out env v).1.trace ≡ finish "failed" (failure_details cfg u e) ∷ u.trace)
unfolding settle_run
settle-failed cfg env w v (ok r) body h = let (_, ready) = run_body-returns cfg r env w v body in cc
settle-failed cfg env w v (err e) body h = (
  e,
  (cancel_active env v).1,
  refl,
  cancel_active-base_sha env v,
  settle_failure-finishes cfg e env v (sym (settle_failure-ready cfg e env v) ∙ h),
)

-- what is recorded of a run that failed for the reason e, with the base that the run had
pub record FailureTold (cfg : Config) (base : Value) (e : String) (details : Value) : Type 0 where
  pub run_id : get details "runId" ≡ str cfg.run_id
  pub reason : get details "reason" ≡ str (reason_of e)
  pub base_sha : is_named base ≡ true → get details "baseSha" ≡ base
  pub no_base : is_named base ≡ false → get details "baseSha" ≡ undefined

failure_details-FailureTold :
    (cfg : Config) (w : World) (e : String) → FailureTold cfg w.base_sha e (failure_details cfg w e)
failure_details-FailureTold cfg w e = record {
  run_id = ground arith;
  reason = ground arith;
  base_sha = λ named. ground (arith, named);
  no_base = λ unnamed. ground (arith, unnamed);
}

-- A run that does not become ready is recorded: its body threw, and even if a call of `cancel` or
-- `finish` fails, the last two calls of the run finish the record as failed, with the run, what the
-- body threw and the base of the state that the body ended in, if that is known, and close the
-- source workspace without retaining it.
pub run_pod-failed :
    (cfg : Config) (env : Env) (w : World)
    → (run_pod cfg env w).1.ready_committed ≡ false
    → (e : String) × (details : Value) × (calls : List Call) × ((run_body cfg env w).0 ≡ err e)
      × FailureTold cfg (run_body cfg env w).1.base_sha e details
      × ((run_pod cfg env w).1.trace ≡ closing false ∷ finish "failed" details ∷ calls)
unfolding run_pod
run_pod-failed cfg env w h =
    let end = close_source-world (settled cfg env w).0 env (settled cfg env w).1 in
    let unready : (settled cfg env w).1.ready_committed ≡ false = cc in
    let (e, u, threw, base, last) =
      settle-failed cfg env w (run_body cfg env w).1 (run_body cfg env w).0 refl unready in
    (
      e,
      failure_details cfg u e,
      u.trace,
      threw,
      subst (λ b. FailureTold cfg b e (failure_details cfg u e)) base
          (failure_details-FailureTold cfg u e),
      ap (λ x. x.trace) end
          ∙ ap (λ b. closing b ∷ (settled cfg env w).1.trace) unready
          ∙ ap (λ t. closing false ∷ t) last,
    )
