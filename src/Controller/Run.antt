-- ===== src/Controller/Run.antt =====
-- `runEngineeringPod` of src/pod-controller.mjs: the attempts, and what every run ends with.
use bimo.Base
use bimo.Base.{
  ℕ, zero, suc, ◌+◌, ◌*◌, ◌/◌, ◌-◌, String, len, Bool, true, false, not, List, [], ◌∷◌, ◌++◌, min,
  leb, ltb, ◌<>◌, text_eq, Option, none, some, Result, ok, err, ◌&&◌, ◌||◌, if◌then◌else◌, any, all,
  length, some_code, is_unsafe_control, mem_text,
}
use bimo.Js.{
  Value, undefined, null, nat, bool, str, arr, obj, nil, from_list, field, end, get, nat_of,
  is_text, is_nat, is_array,
}
use bimo.Contract.Plan.{validate_attempt_plan}
use bimo.Controller.World.{
  source, verify, event, plan, finish, World, M, ◌>>=◌, ◌>>◌, pure, throw, require, perform, object,
  lift, gets, modify, attempt_to,
}
use bimo.Controller.Reasons.{reason_of, terminal_interruption}
use bimo.Controller.Time.{Config, now_from_clock, remaining_ms, run_agent, build_prompt, receipt_of}
use bimo.Controller.Writers.{Attempt, plain, is_named, assert_sha}
use bimo.Controller.Race.{cancel_active}
use bimo.Controller.Candidate.{Candidate, passes_exactly}
use bimo.Controller.AttemptRun.{run_attempt}
use bimo.Controller.Start.{Arguments, start_config}

-- the result of a run
pub record Ready : Type 0 where
  pub base_sha : Value
  pub candidate_sha : Value
  pub branch : String

-- what the preparation of a run finds
pub record Prepared : Type 0 where
  pub base_sha : Value
  pub snapshot : Value
  pub directories : Value

-- the base is verified before any work, under the one profile that asks for it
unfoldable pub preflight : Config → Prepared → M (Unit {0})
preflight cfg p = do
  let profile = get cfg.template "verificationProfile"
  let details = object (("baseSha", p.base_sha) ∷ ("profile", profile) ∷ [])
  let body : M (Unit {0}) =
      perform (event "verification.preflight.started" details)
      >> (remaining_ms cfg cfg.deadline_at >>= λ remaining.
          perform (
            verify (
              object (
                ("candidateSnapshot", p.snapshot)
                ∷ ("baseSnapshot", p.snapshot)
                ∷ ("expectedSha", p.base_sha)
                ∷ ("profile", profile)
                ∷ ("timeoutSeconds", nat (min 900 (remaining / 1000)))
                ∷ [])))
          >>= λ receipt.
              plain receipt "repository preflight receipt"
              >> require (passes_exactly receipt p.base_sha)
                  "repository verification preflight did not pass the exact base SHA"
              >> perform (event "verification.preflight.passed" details)
              >> pure tt)
  if is_text profile "pi-palantir-v1" then body else pure tt

-- the base revision, its snapshot and the directories of the repository
unfoldable pub prepare : Config → M Prepared
prepare cfg = do
  prepared ← perform (
      source "prepareAssignment" (
        object (
          ("repository", str cfg.repository)
          ∷ ("baseRevision", str cfg.base_revision)
          ∷ ("targetBranch", str cfg.target_branch)
          ∷ ("deadlineAt", nat cfg.deadline_at)
          ∷ [])))
  plain prepared "prepared assignment"
  assert_sha (get prepared "baseSha") "baseSha"
  modify (λ w. record w { base_sha = get prepared "baseSha" })
  require (is_array (get prepared "existingDirectories"))
      "prepared assignment existingDirectories are required"
  snapshot ← perform (
      source "createSnapshot" (
        object (
          ("id", str "run-base")
          ∷ ("sha", get prepared "baseSha")
          ∷ ("deadlineAt", nat cfg.deadline_at)
          ∷ [])))
  plain snapshot "base snapshot"
  pure (record {
    base_sha = get prepared "baseSha";
    snapshot = snapshot;
    directories = get prepared "existingDirectories";
  })

-- the plan of an attempt: the planner's, validated and stored
unfoldable pub plan_attempt : Config → Prepared → Attempt → M (Unit {0})
plan_attempt cfg p a = do
  remaining_ms cfg a.deadline
  perform (event "plan.started" (object (("attempt", nat a.number) ∷ ("baseSha", p.base_sha) ∷ [])))
  view ← perform (
      source "createReadView" (
        object (
          ("id", str ("attempt-" <> Base.decimal a.number <> "-planner"))
          ∷ ("sha", p.base_sha)
          ∷ ("deadlineAt", nat a.deadline)
          ∷ [])))
  priors ← gets (λ w. w.prior_attempts)
  prompt ← lift (
      build_prompt (get cfg.prompts "planner") "planner" (
        field "assignment" cfg.assignment (
          field "attempt" (nat a.number)
            (field "baseSha" p.base_sha (field "priorAttempts" (arr (from_list priors)) end)))))
  raw ← run_agent cfg (record {
    execution_id = "attempt-" <> Base.decimal a.number <> "-planner";
    role = "planner";
    attempt = a.number;
    access = "read";
    prompt = prompt;
    workspace_id = get view "id";
    write_directories = arr nil;
    deadline = a.deadline;
  })
  claimed ← lift (receipt_of raw "attempt plan")
  accepted ← lift (validate_attempt_plan claimed cfg.template p.base_sha p.directories)
  modify (λ w. record w { plan = accepted })
  require (is_nat (get accepted "attempt") a.number)
      "attempt plan does not match the active attempt"
  perform (plan a.number accepted)
  perform (event "plan.finished" (object (("attempt", nat a.number) ∷ [])))
  pure tt

-- the candidate of an attempt becomes the result of the run
unfoldable pub commit_ready : Config → Prepared → Attempt → Candidate → M Ready
commit_ready cfg p a candidate = do
  perform (
      event "publication.ready" (
        object (
          ("attempt", nat a.number)
          ∷ ("repository", str cfg.repository)
          ∷ ("targetBranch", str cfg.target_branch)
          ∷ ("baseSha", p.base_sha)
          ∷ ("candidateSha", candidate.sha)
          ∷ ("headBranch", str candidate.branch)
          ∷ [])))
  modify (λ w. record w { ready_committed = true })
  pure (record { base_sha = p.base_sha; candidate_sha = candidate.sha; branch = candidate.branch })

-- the `try` block of one attempt
unfoldable pub try_attempt : Config → Prepared → Attempt → M Ready
try_attempt cfg p a = do
  plan_attempt cfg p a
  candidate ← run_attempt cfg a
  commit_ready cfg p a candidate

-- the evidence that a failed attempt leaves
abbrev evidence : ℕ → World → String → Value
evidence n w e = object (
    ("attempt", nat n)
    ∷ ("plan", w.plan)
    ∷ ("workResults", arr (from_list w.work_results))
    ∷ ("gates", arr (from_list w.gates))
    ∷ ("reason", str (reason_of e))
    ∷ [])

-- the `catch` block: the evidence is kept for the next attempt
unfoldable pub note_failure : ℕ → String → M (Unit {0})
note_failure n e = do
  modify (λ w. record w { prior_attempts = w.prior_attempts ++ evidence n w e ∷ [] })
  perform
      (event "attempt.failed" (object (("attempt", nat n) ∷ ("reason", str (reason_of e)) ∷ [])))
  pure tt

-- a new `attemptState`
abbrev pub fresh : World → World
fresh w = record w { plan = null; work_results = []; gates = []; inbox_request = none }

-- What follows an attempt: a failure after publication is ready ends the run with nothing noted; the
-- last attempt and an interruption end it too.
unfoldable pub next_attempt : ℕ → ℕ → M Ready → Result Ready → M Ready
next_attempt left n again (ok ready) = pure ready
next_attempt left n again (err e) = do
  ready ← gets (λ w. w.ready_committed)
  let last = terminal_interruption e || Base.◌==◌ left 0
  if ready then throw e else (note_failure n e >> (if last then throw e else again))

-- the state of the attempt that has the number n
abbrev pub new_attempt : Config → Prepared → ℕ → ℕ → Attempt
new_attempt cfg p n now = record {
  number = n;
  base_sha = p.base_sha;
  base_snapshot = p.snapshot;
  deadline =
      min cfg.deadline_at
        (now + nat_of (get (get cfg.template "timeouts") "attemptSeconds") * 1000);
}

-- The loop over the attempts, `left` of them from the one that has the number n.
unfoldable pub attempts : Config → Prepared → ℕ → ℕ → M Ready
attempts cfg p zero n = throw "pod exhausted attempts"
attempts cfg p (suc left) n = do
  now ← now_from_clock
  modify fresh
  attempt_to (try_attempt cfg p (new_attempt cfg p n now))
      (next_attempt left n (attempts cfg p left (suc n)))

-- the outer `try` block
unfoldable pub run_body : Config → M Ready
run_body cfg = do
  perform (
      event "run.started" (
        object (
          ("template", get cfg.template "name")
          ∷ ("templateDigest", str cfg.template_digest)
          ∷ ("runId", str cfg.run_id)
          ∷ ("stateRoot", str cfg.state_root)
          ∷ [])))
  p ← prepare cfg
  preflight cfg p
  attempts cfg p (nat_of (get cfg.template "maxAttempts")) 1

-- `{ runId, ...(baseSha ? { baseSha } : {}), reason }`
abbrev pub failure_details : Config → World → String → Value
failure_details cfg w e =
    let reason = field "reason" (str (reason_of e)) end in
    obj (
      field "runId" (str cfg.run_id)
        (if is_named w.base_sha then field "baseSha" w.base_sha reason else reason))

-- the outer `catch` block: a run that is not ready is cancelled and recorded as failed
unfoldable pub settle_failure : Config → String → M Ready
settle_failure cfg e = do
  ready ← gets (λ w. w.ready_committed)
  let give_up : M (Unit {0}) = cancel_active >> gets (λ w. failure_details cfg w e) >>= λ details.
      perform (finish "failed" details) >> pure tt
  if ready then pure tt else give_up
  throw e

-- the `finally` block: the workspace is closed, and kept for publication only if the run is ready
unfoldable pub close_source : {A : Type 0} → Result A → M A
close_source out = do
  ready ← gets (λ w. w.ready_committed)
  attempt_to (perform (source "close" (object (("retainForPublication", bool ready) ∷ []))))
      λ closed. elim closed [ ok v ↦ lift out | err e ↦ if ready then lift out else throw e ]

-- the outcome of the outer `try` block, or what its `catch` block throws
unfoldable pub settle_run : Config → Result Ready → M Ready
settle_run cfg (ok ready) = pure ready
settle_run cfg (err e) = settle_failure cfg e

-- `runEngineeringPod` after the checks of its arguments
unfoldable pub run_pod : Config → M Ready
run_pod cfg = attempt_to (attempt_to (run_body cfg) (settle_run cfg)) close_source

unfoldable pub run_engineering_pod : (String → String) → Arguments → M Ready
run_engineering_pod sha256 args = start_config sha256 args >>= run_pod

abbrev pub first_world : World
first_world = record {
  trace = [];
  base_sha = undefined;
  plan = null;
  work_results = [];
  gates = [];
  inbox_request = none;
  prior_attempts = [];
  ready_committed = false;
  cancelling = false;
}
