-- ===== src/Controller/Candidate.antt =====
-- From three accepted results to a candidate that passed every gate, of src/pod-controller.mjs.
use bimo.Base.{◌/◌, String, Bool, List, [], ◌∷◌, min, ◌<>◌, decimal, ◌&&◌, if◌then◌else◌}
use bimo.Js.{
  Value, nat, str, arr, obj, nil, cons, field, end, spread, texts, from_list, get, text_of,
  fields_of, is_text, strict_equal,
}
use bimo.Contract.Receipts.{validate_conformance_receipt}
use bimo.Controller.World.{
  source, verify, M, ◌>>=◌, ◌>>◌, pure, require, perform, object, lift, gets,
}
use bimo.Controller.Time.{Config, remaining_ms, run_agent, build_prompt, receipt_of}
use bimo.Controller.Writers.{Attempt, plain, assert_sha, is_named, record_gate, with_no_files}
use bimo.Controller.Race.{writer_slots}

-- what a successful attempt returns, with the snapshot that was verified
pub record Candidate : Type 0 where
  pub sha : Value
  pub branch : String
  pub view_id : Value
  pub view_root : Value
  pub snapshot : Value

-- JavaScript's truth of a value, where it is a string or missing
abbrev is_set : Value → Bool
is_set v = is_named v

-- the integration of the three commits, the read view and the snapshot of the candidate
unfoldable pub integrate : Config → Attempt → List Value → M Candidate
integrate cfg a commits = do
  remaining_ms cfg a.deadline
  let branch = "bimo/" <> cfg.run_id
  integrated ← perform (
      source "integrate" (
        object (
          ("attempt", nat a.number)
          ∷ ("baseSha", a.base_sha)
          ∷ ("commits", arr (from_list commits))
          ∷ ("integrationOrder", arr (texts writer_slots))
          ∷ ("branch", str branch)
          ∷ ("deadlineAt", nat a.deadline)
          ∷ [])))
  plain integrated "integration result"
  assert_sha (get integrated "candidateSha") "candidateSha"
  let sha = get integrated "candidateSha"
  let view_id = str ("attempt-" <> decimal a.number <> "-candidate")
  let described =
      object (("id", get integrated "workspaceId") ∷ ("root", get integrated "workspaceRoot") ∷ [])
  let has_view = is_set (get integrated "workspaceRoot") && is_set (get integrated "workspaceId")
  view ←
      if has_view
      then pure described
      else perform (
          source "createReadView"
            (object (("id", view_id) ∷ ("sha", sha) ∷ ("deadlineAt", nat a.deadline) ∷ [])))
  require (is_named (get view "id") && is_named (get view "root")) "candidate read view is invalid"
  snapshot ← perform (
      source "createSnapshot"
        (object (("id", view_id) ∷ ("sha", sha) ∷ ("deadlineAt", nat a.deadline) ∷ [])))
  plain snapshot "candidate snapshot"
  pure (record {
    sha = sha;
    branch = branch;
    view_id = get view "id";
    view_root = get view "root";
    snapshot = snapshot;
  })

-- the execution of the QA or the Testing agent on the candidate, and its receipt
unfoldable pub review : Config → Attempt → Candidate → String → String → String → String → M Value
review cfg a c role phase execution label = do
  plan ← gets (λ w. w.plan)
  prompt ← lift (
      build_prompt (get cfg.prompts role) phase
        (field "assignment" cfg.assignment (field "plan" plan (field "candidateSha" c.sha end))))
  raw ← run_agent cfg (record {
    execution_id = "attempt-" <> decimal a.number <> "-" <> execution;
    role = role;
    attempt = a.number;
    access = "read";
    prompt = prompt;
    workspace_id = c.view_id;
    write_directories = arr nil;
    deadline = a.deadline;
  })
  receipt ← lift (receipt_of raw label)
  lift (validate_conformance_receipt (with_no_files receipt) plan role c.sha)

-- `{ gate: "qa-conformance", subjectSha, ...qaReceipt }`
abbrev pub qa_record : Candidate → Value → Value
qa_record c receipt = obj (
    spread (field "gate" (str "qa-conformance") (field "subjectSha" c.sha end)) (fields_of receipt))

unfoldable pub qa_gate : Config → Attempt → Candidate → M (Unit {0})
qa_gate cfg a c = do
  receipt ← review cfg a c "qa" "qa-conformance" "qa-conformance" "QA conformance receipt"
  record_gate a (qa_record c receipt)
  require (is_text (get receipt "outcome") "passed")
      ("QA conformance failed: " <> text_of (get receipt "why"))

-- `{ subjectSha, ...testingReceipt }`
abbrev pub testing_record : Candidate → Value → Value
testing_record c receipt = obj (spread (field "subjectSha" c.sha end) (fields_of receipt))

unfoldable pub testing_gate : Config → Attempt → Candidate → M (Unit {0})
testing_gate cfg a c = do
  receipt ← review cfg a c "testing" "testing" "testing" "Testing receipt"
  record_gate a (testing_record c receipt)
  require (is_text (get receipt "outcome") "passed")
      ("Testing review failed: " <> text_of (get receipt "why"))

-- a gate of the controller itself
abbrev pub passed_gate : String → Candidate → String → Value → Value
passed_gate gate c why evidence = object (
    ("gate", str gate)
    ∷ ("subjectSha", c.sha)
    ∷ ("outcome", str "passed")
    ∷ ("why", str why)
    ∷ ("evidence", evidence)
    ∷ [])

-- the receipt is about exactly the candidate, and passed
abbrev pub passes_exactly : Value → Value → Bool
passes_exactly receipt sha =
    is_text (get receipt "status") "passed" && strict_equal (get receipt "candidateSha") sha

unfoldable pub trusted_verification : Config → Attempt → Candidate → M (Unit {0})
trusted_verification cfg a c = do
  remaining ← remaining_ms cfg a.deadline
  verification ← perform (
      verify (
        object (
          ("workspaceRoot", c.view_root)
          ∷ (
            "candidateView",
            object (("id", c.view_id) ∷ ("root", c.view_root) ∷ ("sha", c.sha) ∷ []),
          )
          ∷ ("candidateSnapshot", c.snapshot)
          ∷ ("baseSnapshot", a.base_snapshot)
          ∷ ("expectedSha", c.sha)
          ∷ ("profile", get cfg.template "verificationProfile")
          ∷ ("timeoutSeconds", nat (min 900 (remaining / 1000)))
          ∷ [])))
  plain verification "trusted verification receipt"
  require (passes_exactly verification c.sha)
      "trusted verification did not pass the exact candidate SHA"
  record_gate a (
      passed_gate "trusted-verification" c "Trusted verification passed the exact candidate SHA."
        (get verification "evidence"))

unfoldable pub publication_scan : Config → Attempt → Candidate → M (Unit {0})
publication_scan cfg a c = do
  scan ← perform (
      source "scan" (
        object (
          ("baseSha", a.base_sha) ∷ ("candidateSha", c.sha) ∷ ("deadlineAt", nat a.deadline) ∷ [])))
  plain scan "pre-publication scan receipt"
  require (passes_exactly scan c.sha) "pre-publication scan did not pass the exact candidate SHA"
  record_gate a (
      passed_gate "pre-publication-scan" c "The source and commit scan passed."
        (get scan "evidence"))

-- the record of the last gate
abbrev pub ready_record : Config → Candidate → Value
ready_record cfg c =
    passed_gate "publication-ready" c
      "The exact tested candidate is ready for isolated publication."
      (arr (
        cons (str ("candidate:" <> text_of c.sha)) (cons (str ("branch:bimo/" <> cfg.run_id)) nil)))

unfoldable pub ready_gate : Config → Attempt → Candidate → M (Unit {0})
ready_gate cfg a c = record_gate a (ready_record cfg c)

-- the gates in the source's order
unfoldable pub all_gates : Config → Attempt → Candidate → M Candidate
all_gates cfg a c = do
  qa_gate cfg a c
  testing_gate cfg a c
  trusted_verification cfg a c
  publication_scan cfg a c
  ready_gate cfg a c
  pure c
