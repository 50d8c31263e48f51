-- ===== src/Examples/ReadyRun.antt =====
-- A whole run of the example plan (src/pod-controller.mjs) in an environment in which everything goes
-- well: from the planner to a candidate that is ready for publication.
use bimo.Base.{String, true, List, [], ◌∷◌, Result, ok, text_eq, if◌then◌else◌}
use bimo.Js.{Value, null, nat, str, arr, nil, texts, get, text_of, is_text}
use bimo.Controller.World.{World, Env, Call, clock, agent, settle, verify, source, object}
use bimo.Controller.Time.{Config}
use bimo.Controller.Run.{Ready, first_world, run_pod}
use bimo.Examples.Templates.{template}
use bimo.Examples.Plans.{plan, sha, digest, constant_hash, directories}
use bimo.Examples.Receipts.{conformance_receipt}

abbrev pub config : Config
config = record {
  template = template;
  template_digest = digest;
  prompts = object (
      ("planner", str "Plan.")
      ∷ ("engineering-a", str "Build.")
      ∷ ("engineering-b", str "Build.")
      ∷ ("qa-tests", str "Test.")
      ∷ ("checker", str "Check.")
      ∷ ("qa", str "Review.")
      ∷ ("testing", str "Try.")
      ∷ []);
  assignment = object (("goal", str "Ship it.") ∷ []);
  repository = "owner/repo";
  base_revision = "main";
  target_branch = "main";
  run_id = "run-1";
  state_root = "/state";
  deadline_at = 7200000;
  sha256 = constant_hash;
}

abbrev evidence : Value
evidence = arr (texts ("file:1" ∷ []))

abbrev ids : List (String × Value)
ids =
    ("what", str "Done.")
    ∷ ("why", str "Asked.")
    ∷ ("evidence", evidence)
    ∷ ("requirementIds", arr (texts ("R1" ∷ [])))
    ∷ ("acceptanceIds", arr (texts ("A1" ∷ [])))
    ∷ []

abbrev pub writer_receipt : Value
writer_receipt = object (
    ("outcome", str "completed")
    ∷ ("baseSha", str sha)
    ∷ ("inboxCursor", nat 0)
    ∷ ("dependencyRequest", null)
    ∷ ids)

abbrev pub checker_receipt : Value
checker_receipt = object (
    ("outcome", str "passed")
    ∷ ("baseSha", str sha)
    ∷ ("resultSha", str sha)
    ∷ ("diffSha256", str digest)
    ∷ ("deliveredInbox", arr nil)
    ∷ ids)

-- the agent of a role
abbrev agent_answer : String → Value
agent_answer role =
    if text_eq role "planner"
    then plan
    else if text_eq role "checker"
    then checker_receipt
    else conformance_receipt role

abbrev verdict : Value
verdict =
    object (("status", str "passed") ∷ ("candidateSha", str sha) ∷ ("evidence", evidence) ∷ [])

-- the delta of a writer: one file in its first write path
abbrev pub delta : Value → Value
delta item = object (
    ("baseSha", str sha)
    ∷ (
      "changedPaths",
      arr (
          texts (
            (if is_text (get item "id") "engineering-a"
              then "extensions/a/index.ts"
              else if is_text (get item "id") "engineering-b"
              then "omp/index.ts"
              else "test/index.ts")
            ∷ [])),
    )
    ∷ ("changedBytes", nat 10)
    ∷ ("diffSha256", str digest)
    ∷ ("resultSha", str sha)
    ∷ ("diff", str "+")
    ∷ [])

abbrev pub workspace : Value
workspace = object (
    ("id", str "view")
    ∷ ("root", str "/view")
    ∷ ("writeDirectories", arr nil)
    ∷ ("baseSha", str sha)
    ∷ ("existingDirectories", directories)
    ∷ ("candidateSha", str sha)
    ∷ [])

abbrev pub respond : List Call → Call → Result Value
respond calls clock = ok (nat 0)
respond calls (agent input) = ok (agent_answer (text_of (get input "role")))
respond calls (settle slot) = ok writer_receipt
respond calls (verify input) = ok verdict
respond calls (source name input) = ok (
    if text_eq name "validateAndCommit"
    then delta (get input "workItem")
    else if text_eq name "scan"
    then verdict
    else workspace)
respond calls _ = ok null

abbrev pub environment : Env
environment = record {
  respond = respond;
  next = λ calls pending. 0;
  running = λ calls slot. true;
  clones = λ v. true;
}

abbrev ready : Ready
ready = record { base_sha = str sha; candidate_sha = str sha; branch = "bimo/run-1" }

abbrev final : World
final = (run_pod config environment first_world).1
