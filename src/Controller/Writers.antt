-- ===== src/Controller/Writers.antt =====
-- A writer's commit, its check, and its executions, of src/pod-controller.mjs.
use bimo.Base.{
  ℕ, suc, String, Bool, true, false, not, List, [], ◌∷◌, ◌++◌, reverse, length, any, all, leb,
  text_eq, mem_text, ◌<>◌, decimal, Option, none, some, Result, ok, err, ◌&&◌, ◌||◌, if◌then◌else◌,
  ◌==◌, get_last?, codes, folded, same_codes, keep, find, each_from,
}
use bimo.Base
use bimo.Js.{
  Value, null, nat, str, arr, obj, Fields, field, end, nil, from_list, spread, get, nat_of, text_of,
  in_range, is_plain_object, is_array, elements, strict_equal, is_text, fields_of, or_else,
}
use bimo.Contract.Fields.{matches_git_sha, matches_hex, text_matches, at_index}
use bimo.Contract.Paths.{assert_repository_file, path_is_owned}
use bimo.Contract.Plan.{text_list}
use bimo.Contract.Receipts.{validate_writer_receipt, validate_checker_receipt}
use bimo.Controller.World.{
  source, work_result, gate_receipt, M, ◌>>=◌, ◌>>◌, pure, require, perform, object, lift, gets,
  modify, structured_clone,
}
use bimo.Controller.Time.{Config, AgentInput, remaining_ms, run_agent, build_prompt, receipt_of}

-- the state of an attempt that does not change while it runs
pub record Attempt : Type 0 where
  pub number : ℕ
  pub base_sha : Value
  pub base_snapshot : Value
  pub deadline : ℕ

abbrev pub plain : Value → String → M (Unit {0})
plain v label = require (is_plain_object v) (label <> " must be a plain object")

-- `assertSha(value, label)`
unfoldable pub assert_sha : Value → String → M (Unit {0})
assert_sha v label = require (text_matches matches_git_sha v) (label <> " must be a Git SHA")

-- `typeof value === "string" && value`
abbrev pub is_named : Value → Bool
is_named (str s) = not (text_eq s "")
is_named _ = false

-- `{ id: slot, ownerSlot: slot, ...plan.writers[slot] }`
unfoldable pub work_item : Value → String → Value
work_item plan slot = obj (
    spread (field "id" (str slot) (field "ownerSlot" (str slot) end))
      (fields_of (get (get plan "writers") slot)))

abbrev without : String → Fields → Fields
without k end = end
without k (field j v fs) = let rest = without k fs in if text_eq j k then rest else field j v rest

-- `recordWorkResult`: the diff is not kept
unfoldable pub record_work_result : Attempt → Value → M (Unit {0})
record_work_result a result = do
  let durable = obj (without "diff" (fields_of result))
  cloned ← structured_clone durable
  modify (λ w. record w { work_results = w.work_results ++ cloned ∷ [] })
  perform (work_result a.number durable)
  pure tt

-- `recordGate`
unfoldable pub record_gate : Attempt → Value → M (Unit {0})
record_gate a receipt = do
  cloned ← structured_clone receipt
  modify (λ w. record w { gates = w.gates ++ cloned ∷ [] })
  perform (gate_receipt a.number receipt)
  pure tt

-- the loop over the committed paths: each a repository file, none twice, each owned
unfoldable pub check_paths : List String → ℕ → List (List ℕ) → List Value → Result (Unit {0})
check_paths owned i seen [] = ok tt
check_paths owned i seen (v ∷ vs) =
    Base.◌>>◌ (assert_repository_file v (at_index "commit changedPaths" i)) (
      Base.◌>>◌
        (Base.check (not (any (same_codes (folded (text_of v))) seen))
          ("commit changedPaths contains duplicate path: " <> text_of v))
        (Base.◌>>◌
          (Base.check (any (path_is_owned (text_of v)) owned)
            "commit changedPaths are outside the fixed writer scope")
          (check_paths owned (suc i) (folded (text_of v) ∷ seen) vs)))

-- the result that a commit yields
unfoldable pub commit_record : Value → Value → Value → Value
commit_record receipt item committed = obj (
    spread (fields_of receipt) (
      field "workItemId" (get item "id") (
        field "ownerSlot" (get item "ownerSlot") (
          field "baseSha" (get committed "baseSha") (
            field "resultSha" (get committed "resultSha") (
              field "files" (get committed "changedPaths") (
                field "changedBytes" (get committed "changedBytes") (
                  field "diffSha256" (get committed "diffSha256")
                    (field "diff" (get committed "diff") end)))))))))

-- the tests of `commitWriterResult` on what the workspace committed
unfoldable pub check_commit : Config → Value → Value → Value → M (Unit {0})
check_commit cfg item receipt committed = do
  let changes = get cfg.template "changes"
  let paths = elements (get committed "changedPaths")
  plain committed ("commit result " <> text_of (get item "id"))
  assert_sha (get committed "baseSha") "writer baseSha"
  require (strict_equal (get committed "baseSha") (get receipt "baseSha"))
      "writer receipt base does not match the committed delta"
  require
      (is_array (get committed "changedPaths")
        && leb 1 (length paths)
        && leb (length paths) (nat_of (get changes "maxFiles")))
      "commit changedPaths are outside the fixed writer scope"
  lift (check_paths (text_list (elements (get item "writePaths"))) 0 [] paths)
  require (in_range (get committed "changedBytes") 0 (nat_of (get changes "maxBytes")))
      "commit changedBytes are outside the fixed limit"
  require (text_matches (matches_hex 64) (get committed "diffSha256"))
      "commit diffSha256 must be a SHA-256 digest"

-- `commitWriterResult`
unfoldable pub commit_writer_result : Config → Attempt → Value → Value → Value → M Value
commit_writer_result cfg a item workspace receipt = do
  remaining_ms cfg a.deadline
  committed ← perform (
      source "validateAndCommit" (
        object (
          ("workspace", workspace)
          ∷ ("workItem", item)
          ∷ ("deadlineAt", nat a.deadline)
          ∷ ("limits", get cfg.template "changes")
          ∷ [])))
  check_commit cfg item receipt committed
  assert_sha (get committed "resultSha") "writer resultSha"
  let result = commit_record receipt item committed
  record_work_result a result
  pure result

-- `records.filter(item => ids.includes(item.id))`
abbrev select_ids : Value → Value → Value
select_ids records ids = arr (
    from_list
      (keep (λ r. any (λ i. strict_equal i (get r "id")) (elements ids)) (elements records)))

unfoldable pub checker_details : Config → Value → Value → Value → Value → Fields
checker_details cfg plan item result delivered = field "assignment" cfg.assignment (
    field "requirementIds" (get item "requirementIds") (
      field "requirements" (select_ids (get plan "requirements") (get item "requirementIds")) (
        field "acceptanceCriteria"
          (select_ids (get plan "acceptanceCriteria") (get item "acceptanceIds"))
          (field "workItem" item (
            field "baseSha" (get result "baseSha") (
              field "resultSha" (get result "resultSha") (
                field "diffSha256" (get result "diffSha256")
                  (field "diff" (get result "diff") (field "deliveredInbox" delivered end)))))))))

-- `{ ...receiptOf(raw), files: [] }`
abbrev pub with_no_files : Value → Value
with_no_files receipt = obj (spread (fields_of receipt) (field "files" (arr nil) end))

-- a gate's record: the gate, its subject and the receipt
unfoldable pub checker_gate : Value → Value → Value → Value
checker_gate item result receipt = obj (
    spread
      (field "gate" (str "checker")
        (field "workItemId" (get item "id") (field "subjectSha" (get result "resultSha") end)))
      (fields_of receipt))

-- `checkWriterResult`
unfoldable pub check_writer_result : Config → Attempt → Value → Value → Value → Value → M Value
check_writer_result cfg a item result delivered previous = do
  plan ← gets (λ w. w.plan)
  let slot = text_of (get item "ownerSlot")
  view ← perform (
      source "createReadView" (
        object (
          (
            "id",
            str (
                "c-" <> decimal a.number <> "-" <> slot <> "-" <> text_of (get result "resultSha")),
          )
          ∷ ("sha", get result "resultSha")
          ∷ ("deadlineAt", nat a.deadline)
          ∷ [])))
  plain view "checker read view"
  require (is_named (get view "id")) "checker read view ID is required"
  prompt ← lift (
      build_prompt (get cfg.prompts "checker") "checker"
        (checker_details cfg plan item result delivered))
  raw ← run_agent cfg (record {
    execution_id = "attempt-" <> decimal a.number <> "-checker-" <> slot;
    role = "checker";
    attempt = a.number;
    access = "read";
    prompt = prompt;
    workspace_id = get view "id";
    write_directories = arr nil;
    deadline = a.deadline;
  })
  claimed ← lift (receipt_of raw ("checker receipt " <> text_of (get item "id")))
  receipt ← lift (
      validate_checker_receipt cfg.sha256 (with_no_files claimed) plan slot (get result "baseSha")
        (get result "resultSha") (get result "diffSha256") delivered previous)
  record_gate a (checker_gate item result receipt)
  require (is_text (get receipt "outcome") "passed")
      ("checker rejected " <> text_of (get item "id") <> ": " <> text_of (get receipt "why"))
  pure receipt

-- the last gate of the prior attempt that did not pass
abbrev failed_gate : Value → Value
failed_gate prior =
    elim (find (λ g. not (is_text (get g "outcome") "passed"))
      (reverse (elements (get prior "gates")))) [ none ↦ null | some g ↦ g ]

-- `value?.k`
abbrev optional : Value → String → Value
optional v k = get v k

abbrev correction : ℕ → String → Bool → String
correction n gate own =
    "Attempt "
    <> decimal n
    <> " failed the "
    <> gate
    <> " gate"
    <> (if own then " on your writer item" else "")
    <> ". Correct only your assigned work within its writePaths so this exact gate passes on the replacement attempt."

-- `retryContext(workItem)`
unfoldable pub retry_context : List Value → Value → Option Value
retry_context priors item = elim (get_last? priors) [
  | none ↦ none
  | some prior ↦
      let failed = failed_gate prior in
      let gate = or_else (optional failed "gate") (str "attempt") in
      some (
        object (
          ("attempt", get prior "attempt")
          ∷ ("gate", gate)
          ∷ ("outcome", or_else (optional failed "outcome") (str "failed"))
          ∷ ("reason", get prior "reason")
          ∷ ("evidence", or_else (optional failed "evidence") (arr nil))
          ∷ (
            "correction",
            str (
                correction (nat_of (get prior "attempt")) (text_of gate)
                  (strict_equal (optional failed "workItemId") (get item "id"))),
          )
          ∷ []))
]

unfoldable pub writer_details : Config → Value → Value → Value → Value → Option Value → Fields
writer_details cfg plan item inbox base retry =
    let details = field "assignment" cfg.assignment (
      field "plan" plan
        (field "workItem" item (field "inbox" inbox (field "executionBaseSha" base end)))) in
    elim retry [ none ↦ details | some r ↦ spread details (field "retry" r end) ]

-- `executeWriter` up to the call of `runAgent`: its input
unfoldable pub writer_input :
    Config → Attempt → Value → Value → Value → String → Value → M AgentInput
writer_input cfg a item workspace inbox execution base = do
  priors ← gets (λ w. w.prior_attempts)
  plan ← gets (λ w. w.plan)
  let slot = text_of (get item "ownerSlot")
  prompt ← lift (
      build_prompt (get cfg.prompts slot) "writer"
        (writer_details cfg plan item inbox base (retry_context priors item)))
  pure (record {
    execution_id = execution;
    role = slot;
    attempt = a.number;
    access = "write";
    prompt = prompt;
    workspace_id = get workspace "id";
    write_directories = get workspace "writeDirectories";
    deadline = a.deadline;
  })

-- `executeWriter`, awaited
unfoldable pub execute_writer : Config → Attempt → Value → Value → Value → String → Value → M Value
execute_writer cfg a item workspace inbox execution base = do
  input ← writer_input cfg a item workspace inbox execution base
  run_agent cfg input

-- `validateWriter`
unfoldable pub validate_writer : Config → Value → Value → Value → Value → Value → M Value
validate_writer cfg raw item base delivered previous = do
  plan ← gets (λ w. w.plan)
  receipt ← lift (receipt_of raw ("writer receipt " <> text_of (get item "id")))
  lift (
      validate_writer_receipt cfg.sha256 receipt cfg.template plan (text_of (get item "ownerSlot"))
        base delivered previous)
