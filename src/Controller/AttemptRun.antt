-- ===== src/Controller/AttemptRun.antt =====
-- `runAttempt` of src/pod-controller.mjs.
use bimo.Base
use bimo.Base.{
  ℕ, String, Bool, true, false, not, List, [], ◌∷◌, ◌++◌, any, all, ◌<>◌, decimal, text_eq, Option,
  none, some, Result, ok, err, ◌&&◌, ◌||◌, if◌then◌else◌, max, get_last?, length, ltb,
}
use bimo.Js.{
  Value, texts, nat, arr, obj, nil, field, end, spread, from_list, get, fields_of, is_text,
  is_array, elements, is_plain_object, or_else,
}
use bimo.Controller.World.{
  source, event, read_inbox, Queued, M, ◌>>=◌, ◌>>◌, pure, throw, require, perform, object, gets,
  attempt_to,
}
use bimo.Controller.Time.{Config}
use bimo.Controller.Writers.{
  Attempt, plain, is_named, work_item, execute_writer, validate_writer, commit_writer_result,
  check_writer_result,
}
use bimo.Controller.Race.{
  writer_slots, at_slot, has_slot, writer_inputs, launch, settle_all, strict_inbox_entry,
}
use bimo.Controller.Candidate.{Candidate, integrate, all_gates}

-- a map from writer slots
abbrev pub Slots : Type 0
Slots = List (String × Value)

-- the worktrees of the writers, in order
unfoldable pub create_worktrees : Config → Attempt → List String → M Slots
create_worktrees cfg a [] = pure []
create_worktrees cfg a (slot ∷ slots) = do
  plan ← gets (λ w. w.plan)
  workspace ← perform (
      source "createWorktree" (
        object (
          ("attempt", nat a.number)
          ∷ ("workItem", work_item plan slot)
          ∷ ("baseSha", a.base_sha)
          ∷ ("deadlineAt", nat a.deadline)
          ∷ [])))
  plain workspace ("workspace " <> slot)
  require (is_named (get workspace "id")) ("workspace " <> slot <> " ID is required")
  require (is_named (get workspace "root")) ("workspace " <> slot <> " root is required")
  require (is_array (get workspace "writeDirectories"))
      ("workspace " <> slot <> " writeDirectories are required")
  rest ← create_worktrees cfg a slots
  pure ((slot, workspace) ∷ rest)

-- the loop up to its end: the receipts of the writers, or the first error
unfoldable pub run_writers : Config → Attempt → Slots → M Slots
run_writers cfg a workspaces = do
  perform (
      event "writers.started"
        (object (("attempt", nat a.number) ∷ ("slots", arr (texts writer_slots)) ∷ [])))
  inputs ← writer_inputs cfg a workspaces writer_slots
  started ← launch cfg inputs
  race ←
      settle_all cfg a workspaces started 3
        (record { pending = writer_slots; initial = []; first_error = none })
  elim race.first_error [ some e ↦ throw e | none ↦ pure race.initial ]

unfoldable pub require_receipts : Slots → List String → M (Unit {0})
require_receipts initial [] = pure tt
require_receipts initial (slot ∷ slots) =
    require (has_slot slot initial) ("writer " <> slot <> " did not return a receipt")
    >> require_receipts initial slots

-- the commit of one writer
unfoldable pub commit_slot : Config → Attempt → Slots → Slots → String → M Value
commit_slot cfg a workspaces initial slot = do
  plan ← gets (λ w. w.plan)
  commit_writer_result cfg a (work_item plan slot) (at_slot slot workspaces) (at_slot slot initial)

-- the commits of the writers that are not blocked
unfoldable pub commit_all : Config → Attempt → Slots → Slots → List String → M Slots
commit_all cfg a workspaces initial [] = pure []
commit_all cfg a workspaces initial (slot ∷ slots) =
    let skip = commit_all cfg a workspaces initial slots in
    let commit = commit_slot cfg a workspaces initial slot >>= λ result.
    commit_all cfg a workspaces initial slots >>= λ rest. pure ((slot, result) ∷ rest) in
    if is_text (get (at_slot slot initial) "outcome") "blocked" then skip else commit

-- `checkerFailure ??= error`
abbrev first_failure : Option String → String → Option String
first_failure none e = some e
first_failure (some f) e = some f

-- Every commit is checked, and the first failure of a checker is thrown after the others have run.
unfoldable pub check_all : Config → Attempt → Slots → Slots → Option String → List String → M Slots
check_all cfg a completed accepted failure [] = elim failure [
  | some e ↦ throw e
  | none ↦ pure accepted
]
check_all cfg a completed accepted failure (slot ∷ slots) = do
  plan ← gets (λ w. w.plan)
  let result = at_slot slot completed
  let skip = check_all cfg a completed accepted failure slots
  let checked = check_writer_result cfg a (work_item plan slot) result (arr nil) (nat 0)
  let after : Result Value → M Slots = λ out. elim out [
    | ok receipt ↦ check_all cfg a completed ((slot, result) ∷ accepted) failure slots
    | err e ↦ check_all cfg a completed accepted (first_failure failure e) slots
  ]
  if has_slot slot completed then attempt_to checked after else skip

-- the owner of a queued request answers it on top of its own accepted result
unfoldable pub run_owner : Config → Attempt → Slots → Slots → Slots → M Value
run_owner cfg a workspaces initial accepted = do
  plan ← gets (λ w. w.plan)
  let slot : String = "engineering-b"
  let cursor = get (at_slot slot initial) "inboxCursor"
  let base = get (at_slot slot accepted) "resultSha"
  entries ← perform (read_inbox a.number slot cursor)
  require (all is_plain_object (elements entries)) "inbox entry must be a plain object"
  let inbox = arr (from_list (Base.map strict_inbox_entry (elements entries)))
  require (ltb 0 (length (elements inbox))) "dependency owner did not receive its queued request"
  raw ←
      execute_writer cfg a (work_item plan slot) (at_slot slot workspaces) inbox
        ("attempt-" <> decimal a.number <> "-" <> slot <> "-inbox") base
  receipt ← validate_writer cfg raw (work_item plan slot) base inbox cursor
  require (is_text (get receipt "outcome") "completed")
      "dependency owner did not complete its inbox request"
  result ← commit_writer_result cfg a (work_item plan slot) (at_slot slot workspaces) receipt
  check_writer_result cfg a (work_item plan slot) result inbox cursor
  pure result

-- the requester resumes on its checkpoint combined with the owner's result
unfoldable pub run_requester : Config → Attempt → Queued → Value → M Value
run_requester cfg a queued owner_result = do
  plan ← gets (λ w. w.plan)
  let slot : String = "engineering-a"
  combined ← perform (
      source "combineBase" (
        object (
          ("attempt", nat a.number)
          ∷ ("requesterCheckpointSha", get queued.checkpoint "resultSha")
          ∷ ("dependencyResultSha", get owner_result "resultSha")
          ∷ ("deadlineAt", nat a.deadline)
          ∷ [])))
  plain combined "combined requester base"
  let workspace = or_else (get combined "workspace") combined
  let base = or_else (get combined "baseSha") (get workspace "baseSha")
  raw ←
      execute_writer cfg a (work_item plan slot) workspace (arr nil)
        ("attempt-" <> decimal a.number <> "-" <> slot <> "-resume") base
  receipt ← validate_writer cfg raw (work_item plan slot) base (arr nil) (nat 0)
  require (is_text (get receipt "outcome") "completed")
      "dependency requester did not complete after resumption"
  result ←
      commit_writer_result cfg a (work_item plan slot)
        (obj (spread (fields_of workspace) (field "baseSha" base end))) receipt
  check_writer_result cfg a (work_item plan slot) result (arr nil) (nat 0)
  pure result

-- the accepted results, the owner's and the requester's replaced where a request was queued
unfoldable pub resolve_dependency : Config → Attempt → Slots → Slots → Slots → M Slots
resolve_dependency cfg a workspaces initial accepted = do
  queued ← gets (λ w. w.inbox_request)
  elim queued [
    | none ↦ pure accepted
    | some q ↦ do
      owner ← run_owner cfg a workspaces initial accepted
      requester ← run_requester cfg a q owner
      pure (("engineering-a", requester) ∷ ("engineering-b", owner) ∷ accepted)
  ]

-- `runAttempt`
unfoldable pub run_attempt : Config → Attempt → M Candidate
run_attempt cfg a = do
  workspaces ← create_worktrees cfg a writer_slots
  initial ← run_writers cfg a workspaces
  require_receipts initial writer_slots
  completed ← commit_all cfg a workspaces initial writer_slots
  checked ← check_all cfg a completed [] none writer_slots
  accepted ← resolve_dependency cfg a workspaces initial checked
  require (all (λ slot. has_slot slot accepted) writer_slots)
      "attempt did not produce three accepted writer results"
  candidate ← integrate cfg a (Base.map (λ slot. at_slot slot accepted) writer_slots)
  all_gates cfg a candidate
