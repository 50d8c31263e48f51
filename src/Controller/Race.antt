-- ===== src/Controller/Race.antt =====
-- The writers of an attempt, started together and handled as they settle: the `while (pending.size)`
-- loop of src/pod-controller.mjs. Which of them settles next is the environment's choice.
use bimo.Base
use bimo.Base.{
  ℕ, zero, suc, ◌%◌, String, Bool, true, false, not, List, [], ◌∷◌, ◌++◌, length, any, all, text_eq,
  mem_text, ◌<>◌, Option, none, some, Result, ok, err, ◌&&◌, ◌||◌, if◌then◌else◌, ltb,
}
use bimo.Js.{
  Value, undefined, null, nat, str, arr, nil, get, text_of, is_array, elements, is_text, or_else,
  is_string, strict_equal,
}
use bimo.Contract.Paths.{path_is_owned}
use bimo.Contract.Plan.{text_list}
use bimo.Controller.World.{
  start, settle, cancel, event, enqueue_inbox, M, ◌>>=◌, ◌>>◌, pure, perform, object, lift, gets,
  modify, attempt_to,
}
use bimo.Controller.Reasons.{terminal_interruption}
use bimo.Controller.Time.{Config, AgentInput, remaining_ms, execution_seconds, agent_request}
use bimo.Controller.Writers.{
  Attempt, plain, work_item, writer_input, validate_writer, commit_writer_result,
  check_writer_result,
}

abbrev pub writer_slots : List String
writer_slots = "engineering-a" ∷ "engineering-b" ∷ "qa-tests" ∷ []

-- `map.get(key)`, and `undefined` where there is none
abbrev pub at_slot : String → List (String × Value) → Value
at_slot k [] = undefined
at_slot k ((j, v) ∷ rest) = if text_eq j k then v else at_slot k rest

abbrev pub has_slot : String → List (String × Value) → Bool
has_slot k [] = false
has_slot k ((j, v) ∷ rest) = text_eq j k || has_slot k rest

-- `cancelActive()` with its failure ignored; the agents are cancelled once
unfoldable pub cancel_active : M (Unit {0})
cancel_active = do
  cancelling ← gets (λ w. w.cancelling)
  if cancelling then pure tt else do
    modify (λ w. record w { cancelling = true })
    attempt_to (perform cancel) (λ _. pure tt)

-- the inputs of the writers, made in order
unfoldable pub writer_inputs :
    Config → Attempt → List (String × Value) → List String → M (List (String × AgentInput))
writer_inputs cfg a workspaces [] = pure []
writer_inputs cfg a workspaces (slot ∷ slots) = do
  plan ← gets (λ w. w.plan)
  input ←
      writer_input cfg a (work_item plan slot) (at_slot slot workspaces) (arr nil)
        ("attempt-" <> Base.decimal a.number <> "-" <> slot) a.base_sha
  remaining_ms cfg a.deadline
  rest ← writer_inputs cfg a workspaces slots
  pure ((slot, input) ∷ rest)

-- each execution is started, or has failed for want of time
unfoldable pub launch : Config → List (String × AgentInput) → M (List (String × Result (Unit {0})))
launch cfg [] = pure []
launch cfg ((slot, input) ∷ inputs) = do
  started ← attempt_to (execution_seconds cfg input.deadline) λ r. elim r [
    | err e ↦ pure (err e)
    | ok seconds ↦ do perform (start slot (agent_request cfg input seconds)); pure (ok tt)
  ]
  rest ← launch cfg inputs
  pure ((slot, started) ∷ rest)

abbrev launched : String → List (String × Result (Unit {0})) → Result (Unit {0})
launched k [] = ok tt
launched k ((j, r) ∷ rest) = if text_eq j k then r else launched k rest

-- the outcome of a writer that has settled
unfoldable pub outcome_of : List (String × Result (Unit {0})) → String → M Value
outcome_of started slot = lift (launched slot started) >> perform (settle slot)

-- the variables of the loop
pub record Race : Type 0 where
  pub pending : List String
  pub initial : List (String × Value)
  pub first_error : Option String

-- `dependencyRequest(receipt)`
abbrev dependency_request : Value → Value
dependency_request r =
    or_else (or_else (or_else (get r "dependencyRequest") (get r "dependency")) (get r "request"))
      null

-- `strictInboxEntry(value)`
abbrev pub strict_inbox_entry : Value → Value
strict_inbox_entry v = object (
    ("sequence", get v "sequence")
    ∷ ("requester", get v "requester")
    ∷ ("owner", get v "owner")
    ∷ ("path", get v "path")
    ∷ ("requirementIds", get v "requirementIds")
    ∷ ("acceptanceIds", get v "acceptanceIds")
    ∷ ("ownerBriefSha256", get v "ownerBriefSha256")
    ∷ ("need", get v "need")
    ∷ ("why", get v "why")
    ∷ ("requesterCheckpointSha", get v "requesterCheckpointSha")
    ∷ [])

-- the request is for requirements and a path of its owner
abbrev within_owner : Value → Value → Bool
within_owner request owner =
    is_array (get request "requirementIds")
    && ltb 0 (length (elements (get request "requirementIds")))
    && all (λ i. any (strict_equal i) (elements (get owner "requirementIds")))
        (elements (get request "requirementIds"))
    && is_string (get request "path")
    && any (path_is_owned (text_of (get request "path")))
        (text_list (elements (get owner "writePaths")))

-- `activeSlots.has("engineering-b")`: its outcome is not handled, and it has not settled meanwhile
abbrev owner_active : Race → M Bool
owner_active r env w =
    (ok (mem_text "engineering-b" r.pending && env.running w.trace "engineering-b"), w)

abbrev pub fail_race : Race → String → Race
fail_race r e = record r { first_error = some e }

-- the request of engineering-a is committed, checked and put in the inbox of engineering-b
unfoldable pub queue_request : Config → Attempt → Race → Value → Value → Value → Value → M Race
queue_request cfg a r item workspace receipt request = do
  checkpoint ← commit_writer_result cfg a item workspace receipt
  check_writer_result cfg a item checkpoint (arr nil) (nat 0)
  active ← owner_active r
  if not active
      then pure (fail_race r "dependency owner completed before the request could be queued")
      else do
        entry ← perform (
            enqueue_inbox a.number "engineering-b" (
              object (
                ("requester", get item "ownerSlot")
                ∷ ("owner", get request "owner")
                ∷ ("path", get request "path")
                ∷ ("requirementIds", get request "requirementIds")
                ∷ ("acceptanceIds", get request "acceptanceIds")
                ∷ ("ownerBriefSha256", get request "ownerBriefSha256")
                ∷ ("need", get request "need")
                ∷ ("why", get request "why")
                ∷ ("requesterCheckpointSha", get checkpoint "resultSha")
                ∷ [])))
        plain entry "inbox entry"
        modify (λ w. record w {
          inbox_request = some (record {
            request = request;
            entry = strict_inbox_entry entry;
            checkpoint = checkpoint;
          });
        })
        perform (
            event "inbox.queued" (
              object (
                ("attempt", nat a.number)
                ∷ ("requestingWorkItemId", get item "id")
                ∷ ("ownerSlot", str "engineering-b")
                ∷ [])))
        pure r

-- a blocked receipt
unfoldable pub handle_blocked : Config → Attempt → Race → String → Value → Value → M Race
handle_blocked cfg a r slot workspace receipt = do
  plan ← gets (λ w. w.plan)
  let request = dependency_request receipt
  active ← owner_active r
  let allowed =
      text_eq slot "engineering-a"
      && is_text (get request "owner") "engineering-b"
      && active
      && within_owner request (work_item plan "engineering-b")
  if allowed
      then queue_request cfg a r (work_item plan slot) workspace receipt request
      else pure (fail_race r "dependency request requires a replacement attempt")

-- the `try` block of the loop, on the value that a writer returned
unfoldable pub handle_value : Config → Attempt → Race → String → Value → Value → M Race
handle_value cfg a r slot workspace raw = do
  plan ← gets (λ w. w.plan)
  receipt ← validate_writer cfg raw (work_item plan slot) a.base_sha (arr nil) (nat 0)
  let r' = record r { initial = (slot, receipt) ∷ r.initial }
  if is_text (get receipt "outcome") "failed"
      then pure (fail_race r' ("writer " <> slot <> " failed: " <> text_of (get receipt "why")))
      else if is_text (get receipt "outcome") "blocked"
      then handle_blocked cfg a r' slot workspace receipt
      else pure r'

-- `firstError ??= error`, and the cancellation of an interrupted attempt
unfoldable pub note_error : Race → String → M Race
note_error r e = do
  if terminal_interruption e then cancel_active else pure tt
  pure (elim r.first_error [ none ↦ fail_race r e | some first ↦ r ])

-- the `catch` block of the loop
unfoldable pub after_value : Race → Result Race → M Race
after_value r (ok r') = pure r'
after_value r (err e) = note_error r e

-- `if (firstError) continue;`
abbrev pub unless_failed : Option String → M Race → M Race → M Race
unless_failed (some first) skip go = skip
unless_failed none skip go = go

-- one round of the loop, on the outcome of the slot
unfoldable pub handle_settled :
    Config → Attempt → List (String × Value) → Race → String → Result Value → M Race
handle_settled cfg a workspaces r slot (err e) = note_error r e
handle_settled cfg a workspaces r slot (ok raw) =
    unless_failed r.first_error (pure r)
      (attempt_to (handle_value cfg a r slot (at_slot slot workspaces) raw) (after_value r))

-- the slot at an index
abbrev pub pick : ℕ → List String → String
pick n [] = ""
pick n (s ∷ []) = s
pick zero (s ∷ t ∷ rest) = s
pick (suc n) (s ∷ t ∷ rest) = pick n (t ∷ rest)

abbrev pub remove : String → List String → List String
remove s [] = []
remove s (t ∷ rest) = if text_eq s t then rest else t ∷ remove s rest

-- the environment's choice among the pending slots
abbrev pub next_slot : List String → M String
next_slot pending env w = (ok (pick (env.next w.trace pending % length pending) pending), w)

-- the loop, with the rounds left: one for each pending writer
unfoldable pub settle_all :
    Config → Attempt → List (String × Value) → List (String × Result (Unit {0})) → ℕ → Race → M Race
settle_all cfg a workspaces started zero r = pure r
settle_all cfg a workspaces started (suc n) r = do
  slot ← next_slot r.pending
  let r' = record r { pending = remove slot r.pending }
  attempt_to (outcome_of started slot) λ out. do
    r'' ← handle_settled cfg a workspaces r' slot out
    settle_all cfg a workspaces started n r''
