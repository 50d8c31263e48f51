-- ===== src/Store.antt =====
-- src/pod-store.mjs: the durable record of one run. The files of the run directory are values in the
-- state; operations are serialised by the source's promise chain, so each is one function.
pub mod Records
pub mod Lookup
pub mod Invariant
pub mod Reachable
pub mod Open
pub mod Closed
pub mod Steps
use bimo.Base.{
  ℕ, zero, suc, ◌+◌, String, Bool, true, false, not, List, [], ◌∷◌, ◌++◌, Option, none, some, ◌<>◌,
  decimal, leb, ltb, ◌==◌, text_eq, mem_text, Result, ok, err, check, ◌>>=◌, ◌>>◌, if◌then◌else◌,
  max, keep, ◌&&◌,
}
use bimo.Js.{
  Value, undefined, null, nat, str, arr, obj, Fields, field, end, spread, fields_of, find_field,
  get, is_plain_object, in_range, nat_of, is_string, from_list,
}
use bimo.Store.Records.{
  Checked, plain_object, clone_json, serialize_record, serialize_pretty, attempt_number,
  inbox_owner, cursor, matches_event_type, timestamp,
}

-- What the outside answers to one operation: the clock's reading (`none` is no valid Date), and
-- whether the file system carries out an append, an exclusive creation and an atomic write. An append
-- that fails may have written the first bytes of its line, or all of them: `written` is their number.
pub record Io : Type 0 where
  pub now : Option String
  pub appends : Bool
  pub written : ℕ
  pub creates : Bool
  pub writes : Bool

-- a map with the latest entry first
abbrev pub lookup {ℓ} : {A : Type ℓ} → String → List (String × A) → Option A
lookup k [] = none
lookup k ((j, a) ∷ rest) = if text_eq j k then some a else lookup k rest

abbrev pub count_of : String → List (String × ℕ) → ℕ
count_of k m = elim (lookup k m) [ none ↦ 0 | some n ↦ n ]

-- the lines of the JSONL file at a key, in order
abbrev pub lines_of : String → List (String × Value) → List Value
lines_of k [] = []
lines_of k ((j, v) ∷ rest) =
    let more = lines_of k rest in elim (text_eq j k) [ true ↦ v ∷ more | false ↦ more ]

-- What an append that failed had written: so many bytes of a line, to the end of the file, behind the
-- lines that were appended before.
pub record Remains : Type 0 where
  pub file : String
  pub lines : ℕ
  pub bytes : ℕ
  pub line : Value

pub record Store : Type 0 where
  pub run_id : String
  pub run : Fields  -- `run`, in memory
  pub sequence : ℕ  -- eventSequence
  pub inbox_sequences : List (String × ℕ)
  pub work_result_counts : List (String × ℕ)
  pub gate_receipt_counts : List (String × ℕ)
  pub finished : Bool
  -- The files of the run directory. Of a JSONL file these are the lines whose append was carried out;
  -- what other appends left between them is in `remains`.
  pub run_file : Value  -- run.json
  pub events : List Value  -- events.jsonl
  pub plans : List (String × Value)  -- attempts/N/plan.json, by N
  pub work_results : List (String × Value)  -- attempts/N/work-results.jsonl, by N
  pub gate_receipts : List (String × Value)  -- attempts/N/gate-receipts.jsonl, by N
  pub inboxes : List (String × Value)  -- attempts/N/inbox/OWNER.jsonl, by "N:OWNER"
  pub remains : List Remains

abbrev pub Outcome : Type 0
Outcome = Store × Result Value

abbrev pub max_events : ℕ
max_events = 1000

abbrev pub max_collection_records : ℕ
max_collection_records = 100

abbrev disk_error : String
disk_error = "EIO: i/o error"

-- the state after an append to the file that failed
abbrev pub left_over : Store → Io → String → ℕ → Value → Store
left_over s io file lines line = record s {
  remains =
      s.remains ++ (record { file = file; lines = lines; bytes = io.written; line = line }) ∷ [];
}

abbrev pub active : Store → Checked
active s = check (not s.finished) "run is already finished"

-- the fields that the store gives an event, over those of the caller
abbrev pub event_fields : String → ℕ → String → String → Fields
event_fields run_id sequence now type = field "version" (nat 1) (
    field "sequence" (nat sequence)
      (field "timestamp" (str now) (field "runId" (str run_id) (field "type" (str type) end))))

-- `appendEvent` up to the write: the event
unfoldable pub prepare_event : Store → Io → String → Value → Result Value
prepare_event s io type details = do
  active s
  check (ltb s.sequence 999) "events exceed 999 entries before the terminal event"
  check (matches_event_type type) "invalid event type"
  plain_object details "event details"
  stored ← clone_json details "event details"
  now ← timestamp io.now
  let event = obj (spread (fields_of stored) (event_fields s.run_id (s.sequence + 1) now type))
  serialize_record event "event"

unfoldable pub append_event : Store → Io → String → Value → Outcome
append_event s io type details = elim (prepare_event s io type details) [
  | err e ↦ (s, err e)
  | ok event ↦
      if io.appends
      then (record s { events = s.events ++ event ∷ []; sequence = s.sequence + 1 }, ok event)
      else (left_over s io "events.jsonl" s.sequence event, err disk_error)
]

-- `{ ...run, currentAttempt, phase: "planned" }`
abbrev pub planned : Fields → ℕ → Fields
planned run attempt = spread run (
    field "currentAttempt" (nat (max (nat_of (find_field "currentAttempt" run)) attempt))
      (field "phase" (str "planned") end))

-- `writeAttemptPlan` up to the writes
unfoldable pub prepare_plan : Store → Value → Value → Result Value
prepare_plan s attempt plan = do
  active s
  attempt_number attempt
  plain_object plan "attempt plan"
  stored ← serialize_pretty plan "attempt plan"
  serialize_pretty (obj (planned s.run (nat_of attempt))) "run record"
  ok stored

-- A plan that exists is never replaced; after the exclusive creation the run record may still fail
-- to be written, which leaves the plan and the old record.
unfoldable pub write_attempt_plan : Store → Io → Value → Value → Outcome
write_attempt_plan s io attempt plan = elim (prepare_plan s attempt plan) [
  | err e ↦ (s, err e)
  | ok stored ↦
      let n = decimal (nat_of attempt) in
      let run = planned s.run (nat_of attempt) in
      let s' = record s { plans = (n, stored) ∷ s.plans } in
      elim (lookup n s.plans) [
        | some old ↦ (s, err ("attempt " <> n <> " plan already exists"))
        | none ↦
            if io.creates
            then (if io.writes
                then (record s' { run = run; run_file = obj run }, ok stored)
                else (s', err disk_error))
            else (s, err disk_error)
      ]
]

abbrev plan_exists : Store → Value → Checked
plan_exists s attempt = elim (lookup (decimal (nat_of attempt)) s.plans) [
  | none ↦ err ("attempt " <> decimal (nat_of attempt) <> " plan does not exist")
  | some plan ↦ ok tt
]

unfoldable pub prepare_result : Store → Value → Value → Result Value
prepare_result s attempt result = do
  active s
  attempt_number attempt
  plain_object result "work result"
  plan_exists s attempt
  check (ltb (count_of (decimal (nat_of attempt)) s.work_result_counts) max_collection_records)
      ("work results for attempt " <> decimal (nat_of attempt) <> " exceed 100 entries")
  serialize_record result "work result"

unfoldable pub write_work_result : Store → Io → Value → Value → Outcome
write_work_result s io attempt result = elim (prepare_result s attempt result) [
  | err e ↦ (s, err e)
  | ok stored ↦
      let n = decimal (nat_of attempt) in
      if io.appends
      then (
        record s {
          work_results = s.work_results ++ (n, stored) ∷ [];
          work_result_counts = (n, count_of n s.work_result_counts + 1) ∷ s.work_result_counts;
        },
        ok stored,
      )
      else (
        left_over s io ("attempts/" <> n <> "/work-results.jsonl") (count_of n s.work_result_counts)
            stored,
        err disk_error,
      )
]

unfoldable pub prepare_receipt : Store → Value → Value → Result Value
prepare_receipt s attempt receipt = do
  active s
  attempt_number attempt
  plain_object receipt "gate receipt"
  plan_exists s attempt
  check (ltb (count_of (decimal (nat_of attempt)) s.gate_receipt_counts) max_collection_records)
      ("gate receipts for attempt " <> decimal (nat_of attempt) <> " exceed 100 entries")
  serialize_record receipt "gate receipt"

unfoldable pub write_gate_receipt : Store → Io → Value → Value → Outcome
write_gate_receipt s io attempt receipt = elim (prepare_receipt s attempt receipt) [
  | err e ↦ (s, err e)
  | ok stored ↦
      let n = decimal (nat_of attempt) in
      if io.appends
      then (
        record s {
          gate_receipts = s.gate_receipts ++ (n, stored) ∷ [];
          gate_receipt_counts = (n, count_of n s.gate_receipt_counts + 1) ∷ s.gate_receipt_counts;
        },
        ok stored,
      )
      else (
        left_over s io ("attempts/" <> n <> "/gate-receipts.jsonl")
            (count_of n s.gate_receipt_counts) stored,
        err disk_error,
      )
]

-- `${attempt}:${ownerSlot}`
abbrev pub inbox_key : Value → String → String
inbox_key attempt owner = decimal (nat_of attempt) <> ":" <> owner

abbrev inbox_file : Value → String → String
inbox_file attempt owner = "attempts/" <> decimal (nat_of attempt) <> "/inbox/" <> owner <> ".jsonl"

abbrev inbox_fields : Store → Value → String → ℕ → String → Fields
inbox_fields s attempt owner sequence now = field "version" (nat 1) (
    field "sequence" (nat sequence) (
      field "timestamp" (str now) (
        field "runId" (str s.run_id)
          (field "attempt" (nat (nat_of attempt)) (field "ownerSlot" (str owner) end)))))

unfoldable pub prepare_entry : Store → Io → Value → String → Value → Result Value
prepare_entry s io attempt owner entry = do
  active s
  attempt_number attempt
  inbox_owner owner
  plain_object entry "inbox entry"
  plan_exists s attempt
  let count = count_of (inbox_key attempt owner) s.inbox_sequences
  check (ltb count max_collection_records)
      ("inbox " <> owner <> " for attempt " <> decimal (nat_of attempt) <> " exceeds 100 entries")
  stored ← clone_json entry "inbox details"
  now ← timestamp io.now
  serialize_record (obj (spread (fields_of stored) (inbox_fields s attempt owner (count + 1) now)))
      "inbox entry"

unfoldable pub enqueue_inbox : Store → Io → Value → String → Value → Outcome
enqueue_inbox s io attempt owner entry = elim (prepare_entry s io attempt owner entry) [
  | err e ↦ (s, err e)
  | ok stored ↦
      let k = inbox_key attempt owner in
      if io.appends
      then (
        record s {
          inboxes = s.inboxes ++ (k, stored) ∷ [];
          inbox_sequences = (k, count_of k s.inbox_sequences + 1) ∷ s.inbox_sequences;
        },
        ok stored,
      )
      else (
        left_over s io (inbox_file attempt owner) (count_of k s.inbox_sequences) stored,
        err disk_error,
      )
]

-- `readInbox`, which a finished run still answers; `readable` says that the file, if there is one, is
-- read and that its lines parse, which what a failed append left in it may prevent. A line that such
-- an append wrote to its end is not among the entries here.
unfoldable pub read_inbox : Store → Bool → Value → String → Value → Result (List Value)
read_inbox s readable attempt owner after = do
  attempt_number attempt
  inbox_owner owner
  cursor after
  plan_exists s attempt
  check readable disk_error
  ok (
      keep (λ e. ltb (nat_of after) (nat_of (get e "sequence")))
        (lines_of (inbox_key attempt owner) s.inboxes))

abbrev pub terminal_statuses : List String
terminal_statuses = "completed" ∷ "failed" ∷ "cancelled" ∷ []

-- the phase that the caller names, or "finished"
abbrev pub final_phase : Value → Value
final_phase v = if is_string v then v else str "finished"

-- `{ ...run, ...storedDetails, version, …, finishedAt }`
abbrev pub terminal_run : Store → Fields → String → String → Fields
terminal_run s details status now = spread (spread s.run details) (
    field "version" (find_field "version" s.run) (
      field "runId" (str s.run_id) (
        field "assignment" (find_field "assignment" s.run) (
          field "status" (str status) (
            field "phase" (final_phase (find_field "phase" details)) (
              field "currentAttempt" (find_field "currentAttempt" s.run) (
                field "startedAt" (find_field "startedAt" s.run)
                  (field "finishedAt" (str now) end))))))))

-- `{ ...storedDetails, status, version, …, type: "run.finished" }`
abbrev pub terminal_event : Store → Fields → String → String → Fields
terminal_event s details status now =
    spread details
      (field "status" (str status) (event_fields s.run_id (s.sequence + 1) now "run.finished"))

-- `finish` up to the writes: the record and the event
unfoldable pub prepare_finish : Store → Io → String → Value → Result (Value × Value)
prepare_finish s io status details = do
  active s
  check (mem_text status terminal_statuses) "run status must be completed, failed, or cancelled"
  check (ltb s.sequence max_events) "events exceed 1000 entries"
  plain_object details "finish details"
  stored ← clone_json details "finish details"
  now ← timestamp io.now
  terminal ← serialize_pretty (obj (terminal_run s (fields_of stored) status now)) "run record"
  event ← serialize_record (obj (terminal_event s (fields_of stored) status now)) "event"
  ok (terminal, event)

-- The event is appended first; if the record cannot be written the run stays open.
unfoldable pub finish : Store → Io → String → Value → Outcome
finish s io status details = elim (prepare_finish s io status details) [
  | err e ↦ (s, err e)
  | ok written ↦
      let s' = record s { events = s.events ++ written.1 ∷ []; sequence = s.sequence + 1 } in
      if io.appends
      then (if io.writes
          then (
            record s' { run = fields_of written.0; run_file = written.0; finished = true },
            ok written.0,
          )
          else (s', err disk_error))
      else (left_over s io "events.jsonl" s.sequence written.1, err disk_error)
]

-- the record that `createPodRunStore` writes first
abbrev pub first_run : String → Value → String → Fields
first_run run_id assignment now = field "version" (nat 1) (
    field "runId" (str run_id) (
      field "assignment" assignment (
        field "status" (str "running") (
          field "phase" (str "created") (
            field "currentAttempt" (nat 0)
              (field "startedAt" (str now) (field "finishedAt" null end)))))))

abbrev pub empty_store : String → Fields → Store
empty_store run_id run = record {
  run_id = run_id;
  run = run;
  sequence = 0;
  inbox_sequences = [];
  work_result_counts = [];
  gate_receipt_counts = [];
  finished = false;
  run_file = obj run;
  events = [];
  plans = [];
  work_results = [];
  gate_receipts = [];
  inboxes = [];
  remains = [];
}

-- `createPodRunStore` under a state root; `taken` says that a run of the name is there
unfoldable pub create : Io → Bool → String → Value → Result Store
create io taken run_id assignment = do
  check (Records.matches_run_id run_id) "invalid run ID"
  plain_object assignment "assignment"
  now ← timestamp io.now
  stored ← clone_json assignment "assignment"
  serialize_pretty (obj (first_run run_id stored now)) "run record"
  check (not taken) ("run already exists: " <> run_id)
  check io.writes disk_error
  ok (empty_store run_id (first_run run_id stored now))
