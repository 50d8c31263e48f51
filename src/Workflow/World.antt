-- ===== src/Workflow/World.antt =====
-- The ports of `runWorkflow` (src/workflow.mjs), its state and its events. The files of a run and
-- the functions that it is given are ports: a call is recorded in the trace and answered by the
-- environment, a function of the trace, which may answer anything or throw.
unfoldable pub use bimo.Actions.{◌>>=◌}
pub use bimo.Actions.{◌>>◌, then_do, pure, throw, lift, require, gets, modify, attempt_to}
use bimo.Actions.{Action}
use bimo.Base.{ℕ, suc, String, List, [], ◌∷◌, ◌++◌, Option, Result, ok, err, ◌<>◌}
use bimo.Js.{Value, undefined, nat, str, obj, Fields, fields_from, spread, stringify}
use bimo.Workflow.History.{render_changelog}

-- what `atomicWrite` replaces: latest in the state root, CHANGELOG.md in the directory of the run
pub data Target : Type 0 where
  latest changelog : Target

pub data Call : Type 0 where
  -- clock()
  clock : Call
  -- mkdir(stateRoot), mkdir(workspace), mkdir(runDir)
  make_state_root make_workspace make_run_dir : Call
  -- readFile of latest, and of the CHANGELOG.md of a run
  read_latest : Call
  read_changelog : String → Call
  -- writeFile(eventsPath, "", { flag: "wx" }), appendFile(eventsPath, line)
  create_events : Call
  append_event : String → Call
  -- of atomicWrite: writeFile(temporary, text), rename(temporary, target), rm(temporary)
  write_temporary : Target → String → Call
  rename_temporary remove_temporary : Target → Call
  -- runRole(input), verify(input), publish(input)
  run_role verify publish : Value → Call

-- The trace, the latest call first; the local variables `events`, `sequence` and `result`.
pub record World : Type 0 where
  pub trace : List Call
  pub events : List Value
  pub sequence : ℕ
  pub result : Value

abbrev pub initial : World
initial = record { trace = []; events = []; sequence = 0; result = undefined }

-- What the environment decides: the answers of the ports; the clock, in whole milliseconds, none
-- where the number is not finite; the time of an event; the field `runtime` of an error that a
-- role threw.
pub record Env : Type 0 where
  pub respond : List Call → Call → Result Value
  pub time : List Call → Result (Option ℕ)
  pub timestamp : List Call → String
  pub thrown_runtime : List Call → Value

abbrev pub M {ℓ} : Type ℓ → Type ℓ
M A = Action Env World A

unfoldable pub perform : Call → M Value
perform c env w = (env.respond w.trace c, record w { trace = c ∷ w.trace })

unfoldable pub read_clock : M (Option ℕ)
read_clock env w = (env.time w.trace, record w { trace = clock ∷ w.trace })

-- the arguments of `runWorkflow`; the run directory is `path.join(stateRoot, runId)`
pub record Run : Type 0 where
  pub workflow : Value
  pub prompts : Value
  pub template_digest : Value
  pub task : Value
  pub workspace : String
  pub run_dir : String
  pub run_id : String
  pub model : Value
  pub agent_runtime : Value
  pub image_digest : Value
  pub deadline_at : Value
  pub sha256 : String → String

-- `atomicWrite(target, value)`: the temporary file is removed when the write or the rename fails
unfoldable pub clean_up : Target → Result Value → M Value
clean_up target (ok done) = pure done
clean_up target (err e) = attempt_to (perform (remove_temporary target)) (λ _. throw e)

unfoldable pub atomic_write : Target → String → M Value
atomic_write target value =
    attempt_to (perform (write_temporary target value) >> perform (rename_temporary target))
      (clean_up target)

-- an event, with the details spread over it
unfoldable pub event : Run → ℕ → String → String → Fields → Value
event r sequence timestamp type details = obj (
    spread
      (fields_from (
        ("version", nat 1)
        ∷ ("sequence", nat sequence)
        ∷ ("timestamp", str timestamp)
        ∷ ("runId", str r.run_id)
        ∷ ("type", str type)
        ∷ []))
      details)

unfoldable pub push_event : Run → String → Fields → M Value
push_event r type details env w =
    let e = event r (suc w.sequence) (env.timestamp w.trace) type details in
    (ok e, record w { events = w.events ++ e ∷ []; sequence = suc w.sequence })

-- `record(type, details)`: the event, its line in the file, and the changelog of all events
unfoldable pub record_event : Run → String → Fields → M Value
record_event r type details = do
  e ← push_event r type details
  perform (append_event (stringify e <> "\n"))
  events ← gets (λ w. w.events)
  text ← lift (render_changelog events)
  atomic_write changelog text
  pure e
