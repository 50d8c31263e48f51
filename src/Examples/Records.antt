-- ===== src/Examples/Records.antt =====
-- A run's record (src/pod-store.mjs): created, planned, finished, and then closed.
use bimo.Base.{true, false, List, [], ◌∷◌, some, ok, ◌≡◌, refl, decimal}
use bimo.Js.{stringify, pretty_from, Value, nat, str}
use bimo.Store.{
  Store, Io, create, empty_store, first_run, lookup, append_event, prepare_event,
  write_attempt_plan, prepare_plan, finish, prepare_finish,
}
use bimo.Store.Records.{
  plain_object, clone_json, serialize_record, serialize_pretty, attempt_number, timestamp,
  validate_json,
}
use bimo.Store.Steps.{Op, event, plan, finishing, step, run_all}
use bimo.Store.Invariant.{IsValid}
use bimo.Store.Reachable.{run_all-create-IsValid}
use bimo.Store.Closed.{run_all-finished, run_all-keeps_plan}
use bimo.Controller.World.{object}

abbrev io : Io
io = record {
  now = some "2026-01-01T00:00:00.000Z";
  appends = true;
  written = 0;
  creates = true;
  writes = true;
}

abbrev assignment : Value
assignment = object (("goal", str "Ship it.") ∷ [])

abbrev started : Store
started = empty_store "run-1" (first_run "run-1" assignment "2026-01-01T00:00:00.000Z")

created : create io false "run-1" assignment ≡ ok started
unfolding create plain_object timestamp clone_json validate_json serialize_pretty pretty_from
    decimal
created = refl

abbrev history : List Op
history =
    event io "run.started" (object [])
    ∷ plan io (nat 1) (object (("attempt", nat 1) ∷ []))
    ∷ finishing io "failed" (object (("reason", str "stopped") ∷ []))
    ∷ []

run_all-create-IsValid_example : IsValid (run_all started history)
run_all-create-IsValid_example =
    run_all-create-IsValid io false "run-1" assignment started history created

-- the history ends the run
history_finishes : (run_all started history).finished ≡ true
unfolding run_all step append_event prepare_event write_attempt_plan prepare_plan finish
    prepare_finish plain_object timestamp clone_json validate_json serialize_pretty serialize_record
    pretty_from stringify attempt_number decimal
history_finishes = refl

abbrev closed : Store
closed = run_all started history

run_all-finished_example : run_all closed history ≡ closed
run_all-finished_example = run_all-finished closed history history_finishes

abbrev planned_value : Value
planned_value = object (("attempt", nat 1) ∷ [])

abbrev with_plan : Store
with_plan = record started { plans = ("1", planned_value) ∷ [] }

run_all-keeps_plan_example : lookup "1" (run_all with_plan history).plans ≡ some planned_value
run_all-keeps_plan_example = run_all-keeps_plan with_plan history "1" planned_value refl
