-- ===== src/Store/Reachable.antt =====
-- Every state of a run's record that operations can reach is valid.
use bimo.Base.{String, Bool, List, [], ◌∷◌, ◌≡◌, ok, arith}
use bimo.Js.{Value}
use bimo.Store.{Store, Io, create}
use bimo.Store.Steps.{Op, event, plan, result, receipt, inbox, finishing, step, run_all}
use bimo.Store.Invariant.{
  IsValid, append_event-IsValid, write_attempt_plan-IsValid, write_work_result-IsValid,
  write_gate_receipt-IsValid, enqueue_inbox-IsValid, finish-IsValid,
}

step-IsValid : (s : Store) (op : Op) → IsValid s → IsValid (step s op)
unfolding step
step-IsValid s (event io type details) v = append_event-IsValid s io type details v
step-IsValid s (plan io attempt value) v = write_attempt_plan-IsValid s io attempt value v
step-IsValid s (result io attempt value) v = write_work_result-IsValid s io attempt value v
step-IsValid s (receipt io attempt value) v = write_gate_receipt-IsValid s io attempt value v
step-IsValid s (inbox io attempt owner value) v = enqueue_inbox-IsValid s io attempt owner value v
step-IsValid s (finishing io status details) v = finish-IsValid s io status details v

run_all-IsValid : (s : Store) (ops : List Op) → IsValid s → IsValid (run_all s ops)
unfolding run_all
run_all-IsValid s [] v = v
run_all-IsValid s (op ∷ ops) v = run_all-IsValid (step s op) ops (step-IsValid s op v)

create-IsValid :
    (io : Io) (taken : Bool) (run_id : String) (assignment : Value) (s : Store)
    → create io taken run_id assignment ≡ ok s
    → IsValid s
unfolding create
create-IsValid io taken run_id assignment s h = ground arith

-- From the creation of a run on, after any operations with any failures of the disk and of the clock,
-- the events whose append was carried out are numbered 1, 2, … without a gap, belong to the run, are
-- as many as the counter says and at most 1000, and the record in the file is the record in memory.
-- What an append that failed left in the file besides is not among these events.
pub run_all-create-IsValid :
    (io : Io) (taken : Bool) (run_id : String) (assignment : Value) (s : Store) (ops : List Op)
    → create io taken run_id assignment ≡ ok s
    → IsValid (run_all s ops)
run_all-create-IsValid io taken run_id assignment s ops h =
    run_all-IsValid s ops (create-IsValid io taken run_id assignment s h)
