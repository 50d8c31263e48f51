-- ===== src/Store/Closed.antt =====
-- What no operation changes: a finished run, and an attempt plan that was written.
use bimo.Base.{String, true, List, [], ◌∷◌, some, ◌≡◌, refl, arith, eq_iff, decimal}
use bimo.Js.{Value, nat_of}
use bimo.Store.{
  Store, Io, append_event, write_attempt_plan, write_work_result, write_gate_receipt, enqueue_inbox,
  finish, prepare_event, prepare_plan, prepare_result, prepare_receipt, prepare_entry,
  prepare_finish, lookup,
}
use bimo.Store.Steps.{Op, event, plan, result, receipt, inbox, finishing, step, run_all}

-- every operation on a finished run is refused and changes nothing
step-finished : (s : Store) (op : Op) → s.finished ≡ true → step s op ≡ s
unfolding step append_event write_attempt_plan write_work_result write_gate_receipt enqueue_inbox
    finish prepare_event prepare_plan prepare_result prepare_receipt prepare_entry prepare_finish
step-finished s (event io type details) h = rw h
step-finished s (plan io attempt value) h = rw h
step-finished s (result io attempt value) h = rw h
step-finished s (receipt io attempt value) h = rw h
step-finished s (inbox io attempt owner value) h = rw h
step-finished s (finishing io status details) h = rw h

-- A finished run is closed: whatever operations follow, its files and its counters stay.
pub run_all-finished : (s : Store) (ops : List Op) → s.finished ≡ true → run_all s ops ≡ s
unfolding run_all
run_all-finished s [] h = refl
run_all-finished s (op ∷ ops) h = rw (step-finished s op h) (run_all-finished s ops h)

write_plan-keeps :
    (s : Store) (io : Io) (attempt value : Value) (n : String) (p : Value)
    → lookup n s.plans ≡ some p
    → lookup n (write_attempt_plan s io attempt value).0.plans ≡ some p
unfolding write_attempt_plan
write_plan-keeps s io attempt value n p h = ground (arith, eq_iff (decimal (nat_of attempt)) n)

step-keeps_plan :
    (s : Store) (op : Op) (n : String) (p : Value)
    → lookup n s.plans ≡ some p
    → lookup n (step s op).plans ≡ some p
unfolding step append_event write_work_result write_gate_receipt enqueue_inbox finish
step-keeps_plan s (plan io attempt value) n p h = write_plan-keeps s io attempt value n p h
step-keeps_plan s _ n p h = ground arith

-- An attempt plan is written once: no later operation replaces or removes it.
pub run_all-keeps_plan :
    (s : Store) (ops : List Op) (n : String) (p : Value)
    → lookup n s.plans ≡ some p
    → lookup n (run_all s ops).plans ≡ some p
unfolding run_all
run_all-keeps_plan s [] n p h = h
run_all-keeps_plan s (op ∷ ops) n p h =
    run_all-keeps_plan (step s op) ops n p (step-keeps_plan s op n p h)
