-- ===== src/Store/Steps.antt =====
-- A run of the store: operations one after the other, as its promise chain makes them.
use bimo.Base.{String, List, [], ◌∷◌}
use bimo.Js.{Value}
use bimo.Store.{
  Store, Io, append_event, write_attempt_plan, write_work_result, write_gate_receipt, enqueue_inbox,
  finish,
}

-- the operations that write, with what the outside answers to each
pub data Op : Type 0 where
  event : Io → String → Value → Op
  plan : Io → Value → Value → Op
  result : Io → Value → Value → Op
  receipt : Io → Value → Value → Op
  inbox : Io → Value → String → Value → Op
  finishing : Io → String → Value → Op

unfoldable pub step : Store → Op → Store
step s (event io type details) = (append_event s io type details).0
step s (plan io attempt value) = (write_attempt_plan s io attempt value).0
step s (result io attempt value) = (write_work_result s io attempt value).0
step s (receipt io attempt value) = (write_gate_receipt s io attempt value).0
step s (inbox io attempt owner value) = (enqueue_inbox s io attempt owner value).0
step s (finishing io status details) = (finish s io status details).0

unfoldable pub run_all : Store → List Op → Store
run_all s [] = s
run_all s (op ∷ ops) = run_all (step s op) ops
