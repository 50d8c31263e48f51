-- ===== src/Controller/World.antt =====
-- The controller's ports, state and effects. A port call is recorded in the trace and answered by
-- the environment, a function of the trace: the agents, the source workspace, the store, the
-- verifier and the clock may answer anything. An action returns or throws, and keeps the state.
unfoldable pub use bimo.Actions.{◌>>=◌}
pub use bimo.Actions.{◌>>◌, then_do, pure, throw, lift, require, gets, modify, attempt_to}
pub use bimo.Js.{object}
use bimo.Actions.{Action}
use bimo.Base.{ok, err, if◌then◌else◌, ℕ, String, Bool, List, ◌∷◌, Option, Result}
use bimo.Js.{Value}

pub data Call : Type 0 where
  -- clock()
  clock : Call
  -- agents.runAgentExecution(input), awaited; and started, with its outcome awaited later by slot
  agent : Value → Call
  start : String → Value → Call
  settle : String → Call
  -- agents.cancel()
  cancel : Call
  -- verifyCandidate(input)
  verify : Value → Call
  -- source.NAME(input)
  source : String → Value → Call
  -- store.appendEvent(type, details), store.finish(status, details)
  event : String → Value → Call
  finish : String → Value → Call
  -- store.writeAttemptPlan, writeWorkResult, writeGateReceipt (attempt, value)
  plan work_result gate_receipt : ℕ → Value → Call
  -- store.enqueueInbox(attempt, owner, entry), store.readInbox(attempt, owner, { afterSequence })
  enqueue_inbox : ℕ → String → Value → Call
  read_inbox : ℕ → String → Value → Call

-- a dependency request that was queued: the request, its inbox entry and the checkpoint
pub record Queued : Type 0 where
  pub request : Value
  pub entry : Value
  pub checkpoint : Value

-- The trace, the latest call first; the state of the attempt; and the state of the run.
pub record World : Type 0 where
  pub trace : List Call
  pub base_sha : Value  -- of the run, undefined before it is prepared
  pub plan : Value  -- attemptState.plan
  pub work_results : List Value  -- attemptState.workResults
  pub gates : List Value  -- attemptState.gates
  pub inbox_request : Option Queued  -- attemptState.inboxRequest
  pub prior_attempts : List Value
  pub ready_committed : Bool
  pub cancelling : Bool  -- `cancellation` is set

-- What the environment decides: the answer to a call, which of the pending writers settles next,
-- whether a writer's execution is still active, and whether `structuredClone` copies a value.
pub record Env : Type 0 where
  pub respond : List Call → Call → Result Value
  pub next : List Call → List String → ℕ
  pub running : List Call → String → Bool
  pub clones : Value → Bool

abbrev pub M {ℓ} : Type ℓ → Type ℓ
M A = Action Env World A

-- one call of a port
unfoldable pub perform : Call → M Value
perform c env w = (env.respond w.trace c, record w { trace = c ∷ w.trace })

-- `structuredClone(value)`: a copy, or an error where a part of the value cannot be copied
unfoldable pub structured_clone : Value → M Value
structured_clone v env w = (if env.clones v then ok v else err "value could not be cloned", w)
