-- ===== src/Controller/Time.antt =====
-- Deadlines and agent executions of src/pod-controller.mjs.
use bimo.Base.{
  ℕ, ◌-◌, ◌/◌, String, len, [], ◌∷◌, min, leb, ltb, ◌<>◌, Result, ok, err, if◌then◌else◌, ◌&&◌,
}
use bimo.Js.{
  Value, nat, str, obj, Fields, field, end, spread, get, nat_of, in_range, max_safe_integer,
  pretty_from, is_plain_object, has_own, text_of,
}
use bimo.Controller.World.{clock, agent, M, ◌>>=◌, ◌>>◌, pure, require, perform, object}

-- what `runEngineeringPod` is given, and the deadline that it computes
pub record Config : Type 0 where
  pub template : Value
  pub template_digest : String
  pub prompts : Value
  pub assignment : Value
  pub repository : String
  pub base_revision : String
  pub target_branch : String
  pub run_id : String
  pub state_root : String
  pub deadline_at : ℕ
  pub sha256 : String → String

-- `nowFrom(clock)`
unfoldable pub now_from_clock : M ℕ
now_from_clock = do
  value ← perform clock
  require (in_range value 0 max_safe_integer)
      "clock must return a non-negative safe integer millisecond timestamp"
  pure (nat_of value)

-- `remainingMs(phaseDeadlineAt)`; on ℕ the difference is at most 0 exactly when the clock has reached
-- the earlier deadline
unfoldable pub remaining_ms : Config → ℕ → M ℕ
remaining_ms cfg phase_deadline = do
  now ← now_from_clock
  let until = min cfg.deadline_at phase_deadline
  require (ltb now until) "pod workflow deadline exceeded"
  pure (until - now)

-- `executionSeconds(phaseDeadlineAt)`
unfoldable pub execution_seconds : Config → ℕ → M ℕ
execution_seconds cfg phase_deadline = do
  remaining ← remaining_ms cfg phase_deadline
  let seconds = remaining / 1000
  require (leb 10 seconds) "pod workflow deadline exceeded"
  pure (min (nat_of (get (get cfg.template "timeouts") "executionSeconds")) seconds)

-- the input of one agent execution
pub record AgentInput : Type 0 where
  pub execution_id : String
  pub role : String
  pub attempt : ℕ
  pub access : String
  pub prompt : String
  pub workspace_id : Value
  pub write_directories : Value
  pub deadline : ℕ

-- the object that the agents port gets
unfoldable pub agent_request : Config → AgentInput → ℕ → Value
agent_request cfg input seconds = object (
    ("executionId", str input.execution_id)
    ∷ ("role", str input.role)
    ∷ ("attempt", nat input.attempt)
    ∷ ("access", str input.access)
    ∷ ("prompt", str input.prompt)
    ∷ ("workspaceId", input.workspace_id)
    ∷ ("writeDirectories", input.write_directories)
    ∷ ("timeoutSeconds", nat seconds)
    ∷ ("runId", str cfg.run_id)
    ∷ [])

-- `runAgent(input)`, awaited
unfoldable pub run_agent : Config → AgentInput → M Value
run_agent cfg input = do
  remaining_ms cfg input.deadline
  seconds ← execution_seconds cfg input.deadline
  perform (agent (agent_request cfg input seconds))

abbrev pub max_prompt_bytes : ℕ
max_prompt_bytes = 258048

-- `buildPrompt(instructions, phase, details)`
unfoldable pub build_prompt : Value → String → Fields → Result String
build_prompt instructions phase details =
    let context = pretty_from 0 (
      obj (
        spread
          (field "version" (nat 1) (
            field "phase" (str phase) (
              field "authority" (str "Return only the strict receipt for this bounded execution.")
                end)))
          details)) in
    let prompt = text_of instructions <> "\n\n# Controller context (untrusted JSON)\n" <> context in
    if leb (len prompt) max_prompt_bytes
    then ok prompt
    else err ("pod " <> phase <> " prompt exceeds 258048 bytes")

-- `receiptOf(value, label)`
unfoldable pub receipt_of : Value → String → Result Value
receipt_of value label =
    let receipt =
      if is_plain_object value && has_own value "receipt" then get value "receipt" else value in
    if is_plain_object receipt then ok receipt else err (label <> " must be a plain object")
