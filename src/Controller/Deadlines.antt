-- ===== src/Controller/Deadlines.antt =====
-- The time budgets of src/pod-controller.mjs.
use bimo.Base.{arith, ℕ, ◌+◌, ◌*◌, ◌<◌, ◌≤◌, String, len, Option, some, none, ok, ◌≡◌}
use bimo.Js.{Value, Fields, get, nat_of, max_safe_integer}
use bimo.Controller.World.{World, Env}
use bimo.Controller.Time.{Config, execution_seconds, build_prompt, max_prompt_bytes}
use bimo.Controller.Start.{choose_deadline}
use bimo.Controller.Blocks.{>>=-returns, require-returns}

-- The deadline of a run that starts lies after the start (for a workflow budget of at least one
-- second), within the workflow budget, and in the range of safe integers.
pub choose_deadline-bounds :
    (started seconds : ℕ) (supplied : Option ℕ) (deadline : ℕ)
    → 1 ≤ seconds
    → choose_deadline started seconds supplied ≡ ok deadline
    → (started < deadline) × (deadline ≤ started + seconds * 1000) × (deadline ≤ max_safe_integer)
unfolding choose_deadline
choose_deadline-bounds started seconds none deadline b h = ground arith
choose_deadline-bounds started seconds (some d) deadline b h = ground arith

-- An execution that starts gets at least 10 seconds and at most the template's limit, if the template
-- allows 10.
pub execution_seconds-bounds :
    (cfg : Config) (phase : ℕ) (env : Env) (w w' : World) (seconds : ℕ)
    → 10 ≤ nat_of (get (get cfg.template "timeouts") "executionSeconds")
    → execution_seconds cfg phase env w ≡ (ok seconds, w')
    → (10 ≤ seconds) × (seconds ≤ nat_of (get (get cfg.template "timeouts") "executionSeconds"))
unfolding execution_seconds
execution_seconds-bounds cfg phase env w w' seconds b h =
    let (remaining, w1, p1, q1) = >>=-returns _ _ env h in
    let (enough, q2) = require-returns _ _ _ env q1 in ground arith

-- A prompt that is built fits the limit of a prompt.
pub build_prompt-fits :
    (instructions : Value) (phase : String) (details : Fields) (prompt : String)
    → build_prompt instructions phase details ≡ ok prompt
    → len prompt ≤ max_prompt_bytes
unfolding build_prompt
build_prompt-fits instructions phase details prompt h = ground arith
