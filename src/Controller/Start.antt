-- ===== src/Controller/Start.antt =====
-- The arguments of `runEngineeringPod` of src/pod-controller.mjs, their tests, and the configuration of
-- the run that they give.
use bimo.Base
use bimo.Base.{
  ℕ, zero, suc, ◌+◌, ◌*◌, ◌/◌, ◌-◌, String, len, Bool, true, false, not, List, [], ◌∷◌, ◌++◌, min,
  leb, ltb, ◌<>◌, text_eq, Option, none, some, Result, ok, err, ◌&&◌, ◌||◌, if◌then◌else◌, any, all,
  length, some_code, is_unsafe_control, mem_text,
}
use bimo.Js.{Value, str, get, nat_of, text_of, is_plain_object, has_own, keys_of, max_safe_integer}
use bimo.Contract.Fields.{is_blank, text_matches, matches_hex}
use bimo.Contract.Template.{validate_pod_template}
use bimo.Controller.World.{M, ◌>>=◌, ◌>>◌, pure, require, lift}
use bimo.Controller.Time.{Config, now_from_clock}
use bimo.Controller.Writers.{plain, is_named}

abbrev prompt_keys : List String
prompt_keys =
    "planner" ∷ "engineering-a" ∷ "engineering-b" ∷ "qa-tests" ∷ "checker" ∷ "qa" ∷ "testing" ∷ []

abbrev valid_prompt : Value → Bool
valid_prompt (str s) = not (is_blank s) && leb (len s) 32768
valid_prompt _ = false

-- `validatePrompts`
unfoldable pub validate_prompts : Value → Result (Unit {0})
validate_prompts prompts =
    Base.◌>>◌ (Base.check (is_plain_object prompts) "prompts must be a plain object") (
      Base.◌>>◌
        (Base.check
          (Base.◌==◌ (length (keys_of prompts)) (length prompt_keys)
            && all (has_own prompts) prompt_keys)
          "prompts must contain exactly planner, engineering-a, engineering-b, qa-tests, checker, qa, testing")
        (Base.each
          (λ key.
            Base.◌>>◌
              (Base.check (valid_prompt (get prompts key))
                ("prompt " <> key <> " must be non-empty and at most 32768 bytes"))
              (Base.check (not (some_code is_unsafe_control (text_of (get prompts key))))
                ("prompt " <> key <> " contains unsafe control characters")))
          prompt_keys))

-- The deadline of the run: the workflow's budget from now, or an earlier one that the caller gives.
unfoldable pub choose_deadline : ℕ → ℕ → Option ℕ → Result ℕ
choose_deadline started_at workflow_seconds supplied =
    let limit = started_at + workflow_seconds * 1000 in
    Base.◌>>◌
      (Base.check (leb limit max_safe_integer) "workflow deadline exceeds the safe integer range")
      (elim supplied [
        | none ↦ ok limit
        | some deadline ↦
            Base.◌>>◌
              (Base.check (leb deadline max_safe_integer && ltb started_at deadline)
                "deadlineAt must be a safe integer strictly in the future")
              (Base.◌>>◌
                (Base.check (leb deadline limit) "deadlineAt cannot extend the workflow budget")
                (ok deadline))
      ])

-- the arguments of `runEngineeringPod`; its ports and its clock are functions of the types that
-- `assertPort` asks for, and a `deadlineAt` is undefined or a natural number
pub record Arguments : Type 0 where
  pub template : Value
  pub template_digest : Value
  pub prompts : Value
  pub assignment : Value
  pub repository : Value
  pub base_revision : Value
  pub target_branch : Value
  pub run_id : Value
  pub state_root : Value
  pub deadline_at : Option ℕ

-- the tests of the arguments, in order
unfoldable pub check_arguments : Arguments → M (Unit {0})
check_arguments args = do
  lift (validate_pod_template args.template)
  lift (validate_prompts args.prompts)
  plain args.assignment "assignment"
  require (text_matches (matches_hex 64) args.template_digest)
      "templateDigest must be a SHA-256 digest"
  require (is_named args.repository) "repository is required"
  require (is_named args.base_revision) "baseRevision is required"
  require (is_named args.target_branch) "targetBranch is required"
  require (is_named args.run_id) "runId is required"
  require (is_named args.state_root) "stateRoot is required"

-- `runEngineeringPod` up to its `try` block
unfoldable pub start_config : (String → String) → Arguments → M Config
start_config sha256 args = do
  check_arguments args
  now ← now_from_clock
  deadline ← lift (
      choose_deadline now (nat_of (get (get args.template "timeouts") "workflowSeconds"))
        args.deadline_at)
  pure (record {
    template = args.template;
    template_digest = text_of args.template_digest;
    prompts = args.prompts;
    assignment = args.assignment;
    repository = text_of args.repository;
    base_revision = text_of args.base_revision;
    target_branch = text_of args.target_branch;
    run_id = text_of args.run_id;
    state_root = text_of args.state_root;
    deadline_at = deadline;
    sha256 = sha256;
  })
