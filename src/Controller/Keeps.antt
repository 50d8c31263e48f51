-- ===== src/Controller/Keeps.antt =====
-- Actions of src/pod-controller.mjs that leave a part of the state alone, whether they return or
-- throw: of the parts that follow, the gates of the attempt and the readiness of the run.
unfoldable pub use bimo.Actions.Keeps.{Keeps}
pub use bimo.Actions.Keeps.{Keeps->>=}
use bimo.Base.{ℕ, String, List, ◌∷◌, Result, ok, ◌≡◌, refl}
use bimo.Js.{nat_of}
use bimo.Contract.Receipts.{validate_conformance_receipt}
use bimo.Controller.World.{World, Env, Call, clock, perform, lift, gets}
use bimo.Controller.Time.{
  Config, AgentInput, now_from_clock, remaining_ms, execution_seconds, run_agent, receipt_of,
}
use bimo.Controller.Writers.{Attempt, with_no_files}
use bimo.Controller.Candidate.{Candidate, review}

module _ {κ} {S : Type κ} (p : World → S) where
  pub Keeps-lift {ℓ} : {A : Type ℓ} (r : Result A) → Keeps {E = Env} p (lift r)
  unfolding Keeps
  Keeps-lift r env w = refl

  pub Keeps-gets {ℓ} : {A : Type ℓ} (f : World → A) → Keeps {E = Env} p (gets f)
  unfolding Keeps
  Keeps-gets f env w = refl

-- a view of the state that a port call does not change
abbrev pub Silent {κ} : {S : Type κ} → (World → S) → Type κ
Silent p = (w : World) (t : List Call) → p (record w { trace = t }) ≡ p w

module _ {κ} {S : Type κ} (p : World → S) (silent : Silent p) where
  pub Keeps-perform : (c : Call) → Keeps p (perform c)
  unfolding Keeps perform
  Keeps-perform c env w = silent w (c ∷ w.trace)

  Keeps-now_from_clock : Keeps p now_from_clock
  unfolding now_from_clock
  Keeps-now_from_clock =
      Keeps->>= p _ _ (Keeps-perform clock)
        λ value. Keeps->>= p _ _ (Keeps-lift p _) λ _. Keeps-lift p (ok (nat_of value))

  pub Keeps-remaining_ms : (cfg : Config) (deadline : ℕ) → Keeps p (remaining_ms cfg deadline)
  unfolding remaining_ms
  Keeps-remaining_ms cfg deadline =
      Keeps->>= p _ _ Keeps-now_from_clock
        λ now. Keeps->>= p _ _ (Keeps-lift p _) λ _. Keeps-lift p (ok _)

  Keeps-execution_seconds : (cfg : Config) (deadline : ℕ) → Keeps p (execution_seconds cfg deadline)
  unfolding execution_seconds
  Keeps-execution_seconds cfg deadline =
      Keeps->>= p _ _ (Keeps-remaining_ms cfg deadline)
        λ remaining. Keeps->>= p _ _ (Keeps-lift p _) λ _. Keeps-lift p (ok _)

  pub Keeps-run_agent : (cfg : Config) (input : AgentInput) → Keeps p (run_agent cfg input)
  unfolding run_agent
  Keeps-run_agent cfg input =
      Keeps->>= p _ _ (Keeps-remaining_ms cfg input.deadline)
        λ _. Keeps->>= p _ _ (Keeps-execution_seconds cfg input.deadline) λ seconds. Keeps-perform _

  -- QA and Testing only read
  pub Keeps-review :
      (cfg : Config) (a : Attempt) (c : Candidate) (role phase execution label : String)
      → Keeps p (review cfg a c role phase execution label)
  unfolding review
  Keeps-review cfg a c role phase execution label =
      Keeps->>= p (gets (λ w. w.plan)) _ (Keeps-gets p _) λ plan.
        Keeps->>= p {A = String} (lift _) _ (Keeps-lift p _) λ prompt.
          Keeps->>= p _ _ (Keeps-run_agent cfg _) λ raw.
            Keeps->>= p (lift (receipt_of raw label)) _ (Keeps-lift p _) λ receipt.
              Keeps-lift p (validate_conformance_receipt (with_no_files receipt) plan role c.sha)
