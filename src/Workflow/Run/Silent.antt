-- ===== src/Workflow/Run/Silent.antt =====
-- Actions of src/workflow.mjs that leave the events alone, and what `record` does to them.
use bimo.Base.{
  ◌<>◌, ℕ, suc, String, List, [], ◌∷◌, ◌++◌, Option, none, some, Result, ok, err, ◌≡◌, refl, ap,
  ◌∙◌, from_ok, if◌then◌else◌, Bool, true, false,
}
use bimo.Js.{Value, stringify, Fields, text_of}
use bimo.Actions.Keeps.{Keeps, Keeps->>=}
use bimo.Workflow.History.{render_changelog, trim}
use bimo.Workflow.Arguments.{check_run, deadline_from}
use bimo.Workflow.World.{
  World, Env, Run, M, Call, Target, changelog, append_event, write_temporary, rename_temporary,
  remove_temporary, read_latest, read_changelog, make_state_root, make_workspace, make_run_dir,
  create_events, perform, read_clock, clean_up, atomic_write, event, push_event, record_event,
  ◌>>=◌, ◌>>◌, pure, lift, require, gets, attempt_to,
}
use bimo.Workflow.Run.{
  remaining_timeout_seconds, now, finite, previous_history, no_history, prepare,
}

-- the events, and their number
abbrev pub Log : Type 0
Log = List Value × ℕ

abbrev pub log : World → Log
log w = (w.events, w.sequence)

unfoldable pub Silent {ℓ} : {A : Type ℓ} → M A → Type 0
Silent m = Keeps log m

pub Silent-lift {ℓ} : {A : Type ℓ} (out : Result A) → Silent (lift out)
unfolding Silent Keeps
Silent-lift out env w = refl

pub Silent-gets {ℓ} : {A : Type ℓ} (f : World → A) → Silent (gets f)
unfolding Silent Keeps
Silent-gets f env w = refl

pub Silent-perform : (c : Call) → Silent (perform c)
unfolding Silent Keeps perform
Silent-perform c env w = refl

pub Silent-read_clock : Silent read_clock
unfolding Silent Keeps read_clock
Silent-read_clock env w = refl

pub Silent->>= {ℓ κ} :
    {A : Type ℓ} {B : Type κ} (m : M A) (f : A → M B)
    → Silent m
    → ((a : A) → Silent (f a))
    → Silent (m >>= f)
unfolding Silent
Silent->>= m f = Keeps->>= log m f

pub Silent-attempt {ℓ κ} :
    {A : Type ℓ} {B : Type κ} (m : M A) (h : Result A → M B)
    → Silent m
    → ((out : Result A) → Silent (h out))
    → Silent (attempt_to m h)
unfolding Silent Keeps
Silent-attempt m h first later env w = later (m env w).0 env (m env w).1 ∙ first env w

pub Silent-if {ℓ} :
    {A : Type ℓ} (c : Bool) (x y : M A) → Silent x → Silent y → Silent (if c then x else y)
Silent-if true x y a b = a
Silent-if false x y a b = b

pub Silent-atomic_write : (target : Target) (text : String) → Silent (atomic_write target text)
unfolding atomic_write clean_up
Silent-atomic_write target text =
    Silent-attempt _ (clean_up target)
      (Silent->>= _ _ (Silent-perform (write_temporary target text))
        (λ _. Silent-perform (rename_temporary target)))
      handler
  where
    handler : (out : Result Value) → Silent (clean_up target out)
    handler (ok done) = Silent-lift (ok done)
    handler (err e) =
        Silent-attempt _ _ (Silent-perform (remove_temporary target)) (λ _. Silent-lift (err e))

pub Silent-now : Silent now
unfolding now
Silent-now = Silent->>= read_clock finite Silent-read_clock on
  where
    on : (o : Option ℕ) → Silent (finite o)
    on none = Silent-lift _
    on (some ms) = Silent-lift (ok ms)

pub Silent-remaining : (deadline minimum : ℕ) → Silent (remaining_timeout_seconds deadline minimum)
unfolding remaining_timeout_seconds
Silent-remaining deadline minimum = Silent->>= _ _ Silent-now λ current.
    Silent->>= (require _ _) _ (Silent-lift _)
      λ _. Silent->>= (require _ _) _ (Silent-lift _) λ _. Silent-lift (ok _)

pub Silent-previous_history : Silent previous_history
unfolding previous_history
Silent-previous_history =
    Silent-attempt _ (λ outcome. pure (from_ok no_history outcome))
      (Silent->>= _ _ (Silent-perform read_latest) λ text.
        Silent-if _ _ _
          (Silent->>= _ _ (Silent-perform (read_changelog (trim (text_of text))))
            (λ log. Silent-lift (ok _)))
          (Silent-lift (ok no_history)))
      (λ out. Silent-lift (ok (from_ok no_history out)))

pub Silent-prepare : (r : Run) → Silent (prepare r)
unfolding prepare
Silent-prepare r = Silent->>= (lift (check_run r)) _ (Silent-lift _) λ _.
    Silent->>= _ _ Silent-now λ invoked_at.
      Silent->>= (lift (deadline_from r invoked_at)) _ (Silent-lift _) λ deadline.
        Silent->>= _ _ (Silent-perform make_state_root) λ _.
          Silent->>= _ _ (Silent-perform make_workspace) λ _.
            Silent->>= _ _ Silent-previous_history λ previous.
              Silent->>= _ _ (Silent-perform make_run_dir) λ _.
                Silent->>= _ _ (Silent-perform create_events)
                  λ _. Silent-lift (ok (previous, deadline))

module _ (r : Run) where
  -- the file and the changelog of an event
  abbrev after_push : Value → M Value
  after_push e = do
    perform (append_event (stringify e <> "\n"))
    events ← gets (λ w. w.events)
    text ← lift (render_changelog events)
    atomic_write changelog text
    pure e

  pub Silent-after_push : (e : Value) → Silent (after_push e)
  Silent-after_push e = Silent->>= _ _ (Silent-perform (append_event _)) λ _.
      Silent->>= (gets (λ w. w.events)) _ (Silent-gets _) λ events.
        Silent->>= (lift (render_changelog events)) _ (Silent-lift _)
          λ text. Silent->>= _ _ (Silent-atomic_write changelog text) λ _. Silent-lift (ok e)

  -- whether the files are written or not, the event is the last one
  pub record_event-log :
      (type : String) (details : Fields) (env : Env) (w : World)
      → log (record_event r type details env w).1 ≡ (
        w.events ++ event r (suc w.sequence) (env.timestamp w.trace) type details ∷ [],
        suc w.sequence,
      )
  unfolding Silent Keeps record_event push_event ◌>>=◌
  record_event-log type details env w =
      let e = event r (suc w.sequence) (env.timestamp w.trace) type details in
      Silent-after_push e env (record w { events = w.events ++ e ∷ []; sequence = suc w.sequence })

  pub record_event-events :
      (type : String) (details : Fields) (env : Env) (w : World)
      → (record_event r type details env w).1.events
        ≡ w.events ++ event r (suc w.sequence) (env.timestamp w.trace) type details ∷ []
  record_event-events type details env w =
      ap (λ (l : Log). l.0) (record_event-log type details env w)
