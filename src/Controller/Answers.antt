-- ===== src/Controller/Answers.antt =====
-- What the verifier and the scan of src/pod-controller.mjs answered, and where in the trace.
use bimo.Base.{List, [], ◌∷◌, ◌++◌, ok, ◌≡◌, ◌∙◌, ap, sym}
use bimo.Js.{Value, get}
use bimo.Controller.World.{World, Env, Call, source, verify, perform}
use bimo.Controller.Candidate.{Candidate}

-- the environment gave the answer to the call, at some place of the trace
pub record Answered (env : Env) (trace : List Call) (call : Call) (answer : Value) : Type 0 where
  pub later : List Call
  pub earlier : List Call
  pub place : trace ≡ later ++ call ∷ earlier
  pub said : env.respond earlier call ≡ ok answer

-- a call that is made later keeps the place
Answered-after :
    (env : Env) (trace trace' : List Call) (next call : Call) (answer : Value)
    → trace' ≡ next ∷ trace
    → Answered env trace call answer
    → Answered env trace' call answer
Answered-after env trace trace' next call answer h a = record {
  later = next ∷ a.later;
  earlier = a.earlier;
  place = h ∙ ap (λ t. next ∷ t) a.place;
  said = a.said;
}

pub perform-Answered :
    (call : Call) (env : Env) (w : World) {answer : Value} {w' : World}
    → perform call env w ≡ (ok answer, w')
    → Answered env w'.trace call answer
unfolding perform
perform-Answered call env w h = record {
  later = [];
  earlier = w.trace;
  place = ap (λ r. r.1.trace) (sym h);
  said = ap (λ r. r.0) h;
}

-- the verifier answered, to a call on the SHA, the snapshot and the view of the candidate
pub record Verified (env : Env) (trace : List Call) (c : Candidate) (answer : Value) : Type 0 where
  pub input : Value
  pub sha : get input "expectedSha" ≡ c.sha
  pub snapshot : get input "candidateSnapshot" ≡ c.snapshot
  pub root : get input "workspaceRoot" ≡ c.view_root
  pub answered : Answered env trace (verify input) answer

-- the source answered, to a scan of the SHA of the candidate
pub record Scanned (env : Env) (trace : List Call) (c : Candidate) (answer : Value) : Type 0 where
  pub input : Value
  pub sha : get input "candidateSha" ≡ c.sha
  pub answered : Answered env trace (source "scan" input) answer

pub Verified-after :
    (env : Env) (trace trace' : List Call) (next : Call) (c : Candidate) (answer : Value)
    → trace' ≡ next ∷ trace
    → Verified env trace c answer
    → Verified env trace' c answer
Verified-after env trace trace' next c answer h v = record {
  input = v.input;
  sha = v.sha;
  snapshot = v.snapshot;
  root = v.root;
  answered = Answered-after env trace trace' next (verify v.input) answer h v.answered;
}

pub Scanned-after :
    (env : Env) (trace trace' : List Call) (next : Call) (c : Candidate) (answer : Value)
    → trace' ≡ next ∷ trace
    → Scanned env trace c answer
    → Scanned env trace' c answer
Scanned-after env trace trace' next c answer h v = record {
  input = v.input;
  sha = v.sha;
  answered = Answered-after env trace trace' next (source "scan" v.input) answer h v.answered;
}
