-- ===== src/Controller/Publishing.antt =====
-- What a run of src/pod-controller.mjs that is ready for publication went through, and how every run
-- ends.
use bimo.Base
use bimo.Base.{
  arith, ℕ, zero, suc, String, Bool, true, false, List, [], ◌∷◌, Result, ok, err, Option, some,
  none, ◌≡◌, ◌∙◌, refl, ap, sym, subst, Bool-cases, ◌⊎◌, inl, inr, if◌then◌else◌, ◌||◌,
}
use bimo.Js.{Value}
use bimo.Controller.World.{World, Env, Call, M, ◌>>=◌, ◌>>◌, perform, modify, gets, throw}
use bimo.Controller.Time.{Config, now_from_clock}
use bimo.Controller.Writers.{Attempt}
use bimo.Controller.Candidate.{Candidate}
use bimo.Controller.AttemptRun.{run_attempt}
use bimo.Controller.Run.{
  Ready, Prepared, plan_attempt, commit_ready, try_attempt, attempts, run_body, next_attempt,
  new_attempt, fresh, note_failure,
}
use bimo.Controller.Reasons.{terminal_interruption}
use bimo.Controller.Blocks.{>>=-returns, require-returns, perform-world}
use bimo.Controller.Gates.{AllPassed, AllPassed-after, all_gates-AllPassed}

-- the gates of the state are those of the candidate that the result names
unfoldable pub Published : Env → Config → Ready → World → Type 0
Published env cfg r w =
    (c : Candidate) × (before : List Value) × (c.sha ≡ r.candidate_sha)
    × AllPassed env cfg c before w.gates w.trace

run_attempt-AllPassed :
    (cfg : Config) (a : Attempt) (c : Candidate) (env : Env) (w w' : World)
    → run_attempt cfg a env w ≡ (ok c, w')
    → (before : List Value) × AllPassed env cfg c before w'.gates w'.trace
unfolding run_attempt
run_attempt-AllPassed cfg a c env w w' h =
    let (_, w1, p1, q1) = >>=-returns _ _ env h in
    let (_, w2, p2, q2) = >>=-returns _ _ env q1 in
    let (_, w3, p3, q3) = >>=-returns _ _ env q2 in
    let (_, w4, p4, q4) = >>=-returns _ _ env q3 in
    let (_, w5, p5, q5) = >>=-returns _ _ env q4 in
    let (_, w6, p6, q6) = >>=-returns _ _ env q5 in
    let (_, q7) = require-returns _ _ _ env q6 in
    let (d, w8, p8, q8) = >>=-returns _ _ env q7 in
    let (same, gates) = all_gates-AllPassed cfg a d c env w8 w' q8 in
    (w8.gates, subst (λ x. AllPassed env cfg x w8.gates w'.gates w'.trace) (sym same) gates)

commit_ready-returns :
    (cfg : Config) (p : Prepared) (a : Attempt) (c : Candidate) (r : Ready) (env : Env)
    (w w' : World)
    → commit_ready cfg p a c env w ≡ (ok r, w')
    → (c.sha ≡ r.candidate_sha)
      × (w'.gates ≡ w.gates)
      × (w'.ready_committed ≡ true)
      × ((call : Call) × (w'.trace ≡ call ∷ w.trace))
unfolding commit_ready ◌>>=◌
commit_ready-returns cfg p a c r env w w' h =
    let (_, w1, p1, q1) = >>=-returns (perform _) _ env h in
    let recorded = perform-world _ env w p1 in
    let end : w'.trace ≡ w1.trace = cc in (cc, cc, cc, (_, end ∙ ap (λ v. v.trace) recorded))

try_attempt-returns :
    (cfg : Config) (p : Prepared) (a : Attempt) (r : Ready) (env : Env) (w w' : World)
    → try_attempt cfg p a env w ≡ (ok r, w')
    → Published env cfg r w' × (w'.ready_committed ≡ true)
unfolding try_attempt Published
try_attempt-returns cfg p a r env w w' h =
    let (_, w1, p1, q1) = >>=-returns (plan_attempt cfg p a) _ env h in
    let (c, w2, p2, q2) = >>=-returns (run_attempt cfg a) _ env q1 in
    let (before, gates) = run_attempt-AllPassed cfg a c env w1 w2 p2 in
    let (sha, same, ready, (call, grown)) = commit_ready-returns cfg p a c r env w2 w' q2 in
    let after = AllPassed-after env cfg c before w2.gates w2.trace w'.trace call grown gates in
    ((c, before, sha, subst (λ gs. AllPassed env cfg c before gs w'.trace) (sym same) after), ready)

-- a run goes on with the result of the attempt, or with the attempts that are left
next_attempt-returns :
    (left n : ℕ) (again : M Ready) (out : Result Ready) (r : Ready) (env : Env) (v w' : World)
    → next_attempt left n again out env v ≡ (ok r, w')
    → ((out ≡ ok r) × (w' ≡ v)) ⊎ ((u : World) × (again env u ≡ (ok r, w')))
unfolding next_attempt
next_attempt-returns left n again (ok ready) r env v w' h = inl (cc, cc)
next_attempt-returns left n again (err e) r env v w' h =
    let (ready, w1, p1, q1) = >>=-returns (gets (λ w. w.ready_committed)) _ env h in
    on ready (terminal_interruption e || Base.◌==◌ left 0) w1 q1
  where
    on :
        (ready last : Bool) (w1 : World)
        → (if ready then throw e else (note_failure n e >> (if last then throw e else again))) env
            w1
          ≡ (ok r, w')
        → ((err e ≡ ok r) × (w' ≡ v)) ⊎ ((u : World) × (again env u ≡ (ok r, w')))
    on true last w1 h = cc
    on false true w1 h = let (_, w2, p2, q2) = >>=-returns (note_failure n e) _ env h in cc
    on false false w1 h =
        let (_, w2, p2, q2) = >>=-returns (note_failure n e) _ env h in inr (w2, q2)

attempts-returns :
    (cfg : Config) (p : Prepared) (left n : ℕ) (r : Ready) (env : Env) (w w' : World)
    → attempts cfg p left n env w ≡ (ok r, w')
    → Published env cfg r w' × (w'.ready_committed ≡ true)
unfolding attempts
attempts-returns cfg p zero n r env w w' h = cc
attempts-returns cfg p (suc left) n r env w w' h =
    let (now, w1, p1, q1) = >>=-returns now_from_clock _ env h in
    let (_, w2, p2, q2) = >>=-returns (modify fresh) _ env q1 in
    let a = new_attempt cfg p n now in
    elim (next_attempt-returns left n (attempts cfg p left (suc n)) (try_attempt cfg p a env w2).0 r
      env (try_attempt cfg p a env w2).1 w' q2) [
        | inl (returned, same) ↦
            try_attempt-returns cfg p a r env w2 w' (λ i. (returned i, sym same i))
        | inr (u, later) ↦ attempts-returns cfg p left (suc n) r env u w' later
      ]

pub run_body-returns :
    (cfg : Config) (r : Ready) (env : Env) (w w' : World)
    → run_body cfg env w ≡ (ok r, w')
    → Published env cfg r w' × (w'.ready_committed ≡ true)
unfolding run_body
run_body-returns cfg r env w w' h =
    let (_, w1, p1, q1) = >>=-returns _ _ env h in
    let (p, w2, p2, q2) = >>=-returns _ _ env q1 in
    let (_, w3, p3, q3) = >>=-returns _ _ env q2 in attempts-returns cfg p _ 1 r env w3 w' q3
