-- ===== src/Controller/Gates.antt =====
-- The gates between a candidate and its publication (src/pod-controller.mjs).
use bimo.Base.{arith, String, true, List, [], ◌∷◌, ◌++◌, ok, ◌≡◌, ◌∙◌, refl, ap, sym}
use bimo.Js.{Value, get, is_text}
use bimo.Contract.Receipts.{validate_conformance_receipt}
use bimo.Controller.World.{
  World, Env, Call, structured_clone, gate_receipt, source, verify, ◌>>=◌, perform, lift, gets,
}
use bimo.Controller.Time.{Config, receipt_of, build_prompt}
use bimo.Controller.Writers.{Attempt, record_gate, with_no_files}
use bimo.Controller.Candidate.{
  Candidate, review, qa_record, qa_gate, testing_record, testing_gate, passed_gate, passes_exactly,
  trusted_verification, publication_scan, ready_record, ready_gate, all_gates,
}
use bimo.Controller.Blocks.{>>=-returns, require-returns, require-ends, perform-world}
use bimo.Controller.Answers.{Verified, Scanned, Verified-after, Scanned-after, perform-Answered}
use bimo.Controller.Keeps.{Keeps, Silent, Keeps-review, Keeps-remaining_ms}

gates-Silent : Silent (λ w. w.gates)
gates-Silent w t = refl

-- what a review by `qa` or `testing` returned: a receipt that is valid for the candidate
Reviewed : Candidate → String → Value → Type 0
Reviewed c role receipt =
    (raw : Value) × (plan : Value) × (validate_conformance_receipt raw plan role c.sha ≡ ok receipt)

review-returns :
    (cfg : Config) (a : Attempt) (c : Candidate) (role phase execution label : String) (env : Env)
    (w : World) {w' : World} {receipt : Value}
    → review cfg a c role phase execution label env w ≡ (ok receipt, w')
    → Reviewed c role receipt × (w'.gates ≡ w.gates)
unfolding review Reviewed Keeps
review-returns cfg a c role phase execution label env w {w'} {receipt} h =
    let (plan, w1, p1, q1) = >>=-returns (gets (λ w. w.plan)) _ env h in
    let (prompt, w2, p2, q2) = >>=-returns (lift (build_prompt _ _ _)) _ env q1 in
    let (raw, w3, p3, q3) = >>=-returns _ _ env q2 in
    let (claimed, w4, p4, q4) = >>=-returns (lift (receipt_of raw label)) _ env q3 in
    (
      (with_no_files claimed, plan, ap (λ r. r.0) q4),
      ap (λ r. r.1.gates) (sym h)
          ∙ Keeps-review (λ w. w.gates) gates-Silent cfg a c role phase execution label env w,
    )

-- the text of an outcome
Passed : Value → Type 0
Passed receipt = is_text (get receipt "outcome") "passed" ≡ true

-- the receipt joins the gates, and then the store is called
record_gate-world :
    (a : Attempt) (receipt : Value) (env : Env) (w : World) {u : Unit {0}} {w' : World}
    → record_gate a receipt env w ≡ (ok u, w')
    → (w'.gates ≡ w.gates ++ receipt ∷ []) × (w'.trace ≡ gate_receipt a.number receipt ∷ w.trace)
unfolding record_gate structured_clone perform ◌>>=◌
record_gate-world a receipt env w h = (ground (arith, h), ground (arith, h))

record_gate-returns :
    (a : Attempt) (receipt : Value) (env : Env) (w : World) {u : Unit {0}} {w' : World}
    → record_gate a receipt env w ≡ (ok u, w')
    → w'.gates ≡ w.gates ++ receipt ∷ []
record_gate-returns a receipt env w h = (record_gate-world a receipt env w h).0

record_gate-trace :
    (a : Attempt) (receipt : Value) (env : Env) (w : World) {u : Unit {0}} {w' : World}
    → record_gate a receipt env w ≡ (ok u, w')
    → w'.trace ≡ gate_receipt a.number receipt ∷ w.trace
record_gate-trace a receipt env w h = (record_gate-world a receipt env w h).1

qa_gate-returns :
    (cfg : Config) (a : Attempt) (c : Candidate) (env : Env) (w : World) {u : Unit {0}} {w' : World}
    → qa_gate cfg a c env w ≡ (ok u, w')
    → (receipt : Value) × Reviewed c "qa" receipt
      × Passed receipt
      × (w'.gates ≡ w.gates ++ qa_record c receipt ∷ [])
unfolding qa_gate Passed
qa_gate-returns cfg a c env w {u} {w'} h =
    let (receipt, w1, p1, q1) = >>=-returns _ _ env h in
    let (_, w2, p2, q2) = >>=-returns (record_gate a _) _ env q1 in
    let (valid, same) = review-returns cfg a c _ _ _ _ env w p1 in
    let (outcome, end) = require-ends _ _ env q2 in
    (
      receipt,
      valid,
      outcome,
      ap (λ v. v.gates) end
          ∙ record_gate-returns a _ env w1 p2
          ∙ ap (λ gs. gs ++ qa_record c receipt ∷ []) same,
    )

testing_gate-returns :
    (cfg : Config) (a : Attempt) (c : Candidate) (env : Env) (w : World) {u : Unit {0}} {w' : World}
    → testing_gate cfg a c env w ≡ (ok u, w')
    → (receipt : Value) × Reviewed c "testing" receipt
      × Passed receipt
      × (w'.gates ≡ w.gates ++ testing_record c receipt ∷ [])
unfolding testing_gate Passed
testing_gate-returns cfg a c env w {u} {w'} h =
    let (receipt, w1, p1, q1) = >>=-returns _ _ env h in
    let (_, w2, p2, q2) = >>=-returns (record_gate a _) _ env q1 in
    let (valid, same) = review-returns cfg a c _ _ _ _ env w p1 in
    let (outcome, end) = require-ends _ _ env q2 in
    (
      receipt,
      valid,
      outcome,
      ap (λ v. v.gates) end
          ∙ record_gate-returns a _ env w1 p2
          ∙ ap (λ gs. gs ++ testing_record c receipt ∷ []) same,
    )

abbrev verified : Candidate → Value → Value
verified c receipt =
    passed_gate "trusted-verification" c "Trusted verification passed the exact candidate SHA."
      (get receipt "evidence")

trusted_verification-returns :
    (cfg : Config) (a : Attempt) (c : Candidate) (env : Env) (w : World) {u : Unit {0}} {w' : World}
    → trusted_verification cfg a c env w ≡ (ok u, w')
    → (receipt : Value) × (passes_exactly receipt c.sha ≡ true)
      × (w'.gates ≡ w.gates ++ verified c receipt ∷ [])
      × Verified env w'.trace c receipt
unfolding trusted_verification Keeps
trusted_verification-returns cfg a c env w {u} {w'} h =
    let (remaining, w1, p1, q1) = >>=-returns _ _ env h in
    let (receipt, w2, p2, q2) = >>=-returns (perform (verify _)) _ env q1 in
    let (_, q3) = require-returns _ _ _ env q2 in
    let (exact, q4) = require-returns _ _ _ env q3 in
    (
      receipt,
      exact,
      record_gate-returns a _ env w2 q4
          ∙ ap (λ gs. gs ++ verified c receipt ∷ [])
              (ap (λ v. v.gates) (perform-world _ env w1 p2)
                ∙ ap (λ r. r.1.gates) (sym p1)
                ∙ Keeps-remaining_ms (λ v. v.gates) gates-Silent cfg a.deadline env w),
      Verified-after env w2.trace w'.trace _ c receipt (record_gate-trace a _ env w2 q4) (record {
        input = _;
        sha = refl;
        snapshot = refl;
        root = refl;
        answered = perform-Answered (verify _) env w1 p2;
      }),
    )

abbrev scanned : Candidate → Value → Value
scanned c receipt =
    passed_gate "pre-publication-scan" c "The source and commit scan passed."
      (get receipt "evidence")

publication_scan-returns :
    (cfg : Config) (a : Attempt) (c : Candidate) (env : Env) (w : World) {u : Unit {0}} {w' : World}
    → publication_scan cfg a c env w ≡ (ok u, w')
    → (receipt : Value) × (passes_exactly receipt c.sha ≡ true)
      × (w'.gates ≡ w.gates ++ scanned c receipt ∷ [])
      × Scanned env w'.trace c receipt
      × ((recorded call : Call) × (w'.trace ≡ recorded ∷ call ∷ w.trace))
unfolding publication_scan
publication_scan-returns cfg a c env w {u} {w'} h =
    let (receipt, w2, p2, q2) = >>=-returns (perform (source "scan" _)) _ env h in
    let (_, q3) = require-returns _ _ _ env q2 in
    let (exact, q4) = require-returns _ _ _ env q3 in
    (
      receipt,
      exact,
      record_gate-returns a _ env w2 q4
          ∙ ap (λ gs. gs ++ scanned c receipt ∷ []) (ap (λ v. v.gates) (perform-world _ env w p2)),
      Scanned-after env w2.trace w'.trace _ c receipt (record_gate-trace a _ env w2 q4) (record {
        input = _;
        sha = refl;
        answered = perform-Answered (source "scan" _) env w p2;
      }),
      (
        _,
        _,
        record_gate-trace a _ env w2 q4
            ∙ ap (λ t. gate_receipt a.number (scanned c receipt) ∷ t)
                (ap (λ v. v.trace) (perform-world _ env w p2)),
      ),
    )

-- What is known of the gates of an attempt when its candidate is accepted: QA and Testing returned
-- receipts that are valid for the candidate and passed, the verifier and the scan were called for
-- the candidate and answered that exactly its SHA passed, and the records of these are the last
-- five, in this order.
pub AllPassed : Env → Config → Candidate → List Value → List Value → List Call → Type 0
AllPassed env cfg c before after trace =
    (qa testing verification scan : Value) × Reviewed c "qa" qa
    × Passed qa
    × Reviewed c "testing" testing
    × Passed testing
    × (passes_exactly verification c.sha ≡ true)
    × (passes_exactly scan c.sha ≡ true)
    × Verified env trace c verification
    × Scanned env trace c scan
    × (after
        ≡ before
          ++ qa_record c qa
            ∷ testing_record c testing
            ∷ verified c verification
            ∷ scanned c scan
            ∷ ready_record cfg c
            ∷ [])

-- one more call leaves what is known
pub AllPassed-after :
    (env : Env) (cfg : Config) (c : Candidate) (before after : List Value)
    (trace trace' : List Call) (next : Call)
    → trace' ≡ next ∷ trace
    → AllPassed env cfg c before after trace
    → AllPassed env cfg c before after trace'
unfolding AllPassed
AllPassed-after env cfg c before after trace trace' next h
      (qa, testing, verification, scan, v1, p1, v2, p2, e1, e2, verifies, scans, end) =
    (
      qa,
      testing,
      verification,
      scan,
      v1,
      p1,
      v2,
      p2,
      e1,
      e2,
      Verified-after env trace trace' next c verification h verifies,
      Scanned-after env trace trace' next c scan h scans,
      end,
    )

five-at-the-end :
    (gs : List Value) (a b c d e : Value)
    → ((((gs ++ a ∷ []) ++ b ∷ []) ++ c ∷ []) ++ d ∷ []) ++ e ∷ [] ≡ gs ++ a ∷ b ∷ c ∷ d ∷ e ∷ []
five-at-the-end [] a b c d e = refl
five-at-the-end (g ∷ gs) a b c d e = ap (λ r. g ∷ r) (five-at-the-end gs a b c d e)

-- A candidate that comes out of the gates passed all five, whatever the agents, the verifier and
-- the scan do.
pub all_gates-AllPassed :
    (cfg : Config) (a : Attempt) (c d : Candidate) (env : Env) (w w' : World)
    → all_gates cfg a c env w ≡ (ok d, w')
    → (d ≡ c) × AllPassed env cfg c w.gates w'.gates w'.trace
unfolding all_gates AllPassed ready_gate
all_gates-AllPassed cfg a c d env w w' h =
    let (_, w1, p1, q1) = >>=-returns _ _ env h in
    let (_, w2, p2, q2) = >>=-returns _ _ env q1 in
    let (_, w3, p3, q3) = >>=-returns _ _ env q2 in
    let (_, w4, p4, q4) = >>=-returns _ _ env q3 in
    let (_, w5, p5, q5) = >>=-returns _ _ env q4 in
    let (qa, qa_valid, qa_passed, g1) = qa_gate-returns cfg a c env w p1 in
    let (testing, testing_valid, testing_passed, g2) = testing_gate-returns cfg a c env w1 p2 in
    let (verification, exact, g3, verifies) = trusted_verification-returns cfg a c env w2 p3 in
    let (scan, scan_exact, g4, scans, (recorded, call, grown)) =
      publication_scan-returns cfg a c env w3 p4 in
    let g5 = record_gate-returns a (ready_record cfg c) env w4 p5 in
    let ready = record_gate-trace a (ready_record cfg c) env w4 p5 in
    let end : w'.gates ≡ w5.gates = cc in
    let whole : w'.trace ≡ w5.trace = cc in
    let verified_then =
      Verified-after env w3.trace (call ∷ w3.trace) call c verification refl verifies in
    let verified_before =
      Verified-after env (call ∷ w3.trace) w4.trace recorded c verification grown verified_then in
    let order =
      five-at-the-end w.gates (qa_record c qa) (testing_record c testing) (verified c verification)
        (scanned c scan) (ready_record cfg c) in
    (
      cc,
      (
        qa,
        testing,
        verification,
        scan,
        qa_valid,
        qa_passed,
        testing_valid,
        testing_passed,
        exact,
        scan_exact,
        Verified-after env w4.trace w'.trace _ c verification (whole ∙ ready) verified_before,
        Scanned-after env w4.trace w'.trace _ c scan (whole ∙ ready) scans,
        cc,
      ),
    )
