-- ===== src/Contract/Receipts/Accepted.antt =====
-- What the controller may rely on when a receipt is accepted.
use bimo.Base.{
  mem_text, ℕ, ◌+◌, String, true, [], ◌∷◌, length, ok, ◌≡◌, ◌≢◌, ◌⊎◌, inl, inr, arith, ap, ◌∙◌,
  from_ok, Bool-cases, check-then, check-eq-ok, refl,
}
use bimo.Js.{
  Value, null, nat, str, get, nat_of, elements, strict_equal, strict_equal-eq, is_nat-eq,
  is_text-eq, is_text, is_nat, is_null,
}
use bimo.Contract.Inbox.{validate_delivered_inbox, validate_dependency_request}
use bimo.Contract.Inbox.Cursor.{Consecutive, delivered_inbox-Consecutive}
use bimo.Contract.Receipts.{
  check_writer_claims, check_checker_context, check_checker_identity, validate_writer_receipt,
  validate_checker_receipt, validate_conformance_receipt, check_request, one_of,
  check_gate_identity,
}

null-eq : (v : Value) → is_null v ≡ true → v ≡ null
null-eq null h = refl
null-eq _ h = cc

module _ (sha256 : String → String) where
  pub record WriterAccepted (receipt plan : Value) (writer : String) (base delivered : Value)
      (previous : ℕ) : Type 0 where
    pub outcome : one_of ("completed" ∷ "blocked" ∷ "failed" ∷ []) (get receipt "outcome") ≡ true
    pub base_sha : get receipt "baseSha" ≡ base
    pub cursor : get receipt "inboxCursor" ≡ nat (previous + length (elements delivered))
    -- a blocked receipt has a valid request, and any other has none
    pub request :
        ((get receipt "outcome" ≡ str "blocked")
          × (validate_dependency_request sha256 (get receipt "dependencyRequest") plan (str writer)
              ≡ ok tt))
        ⊎ ((get receipt "outcome" ≢ str "blocked") × (get receipt "dependencyRequest" ≡ null))

  writer_claims-facts :
      (receipt plan : Value) (writer : String) (base : Value)
      → check_writer_claims sha256 receipt plan writer base ≡ ok tt
      → (one_of ("completed" ∷ "blocked" ∷ "failed" ∷ []) (get receipt "outcome") ≡ true)
        × (strict_equal (get receipt "baseSha") base ≡ true)
  unfolding check_writer_claims
  writer_claims-facts receipt plan writer base h = ground arith

  writer_receipt-stages :
      (receipt template plan : Value) (writer : String) (base delivered previous result : Value)
      → validate_writer_receipt sha256 receipt template plan writer base delivered previous
        ≡ ok result
      → (c : ℕ) × (validate_delivered_inbox sha256 delivered plan writer (nat_of previous) ≡ ok c)
        × (check_writer_claims sha256 receipt plan writer base ≡ ok tt)
        × (is_nat (get receipt "inboxCursor") c ≡ true)
        × (check_request sha256 receipt plan writer ≡ ok tt)
        × (result ≡ receipt)
  unfolding validate_writer_receipt
  writer_receipt-stages receipt template plan writer base delivered previous result h = (
    from_ok 0 (validate_delivered_inbox sha256 delivered plan writer (nat_of previous)),
    ground arith,
    ground arith,
    ground arith,
    ground arith,
    ground arith,
  )

  -- A blocked receipt comes with a dependency request that is valid for its writer, and any other
  -- receipt comes with none.
  check_request-cases :
      (receipt plan : Value) (writer : String)
      → check_request sha256 receipt plan writer ≡ ok tt
      → ((get receipt "outcome" ≡ str "blocked")
          × (validate_dependency_request sha256 (get receipt "dependencyRequest") plan (str writer)
              ≡ ok tt))
        ⊎ ((get receipt "outcome" ≢ str "blocked") × (get receipt "dependencyRequest" ≡ null))
  unfolding check_request
  check_request-cases receipt plan writer h =
      elim (Bool-cases (is_text (get receipt "outcome") "blocked")) [
        | inl blocked ↦ inl (
          is_text-eq (get receipt "outcome") "blocked" blocked,
          (check-then _ _ _ (rw blocked at h)).1,
        )
        | inr other ↦ inr (
          ground arith,
          null-eq (get receipt "dependencyRequest") (check-eq-ok _ _ (rw other at h)),
        )
      ]

  -- An accepted writer receipt reports one of the three outcomes, was made on the base of the
  -- execution, and acknowledges the inbox exactly up to the last delivered entry; it has a
  -- dependency request that is valid for the writer if it is blocked, and null if it is not; the
  -- receipt is returned as it is.
  pub writer_receipt-WriterAccepted :
      (receipt template plan : Value) (writer : String) (base delivered previous result : Value)
      → validate_writer_receipt sha256 receipt template plan writer base delivered previous
        ≡ ok result
      → WriterAccepted receipt plan writer base delivered (nat_of previous) × (result ≡ receipt)
  writer_receipt-WriterAccepted receipt template plan writer base delivered previous result h =
      let (c, moved, claims, cursor, request, same) =
        writer_receipt-stages receipt template plan writer base delivered previous result h in
      let (outcome, based) = writer_claims-facts receipt plan writer base claims in
      let (_, counted, _) =
        delivered_inbox-Consecutive sha256 delivered plan writer (nat_of previous) c moved in
      (
        record {
          outcome = outcome;
          base_sha = strict_equal-eq (get receipt "baseSha") base based;
          cursor = is_nat-eq (get receipt "inboxCursor") c cursor ∙ ap nat counted;
          request = check_request-cases receipt plan writer request;
        },
        same,
      )

  pub record CheckerAccepted (receipt base result diff : Value) : Type 0 where
    pub outcome : one_of ("passed" ∷ "failed" ∷ []) (get receipt "outcome") ≡ true
    pub base_sha : get receipt "baseSha" ≡ base
    pub result_sha : get receipt "resultSha" ≡ result
    pub diff_sha : get receipt "diffSha256" ≡ diff

  checker_identity-facts :
      (receipt base result diff : Value)
      → check_checker_identity sha256 receipt base result diff ≡ ok tt
      → (one_of ("passed" ∷ "failed" ∷ []) (get receipt "outcome") ≡ true)
        × (strict_equal (get receipt "baseSha") base ≡ true)
        × (strict_equal (get receipt "resultSha") result ≡ true)
        × (strict_equal (get receipt "diffSha256") diff ≡ true)
  unfolding check_checker_identity
  checker_identity-facts receipt base result diff h = ground arith

  checker_receipt-stages :
      (receipt plan : Value) (writer : String) (base result diff delivered previous r : Value)
      → validate_checker_receipt sha256 receipt plan writer base result diff delivered previous
        ≡ ok r
      → (check_checker_identity sha256 receipt base result diff ≡ ok tt)
        × (r ≡ receipt)
        × (length (elements (get receipt "files")) ≡ 0)
        × (check_checker_context sha256 plan writer base result diff delivered previous ≡ ok tt)
  unfolding validate_checker_receipt
  checker_receipt-stages receipt plan writer base result diff delivered previous r h =
      (ground arith, ground arith, ground arith, ground arith)

  checker_context-inbox :
      (plan : Value) (writer : String) (base result diff delivered previous : Value)
      → check_checker_context sha256 plan writer base result diff delivered previous ≡ ok tt
      → (c : ℕ) × (validate_delivered_inbox sha256 delivered plan writer (nat_of previous) ≡ ok c)
  unfolding check_checker_context
  checker_context-inbox plan writer base result diff delivered previous h = (
    from_ok 0 (validate_delivered_inbox sha256 delivered plan writer (nat_of previous)),
    ground arith,
  )

  -- An accepted checker receipt passed or failed exactly the base, the result and the diff that were
  -- checked, and names no files; the slice of the inbox that was delivered with it is numbered
  -- without a gap from the previous cursor on; the receipt is returned as it is.
  pub checker_receipt-CheckerAccepted :
      (receipt plan : Value) (writer : String) (base result diff delivered previous r : Value)
      → validate_checker_receipt sha256 receipt plan writer base result diff delivered previous
        ≡ ok r
      → CheckerAccepted receipt base result diff
        × (length (elements (get receipt "files")) ≡ 0)
        × Consecutive (nat_of previous) (elements delivered)
        × (r ≡ receipt)
  checker_receipt-CheckerAccepted receipt plan writer base result diff delivered previous r h =
      let (identity, same, none, context) =
        checker_receipt-stages receipt plan writer base result diff delivered previous r h in
      let (outcome, b, s, d) = checker_identity-facts receipt base result diff identity in
      let (c, moved) =
        checker_context-inbox plan writer base result diff delivered previous context in
      let (numbered, _, _) =
        delivered_inbox-Consecutive sha256 delivered plan writer (nat_of previous) c moved in
      (
        record {
          outcome = outcome;
          base_sha = strict_equal-eq (get receipt "baseSha") base b;
          result_sha = strict_equal-eq (get receipt "resultSha") result s;
          diff_sha = strict_equal-eq (get receipt "diffSha256") diff d;
        },
        none,
        numbered,
        same,
      )

conformance_receipt-stages :
    (receipt plan : Value) (gate : String) (candidate r : Value)
    → validate_conformance_receipt receipt plan gate candidate ≡ ok r
    → (check_gate_identity receipt gate candidate ≡ ok tt)
      × (r ≡ receipt)
      × (mem_text gate ("qa" ∷ "testing" ∷ []) ≡ true)
      × (length (elements (get receipt "files")) ≡ 0)
unfolding validate_conformance_receipt
conformance_receipt-stages receipt plan gate candidate r h =
    (ground arith, ground arith, ground arith, ground arith)

gate_identity-facts :
    (receipt : Value) (gate : String) (candidate : Value)
    → check_gate_identity receipt gate candidate ≡ ok tt
    → (is_text (get receipt "gate") gate ≡ true)
      × (strict_equal (get receipt "candidateSha") candidate ≡ true)
unfolding check_gate_identity
gate_identity-facts receipt gate candidate h = ground arith

-- An accepted conformance receipt is from the gate that was run, QA or Testing, is about exactly the
-- candidate, and names no files; it is returned as it is.
pub conformance_receipt-accepted :
    (receipt plan : Value) (gate : String) (candidate r : Value)
    → validate_conformance_receipt receipt plan gate candidate ≡ ok r
    → (r ≡ receipt)
      × (get receipt "gate" ≡ str gate)
      × (mem_text gate ("qa" ∷ "testing" ∷ []) ≡ true)
      × (get receipt "candidateSha" ≡ candidate)
      × (length (elements (get receipt "files")) ≡ 0)
conformance_receipt-accepted receipt plan gate candidate r h =
    let (identity, same, known, none) =
      conformance_receipt-stages receipt plan gate candidate r h in
    let (g, c) = gate_identity-facts receipt gate candidate identity in
    (
      same,
      is_text-eq (get receipt "gate") gate g,
      known,
      strict_equal-eq (get receipt "candidateSha") candidate c,
      none,
    )
