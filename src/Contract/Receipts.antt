-- ===== src/Contract/Receipts.antt =====
-- The receipts of src/pod-contract.mjs: of a writer, of a checker and of a conformance gate.
pub mod Accepted
use bimo.Base.{
  ℕ, String, len, Bool, true, false, not, List, [], ◌∷◌, length, leb, text_eq, mem_text, ◌<>◌,
  decimal, Result, ok, err, check, ◌>>=◌, ◌>>◌, ◌&&◌, ◌||◌, if◌then◌else◌, ◌==◌,
}
use bimo.Js.{
  Value, arr, Items, nil, cons, is_array, is_plain_object, is_null, elements, get, is_text, text_of,
  is_nat, nat_of, strict_equal, stringify, canonical_json, max_safe_integer,
}
use bimo.Contract.Fields.{
  Checked, assert_plain_object, assert_exact_fields, assert_integer, assert_text, assert_git_sha,
  assert_exact_string_array, validate_evidence, text_matches, matches_hex,
}
use bimo.Contract.Template.{writer_ids, validate_pod_template}
use bimo.Contract.Inbox.{validate_dependency_request, validate_delivered_inbox}

abbrev writer_receipt_fields : List String
writer_receipt_fields =
    "outcome" ∷ "baseSha" ∷ "what" ∷ "why" ∷ "evidence" ∷ "requirementIds" ∷ "acceptanceIds"
    ∷ "inboxCursor" ∷ "dependencyRequest" ∷ []

abbrev checker_receipt_fields : List String
checker_receipt_fields =
    "outcome" ∷ "baseSha" ∷ "resultSha" ∷ "diffSha256" ∷ "what" ∷ "why" ∷ "evidence"
    ∷ "requirementIds" ∷ "acceptanceIds" ∷ "files" ∷ "deliveredInbox" ∷ []

abbrev conformance_receipt_fields : List String
conformance_receipt_fields =
    "gate" ∷ "outcome" ∷ "candidateSha" ∷ "what" ∷ "why" ∷ "evidence" ∷ "requirementIds"
    ∷ "acceptanceIds" ∷ "files" ∷ []

-- `["a", "b"].includes(value)`
abbrev pub one_of : List String → Value → Bool
one_of allowed (Value.str s) = mem_text s allowed
one_of allowed _ = false

abbrev max_receipt_bytes : ℕ
max_receipt_bytes = 61440

abbrev fits_receipt : String → Value → Checked
fits_receipt label receipt =
    check (leb (len (stringify receipt)) max_receipt_bytes)
      (label <> " must serialize to at most " <> decimal max_receipt_bytes <> " bytes")

-- the fields that every receipt describes its work in
unfoldable pub check_account : String → Value → Checked
check_account label receipt = do
  assert_text (get receipt "what") (label <> " what") 2000
  assert_text (get receipt "why") (label <> " why") 2000
  validate_evidence (get receipt "evidence") (label <> " evidence")

abbrev known_writer : Value → String → Bool
known_writer plan writer_id =
    mem_text writer_id writer_ids && is_plain_object (get (get plan "writers") writer_id)

abbrev no_files : String → Value → Checked
no_files label receipt =
    check (is_array (get receipt "files") && length (elements (get receipt "files")) == 0)
      (label <> " files must be empty")

module _ (sha256 : String → String) where
  -- the rule that ties the outcome of a writer to its dependency request
  unfoldable pub check_request : Value → Value → String → Checked
  check_request receipt plan writer_id =
      if is_text (get receipt "outcome") "blocked"
      then (check (is_plain_object (get receipt "dependencyRequest"))
            "blocked writer receipt requires dependencyRequest"
          >> validate_dependency_request sha256 (get receipt "dependencyRequest") plan
              (Value.str writer_id))
      else check (is_null (get receipt "dependencyRequest"))
          "non-blocked writer receipt dependencyRequest must be null"

  -- the tests of `validateWriterReceipt` on what the controller passes
  unfoldable pub check_writer_context : Value → Value → String → Value → Value → Value → Checked
  check_writer_context template plan writer_id execution_base delivered previous = do
    validate_pod_template template
    assert_plain_object plan "attempt plan"
    check (known_writer plan writer_id) ("unknown attempt writer: " <> writer_id)
    assert_git_sha execution_base "executionBaseSha"
    check (is_array delivered) "deliveredInbox must be an array"
    assert_integer previous 0 max_safe_integer "previousInboxCursor"

  -- the tests on the receipt itself
  unfoldable pub check_writer_claims : Value → Value → String → Value → Checked
  check_writer_claims receipt plan writer_id execution_base = do
    assert_plain_object receipt "writer receipt"
    assert_exact_fields receipt writer_receipt_fields "writer receipt"
    check (one_of ("completed" ∷ "blocked" ∷ "failed" ∷ []) (get receipt "outcome"))
        "writer receipt outcome must be completed, blocked, or failed"
    assert_git_sha (get receipt "baseSha") "writer receipt baseSha"
    check (strict_equal (get receipt "baseSha") execution_base)
        "writer receipt baseSha must equal the execution base"
    check_account "writer receipt" receipt
    let writer = get (get plan "writers") writer_id
    assert_exact_string_array (get receipt "requirementIds") (get writer "requirementIds")
        "writer receipt requirementIds"
    assert_exact_string_array (get receipt "acceptanceIds") (get writer "acceptanceIds")
        "writer receipt acceptanceIds"

  -- `validateWriterReceipt`; the source returns the receipt
  unfoldable pub validate_writer_receipt :
      Value → Value → Value → String → Value → Value → Value → Result Value
  validate_writer_receipt receipt template plan writer_id execution_base delivered previous = do
    check_writer_context template plan writer_id execution_base delivered previous
    check_writer_claims receipt plan writer_id execution_base
    expected_cursor ← validate_delivered_inbox sha256 delivered plan writer_id (nat_of previous)
    assert_integer (get receipt "inboxCursor") 0 max_safe_integer "writer receipt inboxCursor"
    check (is_nat (get receipt "inboxCursor") expected_cursor)
        ("writer receipt inboxCursor must equal delivered cursor " <> decimal expected_cursor)
    check_request receipt plan writer_id
    fits_receipt "writer receipt" receipt
    ok receipt

  -- the tests of `validateCheckerReceipt` on what the controller passes
  unfoldable pub check_checker_context :
      Value → String → Value → Value → Value → Value → Value → Checked
  check_checker_context plan writer_id base result diff delivered previous = do
    assert_plain_object plan "attempt plan"
    check (known_writer plan writer_id) ("unknown attempt writer: " <> writer_id)
    assert_git_sha base "checker baseSha"
    assert_git_sha result "checker resultSha"
    check (text_matches (matches_hex 64) diff)
        "checker diffSha256 must be a lowercase SHA-256 digest"
    assert_integer previous 0 max_safe_integer "previousInboxCursor"
    validate_delivered_inbox sha256 delivered plan writer_id (nat_of previous)
    ok tt

  -- the tests on the identity of what was checked
  unfoldable pub check_checker_identity : Value → Value → Value → Value → Checked
  check_checker_identity receipt base result diff = do
    assert_plain_object receipt "checker receipt"
    assert_exact_fields receipt checker_receipt_fields "checker receipt"
    check (one_of ("passed" ∷ "failed" ∷ []) (get receipt "outcome"))
        "checker receipt outcome must be passed or failed"
    assert_git_sha (get receipt "baseSha") "checker receipt baseSha"
    check (strict_equal (get receipt "baseSha") base)
        "checker receipt baseSha must equal the checked base"
    assert_git_sha (get receipt "resultSha") "checker receipt resultSha"
    check (strict_equal (get receipt "resultSha") result)
        "checker receipt resultSha must equal the checked result"
    check (strict_equal (get receipt "diffSha256") diff)
        "checker receipt diffSha256 must equal the checked diff"

  -- `validateCheckerReceipt`; the source returns the receipt
  unfoldable pub validate_checker_receipt :
      Value → Value → String → Value → Value → Value → Value → Value → Result Value
  validate_checker_receipt receipt plan writer_id base result diff delivered previous = do
    check_checker_context plan writer_id base result diff delivered previous
    check_checker_identity receipt base result diff
    check_account "checker receipt" receipt
    let writer = get (get plan "writers") writer_id
    assert_exact_string_array (get receipt "requirementIds") (get writer "requirementIds")
        "checker receipt requirementIds"
    assert_exact_string_array (get receipt "acceptanceIds") (get writer "acceptanceIds")
        "checker receipt acceptanceIds"
    no_files "checker receipt" receipt
    check (text_eq (canonical_json (get receipt "deliveredInbox")) (canonical_json delivered))
        "checker receipt deliveredInbox must exactly match the controller-delivered slice"
    fits_receipt "checker receipt" receipt
    ok receipt

-- `records.map(item => item.id)`
abbrev ids_from : List Value → Items
ids_from [] = nil
ids_from (v ∷ vs) = cons (get v "id") (ids_from vs)

abbrev pub id_array : Value → Value
id_array v = arr (ids_from (elements v))

-- the outcomes that a gate may report
abbrev gate_outcomes : String → List String
gate_outcomes gate =
    if text_eq gate "qa"
    then "passed" ∷ "test_defect" ∷ "product_nonconformance" ∷ []
    else "passed" ∷ "failed" ∷ []

abbrev outcome_message : String → String
outcome_message gate =
    if text_eq gate "qa"
    then "QA outcome must be passed, test_defect, or product_nonconformance"
    else "Testing outcome must be passed or failed"

-- the tests on the gate, the outcome and the candidate
unfoldable pub check_gate_identity : Value → String → Value → Checked
check_gate_identity receipt gate candidate = do
  assert_plain_object receipt "conformance receipt"
  assert_exact_fields receipt conformance_receipt_fields "conformance receipt"
  check (is_text (get receipt "gate") gate) ("conformance receipt gate must equal " <> gate)
  check (one_of (gate_outcomes gate) (get receipt "outcome")) (outcome_message gate)
  assert_git_sha (get receipt "candidateSha") "conformance receipt candidateSha"
  check (strict_equal (get receipt "candidateSha") candidate)
      "conformance receipt candidateSha must equal the checked candidate"

-- `validateConformanceReceipt`; the source returns the receipt
unfoldable pub validate_conformance_receipt : Value → Value → String → Value → Result Value
validate_conformance_receipt receipt plan gate candidate = do
  assert_plain_object plan "attempt plan"
  check (mem_text gate ("qa" ∷ "testing" ∷ [])) "conformance gate must be qa or testing"
  assert_git_sha candidate "conformance candidateSha"
  check_gate_identity receipt gate candidate
  check_account "conformance receipt" receipt
  assert_exact_string_array (get receipt "requirementIds") (id_array (get plan "requirements"))
      "conformance receipt requirementIds"
  assert_exact_string_array (get receipt "acceptanceIds") (id_array (get plan "acceptanceCriteria"))
      "conformance receipt acceptanceIds"
  no_files "conformance receipt" receipt
  fits_receipt "conformance receipt" receipt
  ok receipt
