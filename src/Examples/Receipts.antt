-- ===== src/Examples/Receipts.antt =====
-- An inbox and receipts for the example plan (src/pod-contract.mjs).
use bimo.Base.{
  true, mem_text, ◌≤◌, ◌+◌, String, [], ◌∷◌, length, ok, ◌≡◌, refl, split_from, split_slash,
  normalize, join_slash, decimal,
}
use bimo.Js.{
  to_text, strict_equal, stringify, canonical_json, Value, null, nat, str, arr, nil, texts,
  from_list, get, elements,
}
use bimo.Contract.Fields.{
  assert_plain_object, assert_exact_fields, assert_integer, assert_text, assert_fixed_keys,
  assert_trace_id, assert_git_sha, assert_exact_string_array, validate_evidence,
}
use bimo.Contract.Paths.{
  assert_prompt_path, assert_repository_directory, assert_repository_file, directory_contains,
  directories_overlap,
}
use bimo.Contract.Template.{
  validate_pod_template, check_timeouts, check_changes, check_prompts, check_writers, check_writer,
}
use bimo.Contract.Inbox.{
  assert_ids_covered, validate_dependency_request, check_entry, deliver_from,
  validate_delivered_inbox,
}
use bimo.Contract.Inbox.Cursor.{Consecutive, delivered_inbox-Consecutive}
use bimo.Contract.Receipts.{
  check_account, check_request, check_writer_context, check_writer_claims, validate_writer_receipt,
  check_checker_context, check_checker_identity, validate_checker_receipt, check_gate_identity,
  validate_conformance_receipt,
}
use bimo.Contract.Receipts.Accepted.{
  WriterAccepted, CheckerAccepted, writer_receipt-WriterAccepted, checker_receipt-CheckerAccepted,
  conformance_receipt-accepted,
}
use bimo.Controller.World.{object}
use bimo.Examples.Templates.{template}
use bimo.Examples.Plans.{plan, sha, digest, constant_hash}

abbrev evidence : Value
evidence = arr (texts ("file:1" ∷ []))

abbrev r1 : Value
r1 = arr (texts ("R1" ∷ []))

abbrev a1 : Value
a1 = arr (texts ("A1" ∷ []))

abbrev inbox : Value
inbox = arr (
    from_list (
      object (
        ("sequence", nat 1)
        ∷ ("requester", str "engineering-a")
        ∷ ("owner", str "engineering-b")
        ∷ ("path", str "omp/api.ts")
        ∷ ("requirementIds", r1)
        ∷ ("acceptanceIds", a1)
        ∷ ("ownerBriefSha256", str digest)
        ∷ ("need", str "An export.")
        ∷ ("why", str "It is missing.")
        ∷ ("requesterCheckpointSha", str sha)
        ∷ [])
      ∷ []))

abbrev writer_receipt : Value
writer_receipt = object (
    ("outcome", str "completed")
    ∷ ("baseSha", str sha)
    ∷ ("what", str "Done.")
    ∷ ("why", str "Asked.")
    ∷ ("evidence", evidence)
    ∷ ("requirementIds", r1)
    ∷ ("acceptanceIds", a1)
    ∷ ("inboxCursor", nat 1)
    ∷ ("dependencyRequest", null)
    ∷ [])

abbrev checker_receipt : Value
checker_receipt = object (
    ("outcome", str "passed")
    ∷ ("baseSha", str sha)
    ∷ ("resultSha", str sha)
    ∷ ("diffSha256", str digest)
    ∷ ("what", str "Read it.")
    ∷ ("why", str "It fits.")
    ∷ ("evidence", evidence)
    ∷ ("requirementIds", r1)
    ∷ ("acceptanceIds", a1)
    ∷ ("files", arr nil)
    ∷ ("deliveredInbox", inbox)
    ∷ [])

abbrev pub conformance_receipt : String → Value
conformance_receipt gate = object (
    ("gate", str gate)
    ∷ ("outcome", str "passed")
    ∷ ("candidateSha", str sha)
    ∷ ("what", str "Read it.")
    ∷ ("why", str "It fits.")
    ∷ ("evidence", evidence)
    ∷ ("requirementIds", r1)
    ∷ ("acceptanceIds", a1)
    ∷ ("files", arr nil)
    ∷ [])

inbox_accepted : validate_delivered_inbox constant_hash inbox plan "engineering-b" 0 ≡ ok 1
unfolding validate_delivered_inbox deliver_from check_entry validate_dependency_request
    assert_ids_covered assert_plain_object assert_exact_fields assert_integer assert_text
    assert_trace_id assert_git_sha assert_repository_directory assert_repository_file
    directory_contains split_from split_slash normalize join_slash decimal strict_equal
inbox_accepted = refl

delivered_inbox-Consecutive_example :
    Consecutive 0 (elements inbox)
    × (1 ≡ 0 + length (elements inbox))
    × (length (elements inbox) ≤ 20)
delivered_inbox-Consecutive_example =
    delivered_inbox-Consecutive constant_hash inbox plan "engineering-b" 0 1 inbox_accepted

writer_receipt_accepted :
    validate_writer_receipt constant_hash writer_receipt template plan "engineering-b"
      (str sha)
      inbox
      (nat 0)
    ≡ ok writer_receipt
unfolding validate_delivered_inbox deliver_from check_entry validate_dependency_request
    assert_ids_covered assert_plain_object assert_exact_fields assert_integer assert_text
    assert_trace_id assert_git_sha assert_repository_directory assert_repository_file
    directory_contains split_from split_slash normalize join_slash decimal strict_equal
    validate_pod_template check_timeouts check_changes check_prompts check_writers check_writer
    assert_prompt_path assert_fixed_keys to_text directories_overlap check_account validate_evidence
    assert_exact_string_array stringify validate_writer_receipt check_writer_context
    check_writer_claims check_request
writer_receipt_accepted = refl

writer_receipt-WriterAccepted_example :
    WriterAccepted constant_hash writer_receipt plan "engineering-b" (str sha) inbox 0
    × (writer_receipt ≡ writer_receipt)
writer_receipt-WriterAccepted_example =
    writer_receipt-WriterAccepted constant_hash writer_receipt template plan "engineering-b"
      (str sha) inbox (nat 0) writer_receipt writer_receipt_accepted

checker_receipt_accepted :
    validate_checker_receipt constant_hash checker_receipt plan "engineering-b"
      (str sha)
      (str sha)
      (str digest)
      inbox
      (nat 0)
    ≡ ok checker_receipt
unfolding validate_delivered_inbox deliver_from check_entry validate_dependency_request
    assert_ids_covered assert_plain_object assert_exact_fields assert_integer assert_text
    assert_trace_id assert_git_sha assert_repository_directory assert_repository_file
    directory_contains split_from split_slash normalize join_slash decimal strict_equal
    check_account validate_evidence assert_exact_string_array stringify validate_checker_receipt
    check_checker_context check_checker_identity canonical_json
checker_receipt_accepted = refl

checker_receipt-CheckerAccepted_example :
    CheckerAccepted constant_hash checker_receipt (str sha) (str sha) (str digest)
    × (length (elements (get checker_receipt "files")) ≡ 0)
    × Consecutive 0 (elements inbox)
    × (checker_receipt ≡ checker_receipt)
checker_receipt-CheckerAccepted_example =
    checker_receipt-CheckerAccepted constant_hash checker_receipt plan "engineering-b" (str sha)
      (str sha) (str digest) inbox (nat 0) checker_receipt checker_receipt_accepted

pub conformance_accepted :
    validate_conformance_receipt (conformance_receipt "qa") plan "qa" (str sha)
    ≡ ok (conformance_receipt "qa")
unfolding validate_conformance_receipt check_gate_identity assert_plain_object assert_exact_fields
    assert_text assert_git_sha strict_equal check_account validate_evidence
    assert_exact_string_array stringify
conformance_accepted = refl

conformance_receipt-accepted_example :
    (conformance_receipt "qa" ≡ conformance_receipt "qa")
    × (get (conformance_receipt "qa") "gate" ≡ str "qa")
    × (mem_text "qa" ("qa" ∷ "testing" ∷ []) ≡ true)
    × (get (conformance_receipt "qa") "candidateSha" ≡ str sha)
    × (length (elements (get (conformance_receipt "qa") "files")) ≡ 0)
conformance_receipt-accepted_example =
    conformance_receipt-accepted (conformance_receipt "qa") plan "qa" (str sha)
      (conformance_receipt "qa") conformance_accepted
