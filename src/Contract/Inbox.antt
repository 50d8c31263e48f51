-- ===== src/Contract/Inbox.antt =====
-- `validateDependencyRequest` and `validateDeliveredInbox` of src/pod-contract.mjs. The digest of
-- node:crypto is the parameter `sha256`.
pub mod Cursor
use bimo.Base.{
  ℕ, suc, String, Bool, true, false, not, List, [], ◌∷◌, length, any, leb, text_eq, mem_text,
  begins, ◌<>◌, Result, ok, err, check, each, ◌>>=◌, ◌>>◌, ◌&&◌, ◌||◌, if◌then◌else◌, ◌++◌, Option,
  none, some, find, ◌+◌,
}
use bimo.Js.{
  Value, undefined, null, str, obj, Fields, field, end, is_array, is_plain_object, elements, get,
  is_text, text_of, nat_of, to_text,
}
use bimo.Contract.Fields.{
  Checked, assert_plain_object, assert_exact_fields, assert_integer, assert_text, assert_trace_id,
  assert_git_sha, at_index, text_matches, matches_hex,
}
use bimo.Contract.Paths.{assert_repository_file, directory_contains}
use bimo.Contract.Plan.{text_list}

abbrev dependency_request_fields : List String
dependency_request_fields =
    "owner" ∷ "path" ∷ "requirementIds" ∷ "acceptanceIds" ∷ "ownerBriefSha256" ∷ "need" ∷ "why" ∷ []

abbrev inbox_entry_fields : List String
inbox_entry_fields =
    "sequence" ∷ "requester" ∷ "owner" ∷ "path" ∷ "requirementIds" ∷ "acceptanceIds"
    ∷ "ownerBriefSha256" ∷ "need" ∷ "why" ∷ "requesterCheckpointSha" ∷ []

-- `value.k` where the value may be `undefined` or `null`, which raises a TypeError
abbrev pub member : Value → String → Result Value
member undefined k = err ("Cannot read properties of undefined (reading '" <> k <> "')")
member null k = err ("Cannot read properties of null (reading '" <> k <> "')")
member v k = ok (get v k)

-- the loop of `assertIdsCovered`, with the IDs seen
ids_covered_from : List String → List String → String → ℕ → List String → List Value → Checked
ids_covered_from requester owner label i seen [] = ok tt
ids_covered_from requester owner label i seen (v ∷ vs) = do
  assert_trace_id v (at_index label i)
  check (not (mem_text (text_of v) seen)) (label <> " contains duplicate ID: " <> text_of v)
  check (mem_text (text_of v) requester && mem_text (text_of v) owner)
      (label <> " must be covered by both writer items: " <> text_of v)
  ids_covered_from requester owner label (suc i) (text_of v ∷ seen) vs

-- `assertIdsCovered`; the sets are made of the arrays of the requester and of the owner
unfoldable pub assert_ids_covered : Value → Value → Value → String → Checked
unfolding ids_covered_from
assert_ids_covered values requester owner label = do
  check (is_array values && leb 1 (length (elements values)))
      (label <> " must be a non-empty array")
  ids_covered_from (text_list (elements requester)) (text_list (elements owner)) label 0 []
      (elements values)

-- `plan.acceptanceCriteria.find(item => item.id === acceptanceId)`
abbrev find_criterion : Value → String → Value
find_criterion plan id =
    elim (find (λ item. is_text (get item "id") id) (elements (get plan "acceptanceCriteria"))) [
      | none ↦ undefined
      | some item ↦ item
    ]

-- the loops over the acceptance criteria of a request
check_requested : Value → List String → List String → Checked
check_requested plan requested [] = ok tt
check_requested plan requested (acceptance_id ∷ rest) = do
  required ← member (find_criterion plan acceptance_id) "requirementIds"
  each
      (λ r.
        check (mem_text r requested)
          ("dependency acceptance " <> acceptance_id <> " requires " <> r))
      (text_list (elements required))
  check_requested plan requested rest

-- `writerId === "engineering-a" ? "engineering-b" : "engineering-a"`
abbrev pub other_engineer : String → String
other_engineer writer_id =
    if text_eq writer_id "engineering-a" then "engineering-b" else "engineering-a"

module _ (sha256 : String → String) where
  -- `validateDependencyRequest`; a writer that is no string has no `startsWith`
  unfoldable pub validate_dependency_request : Value → Value → Value → Checked
  unfolding assert_ids_covered check_requested
  validate_dependency_request request plan (str writer_id) = do
    check (begins writer_id "engineering-")
        "only Engineering writers may return a same-owner dependency request"
    assert_plain_object request "dependency request"
    assert_exact_fields request dependency_request_fields "dependency request"
    check (is_text (get request "owner") (other_engineer writer_id))
        "dependency owner must be the other Engineering slot"
    let requester = get (get plan "writers") writer_id
    let owner = get (get plan "writers") (other_engineer writer_id)
    assert_repository_file (get request "path") "dependency path"
    paths ← member owner "writePaths"
    check
        (any (λ w. directory_contains w (text_of (get request "path")))
          (text_list (elements paths)))
        ("dependency path must be inside " <> other_engineer writer_id <> " writePaths")
    requirements ← member requester "requirementIds"
    assert_ids_covered (get request "requirementIds") requirements (get owner "requirementIds")
        "dependency requirementIds"
    assert_ids_covered (get request "acceptanceIds") (get requester "acceptanceIds")
        (get owner "acceptanceIds") "dependency acceptanceIds"
    check_requested plan (text_list (elements (get request "requirementIds")))
        (text_list (elements (get request "acceptanceIds")))
    check
        (text_matches (matches_hex 64) (get request "ownerBriefSha256")
          && is_text (get request "ownerBriefSha256") (sha256 (text_of (get owner "brief"))))
        "dependency owner brief does not match the immutable attempt plan"
    assert_text (get request "need") "dependency need" 2000
    assert_text (get request "why") "dependency why" 2000
  validate_dependency_request request plan writer_id = err "writerId.startsWith is not a function"

  -- the request that an inbox entry carries
  abbrev pub entry_request : Value → Value
  entry_request entry = obj (
      field "owner" (get entry "owner") (
        field "path" (get entry "path") (
          field "requirementIds" (get entry "requirementIds") (
            field "acceptanceIds" (get entry "acceptanceIds") (
              field "ownerBriefSha256" (get entry "ownerBriefSha256")
                (field "need" (get entry "need") (field "why" (get entry "why") end)))))))

  -- one round of `validateDeliveredInbox`
  unfoldable pub check_entry : Value → String → ℕ → ℕ → Value → Checked
  check_entry plan owner cursor i entry = do
    assert_plain_object entry (at_index "deliveredInbox" i)
    assert_exact_fields entry inbox_entry_fields (at_index "deliveredInbox" i)
    assert_integer (get entry "sequence") (cursor + 1) (cursor + 1)
        (at_index "deliveredInbox" i <> ".sequence")
    check (is_text (get entry "owner") owner)
        (at_index "deliveredInbox" i <> " owner must be " <> owner)
    validate_dependency_request (entry_request entry) plan (get entry "requester")
    assert_git_sha (get entry "requesterCheckpointSha")
        (at_index "deliveredInbox" i <> ".requesterCheckpointSha")

  unfoldable pub deliver_from : Value → String → ℕ → ℕ → List Value → Result ℕ
  deliver_from plan owner cursor i [] = ok cursor
  deliver_from plan owner cursor i (entry ∷ rest) = do
    check_entry plan owner cursor i entry
    deliver_from plan owner (nat_of (get entry "sequence")) (suc i) rest

  -- `validateDeliveredInbox`: the cursor after the entries
  unfoldable pub validate_delivered_inbox : Value → Value → String → ℕ → Result ℕ
  validate_delivered_inbox entries plan owner previous = do
    check (is_array entries && leb (length (elements entries)) 20)
        "deliveredInbox must be an array of at most 20 entries"
    deliver_from plan owner previous 0 (elements entries)
