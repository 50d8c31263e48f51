-- ===== src/Workflow/Receipt.antt =====
-- `validateReceipt`, `runtimeFields` and `safeReason` of src/workflow.mjs, and the checks on what
-- the verifier and the publisher answer.
pub mod Accepted
use Prim.Native.Nat.{Ordering}
use Prim.Native.Char.{code}
use Prim.Native.String.{compare as compare_text}
use bimo.Base.{
  take_units, ℕ, zero, suc, ◌+◌, String, Bool, true, false, not, List, [], ◌∷◌, length, leb, ltb,
  len, ◌<>◌, decimal, text_eq, Result, ok, err, check, ◌>>◌, ◌>>=◌, ◌&&◌, ◌||◌, if◌then◌else◌,
  some_code, is_unsafe_control,
}
use bimo.Js.{
  is_truthy, Value, undefined, nat, bool, str, arr, obj, Fields, end, field, texts, keys_of, get,
  has_own, set_field, fields_of, is_array, elements, is_string, is_text, text_of, stringify,
  is_plain_object,
}
use bimo.Contract.Fields.{Checked, at_index, assert_plain_object, assert_text}
use bimo.Workflow.Fields.{normalize_receipt_file, validate_string_array, units}

abbrev pub receipt_fields : List String
receipt_fields = "outcome" ∷ "what" ∷ "why" ∷ "evidence" ∷ "files" ∷ []

-- `Array.prototype.sort`
insert : String → List String → List String
insert s [] = s ∷ []
insert s (t ∷ rest) =
    let later = insert s rest in
    elim (compare_text s t) [ Ordering.gt ↦ t ∷ later | _ ↦ s ∷ t ∷ rest ]

unfoldable pub sort : List String → List String
unfolding insert
sort [] = []
sort (s ∷ rest) = insert s (sort rest)

abbrev pub same_texts : List String → List String → Bool
same_texts [] [] = true
same_texts (s ∷ ss) (t ∷ ts) = text_eq s t && same_texts ss ts
same_texts _ _ = false

-- `receipt.files.map(...)`, from the index given
unfoldable pub normalize_files : ℕ → List Value → Result (List String)
normalize_files i [] = ok []
normalize_files i (v ∷ vs) = do
  file ← normalize_receipt_file v (at_index "receipt.files" i)
  files ← normalize_files (suc i) vs
  ok (file ∷ files)

abbrev pub max_receipt_bytes : ℕ
max_receipt_bytes = 61440

unfoldable pub validate_receipt : Value → Value → Result Value
validate_receipt receipt role = do
  assert_plain_object receipt "role receipt"
  check (same_texts (sort (keys_of receipt)) (sort receipt_fields))
      "role receipt must contain exactly outcome, what, why, evidence, and files"
  check (is_string (get receipt "outcome")) "receipt.outcome must be a string"
  check (has_own (get role "on") (text_of (get receipt "outcome")))
      ("role returned unsupported outcome: " <> text_of (get receipt "outcome"))
  assert_text (get receipt "what") "receipt.what" 2000
  assert_text (get receipt "why") "receipt.why" 2000
  validate_string_array (get receipt "evidence") "receipt.evidence" 1 20 1000
  check (is_array (get receipt "files") && leb (length (elements (get receipt "files"))) 100)
      "receipt.files must be an array of at most 100 paths"
  files ← normalize_files 0 (elements (get receipt "files"))
  check (is_truthy (get role "write") || leb (length files) 0)
      "read-only role must report an empty files array"
  let validated = obj (set_field "files" (arr (texts files)) (fields_of receipt))
  check (leb (len (stringify validated)) max_receipt_bytes)
      ("role receipt must serialize to at most " <> decimal max_receipt_bytes <> " bytes")
  ok validated

-- `message.replace(UNSAFE_CONTROL, "")`: the pattern has no flag g, and so only the first goes
abbrev pub without_first_control : String → String
without_first_control String.[] = ""
without_first_control (String.◌∷◌ c s) =
    let rest = without_first_control s in
    if is_unsafe_control (code c) then s else String.◌∷◌ c rest

-- `safeReason`, on the message of an error
unfoldable pub safe_reason : String → String
safe_reason message =
    let reason = take_units 2000 (without_first_control message) in
    if text_eq reason "" then "unknown failure" else reason

-- the fields of `runtimeFields`, in the order of the source
unfoldable pub text_fields : List String → Value → Fields → Fields
text_fields [] runtime result = result
text_fields (name ∷ names) runtime result =
    let kept =
      is_string (get runtime name)
      && leb (units (text_of (get runtime name))) 256
      && not (some_code is_unsafe_control (text_of (get runtime name))) in
    text_fields names runtime (if kept then set_field name (get runtime name) result else result)

abbrev is_natural : Value → Bool
is_natural (nat n) = true
is_natural _ = false

unfoldable pub natural_fields : List String → Value → Fields → Fields
natural_fields [] runtime result = result
natural_fields (name ∷ names) runtime result =
    natural_fields names runtime
      (if is_natural (get runtime name) then set_field name (get runtime name) result else result)

-- `runtimeFields`; its default for `undefined` has no fields either
unfoldable pub runtime_fields : Value → Value
runtime_fields runtime =
    if is_plain_object runtime
    then obj (
        natural_fields ("exitCode" ∷ "durationMs" ∷ []) runtime
          (text_fields ("containerId" ∷ "imageDigest" ∷ "outputSha256" ∷ []) runtime end))
    else obj end

unfoldable pub validate_verification : Value → Result Value
validate_verification result = do
  assert_plain_object result "verification result"
  check (is_text (get result "status") "passed" || is_text (get result "status") "failed")
      "verification status must be passed or failed"
  validate_string_array (get result "evidence") "verification evidence" 1 50 2000
  ok result

unfoldable pub validate_publication : Value → Result Value
validate_publication result = do
  assert_plain_object result "publication result"
  assert_text (get result "url") "publication url" 2000
  ok result
