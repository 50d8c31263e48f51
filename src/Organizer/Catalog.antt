-- ===== src/Organizer/Catalog.antt =====
-- The catalog of installed templates and the agents' receipts of src/organize.mjs.
pub mod Accepted
pub mod Found
use bimo.Base.{
  ℕ, suc, String, Bool, true, false, not, List, [], ◌∷◌, map, find, length, all, leb, codes,
  mem_text, text_eq, ◌<>◌, Option, none, some, Result, ok, err, check, ◌>>◌, ◌>>=◌, ◌&&◌, ◌||◌,
  ◌==◌, if◌then◌else◌, is_lower, is_digit,
}
use bimo.Js.{
  Value, undefined, str, arr, texts, object, get, keys_of, is_array, elements, is_string, is_text,
  is_nat, in_range, text_of,
}
use bimo.Contract.Fields.{Checked, listed, assert_plain_object, assert_text, at_index, matches_hex}
use bimo.Workflow.Receipt.{sort, same_texts, without_first_control}

-- /^[a-z][a-z0-9-]{0,63}$/, TEMPLATE_NAME and ROLE_NAME
abbrev pub matches_template_name : List ℕ → Bool
matches_template_name [] = false
matches_template_name (c ∷ cs) =
    is_lower c && all (λ d. is_lower d || is_digit d || d == b'-') cs && leb (length cs) 63

-- /^--[a-z][a-z0-9-]{0,63}$/
abbrev pub matches_option_name : List ℕ → Bool
matches_option_name (c ∷ d ∷ cs) = c == b'-' && d == b'-' && matches_template_name cs
matches_option_name _ = false

abbrev pub text_passes : (List ℕ → Bool) → Value → Bool
text_passes pattern v = is_string v && pattern (codes (text_of v))

-- `assertExactFields`
unfoldable pub assert_only_fields : Value → List String → String → Checked
assert_only_fields value expected label =
    check (same_texts (sort (keys_of value)) (sort expected))
      (label <> " must contain exactly " <> listed expected)

-- `new Set(texts).size === texts.length`
abbrev pub no_repeats : List String → Bool
no_repeats [] = true
no_repeats (s ∷ ss) = not (mem_text s ss) && no_repeats ss

-- the loop over texts that match a pattern, from the index given; `what` ends the message
unfoldable pub matching_texts :
    (List ℕ → Bool) → String → String → ℕ → List Value → Result (List String)
matching_texts pattern label what i [] = ok []
matching_texts pattern label what i (v ∷ vs) = do
  check (text_passes pattern v) (at_index label i <> what)
  rest ← matching_texts pattern label what (suc i) vs
  ok (text_of v ∷ rest)

abbrev pub is_given : Value → Bool
is_given undefined = false
is_given _ = true

-- `normalizeOptionNames` of a value other than undefined
unfoldable pub given_option_names : Value → String → Result (List String)
given_option_names value label = do
  check (is_array value && leb (length (elements value)) 32)
      (label <> " must be an array of option names")
  options ← matching_texts matches_option_name label " is not a safe option name" 0 (elements value)
  check (no_repeats options) (label <> " contains duplicate option names")
  ok options

-- `normalizeOptionNames`
unfoldable pub normalize_option_names : Value → String → Result (List String)
normalize_option_names value label =
    let given = given_option_names value label in if is_given value then given else ok []

-- an entry of the normalized catalog
pub record Entry : Type 0 where
  pub template : String
  pub template_digest : String
  pub accepted_options : List String
  pub kind : String
  pub roles : List String
  pub bound : Value  -- maxSteps of a workflow, maxAttempts of an engineering pod

abbrev pub bound_name : String → String
bound_name kind = if text_eq kind "workflow" then "maxSteps" else "maxAttempts"

-- one entry, with the names before it
unfoldable pub normalize_entry : List String → ℕ → Value → Result Entry
normalize_entry names i entry = do
  let label = at_index "catalog" i
  assert_plain_object entry label
  check (is_text (get entry "kind") "workflow" || is_text (get entry "kind") "engineering-pod")
      (label <> ".kind must be workflow or engineering-pod")
  let bound = bound_name (text_of (get entry "kind"))
  assert_only_fields entry
      ("template" ∷ "templateDigest" ∷ "acceptedOptions" ∷ "kind" ∷ "roles" ∷ bound ∷ []) label
  check (text_passes matches_template_name (get entry "template")) (label <> ".template is invalid")
  check (text_passes (matches_hex 64) (get entry "templateDigest"))
      (label <> ".templateDigest must be a SHA-256 hex digest")
  check (not (mem_text (text_of (get entry "template")) names))
      ("catalog contains duplicate template: " <> text_of (get entry "template"))
  check
      (is_array (get entry "roles")
        && leb 1 (length (elements (get entry "roles")))
        && leb (length (elements (get entry "roles"))) 64)
      (label <> ".roles must contain 1 to 64 role names")
  roles ←
      matching_texts matches_template_name (label <> ".roles") " is invalid" 0
        (elements (get entry "roles"))
  check (no_repeats roles) (label <> ".roles contains duplicates")
  check (in_range (get entry bound) 1 100)
      (label <> "." <> bound <> " must be an integer from 1 to 100")
  options ← normalize_option_names (get entry "acceptedOptions") (label <> ".acceptedOptions")
  ok (record {
    template = text_of (get entry "template");
    template_digest = text_of (get entry "templateDigest");
    accepted_options = options;
    kind = text_of (get entry "kind");
    roles = roles;
    bound = get entry bound;
  })

unfoldable pub normalize_entries : List String → ℕ → List Value → Result (List Entry)
normalize_entries names i [] = ok []
normalize_entries names i (v ∷ vs) = do
  entry ← normalize_entry names i v
  rest ← normalize_entries (entry.template ∷ names) (suc i) vs
  ok (entry ∷ rest)

-- `normalizeCatalog`
unfoldable pub normalize_catalog : Value → Result (List Entry)
normalize_catalog catalog = do
  check
      (is_array catalog && leb 1 (length (elements catalog)) && leb (length (elements catalog)) 64)
      "catalog must contain 1 to 64 installed templates"
  normalize_entries [] 0 (elements catalog)

-- `catalogEntryForAgent`
unfoldable pub catalog_entry_for_agent : Entry → Value
catalog_entry_for_agent e = object (
    ("template", str e.template)
    ∷ ("templateDigest", str e.template_digest)
    ∷ ("acceptedOptions", arr (texts e.accepted_options))
    ∷ ("kind", str e.kind)
    ∷ ("roles", arr (texts e.roles))
    ∷ (bound_name e.kind, e.bound)
    ∷ [])

-- a vote: a receipt of an agent that was accepted
pub record Vote : Type 0 where
  pub template : String
  pub template_digest : String
  pub reason : String

abbrev pub named : String → Entry → Bool
named template e = text_eq e.template template

-- the installed entry that a receipt must name, with its digest
unfoldable pub vote_for : Value → Option Entry → Result Vote
vote_for receipt none =
    err ("agent selected unknown template: " <> text_of (get receipt "template"))
vote_for receipt (some installed) = do
  check (text_eq (text_of (get receipt "templateDigest")) installed.template_digest)
      ("agent selected a mismatched digest for template: " <> text_of (get receipt "template"))
  ok (record {
    template = installed.template;
    template_digest = installed.template_digest;
    reason = without_first_control (text_of (get receipt "reason"));
  })

-- `receiptForAgent`. A reason has no unsafe character and at most 2000 bytes here, so `safeReason`
-- does not shorten it.
unfoldable pub receipt_for_agent : Value → List Entry → Result Vote
receipt_for_agent receipt catalog = do
  assert_plain_object receipt "agent receipt"
  assert_only_fields receipt ("version" ∷ "template" ∷ "templateDigest" ∷ "reason" ∷ [])
      "agent receipt"
  check (is_nat (get receipt "version") 1) "agent receipt version must be 1"
  check (text_passes matches_template_name (get receipt "template"))
      "agent receipt template is invalid"
  check (text_passes (matches_hex 64) (get receipt "templateDigest"))
      "agent receipt templateDigest must be a SHA-256 hex digest"
  assert_text (get receipt "reason") "agent receipt reason" 2000
  vote_for receipt (find (named (text_of (get receipt "template"))) catalog)

-- `validateOrganizerReceipt`
unfoldable pub validate_organizer_receipt : Value → Value → Result Vote
validate_organizer_receipt receipt catalog = do
  entries ← normalize_catalog catalog
  receipt_for_agent receipt entries

-- `validateTemplateCatalog`
unfoldable pub validate_template_catalog : Value → Result (List Value)
validate_template_catalog catalog = do
  entries ← normalize_catalog catalog
  ok (map catalog_entry_for_agent entries)
