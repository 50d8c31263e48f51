-- ===== src/Store/Records.antt =====
-- The checks on values, names and times of src/pod-store.mjs.
use bimo.Base.{
  ℕ, suc, String, len, Bool, true, false, List, [], ◌∷◌, Option, none, some, ◌<>◌, leb, mem_text,
  codes, length, is_lower, is_upper, is_digit, all, ◌==◌, ◌&&◌, ◌||◌, Result, ok, err, check, ◌>>=◌,
  ◌>>◌,
}
use bimo.Js.{
  Value, undefined, arr, obj, other, Items, nil, cons, Fields, end, field, is_plain_object,
  in_range, stringify, pretty_from, max_safe_integer,
}

abbrev pub Checked : Type 0
Checked = Result (Unit {0})

unfoldable pub plain_object : Value → String → Checked
plain_object v label = check (is_plain_object v) (label <> " must be a plain object")

abbrev max_json_depth : ℕ
max_json_depth = 32

abbrev within_depth : ℕ → String → Checked
within_depth d label = check (leb d max_json_depth) (label <> " exceeds maximum JSON depth")

-- `validateJson`. A value of the model is a tree, so the test for cycles has no counterpart. The own
-- properties of an array are its elements and, last, its `length`, which is one level deeper too.
unfoldable mutual
  pub validate_json : String → ℕ → Value → Checked
  validate_json label d undefined =
      within_depth d label >> err (label <> " must contain only JSON values")
  validate_json label d (other n) =
      within_depth d label >> err (label <> " must contain only JSON values")
  validate_json label d (arr vs) = within_depth d label >> validate_items label (suc d) vs
  validate_json label d (obj fs) = within_depth d label >> validate_fields label (suc d) fs
  validate_json label d _ = within_depth d label

  validate_items : String → ℕ → Items → Checked
  validate_items label d nil = within_depth d label
  validate_items label d (cons v vs) = validate_json label d v >> validate_items label d vs

  validate_fields : String → ℕ → Fields → Checked
  validate_fields label d end = ok tt
  validate_fields label d (field k v fs) = validate_json label d v >> validate_fields label d fs

-- `cloneJson`: the copy of a JSON value is the same value of the model
unfoldable pub clone_json : Value → String → Result Value
clone_json v label = validate_json label 0 v >> ok v

abbrev pub max_record_bytes : ℕ
max_record_bytes = 65536

-- `serializeRecord`, compact and pretty: the stored value
unfoldable pub serialize_record : Value → String → Result Value
serialize_record v label = do
  cloned ← clone_json v label
  check (leb (len (stringify cloned <> "\n")) max_record_bytes)
      (label <> " must serialize to at most 65536 bytes")
  ok cloned

unfoldable pub serialize_pretty : Value → String → Result Value
serialize_pretty v label = do
  cloned ← clone_json v label
  check (leb (len (pretty_from 0 cloned <> "\n")) max_record_bytes)
      (label <> " must serialize to at most 65536 bytes")
  ok cloned

unfoldable pub attempt_number : Value → Checked
attempt_number v = check (in_range v 1 10) "attempt must be between 1 and 10"

unfoldable pub inbox_owner : String → Checked
inbox_owner s =
    check (mem_text s ("engineering-a" ∷ "engineering-b" ∷ []))
      "inbox owner must be engineering-a or engineering-b"

unfoldable pub cursor : Value → Checked
cursor v = check (in_range v 0 max_safe_integer) "afterSequence must be a non-negative safe integer"

-- `timestamp(now)`: the reading in ISO form, or `none` where `now` returns no valid Date
unfoldable pub timestamp : Option String → Result String
timestamp none = err "now must return a valid Date"
timestamp (some t) = ok t

-- /^[A-Za-z0-9][A-Za-z0-9._-]{0,79}$/
abbrev is_id_start : ℕ → Bool
is_id_start c = is_upper c || is_lower c || is_digit c

abbrev matches_run_codes : List ℕ → Bool
matches_run_codes [] = false
matches_run_codes (c ∷ cs) =
    is_id_start c
    && all (λ d. is_id_start d || d == b'.' || d == b'_' || d == b'-') cs
    && leb (length cs) 79

abbrev pub matches_run_id : String → Bool
matches_run_id s = matches_run_codes (codes s)

-- /^[a-z][a-z0-9]*(?:\.[a-z][a-z0-9]*)*$/: after a dot a letter must follow
abbrev mutual
  after_dot : List ℕ → Bool
  after_dot [] = false
  after_dot (c ∷ cs) = is_lower c && inside cs

  inside : List ℕ → Bool
  inside [] = true
  inside (c ∷ cs) = (is_lower c || is_digit c) && inside cs || c == b'.' && after_dot cs

abbrev pub matches_event_type : String → Bool
matches_event_type s = after_dot (codes s)
