-- ===== src/Contract/Fields.antt =====
-- The checks on fields of src/pod-contract.mjs. A `fail` is an `err` with the source's message.
use bimo.Base.{
  ℕ, suc, String, len, Bool, true, false, not, ◌&&◌, ◌||◌, List, [], ◌∷◌, length, all, leb,
  mem_text, every_code, some_code, is_space, is_unsafe_control, is_upper, is_lower, is_digit,
  is_hex, codes, ◌<>◌, decimal, Result, ok, err, check, each, each_from, ◌>>◌, ◌==◌, ◌++◌,
}
use bimo.Js.{
  Value, str, is_plain_object, is_array, elements, keys_of, has_own, in_range, strict_equal,
  text_of,
}

abbrev pub Checked : Type 0
Checked = Result (Unit {0})

-- names joined for a message
abbrev pub listed : List String → String
listed [] = ""
listed (s ∷ []) = s
listed (s ∷ t ∷ rest) = s <> ", " <> listed (t ∷ rest)

-- `${label}[${index}]`
abbrev pub at_index : String → ℕ → String
at_index label i = label <> "[" <> decimal i <> "]"

unfoldable pub assert_plain_object : Value → String → Checked
assert_plain_object v label = check (is_plain_object v) (label <> " must be a plain object")

unfoldable pub assert_exact_fields : Value → List String → String → Checked
assert_exact_fields v allowed label = do
  each (λ f. check (mem_text f allowed) ("unknown " <> label <> " field: " <> f)) (keys_of v)
  each (λ f. check (has_own v f) (label <> " requires " <> f)) allowed

unfoldable pub assert_integer : Value → ℕ → ℕ → String → Checked
assert_integer v minimum maximum label =
    check (in_range v minimum maximum)
      (label <> " must be an integer from " <> decimal minimum <> " to " <> decimal maximum)

-- `!value.trim()`
abbrev pub is_blank : String → Bool
is_blank s = every_code is_space s

unfoldable pub assert_text : Value → String → ℕ → Checked
assert_text (str s) label maximum = do
  check (not (is_blank s) && leb (len s) maximum)
      (label <> " must be a non-empty string no larger than " <> decimal maximum <> " bytes")
  check (not (some_code is_unsafe_control s)) (label <> " contains unsafe control characters")
assert_text _ label maximum =
    err (label <> " must be a non-empty string no larger than " <> decimal maximum <> " bytes")

unfoldable pub assert_fixed_keys : Value → List String → String → Checked
assert_fixed_keys v expected label =
    check (length (keys_of v) == length expected && all (has_own v) expected)
      (label <> " must contain exactly " <> listed expected)

-- /^[A-Z][A-Z0-9-]{0,63}$/
abbrev pub matches_trace_id : List ℕ → Bool
matches_trace_id [] = false
matches_trace_id (c ∷ cs) =
    is_upper c && all (λ d. is_upper d || is_digit d || d == b'-') cs && leb (length cs) 63

-- /^[a-z][a-z0-9-]{0,31}$/
abbrev pub matches_name : List ℕ → Bool
matches_name [] = false
matches_name (c ∷ cs) =
    is_lower c && all (λ d. is_lower d || is_digit d || d == b'-') cs && leb (length cs) 31

-- /^[a-f0-9]{n}$/
abbrev pub matches_hex : ℕ → List ℕ → Bool
matches_hex n cs = all is_hex cs && length cs == n

-- /^(?:[a-f0-9]{40}|[a-f0-9]{64})$/
abbrev pub matches_git_sha : List ℕ → Bool
matches_git_sha cs = matches_hex 40 cs || matches_hex 64 cs

-- `typeof value === "string" && PATTERN.test(value)`
abbrev pub text_matches : (List ℕ → Bool) → Value → Bool
text_matches pattern (str s) = pattern (codes s)
text_matches pattern _ = false

unfoldable pub assert_trace_id : Value → String → Checked
assert_trace_id v label =
    check (text_matches matches_trace_id v) (label <> " must be a stable uppercase ID")

unfoldable pub assert_git_sha : Value → String → Checked
assert_git_sha v label =
    check (text_matches matches_git_sha v)
      (label <> " must be a lowercase 40- or 64-character Git SHA")

-- the loop of `validateIdArray` from index i, with the IDs seen; `known` restricts the IDs
unfoldable pub ids_from : List String → String → ℕ → List String → List Value → Result (List String)
ids_from known label i seen [] = ok seen
ids_from known label i seen (v ∷ vs) = do
  assert_trace_id v (at_index label i)
  check (not (mem_text (text_of v) seen)) (label <> " contains duplicate ID: " <> text_of v)
  check (mem_text (text_of v) known) (label <> " references unknown ID: " <> text_of v)
  ids_from known label (suc i) (seen ++ text_of v ∷ []) vs

-- `validateIdArray`: the set of IDs, in order
unfoldable pub validate_id_array : Value → List String → String → ℕ → Result (List String)
validate_id_array values known label maximum = do
  check
      (is_array values
        && leb 1 (length (elements values))
        && leb (length (elements values)) maximum)
      (label <> " must contain 1 to " <> decimal maximum <> " stable IDs")
  ids_from known label 0 [] (elements values)

-- the arrays have one length and `===` elements
abbrev pub same_values : List Value → List Value → Bool
same_values [] [] = true
same_values (v ∷ vs) (w ∷ ws) = strict_equal v w && same_values vs ws
same_values _ _ = false

unfoldable pub assert_exact_string_array : Value → Value → String → Checked
assert_exact_string_array actual expected label =
    check (is_array actual && same_values (elements actual) (elements expected))
      (label <> " must exactly match the attempt plan")

unfoldable pub validate_evidence : Value → String → Checked
validate_evidence values label = do
  check (is_array values && leb 1 (length (elements values)) && leb (length (elements values)) 20)
      (label <> " must contain 1 to 20 strings")
  each_from 0 (λ i v. assert_text v (at_index label i) 2000) (elements values)
