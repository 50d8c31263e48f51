-- ===== src/Workflow/Fields.antt =====
-- The checks on fields of src/workflow.mjs that are its own; those that it shares with
-- src/pod-contract.mjs, word by word, are Contract/Fields.
use Prim.Native.Char.{code}
use bimo.Base.{
  ℕ, String, Bool, not, List, [], ◌∷◌, length, any, leb, text_eq, ◌<>◌, decimal, Result, ok, check,
  each_from, ◌>>◌, ◌&&◌, ◌||◌, ◌+◌, if◌then◌else◌, is_absolute, includes_code, split_slash,
  ends_with_code, codes, starts, ltb, all, ◌==◌, is_upper, is_lower, is_digit,
}
use bimo.Js.{Value, str, Fields, field, end, obj, is_array, elements, text_of, to_text}
use bimo.Contract.Fields.{Checked, assert_text, at_index, matches_name}
use bimo.Contract.Paths.{backslash}

-- `Object.entries(value)` of a plain object
abbrev pub entries : Fields → List (String × Value)
entries end = []
entries (field k v fs) = (k, v) ∷ entries fs

abbrev pub entries_of : Value → List (String × Value)
entries_of (obj fs) = entries fs
entries_of _ = []

abbrev pub is_step : String → Bool
is_step s = text_eq s "" || text_eq s "." || text_eq s ".."

-- `assertRelativeFile`
unfoldable pub assert_relative_file : Value → String → Checked
assert_relative_file v label = do
  assert_text v label 512
  check (not (includes_code backslash (text_of v) || is_absolute (text_of v)))
      (label <> " must be a relative workspace path")
  check (not (any is_step (split_slash (text_of v))))
      (label <> " must be a relative workspace path")

-- `value.slice(0, -1)`, where the value ends with the slash
abbrev pub without_last : String → String
without_last String.[] = ""
without_last (String.◌∷◌ c String.[]) = ""
without_last (String.◌∷◌ c (String.◌∷◌ d s)) = String.◌∷◌ c (without_last (String.◌∷◌ d s))

-- `normalizeReceiptFile`
unfoldable pub normalize_receipt_file : Value → String → Result String
normalize_receipt_file v label = do
  assert_text v label 512
  let normalized = if ends_with_code b'/' (text_of v) then without_last (text_of v) else text_of v
  assert_relative_file (str normalized) label
  ok normalized

-- `validateStringArray`
unfoldable pub validate_string_array : Value → String → ℕ → ℕ → ℕ → Checked
validate_string_array values label minimum maximum item_bytes = do
  check
      (is_array values
        && leb minimum (length (elements values))
        && leb (length (elements values)) maximum)
      (label <> " must contain " <> decimal minimum <> " to " <> decimal maximum <> " strings")
  each_from 0 (λ i v. assert_text v (at_index label i) item_bytes) (elements values)

-- `value.length`: the UTF-16 units of a text
abbrev pub units : String → ℕ
units String.[] = 0
units (String.◌∷◌ c s) = (if ltb (code c) 65536 then 1 else 2) + units s

-- `value.includes(part)`, on code points
abbrev pub includes_codes : List ℕ → List ℕ → Bool
includes_codes part [] = starts [] part
includes_codes part (c ∷ cs) = starts (c ∷ cs) part || includes_codes part cs

-- `NAME.test(value)` and `OUTCOME.test(value)`
unfoldable pub is_name : Value → Bool
is_name v = matches_name (codes (to_text v))

-- /^[A-Za-z0-9._-]+$/
abbrev pub matches_output_directory : List ℕ → Bool
matches_output_directory cs =
    leb 1 (length cs)
    && all (λ c. is_upper c || is_lower c || is_digit c || c == b'.' || c == b'_' || c == b'-') cs
