-- ===== src/Workflow/Receipt/Accepted.antt =====
-- What an accepted receipt of src/workflow.mjs is.
use Prim.Native.Char.{code}
use bimo.Base.{
  codes, ◌++◌, ◌⊎◌, inl, inr, Bool-cases, ok-injective, arith, ℕ, suc, ◌≤◌, String, Bool, true,
  false, List, [], ◌∷◌, length, len, ok, ◌≡◌, refl, sym, ap, subst, ends_with_code, if◌then◌else◌,
  any, from_ok, not, leb, ◌&&◌, ◌||◌, split_slash, >>=-eq-ok, is_absolute,
}
use bimo.Js.{
  Value, str, arr, obj, texts, get, has_own, set_field, fields_of, elements, text_of, stringify,
}
use bimo.Contract.Fields.{assert_text, at_index}
use bimo.Workflow.Fields.{is_step, without_last, normalize_receipt_file, assert_relative_file}
use bimo.Workflow.Receipt.{normalize_files, validate_receipt, max_receipt_bytes}
use bimo.Js.{is_truthy}

-- a path below the workspace: relative, and no segment of it is empty, "." or ".."
abbrev pub is_inside : String → Bool
is_inside f = not (is_absolute f) && not (any is_step (split_slash f))

relative_file-inside :
    (v : Value) (label : String)
    → assert_relative_file v label ≡ ok tt
    → is_inside (text_of v) ≡ true
unfolding assert_relative_file
relative_file-inside v label h = ground arith

-- the path is the reported text, less a slash at its end
abbrev pub Reports : Value → String → Type 0
Reports v f = (is_inside f ≡ true) × ((text_of v ≡ f) ⊎ (codes (text_of v) ≡ codes f ++ b'/' ∷ []))

-- the paths are those reported, one by one and in order
abbrev pub ReportsAll : List Value → List String → Type 0
ReportsAll [] [] = Unit
ReportsAll (v ∷ vs) (f ∷ fs) = Reports v f × ReportsAll vs fs
ReportsAll _ _ = ⊥

without_last-codes :
    (s : String) → ends_with_code b'/' s ≡ true → codes s ≡ codes (without_last s) ++ b'/' ∷ []
without_last-codes String.[] h = cc
without_last-codes (String.◌∷◌ c String.[]) h = ground (arith, h)
without_last-codes (String.◌∷◌ c (String.◌∷◌ d s)) h =
    ap (λ cs. code c ∷ cs) (without_last-codes (String.◌∷◌ d s) h)

-- `normalizeReceiptFile` up to its checks
abbrev trimmed : String → String
trimmed s = if ends_with_code b'/' s then without_last s else s

trimmed-cases : (s : String) → (s ≡ trimmed s) ⊎ (codes s ≡ codes (trimmed s) ++ b'/' ∷ [])
trimmed-cases s = elim (Bool-cases (ends_with_code b'/' s)) [
  | inl slash ↦ inr (rw slash (without_last-codes s slash))
  | inr other ↦ inl (rw other refl)
]

receipt_file-Reports :
    (v : Value) (label f : String) → normalize_receipt_file v label ≡ ok f → Reports v f
unfolding normalize_receipt_file
receipt_file-Reports v label f h =
    let normal = trimmed (text_of v) in
    let (_, _, rest) = >>=-eq-ok (assert_text v label 512) _ h in
    let (_, checked, same) = >>=-eq-ok (assert_relative_file (str normal) label) _ rest in
    subst (Reports v) (ok-injective same)
      (relative_file-inside (str normal) label checked, trimmed-cases (text_of v))

normalized :
    (i : ℕ) (vs : List Value) (files : List String)
    → normalize_files i vs ≡ ok files
    → ReportsAll vs files
unfolding normalize_files
normalized i [] files h = subst (ReportsAll []) (ok-injective h) tt
normalized i (v ∷ vs) files h =
    let (f, first, rest) = >>=-eq-ok (normalize_receipt_file v (at_index "receipt.files" i)) _ h in
    let (fs, later, same) = >>=-eq-ok (normalize_files (suc i) vs) _ rest in
    subst (ReportsAll (v ∷ vs)) (ok-injective same)
      (receipt_file-Reports v (at_index "receipt.files" i) f first, normalized (suc i) vs fs later)

ReportsAll-length : (vs : List Value) (fs : List String) → ReportsAll vs fs → length fs ≡ length vs
ReportsAll-length [] [] h = refl
ReportsAll-length (v ∷ vs) (f ∷ fs) (p, h) = ap suc (ReportsAll-length vs fs h)
ReportsAll-length [] (f ∷ fs) h = absurd h
ReportsAll-length (v ∷ vs) [] h = absurd h

receipt-stages :
    (receipt role result : Value)
    → validate_receipt receipt role ≡ ok result
    → (files : List String) × (normalize_files 0 (elements (get receipt "files")) ≡ ok files)
      × (has_own (get role "on") (text_of (get receipt "outcome")) ≡ true)
      × (length (elements (get receipt "files")) ≤ 100)
      × ((is_truthy (get role "write") || leb (length files) 0) ≡ true)
      × (len (stringify (obj (set_field "files" (arr (texts files)) (fields_of receipt))))
          ≤ max_receipt_bytes)
      × (result ≡ obj (set_field "files" (arr (texts files)) (fields_of receipt)))
unfolding validate_receipt
receipt-stages receipt role result h = (
  from_ok [] (normalize_files 0 (elements (get receipt "files"))),
  ground arith,
  ground arith,
  ground arith,
  ground arith,
  ground arith,
  ground arith,
)

pub record ReceiptAccepted (receipt role result : Value) : Type 0 where
  pub files : List String
  -- the outcome is one of the role's
  pub outcome : has_own (get role "on") (text_of (get receipt "outcome")) ≡ true
  -- each path is inside the workspace, and is what was reported, less a slash at its end
  pub reported : ReportsAll (elements (get receipt "files")) files
  pub count : length files ≤ 100
  pub read_only : is_truthy (get role "write") ≡ false → length files ≡ 0
  -- the receipt comes back with the paths in their place
  pub same : result ≡ obj (set_field "files" (arr (texts files)) (fields_of receipt))
  pub bytes : len (stringify result) ≤ max_receipt_bytes

-- An accepted receipt names an outcome of the role, reports at most 100 files, and none if the role
-- only reads; it comes back with its files replaced by the reported paths in their order, each below
-- the workspace and less a slash at its end, nothing else changed, and prints in at most 61440 bytes.
pub validate_receipt-ReceiptAccepted :
    (receipt role result : Value)
    → validate_receipt receipt role ≡ ok result
    → ReceiptAccepted receipt role result
validate_receipt-ReceiptAccepted receipt role result h =
    let (fs, made, known, counted, empty, small, same) = receipt-stages receipt role result h in
    let reported = normalized 0 (elements (get receipt "files")) fs made in
    let count = ReportsAll-length (elements (get receipt "files")) fs reported in
    record {
      files = fs;
      outcome = known;
      reported = reported;
      count = omega (arith, count);
      read_only = λ r. ground (arith, empty, r);
      same = same;
      bytes = subst (λ v. len (stringify v) ≤ max_receipt_bytes) (sym same) small;
    }
