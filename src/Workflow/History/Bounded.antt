-- ===== src/Workflow/History/Bounded.antt =====
-- The texts of src/workflow.mjs that keep to a number of bytes.
use Prim.Native.Char.{Char, len_utf8}
use Prim.Native.String.len
use Prim.Native.String.{len}
use text.Mathlib.TextPositions.{len-append}
use bimo.Base.{
  leb→le, arith, ℕ, ◌+◌, ◌-◌, ◌/◌, ◌≤◌, String, Bool, true, false, List, [], ◌∷◌, map, reverse,
  keep, leb, ◌<>◌, ok, ◌≡◌, refl, if◌then◌else◌,
}
use bimo.Js.{Value}
use bimo.Workflow.History.{
  utf8_prefix_from, utf8_prefix, backwards, utf8_suffix_from, utf8_suffix, marker, truncate_history,
  history_from, candidate_text, current_history, receipt_of_event, is_type,
  max_current_history_bytes, build_prompt, max_agent_prompt_bytes,
}

len-cons : (c : Char) (s : String) → len (String.◌∷◌ c s) ≡ len_utf8 c + len s
len-cons c s = len.cons c s

-- a conditional has what both of its branches have, each under its test
if-either {ℓ} :
    {A : Type ℓ} (P : A → Type 0) (c : Bool) (x y : A)
    → (c ≡ true → P x)
    → (c ≡ false → P y)
    → P (if c then x else y)
if-either P true x y f g = f refl
if-either P false x y f g = g refl

prefix-le :
    (bytes : ℕ) (s : String) (maximum : ℕ)
    → bytes ≤ maximum
    → bytes + len (utf8_prefix_from bytes s maximum) ≤ maximum
prefix-le bytes String.[] maximum h = omega (arith, h)
prefix-le bytes (String.◌∷◌ c s) maximum h =
    if-either (λ t. bytes + len t ≤ maximum) (leb (bytes + len_utf8 c) maximum) _ _
      (λ e. omega (
        arith,
        len-cons c (utf8_prefix_from (bytes + len_utf8 c) s maximum),
        prefix-le (bytes + len_utf8 c) s maximum (leb→le _ _ e),
      ))
      (λ e. omega (arith, h))

suffix-le :
    (bytes : ℕ) (cs : List Char) (maximum : ℕ) (text : String)
    → bytes ≤ maximum
    → len text ≤ bytes
    → len (utf8_suffix_from bytes cs maximum text) ≤ maximum
suffix-le bytes [] maximum text h k = omega (arith, h, k)
suffix-le bytes (c ∷ cs) maximum text h k =
    if-either (λ t. len t ≤ maximum) (leb (bytes + len_utf8 c) maximum) _ _
      (λ e.
        suffix-le (bytes + len_utf8 c) cs maximum (String.◌∷◌ c text) (leb→le _ _ e)
          (omega (arith, k, len-cons c text)))
      (λ e. omega (arith, h, k))

cut-le :
    (s : String) (maximum : ℕ)
    → len marker ≤ maximum
    → len (
        utf8_prefix s ((maximum - len marker) / 4)
        <> marker
        <> utf8_suffix s (maximum - len marker - (maximum - len marker) / 4))
      ≤ maximum
cut-le s maximum room =
    let head = (maximum - len marker) / 4 in
    let tail = maximum - len marker - head in
    omega (
      arith,
      room,
      prefix-le 0 s head (omega arith),
      suffix-le 0 (backwards s []) tail "" (omega arith) (omega arith),
      len-append (utf8_prefix s head) (marker <> utf8_suffix s tail),
      len-append marker (utf8_suffix s tail),
    )

-- A truncated history keeps to its bytes, whatever its characters: a text that fits is the same,
-- one that does not is cut to at most the maximum, if the maximum has room for the mark.
pub truncate_history-le :
    (s : String) (maximum : ℕ)
    → len marker ≤ maximum
    → (len (truncate_history s maximum) ≤ maximum)
      × (len s ≤ maximum → truncate_history s maximum ≡ s)
unfolding truncate_history
truncate_history-le s maximum room = (
  if-either (λ t. len t ≤ maximum) (leb (len s) maximum) _ _ (λ e. leb→le _ _ e)
      (λ e. cut-le s maximum room),
  λ h. ground (arith, h),
)

history-le :
    (earlier included : List Value) (rendered : String)
    → len rendered ≤ max_current_history_bytes
    → len (history_from earlier included rendered) ≤ max_current_history_bytes
unfolding history_from
history-le [] included rendered h = h
history-le (receipt ∷ earlier) included rendered h =
    if-either (λ t. len t ≤ max_current_history_bytes)
      (leb (len (candidate_text earlier (receipt ∷ included))) max_current_history_bytes) _ _
      (λ e. history-le earlier (receipt ∷ included) _ (leb→le _ _ e)) (λ e. h)

-- The history of the current run keeps to 98304 bytes, and a prompt that is built keeps to 258048.
pub build_prompt-le :
    (role_name instructions task previous : String) (events : List Value) (allowed : List String)
    (prompt : String)
    → build_prompt role_name instructions task previous events allowed ≡ ok prompt
    → (len (current_history events) ≤ max_current_history_bytes)
      × (len prompt ≤ max_agent_prompt_bytes)
unfolding current_history build_prompt
build_prompt-le role_name instructions task previous events allowed prompt h = (
  history-le (reverse (map receipt_of_event (keep (is_type "role.finished") events))) [] "None."
      (omega arith),
  ground (arith, h),
)
