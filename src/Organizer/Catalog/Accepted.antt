-- ===== src/Organizer/Catalog/Accepted.antt =====
-- What an entry of a catalog that `normalizeCatalog` (src/organize.mjs) accepts holds.
use bimo.Base.{
  ok-injective, arith, ℕ, suc, ◌≤◌, String, Bool, true, false, not, List, [], ◌∷◌, length, All, leb,
  codes, mem_text, text_eq, ok, check-then, >>=-eq-ok, >>-eq-ok, ◌<>◌, ◌≡◌, inl, inr, refl, ap,
  subst, Bool-cases, ◌&&◌, ◌||◌,
}
use bimo.Js.{Value, get, is_array, elements, is_text, in_range, nat_of, text_of}
use bimo.Contract.Fields.{assert_plain_object, at_index, matches_hex}
use bimo.Organizer.Catalog.{
  matches_template_name, matches_option_name, assert_only_fields, text_passes, no_repeats,
  matching_texts, is_given, given_option_names, normalize_option_names, Entry, bound_name,
  normalize_entry,
}

-- what an entry of the catalog promises to an agent
pub record EntryAccepted (e : Entry) : Type 0 where
  pub kind : (text_eq e.kind "workflow" || text_eq e.kind "engineering-pod") ≡ true
  pub template : matches_template_name (codes e.template) ≡ true
  pub template_digest : matches_hex 64 (codes e.template_digest) ≡ true
  pub roles : All (λ r. matches_template_name (codes r) ≡ true) e.roles
  pub roles_length : (1 ≤ length e.roles) × (length e.roles ≤ 64)
  pub roles_differ : no_repeats e.roles ≡ true
  pub bound : (1 ≤ nat_of e.bound) × (nat_of e.bound ≤ 100)
  pub options : All (λ o. matches_option_name (codes o) ≡ true) e.accepted_options
  pub options_length : length e.accepted_options ≤ 32
  pub options_differ : no_repeats e.accepted_options ≡ true

text_passes-matches :
    (pattern : List ℕ → Bool) (v : Value)
    → text_passes pattern v ≡ true
    → pattern (codes (text_of v)) ≡ true
text_passes-matches pattern v h = ground (arith, h)

matching_texts-All :
    (pattern : List ℕ → Bool) (label what : String) (i : ℕ) (vs : List Value) (ts : List String)
    → matching_texts pattern label what i vs ≡ ok ts
    → All (λ t. pattern (codes t) ≡ true) ts × (length ts ≡ length vs)
unfolding matching_texts
matching_texts-All pattern label what i [] ts h =
    subst (λ us. All (λ t. pattern (codes t) ≡ true) us × (length us ≡ 0)) (ok-injective h)
      (tt, refl)
matching_texts-All pattern label what i (v ∷ vs) ts h =
    let (passes, h1) = check-then (text_passes pattern v) _ _ h in
    let (rest, later, same) = >>=-eq-ok (matching_texts pattern label what (suc i) vs) _ h1 in
    let (matched, counted) = matching_texts-All pattern label what (suc i) vs rest later in
    subst (λ us. All (λ t. pattern (codes t) ≡ true) us × (length us ≡ suc (length vs)))
      (ok-injective same) ((text_passes-matches pattern v passes, matched), ap suc counted)

OptionsAccepted : List String → Type 0
OptionsAccepted os =
    All (λ o. matches_option_name (codes o) ≡ true) os × (length os ≤ 32) × (no_repeats os ≡ true)

given_option_names-OptionsAccepted :
    (v : Value) (label : String) (os : List String)
    → given_option_names v label ≡ ok os
    → OptionsAccepted os
unfolding given_option_names OptionsAccepted
given_option_names-OptionsAccepted v label os h =
    let (short, h1) = check-then (is_array v && leb (length (elements v)) 32) _ _ h in
    let (names, matching, h2) =
      >>=-eq-ok
        (matching_texts matches_option_name label " is not a safe option name" 0 (elements v)) _
        h1 in
    let (differ, same) = check-then (no_repeats names) _ _ h2 in
    let (matched, counted) =
      matching_texts-All matches_option_name label " is not a safe option name" 0 (elements v) names
        matching in
    subst OptionsAccepted (ok-injective same) (matched, ground (arith, short, counted), differ)

normalize_option_names-OptionsAccepted :
    (v : Value) (label : String) (os : List String)
    → normalize_option_names v label ≡ ok os
    → OptionsAccepted os
unfolding normalize_option_names OptionsAccepted
normalize_option_names-OptionsAccepted v label os h = elim (Bool-cases (is_given v)) [
  | inl given ↦ given_option_names-OptionsAccepted v label os (ground (arith, h, given))
  | inr missing ↦
      let none_given : ok [] ≡ ok os = ground (arith, h, missing) in
      subst OptionsAccepted (ok-injective none_given) (tt, omega arith, refl)
]

in_range-bounds : (v : Value) (hi : ℕ) → in_range v 1 hi ≡ true → (1 ≤ nat_of v) × (nat_of v ≤ hi)
in_range-bounds v hi h = ground (arith, h)

pub normalize_entry-EntryAccepted :
    (names : List String) (i : ℕ) (v : Value) (e : Entry)
    → normalize_entry names i v ≡ ok e
    → EntryAccepted e × (mem_text e.template names ≡ false)
unfolding normalize_entry OptionsAccepted
normalize_entry-EntryAccepted names i v e h =
    let label = at_index "catalog" i in
    let bound = bound_name (text_of (get v "kind")) in
    let (_, h1) = >>-eq-ok (assert_plain_object v label) _ h in
    let (kind, h2) =
      check-then (is_text (get v "kind") "workflow" || is_text (get v "kind") "engineering-pod") _ _
        h1 in
    let (_, h3) =
      >>-eq-ok
        (assert_only_fields v
          ("template" ∷ "templateDigest" ∷ "acceptedOptions" ∷ "kind" ∷ "roles" ∷ bound ∷ []) label)
        _ h2 in
    let (template, h4) = check-then (text_passes matches_template_name (get v "template")) _ _ h3 in
    let (digest, h5) = check-then (text_passes (matches_hex 64) (get v "templateDigest")) _ _ h4 in
    let (fresh, h6) = check-then (not (mem_text (text_of (get v "template")) names)) _ _ h5 in
    let (counted, h7) =
      check-then
        (is_array (get v "roles")
          && leb 1 (length (elements (get v "roles")))
          && leb (length (elements (get v "roles"))) 64)
        _ _ h6 in
    let (roles, matching, h8) =
      >>=-eq-ok
        (matching_texts matches_template_name (label <> ".roles") " is invalid" 0
          (elements (get v "roles")))
        _ h7 in
    let (differ, h9) = check-then (no_repeats roles) _ _ h8 in
    let (bounded, h10) = check-then (in_range (get v bound) 1 100) _ _ h9 in
    let (options, accepted, same) =
      >>=-eq-ok (normalize_option_names (get v "acceptedOptions") (label <> ".acceptedOptions")) _
        h10 in
    let (matched, as_many) =
      matching_texts-All matches_template_name (label <> ".roles") " is invalid" 0
        (elements (get v "roles")) roles matching in
    let (safe, few, apart) =
      normalize_option_names-OptionsAccepted (get v "acceptedOptions") (label <> ".acceptedOptions")
        options accepted in
    subst (λ x. EntryAccepted x × (mem_text x.template names ≡ false)) (ok-injective same)
      (
        record {
          kind = ground (arith, kind);
          template = text_passes-matches matches_template_name (get v "template") template;
          template_digest = text_passes-matches (matches_hex 64) (get v "templateDigest") digest;
          roles = matched;
          roles_length = ground (arith, counted, as_many);
          roles_differ = differ;
          bound = in_range-bounds (get v bound) 100 bounded;
          options = safe;
          options_length = few;
          options_differ = apart;
        },
        ground (arith, fresh),
      )
