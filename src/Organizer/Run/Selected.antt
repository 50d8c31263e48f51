-- ===== src/Organizer/Run/Selected.antt =====
-- What the selection of src/organize.mjs rests on.
use bimo.Base.{
  ok-injective, ℕ, suc, ◌*◌, ◌≤◌, ◌<◌, String, Bool, List, [], ◌∷◌, map, find, length, All, text_eq,
  eq_iff, Option, none, some, Option-cases, Result, ok, err, >>=-eq-ok, >>-eq-ok, check-then, ◌≡◌,
  inl, inr, refl, sym, ap, subst, subst₂, ◌∙◌, Bool-cases,
}
use bimo.Js.{Value, get, text_of, is_nat}
use bimo.Contract.Fields.{assert_plain_object, assert_text, matches_hex}
use bimo.Organizer.Catalog.Found.{find-here, find-skip}
use bimo.Organizer.Catalog.{
  assert_only_fields, text_passes, matches_template_name, Entry, Vote, named, vote_for,
  receipt_for_agent,
}
use bimo.Organizer.Vote.{choose_template}
use bimo.Organizer.Vote.Majority.{votes_for, choose_template-majority}
use bimo.Organizer.Run.{
  for_agent, receipt_in, votes_from, template_of, Selection, selection, select,
}

-- the vote names an installed template with its digest
abbrev pub Installed : List Entry → Vote → Type 0
Installed catalog v =
    (e : Entry) × (find (named v.template) catalog ≡ some e)
    × (v.template_digest ≡ e.template_digest)

some-injective {ℓ} : {A : Type ℓ} {a b : A} → some a ≡ some b → a ≡ b
some-injective h = cc

find-named :
    (t : String) (catalog : List Entry) (e : Entry)
    → find (named t) catalog ≡ some e
    → e.template ≡ t
find-named t [] e h = cc
find-named t (d ∷ rest) e h = elim (Bool-cases (text_eq d.template t)) [
  | inl same ↦
      ap (λ (x : Entry). x.template) (sym (some-injective (sym (find-here t d rest same) ∙ h)))
      ∙ (eq_iff d.template t).0 same
  | inr apart ↦ find-named t rest e (sym (find-skip t d rest apart) ∙ h)
]

missing_vote : (receipt : Value) {v : Vote} → vote_for receipt none ≡ ok v → ⊥
unfolding vote_for
missing_vote receipt h = cc

-- the answer of an agent asks for the template of the vote, with the digest that is installed
abbrev pub AsksFor : Value → Vote → Type 0
AsksFor receipt v =
    (text_of (get receipt "template") ≡ v.template)
    × (text_of (get receipt "templateDigest") ≡ v.template_digest)

vote_for-Installed :
    (catalog : List Entry) (receipt : Value) (v : Vote)
    → vote_for receipt (find (named (text_of (get receipt "template"))) catalog) ≡ ok v
    → Installed catalog v × AsksFor receipt v
unfolding vote_for
vote_for-Installed catalog receipt v h =
    let t = text_of (get receipt "template") in
    elim (Option-cases (find (named t) catalog)) [
      | inl missing ↦ absurd (missing_vote receipt (sym (ap (vote_for receipt) missing) ∙ h))
      | inr (e, found) ↦
          let (matched, same) =
            check-then (text_eq (text_of (get receipt "templateDigest")) e.template_digest) _ _
              (sym (ap (vote_for receipt) found) ∙ h) in
          let made = ok-injective same in
          let named_so : e.template ≡ v.template = ap (λ (x : Vote). x.template) made in
          let digest : e.template_digest ≡ v.template_digest =
            ap (λ (x : Vote). x.template_digest) made in
          let asked : t ≡ v.template = sym (find-named t catalog e found) ∙ named_so in
          (
            (e, subst (λ n. find (named n) catalog ≡ some e) asked found, sym digest),
            (
              asked,
              (eq_iff (text_of (get receipt "templateDigest")) e.template_digest).0 matched
                  ∙ digest,
            ),
          )
    ]

receipt_for_agent-Installed :
    (catalog : List Entry) (receipt : Value) (v : Vote)
    → receipt_for_agent receipt catalog ≡ ok v
    → Installed catalog v × AsksFor receipt v
unfolding receipt_for_agent
receipt_for_agent-Installed catalog receipt v h =
    let (_, h1) = >>-eq-ok (assert_plain_object receipt "agent receipt") _ h in
    let (_, h2) =
      >>-eq-ok
        (assert_only_fields receipt ("version" ∷ "template" ∷ "templateDigest" ∷ "reason" ∷ [])
          "agent receipt")
        _ h1 in
    let (_, h3) = check-then (is_nat (get receipt "version") 1) _ _ h2 in
    let (_, h4) = check-then (text_passes matches_template_name (get receipt "template")) _ _ h3 in
    let (_, h5) = check-then (text_passes (matches_hex 64) (get receipt "templateDigest")) _ _ h4 in
    let (_, h6) = >>-eq-ok (assert_text (get receipt "reason") "agent receipt reason" 2000) _ h5 in
    vote_for-Installed catalog receipt v h6

for_agent-eq : (i : ℕ) (r : Result Vote) (v : Vote) → for_agent i r ≡ ok v → r ≡ ok v
for_agent-eq i (ok vote) v h = h
for_agent-eq i (err e) v h = cc

-- the votes are what the agents asked for, one by one and in order
abbrev pub AsksForAll : List Value → List Vote → Type 0
AsksForAll [] [] = Unit
AsksForAll (raw ∷ rest) (v ∷ vs) = AsksFor (receipt_in raw) v × AsksForAll rest vs
AsksForAll _ _ = ⊥

votes_from-Installed :
    (catalog : List Entry) (i : ℕ) (answers : List Value) (votes : List Vote)
    → votes_from catalog i answers ≡ ok votes
    → All (Installed catalog) votes × AsksForAll answers votes
unfolding votes_from
votes_from-Installed catalog i [] votes h =
    subst (λ vs. All (Installed catalog) vs × AsksForAll [] vs) (ok-injective h) (tt, tt)
votes_from-Installed catalog i (raw ∷ rest) votes h =
    let (v, first, h1) = >>=-eq-ok (for_agent i (receipt_for_agent (receipt_in raw) catalog)) _ h in
    let (vs, later, same) = >>=-eq-ok (votes_from catalog (suc i) rest) _ h1 in
    let (installed, asked) = votes_from-Installed catalog (suc i) rest vs later in
    let (here, asks) =
      receipt_for_agent-Installed catalog (receipt_in raw) v (for_agent-eq i _ v first) in
    subst (λ ws. All (Installed catalog) ws × AsksForAll (raw ∷ rest) ws) (ok-injective same)
      ((here, installed), (asks, asked))

AsksForAll-length :
    (answers : List Value) (votes : List Vote)
    → AsksForAll answers votes
    → length (map template_of votes) ≡ length answers
AsksForAll-length [] [] h = refl
AsksForAll-length (raw ∷ rest) (v ∷ vs) (p, h) = ap suc (AsksForAll-length rest vs h)
AsksForAll-length [] (v ∷ vs) h = absurd h
AsksForAll-length (raw ∷ rest) [] h = absurd h

-- what a selection rests on
pub record Supported (catalog : List Entry) (agents : ℕ) (answers : List Value) (s : Selection)
    : Type 0 where
  -- the entry is the installed one of its name
  pub installed : find (named s.entry.template) catalog ≡ some s.entry
  -- more than half of the agents voted for it
  pub majority : agents < 2 * votes_for s.entry.template (map template_of s.votes)
  pub voted : length (map template_of s.votes) ≡ agents
  -- the votes are those of the answers, with the templates and the digests that these name
  pub asked : AsksForAll answers s.votes
  -- and every vote was for an installed template, with its digest
  pub votes_installed : All (Installed catalog) s.votes

selection-eq :
    (votes : List Vote) (o : Option Entry) (s : Selection)
    → selection votes o ≡ ok s
    → (o ≡ some s.entry) × (s.votes ≡ votes)
selection-eq votes none s h = cc
selection-eq votes (some entry) s h = (
  ap (λ (x : Selection). some x.entry) (ok-injective h),
  sym (ap (λ (x : Selection). x.votes) (ok-injective h)),
)

-- The template that one to three agents select is installed, and more than half of the agents voted
-- for it. The votes are the answers of the agents in their order, each with the template and the
-- digest that the answer names, which are those of an installed template.
pub select-Supported :
    (precedes : String → String → Bool) (catalog : List Entry) (agents : ℕ) (answers : List Value)
    (s : Selection)
    → length answers ≡ agents
    → 1 ≤ agents
    → agents ≤ 3
    → select precedes catalog agents answers ≡ ok s
    → Supported catalog agents answers s
unfolding select
select-Supported precedes catalog agents answers s asked low high h =
    let (votes, accepted, h1) = >>=-eq-ok (votes_from catalog 0 answers) _ h in
    let (t, chosen, h2) =
      >>=-eq-ok (choose_template precedes (map template_of votes) agents) _ h1 in
    let (found, same) = selection-eq votes (find (named t) catalog) s h2 in
    let (installed, asks) = votes_from-Installed catalog 0 answers votes accepted in
    let counted = AsksForAll-length answers votes asks in
    let name : t ≡ s.entry.template = sym (find-named t catalog s.entry found) in
    let majority =
      (choose_template-majority precedes (map template_of votes) agents (counted ∙ asked) low high
          t).0
        chosen in
    record {
      installed = subst (λ n. find (named n) catalog ≡ some s.entry) name found;
      majority =
          subst₂ (λ n vs. agents < 2 * votes_for n (map template_of vs)) name (sym same) majority;
      voted = subst (λ vs. length (map template_of vs) ≡ agents) (sym same) (counted ∙ asked);
      asked = subst (AsksForAll answers) (sym same) asks;
      votes_installed = subst (All (Installed catalog)) (sym same) installed;
    }
