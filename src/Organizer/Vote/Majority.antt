-- ===== src/Organizer/Vote/Majority.antt =====
-- What the vote of src/organize.mjs decides: the template with more than half of the votes.
use bimo.Base.{
  arith, ℕ, suc, ◌+◌, ◌*◌, ◌≤◌, ◌<◌, String, Bool, true, false, List, [], ◌∷◌, length, any, keep,
  All, leb, text_eq, eq_iff, ok, ◌≡◌, ◌↔◌, ◌⊎◌, inl, inr, refl, sym, ap, subst, ◌∙◌, Bool-cases,
  ◌||◌, if◌then◌else◌,
}
use bimo.Organizer.Vote.{
  Counts, bump, count_votes, insert_by, sort_by, enough_votes, first_choice, choose_template,
}

-- the number of votes for a template
abbrev pub votes_for : String → List String → ℕ
votes_for t [] = 0
votes_for t (v ∷ votes) = let n = votes_for t votes in if text_eq v t then suc n else n

-- two templates have at most all votes together
votes_for-le :
    (t u : String) (votes : List String)
    → text_eq t u ≡ false
    → votes_for t votes + votes_for u votes ≤ length votes
votes_for-le t u [] h = omega arith
votes_for-le t u (v ∷ votes) h =
    ground (arith, h, votes_for-le t u votes, eq_iff v t, eq_iff v u, eq_iff t u)

-- `counts.get(template) ?? 0`
abbrev count_of : String → Counts → ℕ
count_of t [] = 0
count_of t ((u, n) ∷ rest) = let later = count_of t rest in if text_eq u t then n else later

count_of-bump :
    (t v : String) (counts : Counts)
    → count_of t (bump v counts)
      ≡ (if text_eq v t then suc (count_of t counts) else count_of t counts)
count_of-bump t v [] = ground (arith)
count_of-bump t v ((u, n) ∷ rest) =
    ground (arith, count_of-bump t v rest, eq_iff u v, eq_iff v t, eq_iff u t)

count_of-count_votes :
    (t : String) (counts : Counts) (votes : List String)
    → count_of t (count_votes counts votes) ≡ count_of t counts + votes_for t votes
unfolding count_votes
count_of-count_votes t counts [] = omega arith
count_of-count_votes t counts (v ∷ votes) =
    ground (arith, count_of-count_votes t (bump v counts) votes, count_of-bump t v counts)

-- With the votes that are left, every count stays within a number for its template.
Within : (String → ℕ) → List String → Counts → Type 0
Within V votes counts = All (λ x. x.1 + votes_for x.0 votes ≤ V x.0) counts

drop_vote :
    (V : String → ℕ) (v : String) (votes : List String) (counts : Counts)
    → Within V (v ∷ votes) counts
    → Within V votes counts
unfolding Within
drop_vote V v votes [] h = tt
drop_vote V v votes ((u, n) ∷ rest) (p, h) = (ground (arith, p), drop_vote V v votes rest h)

Within-bump :
    (V : String → ℕ) (v : String) (votes : List String) (counts : Counts)
    → votes_for v (v ∷ votes) ≤ V v
    → Within V (v ∷ votes) counts
    → Within V votes (bump v counts)
unfolding Within
Within-bump V v votes [] h k = (ground (arith, h, eq_iff v v), tt)
Within-bump V v votes ((u, n) ∷ rest) h (p, k) = elim (Bool-cases (text_eq u v)) [
  | inl e ↦ rw e (ground (arith, p, eq_iff u v, eq_iff v u, e), drop_vote V v votes rest k)
  | inr e ↦ rw e (ground (arith, p), Within-bump V v votes rest h k)
]

Within-count_votes :
    (V : String → ℕ) (votes : List String) (counts : Counts)
    → ((t : String) → votes_for t votes ≤ V t)
    → Within V votes counts
    → Within V [] (count_votes counts votes)
unfolding count_votes
Within-count_votes V [] counts h k = k
Within-count_votes V (v ∷ votes) counts h k =
    Within-count_votes V votes (bump v counts) (λ t. ground (arith, h t))
      (Within-bump V v votes counts (h v) k)

All-insert_by :
    (P : String × ℕ → Type 0) (before : String × ℕ → String × ℕ → Bool) (x : String × ℕ)
    (xs : Counts)
    → P x
    → All P xs
    → All P (insert_by before x xs)
All-insert_by P before x [] p h = (p, tt)
All-insert_by P before x (y ∷ ys) p (q, h) = elim (Bool-cases (before x y)) [
  | inl e ↦ rw e (p, (q, h))
  | inr e ↦ rw e (q, All-insert_by P before x ys p h)
]

All-sort_by :
    (P : String × ℕ → Type 0) (before : String × ℕ → String × ℕ → Bool) (xs : Counts)
    → All P xs
    → All P (sort_by before xs)
unfolding sort_by
All-sort_by P before [] h = tt
All-sort_by P before (x ∷ xs) (p, h) =
    All-insert_by P before x (sort_by before xs) p (All-sort_by P before xs h)

any-insert_by :
    (q : String × ℕ → Bool) (before : String × ℕ → String × ℕ → Bool) (x : String × ℕ) (xs : Counts)
    → any q (insert_by before x xs) ≡ (q x || any q xs)
any-insert_by q before x [] = refl
any-insert_by q before x (y ∷ ys) = ground (arith, any-insert_by q before x ys)

any-sort_by :
    (q : String × ℕ → Bool) (before : String × ℕ → String × ℕ → Bool) (xs : Counts)
    → any q (sort_by before xs) ≡ any q xs
unfolding sort_by
any-sort_by q before [] = refl
any-sort_by q before (x ∷ xs) =
    any-insert_by q before x (sort_by before xs) ∙ ap (λ b. q x || b) (any-sort_by q before xs)

keep-yes :
    (q : String × ℕ → Bool) (x : String × ℕ) (xs : Counts)
    → q x ≡ true
    → keep q (x ∷ xs) ≡ x ∷ keep q xs
keep-yes q x xs h = ground (arith, h)

keep-no :
    (q : String × ℕ → Bool) (x : String × ℕ) (xs : Counts)
    → q x ≡ false
    → keep q (x ∷ xs) ≡ keep q xs
keep-no q x xs h = ground (arith, h)

All-keep :
    (P : String × ℕ → Type 0) (q : String × ℕ → Bool) (xs : Counts)
    → All P xs
    → All (λ x. P x × (q x ≡ true)) (keep q xs)
All-keep P q [] h = tt
All-keep P q (x ∷ xs) (p, h) = elim (Bool-cases (q x)) [
  | inl e ↦
      subst (All (λ x. P x × (q x ≡ true))) (sym (keep-yes q x xs e)) ((p, e), All-keep P q xs h)
  | inr e ↦ subst (All (λ x. P x × (q x ≡ true))) (sym (keep-no q x xs e)) (All-keep P q xs h)
]

any-keep : (q : String × ℕ → Bool) (xs : Counts) → any q xs ≡ true → any q (keep q xs) ≡ true
any-keep q [] h = cc
any-keep q (x ∷ xs) h = ground (arith, h, any-keep q xs)

count_of-here :
    (t u : String) (n : ℕ) (rest : Counts) → text_eq u t ≡ true → count_of t ((u, n) ∷ rest) ≡ n
count_of-here t u n rest h = ground (arith, h)

count_of-later :
    (t u : String) (n : ℕ) (rest : Counts)
    → text_eq u t ≡ false
    → count_of t ((u, n) ∷ rest) ≡ count_of t rest
count_of-later t u n rest h = ground (arith, h)

or_either : (a b : Bool) → (a ≡ true) ⊎ (b ≡ true) → (a || b) ≡ true
or_either a b h = ground (arith, h)

any-count :
    (agents : ℕ) (t : String) (counts : Counts)
    → enough_votes agents (count_of t counts) ≡ true
    → 1 ≤ count_of t counts
    → any (λ x. enough_votes agents x.1) counts ≡ true
any-count agents t [] h k = absurd (omega (arith, k))
any-count agents t ((u, n) ∷ rest) h k = elim (Bool-cases (text_eq u t)) [
  | inl e ↦
      or_either _ _ (inl (subst (λ m. enough_votes agents m ≡ true) (count_of-here t u n rest e) h))
  | inr e ↦ or_either _ _ (
      inr (
        any-count agents t rest
          (subst (λ m. enough_votes agents m ≡ true) (count_of-later t u n rest e) h)
          (subst (λ m. 1 ≤ m) (count_of-later t u n rest e) k)))
]

-- enough votes of one to three agents are more than half
enough_votes_iff :
    (agents n : ℕ)
    → 1 ≤ agents
    → agents ≤ 3
    → n ≤ agents
    → (enough_votes agents n ≡ true) ↔ (agents < 2 * n)
enough_votes_iff agents n low high fits =
    (λ h. ground (arith, h, low, high, fits), λ h. ground (arith, h, low, high, fits))

votes_for-length : (t : String) (votes : List String) → votes_for t votes ≤ length votes
votes_for-length t [] = omega arith
votes_for-length t (v ∷ votes) = ground (arith, votes_for-length t votes)

-- the first of some winners is a winner
first_choice-All :
    (P : String × ℕ → Type 0) (agents : ℕ) (xs : Counts) (t : String)
    → All P xs
    → first_choice agents xs ≡ ok t
    → (n : ℕ) × P (t, n)
first_choice-All P agents [] t h e = cc
first_choice-All P agents ((u, n) ∷ rest) t (p, h) e =
    let same : u ≡ t = cc in (n, subst (λ z. P (z, n)) same p)

first_choice-any :
    (q : String × ℕ → Bool) (agents : ℕ) (xs : Counts)
    → any q xs ≡ true
    → (t : String) × (first_choice agents xs ≡ ok t)
first_choice-any q agents [] h = cc
first_choice-any q agents ((u, n) ∷ rest) h = (u, refl)

module _ (precedes : String → String → Bool) (votes : List String) (agents : ℕ)
    (all_voted : length votes ≡ agents) (low : 1 ≤ agents) (high : agents ≤ 3) where
  chosen-majority :
      (t : String) → choose_template precedes votes agents ≡ ok t → agents < 2 * votes_for t votes
  unfolding choose_template Within
  chosen-majority t h =
      let counted = Within-count_votes (λ u. votes_for u votes) votes [] (λ u. omega arith) tt in
      let P : String × ℕ → Type 0 = λ x. x.1 + votes_for x.0 [] ≤ votes_for x.0 votes in
      let sorted = All-sort_by P (λ x y. precedes x.0 y.0) _ counted in
      let winners = All-keep P (λ x. enough_votes agents x.1) _ sorted in
      let ranked =
        All-sort_by (λ x. P x × (enough_votes agents x.1 ≡ true)) (λ x y. leb y.1 x.1) _ winners in
      let (n, (within, passed)) =
        first_choice-All (λ x. P x × (enough_votes agents x.1 ≡ true)) agents _ t ranked h in
      let most = votes_for-length t votes in
      let fits : n ≤ agents = omega (arith, within, most, all_voted) in
      omega (arith, within, (enough_votes_iff agents n low high fits).0 passed)

  majority-exists :
      (t : String)
      → agents < 2 * votes_for t votes
      → (u : String) × (choose_template precedes votes agents ≡ ok u)
  unfolding choose_template
  majority-exists t h =
      let q : String × ℕ → Bool = λ x. enough_votes agents x.1 in
      let counted = count_of-count_votes t [] votes in
      let fits : votes_for t votes ≤ agents = omega (arith, votes_for-length t votes, all_voted) in
      let passed = (enough_votes_iff agents (votes_for t votes) low high fits).1 h in
      let found =
        any-count agents t (count_votes [] votes)
          (subst (λ n. enough_votes agents n ≡ true) (omega (arith, counted)) passed)
          (omega (arith, counted, h)) in
      let kept =
        any-keep q _ (any-sort_by q (λ x y. precedes x.0 y.0) (count_votes [] votes) ∙ found) in
      first_choice-any q agents _ (any-sort_by q (λ x y. leb y.1 x.1) _ ∙ kept)

  -- When each of one to three agents has voted, the template that is chosen is the one with more
  -- than half of the votes, whatever the order of the names; if there is none, the vote fails.
  pub choose_template-majority :
      (t : String)
      → (choose_template precedes votes agents ≡ ok t) ↔ (agents < 2 * votes_for t votes)
  choose_template-majority t = (chosen-majority t, back)
    where
      back : agents < 2 * votes_for t votes → choose_template precedes votes agents ≡ ok t
      back h =
          let (u, chosen) = majority-exists t h in
          elim (Bool-cases (text_eq t u)) [
            | inl e ↦ chosen ∙ ap ok (sym ((eq_iff t u).0 e))
            | inr e ↦
                absurd
                  (omega (arith, h, chosen-majority u chosen, votes_for-le t u votes e, all_voted))
          ]
