-- ===== src/Organizer/Vote.antt =====
-- `chooseTemplate` of src/organize.mjs. The order of `localeCompare` is a parameter.
pub mod Majority
use bimo.Base.{
  ℕ, suc, ◌+◌, ◌/◌, String, Bool, true, false, List, [], ◌∷◌, keep, leb, ltb, ◌==◌, text_eq, Result,
  ok, err, if◌then◌else◌,
}

-- the map `counts`, in the order of its keys
abbrev pub Counts : Type 0
Counts = List (String × ℕ)

-- `counts.set(template, (counts.get(template) ?? 0) + 1)`
abbrev pub bump : String → Counts → Counts
bump t [] = (t, 1) ∷ []
bump t ((u, n) ∷ rest) =
    let later = bump t rest in if text_eq u t then (u, suc n) ∷ rest else (u, n) ∷ later

unfoldable pub count_votes : Counts → List String → Counts
count_votes counts [] = counts
count_votes counts (t ∷ votes) = count_votes (bump t counts) votes

-- `array.sort(compare)`, which is stable; the test says whether the first may stand before the second
abbrev pub insert_by : (String × ℕ → String × ℕ → Bool) → String × ℕ → Counts → Counts
insert_by before x [] = x ∷ []
insert_by before x (y ∷ ys) =
    let later = insert_by before x ys in if before x y then x ∷ y ∷ ys else y ∷ later

unfoldable pub sort_by : (String × ℕ → String × ℕ → Bool) → Counts → Counts
sort_by before [] = []
sort_by before (x ∷ xs) = insert_by before x (sort_by before xs)

-- `agents === 2 ? count === agents : count >= Math.ceil(agents / 2)`
abbrev pub enough_votes : ℕ → ℕ → Bool
enough_votes agents count = if agents == 2 then count == agents else leb ((agents + 1) / 2) count

abbrev pub first_choice : ℕ → Counts → Result String
first_choice agents [] =
    err (if agents == 2 then "agent votes must be unanimous" else "agent votes have no majority")
first_choice agents ((t, n) ∷ rest) = ok t

-- `chooseTemplate(votes, agents)`, of the templates that the votes name
unfoldable pub choose_template : (String → String → Bool) → List String → ℕ → Result String
choose_template precedes votes agents =
    let sorted = sort_by (λ x y. precedes x.0 y.0) (count_votes [] votes) in
    let winners = keep (λ x. enough_votes agents x.1) sorted in
    first_choice agents (sort_by (λ x y. leb y.1 x.1) winners)
