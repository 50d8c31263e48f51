-- ===== src/Workflow/Graph/Reached.antt =====
-- What the search of `validateWorkflow` (src/workflow.mjs) finds: the nodes on the paths from the
-- start, and whether a transition of one of them ends the workflow.
use bimo.Base.{
  arith, ℕ, zero, suc, Bool, true, false, List, [], ◌∷◌, ◌++◌, any, some, ◌||◌, ◌≡◌, ◌↔◌, ◌⊎◌, ◌∙◌,
  refl, sym, subst, subst₂, Bool-cases, inl, inr,
}
use bimo.Js.{Value, Fields, get, find_field}
use bimo.Workflow.Graph.{
  Node, key_of, node_of, same_node, seen, targets, queued, search, reach_from, is_done,
}
use bimo.Workflow.Fields.{entries_of}
use bimo.Workflow.Graph.Transitions.{
  Reach, ReachesDone, queued-Step, member-queued, done-member, member-done,
}
use bimo.Workflow.Graph.Transitions
use bimo.Workflow.Graph.Ends.{same_node_refl, same_node-eq, search-again, search-first}

-- What the steps that the search takes reach.
data Visits (roles : Fields) (start : Node) : Node → Type 0 where
  here_visit : Visits roles start start
  onward :
      {n : Node} (m : Node)
      → Visits roles start n
      → seen m (queued (targets roles n)) ≡ true
      → Visits roles start m

abbrev held : List Node → List Node → Node → Bool
held reachable queue n = seen n reachable || seen n queue

-- `reachesDone`, as a fact on the paths from the start
abbrev VisitsDone : Fields → Node → Type 0
VisitsDone roles start = (n : Node) × Visits roles start n × (any is_done (targets roles n) ≡ true)

seen-append : (n : Node) (xs ys : List Node) → seen n (xs ++ ys) ≡ (seen n xs || seen n ys)
seen-append n [] ys = refl
seen-append n (x ∷ xs) ys = ground (arith, seen-append n xs ys)

or-cases : (a b : Bool) → (a || b) ≡ true → (a ≡ true) ⊎ (b ≡ true)
or-cases a b h = ground arith

-- what is held after a first visit was held before, or is a target
held-cases :
    (n : Node) (r q ts : List Node) (m : Node)
    → held (n ∷ r) (q ++ ts) m ≡ true
    → (held r (n ∷ q) m ≡ true) ⊎ (seen m ts ≡ true)
held-cases n r q ts m h = ground (arith, seen-append m q ts)

held-kept :
    (n : Node) (r q ts : List Node) (m : Node)
    → held r (n ∷ q) m ≡ true
    → held (n ∷ r) (q ++ ts) m ≡ true
held-kept n r q ts m h = ground (arith, seen-append m q ts)

held-new :
    (n : Node) (r q ts : List Node) (m : Node) → seen m ts ≡ true → held (n ∷ r) (q ++ ts) m ≡ true
held-new n r q ts m h = ground (arith, seen-append m q ts)

seen-cases : (k n : Node) (r : List Node) → seen k (n ∷ r) ≡ true → (k ≡ n) ⊎ (seen k r ≡ true)
seen-cases k n r h = elim (or-cases (same_node k n) (seen k r) h) [
  | inl e ↦ inl (same_node-eq k n e)
  | inr e ↦ inr e
]

or_left : (a b : Bool) → a ≡ true → (a || b) ≡ true
or_left a b h = ground arith

or_false : (a : Bool) → (a || false) ≡ true → a ≡ true
or_false a h = ground arith

or_true : (a b : Bool) → b ≡ true → (a || b) ≡ true
or_true a b h = ground arith

module _ (roles : Fields) (I : List Node → List Node → Bool → Type 0) where
  -- an invariant of both kinds of round holds at the end
  search-invariant :
      ((n : Node) (r q : List Node) (d : Bool) → seen n r ≡ true → I r (n ∷ q) d → I r q d)
      → ((n : Node) (r q : List Node) (d : Bool)
          → I r (n ∷ q) d
          → I (n ∷ r) (q ++ queued (targets roles n)) (d || any is_done (targets roles n)))
      → (fuel : ℕ) (r q : List Node) (d : Bool) {r' : List Node} {d' : Bool}
      → search roles fuel r d q ≡ some (r', d')
      → I r q d
      → I r' [] d'
  unfolding search
  search-invariant again first fuel r [] d {r'} {d'} h i =
      let same : r ≡ r' = cc in let flag : d ≡ d' = cc in subst₂ (λ a b. I a [] b) same flag i
  search-invariant again first zero r (n ∷ q) d h i = cc
  search-invariant again first (suc fuel) r (n ∷ q) d h i = elim (Bool-cases (seen n r)) [
    | inl s ↦
        search-invariant again first fuel r q d (sym (search-again roles fuel n r q d s) ∙ h)
          (again n r q d s i)
    | inr s ↦
        search-invariant again first fuel (n ∷ r) (q ++ queued (targets roles n))
          (d || any is_done (targets roles n)) (sym (search-first roles fuel n r q d s) ∙ h)
          (first n r q d i)
  ]

module _ (roles : Fields) (start : Node) where
  -- what is held can be reached, and what ends the workflow can be reached
  Sound : List Node → List Node → Bool → Type 0
  Sound r q d =
      ((n : Node) → held r q n ≡ true → Visits roles start n) × (d ≡ true → VisitsDone roles start)

  -- the start is held, and what the reached nodes hand over to; a transition of theirs that ends
  -- the workflow was noticed
  Complete : List Node → List Node → Bool → Type 0
  Complete r q d =
      (held r q start ≡ true)
      × ((n m : Node)
          → seen n r ≡ true
          → seen m (queued (targets roles n)) ≡ true
          → held r q m ≡ true)
      × ((n : Node) → seen n r ≡ true → any is_done (targets roles n) ≡ true → d ≡ true)

  Sound-again :
      (n : Node) (r q : List Node) (d : Bool) → seen n r ≡ true → Sound r (n ∷ q) d → Sound r q d
  unfolding Sound
  Sound-again n r q d s (all, ends) = (λ m h. all m (ground (arith, h)), ends)

  Sound-first :
      (n : Node) (r q : List Node) (d : Bool)
      → Sound r (n ∷ q) d
      → Sound (n ∷ r) (q ++ queued (targets roles n)) (d || any is_done (targets roles n))
  unfolding Sound
  Sound-first n r q d (all, ends) =
      let at_n : Visits roles start n = all n (ground (arith, same_node_refl n)) in
      (
        λ m h. elim (held-cases n r q (queued (targets roles n)) m h) [
          | inl before ↦ all m before
          | inr later ↦ onward m at_n later
        ],
        λ h. elim (or-cases d (any is_done (targets roles n)) h) [
          | inl before ↦ ends before
          | inr now ↦ (n, at_n, now)
        ],
      )

  Complete-again :
      (n : Node) (r q : List Node) (d : Bool)
      → seen n r ≡ true
      → Complete r (n ∷ q) d
      → Complete r q d
  unfolding Complete
  Complete-again n r q d s (first, next, ends) =
      let drop : (m : Node) → held r (n ∷ q) m ≡ true → held r q m ≡ true =
        λ m h. ground (arith, h, s, same_node-eq m n) in
      (drop start first, λ k m a b. drop m (next k m a b), ends)

  Complete-first :
      (n : Node) (r q : List Node) (d : Bool)
      → Complete r (n ∷ q) d
      → Complete (n ∷ r) (q ++ queued (targets roles n)) (d || any is_done (targets roles n))
  unfolding Complete
  Complete-first n r q d (first, next, ends) = (
    held-kept n r q _ start first,
    λ k m h a. elim (seen-cases k n r h) [
      | inl e ↦ held-new n r q _ m (subst (λ z. seen m (queued (targets roles z)) ≡ true) e a)
      | inr b ↦ held-kept n r q _ m (next k m b a)
    ],
    λ k h a. elim (seen-cases k n r h) [
      | inl e ↦ or_true d _ (subst (λ z. any is_done (targets roles z) ≡ true) e a)
      | inr b ↦ or_left d _ (ends k b a)
    ],
  )

  Sound-start : Sound [] (start ∷ []) false
  unfolding Sound
  Sound-start = (
    λ n e. subst (Visits roles start) (sym (same_node-eq n start (or_false _ e))) here_visit,
    λ e. cc,
  )

  Complete-start : Complete [] (start ∷ []) false
  unfolding Complete
  Complete-start = (or_left _ _ (same_node_refl start), λ n m a b. cc, λ n a b. cc)

  -- a set that the steps do not leave holds all that they reach
  Visits-seen :
      (reachable : List Node) (done : Bool)
      → Complete reachable [] done
      → (n : Node) → Visits roles start n
      → seen n reachable ≡ true
  unfolding Complete
  Visits-seen reachable done (first, next, ends) _ here_visit = or_false _ first
  Visits-seen reachable done (first, next, ends) _ (onward m before step) =
      or_false _ (next _ m (Visits-seen reachable done (first, next, ends) _ before) step)

-- The steps of the search are the transitions that do not end the workflow.
Visits-Reach : (roles : Fields) (start n : Node) → Visits roles start n → Reach roles start n
unfolding targets
Visits-Reach roles start _ here_visit = Transitions.Reach.here
Visits-Reach roles start _ (onward {n} m before step) =
    let s = queued-Step (entries_of (get (find_field (key_of n) roles) "on")) m step in
    subst (Reach roles start) (sym s.node) (
      Transitions.Reach.along s.outcome s.target (Visits-Reach roles start n before) s.member
        s.goes_on)

Reach-Visits : (roles : Fields) (start n : Node) → Reach roles start n → Visits roles start n
unfolding targets
Reach-Visits roles start _ Transitions.Reach.here = here_visit
Reach-Visits roles start _ (Transitions.Reach.along {n} outcome target before leads on) =
    onward (node_of target) (Reach-Visits roles start n before)
      (member-queued (entries_of (get (find_field (key_of n) roles) "on")) outcome target leads on)

-- The search finds exactly the nodes that the transitions of the roles reach from the start without
-- ending the workflow, and notices exactly whether an outcome of a role that is reached ends it.
pub reach_from-Reach :
    (roles : Fields) (start : Value) {reachable : List Node} {done : Bool}
    → reach_from roles start ≡ some (reachable, done)
    → ((n : Node) → (seen n reachable ≡ true) ↔ Reach roles (node_of start) n)
      × ((done ≡ true) ↔ ReachesDone roles (node_of start))
unfolding reach_from Sound Complete targets
reach_from-Reach roles start {reachable} {done} h =
    let s = node_of start in
    let (all, ends) =
      search-invariant roles (Sound roles s) (Sound-again roles s) (Sound-first roles s) _ []
        (s ∷ []) false h (Sound-start roles s) in
    let complete =
      search-invariant roles (Complete roles s) (Complete-again roles s) (Complete-first roles s) _
        [] (s ∷ []) false h (Complete-start roles s) in
    let inside : (n : Node) → Reach roles s n → seen n reachable ≡ true =
      λ n p. Visits-seen roles s reachable done complete n (Reach-Visits roles s n p) in
    (
      λ n. (λ e. Visits-Reach roles s n (all n (or_left _ _ e)), inside n),
      (
        λ e.
            let (n, visited, ending) = ends e in
            let (outcome, leads) =
              done-member (entries_of (get (find_field (key_of n) roles) "on")) ending in
            (n, outcome, Visits-Reach roles s n visited, leads),
        λ (n, outcome, reached, leads).
            complete.2 n (inside n reached)
              (member-done (entries_of (get (find_field (key_of n) roles) "on")) outcome leads),
      ),
    )
