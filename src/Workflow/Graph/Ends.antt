-- ===== src/Workflow/Graph/Ends.antt =====
-- The search ends: its fuel is never used up.
use bimo.Base.{
  arith, eq_iff, ℕ, zero, suc, ◌+◌, ◌≤◌, ◌<◌, String, Bool, true, false, List, [], ◌∷◌, ◌++◌,
  length, length-append, any, some, ◌||◌, ◌≡◌, refl, sym, ap, subst, ◌∙◌, Bool-cases, inl, inr,
}
use bimo.Js.{Value, undefined, Fields, end, field, find_field, has_field, keys}
use bimo.Workflow.Graph.{
  Node, named, other_value, node_of, key_of, same_node, seen, targets, queued, search, nodes_of,
  left, enough, reach_from, is_done,
}

pub same_node_refl : (n : Node) → same_node n n ≡ true
same_node_refl (named s) = (eq_iff s s).1 refl
same_node_refl (other_value s) = (eq_iff s s).1 refl

pub same_node-eq : (m n : Node) → same_node m n ≡ true → m ≡ n
same_node-eq (named s) (named t) h = ground (arith, eq_iff s t)
same_node-eq (other_value s) (other_value t) h = ground (arith, eq_iff s t)
same_node-eq (named s) (other_value t) h = cc
same_node-eq (other_value s) (named t) h = cc

degree : Fields → Node → ℕ
degree roles n = length (queued (targets roles n))

same_node-false : (m n : Node) → same_node m n ≡ false → same_node n m ≡ false
same_node-false (named s) (named t) h = ground (arith, eq_iff s t, eq_iff t s)
same_node-false (other_value s) (other_value t) h = ground (arith, eq_iff s t, eq_iff t s)
same_node-false (named s) (other_value t) h = refl
same_node-false (other_value s) (named t) h = refl

seen_rest :
    (n m : Node) (ns : List Node)
    → seen n (m ∷ ns) ≡ true
    → same_node n m ≡ false
    → seen n ns ≡ true
seen_rest n m ns h k = ground arith

module _ (roles : Fields) where
  left_skip :
      (reachable ns : List Node) (m : Node)
      → seen m reachable ≡ true
      → left roles reachable (m ∷ ns) ≡ left roles reachable ns
  left_skip reachable ns m h = ground arith

  left_take :
      (reachable ns : List Node) (m : Node)
      → seen m reachable ≡ false
      → left roles reachable (m ∷ ns) ≡ degree roles m + left roles reachable ns
  unfolding degree
  left_take reachable ns m h = ground arith

  seen_later :
      (m n : Node) (reachable : List Node)
      → same_node m n ≡ false
      → seen m (n ∷ reachable) ≡ seen m reachable
  seen_later m n reachable h = ground arith

  seen_first :
      (m n : Node) (reachable : List Node) → same_node m n ≡ true → seen m (n ∷ reachable) ≡ true
  seen_first m n reachable h = ground arith

  left_mono :
      (n : Node) (reachable ns : List Node)
      → left roles (n ∷ reachable) ns ≤ left roles reachable ns
  left_mono n reachable [] = omega arith
  left_mono n reachable (m ∷ ns) = ground (arith, left_mono n reachable ns)

  -- a node of the list, reached for the first time, takes its transitions with it
  left_drop :
      (n : Node) (reachable ns : List Node)
      → seen n ns ≡ true
      → seen n reachable ≡ false
      → left roles (n ∷ reachable) ns + degree roles n ≤ left roles reachable ns
  left_drop n reachable [] h k = cc
  left_drop n reachable (m ∷ ns) h k = elim (Bool-cases (same_node n m)) [
    | inl same ↦
        let e : n ≡ m = same_node-eq n m same in
        let here = left_skip (n ∷ reachable) ns m (
          seen_first m n reachable
            (subst (λ z. same_node m z ≡ true) (sym e) (same_node_refl m))) in
        let before = left_take reachable ns m (subst (λ z. seen z reachable ≡ false) e k) in
        let same_degree : degree roles n ≡ degree roles m = ap (degree roles) e in
        omega (arith, left_mono n reachable ns, here, before, same_degree)
    | inr apart ↦
        let before : seen n ns ≡ true = seen_rest n m ns h apart in
        let rest = left_drop n reachable ns before k in
        let other = seen_later m n reachable (same_node-false n m apart) in
        elim (Bool-cases (seen m reachable)) [
          | inl s ↦
              omega (
                arith,
                rest,
                left_skip reachable ns m s,
                left_skip (n ∷ reachable) ns m (other ∙ s),
              )
          | inr s ↦
              omega (
                arith,
                rest,
                left_take reachable ns m s,
                left_take (n ∷ reachable) ns m (other ∙ s),
              )
        ]
  ]

  -- the measure of the search: it falls in every round
  measure : List Node → List Node → ℕ
  measure reachable queue = left roles reachable (nodes_of (keys roles)) + length queue

unknown_name :
    (roles : Fields) (k : String) → has_field k roles ≡ false → find_field k roles ≡ undefined
unknown_name end k h = refl
unknown_name (field j v fs) k h = ground (arith, unknown_name fs k, eq_iff j k, eq_iff k j)

known_named :
    (roles : Fields) (s : String)
    → has_field s roles ≡ true
    → seen (named s) (nodes_of (keys roles)) ≡ true
known_named end s h = cc
known_named (field j v fs) s h = ground (arith, known_named fs s, eq_iff j s, eq_iff s j)

known_other :
    (roles : Fields) (s : String)
    → has_field s roles ≡ true
    → seen (other_value s) (nodes_of (keys roles)) ≡ true
known_other end s h = cc
known_other (field j v fs) s h = ground (arith, known_other fs s, eq_iff j s, eq_iff s j)

known :
    (roles : Fields) (n : Node)
    → has_field (key_of n) roles ≡ true
    → seen n (nodes_of (keys roles)) ≡ true
known roles (named s) h = known_named roles s h
known roles (other_value s) h = known_other roles s h

no_targets : (roles : Fields) (n : Node) → has_field (key_of n) roles ≡ false → degree roles n ≡ 0
unfolding degree targets queued
no_targets roles n h = rw (unknown_name roles (key_of n) h) refl

measure_falls :
    (roles : Fields) (n : Node) (reachable queue : List Node)
    → seen n reachable ≡ false
    → measure roles (n ∷ reachable) (queue ++ queued (targets roles n))
      < measure roles reachable (n ∷ queue)
unfolding measure degree
measure_falls roles n reachable queue k = elim (Bool-cases (has_field (key_of n) roles)) [
  | inl h ↦ omega (
    arith,
    left_drop roles n reachable (nodes_of (keys roles)) (known roles n h) k,
    length-append queue (queued (targets roles n)),
  )
  | inr h ↦ omega (
    arith,
    left_mono roles n reachable (nodes_of (keys roles)),
    no_targets roles n h,
    length-append queue (queued (targets roles n)),
  )
]

-- the two kinds of round
pub search-again :
    (roles : Fields) (fuel : ℕ) (n : Node) (reachable queue : List Node) (done : Bool)
    → seen n reachable ≡ true
    → search roles (suc fuel) reachable done (n ∷ queue) ≡ search roles fuel reachable done queue
unfolding search
search-again roles fuel n reachable queue done h = ground (arith, h)

pub search-first :
    (roles : Fields) (fuel : ℕ) (n : Node) (reachable queue : List Node) (done : Bool)
    → seen n reachable ≡ false
    → search roles (suc fuel) reachable done (n ∷ queue)
      ≡ search roles fuel
          (n ∷ reachable)
          (done || any is_done (targets roles n))
          (queue ++ queued (targets roles n))
unfolding search
search-first roles fuel n reachable queue done h = ground (arith, h)

search-ends :
    (roles : Fields) (fuel : ℕ) (reachable queue : List Node) (done : Bool)
    → measure roles reachable queue ≤ fuel
    → (r : List Node × Bool) × (search roles fuel reachable done queue ≡ some r)
unfolding search measure
search-ends roles fuel reachable [] done h = (_, refl)
search-ends roles zero reachable (n ∷ queue) done h = absurd (omega (arith, h))
search-ends roles (suc fuel) reachable (n ∷ queue) done h = elim (Bool-cases (seen n reachable)) [
  | inl s ↦
      let (r, e) = search-ends roles fuel reachable queue done (omega (arith, h)) in
      (r, search-again roles fuel n reachable queue done s ∙ e)
  | inr s ↦
      let (r, e) =
        search-ends roles fuel (n ∷ reachable) (queue ++ queued (targets roles n))
          (done || any is_done (targets roles n))
          (omega (arith, h, measure_falls roles n reachable queue s)) in
      (r, search-first roles fuel n reachable queue done s ∙ e)
]

-- The search of the model ends for all roles.
pub reach_from-ends :
    (roles : Fields) (start : Value) → (r : List Node × Bool) × (reach_from roles start ≡ some r)
unfolding reach_from measure
reach_from-ends roles start =
    search-ends roles (enough roles) [] (node_of start ∷ []) false (omega arith)
