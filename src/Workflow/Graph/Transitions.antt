-- ===== src/Workflow/Graph/Transitions.antt =====
-- The transitions of the roles of a workflow (src/workflow.mjs), apart from the search of
-- `validateWorkflow`: what the roles reach by them.
use mathlib.Core.List.{Memᴰ}
use bimo.Base.{
  arith, String, true, false, List, [], ◌∷◌, any, ◌≡◌, ◌≢◌, ◌⊎◌, inl, inr, refl, sym, ap, subst,
  Bool-cases,
}
use bimo.Js.{Value, str, Fields, get, find_field, is_text-eq}
use bimo.Workflow.Fields.{entries_of}
use bimo.Workflow.Graph.{Node, node_of, key_of, same_node, seen, seconds, queued, is_done}
use bimo.Workflow.Graph.Ends.{same_node_refl, same_node-eq}

-- the outcome of the role that the node names leads to the target
abbrev pub Leads : Fields → Node → String → Value → Type 0
Leads roles n outcome target =
    Memᴰ (outcome, target) (entries_of (get (find_field (key_of n) roles) "on"))

-- What the start reaches: itself, and the targets of what it reaches, but for "done".
pub data Reach (roles : Fields) (start : Node) : Node → Type 0 where
  here : Reach roles start start
  along :
      {n : Node} (outcome : String) (target : Value)
      → Reach roles start n
      → Leads roles n outcome target
      → target ≢ str "done"
      → Reach roles start (node_of target)

-- an outcome of a role that is reached ends the workflow
abbrev pub ReachesDone : Fields → Node → Type 0
ReachesDone roles start =
    (n : Node) × (outcome : String) × Reach roles start n × Leads roles n outcome (str "done")

abbrev Pairs : Type 0
Pairs = List (String × Value)

not_done : (v : Value) → is_done v ≡ false → v ≢ str "done"
not_done v h e = let other : true ≡ false = subst (λ z. is_done z ≡ false) e h in cc

not_done_too : (v : Value) → v ≢ str "done" → is_done v ≡ false
not_done_too v h = elim (Bool-cases (is_done v)) [
  | inl e ↦ absurd (h (is_text-eq v "done" e))
  | inr e ↦ e
]

queued-skip : (v : Value) (vs : List Value) → is_done v ≡ true → queued (v ∷ vs) ≡ queued vs
unfolding queued
queued-skip v vs h = ground (arith, h)

queued-take :
    (v : Value) (vs : List Value) → is_done v ≡ false → queued (v ∷ vs) ≡ node_of v ∷ queued vs
unfolding queued
queued-take v vs h = ground (arith, h)

seen-one : (m n : Node) (ns : List Node) → seen m (n ∷ ns) ≡ true → (m ≡ n) ⊎ (seen m ns ≡ true)
seen-one m n ns h = elim (Bool-cases (same_node m n)) [
  | inl e ↦ inl (same_node-eq m n e)
  | inr e ↦ inr (ground (arith, h, e))
]

seen-here : (n : Node) (ns : List Node) → seen n (n ∷ ns) ≡ true
seen-here n ns = ground (arith, same_node_refl n)

seen-there : (m n : Node) (ns : List Node) → seen m ns ≡ true → seen m (n ∷ ns) ≡ true
seen-there m n ns h = ground (arith, h)

-- a node that a transition puts in the queue, and the transition
pub record Step (es : Pairs) (m : Node) : Type 0 where
  pub outcome : String
  pub target : Value
  pub member : Memᴰ (outcome, target) es
  pub goes_on : target ≢ str "done"
  pub node : m ≡ node_of target

later-Step : (e : String × Value) (es : Pairs) (m : Node) → Step es m → Step (e ∷ es) m
later-Step e es m s = record {
  outcome = s.outcome;
  target = s.target;
  member = Memᴰ.tail s.member;
  goes_on = s.goes_on;
  node = s.node;
}

pub queued-Step : (es : Pairs) (m : Node) → seen m (queued (seconds es)) ≡ true → Step es m
unfolding queued
queued-Step [] m h = cc
queued-Step ((o, v) ∷ es) m h = elim (Bool-cases (is_done v)) [
  | inl d ↦
      later-Step (o, v) es m
        (queued-Step es m (subst (λ q. seen m q ≡ true) (queued-skip v (seconds es) d) h))
  | inr d ↦
      elim (seen-one m (node_of v) (queued (seconds es))
        (subst (λ q. seen m q ≡ true) (queued-take v (seconds es) d) h)) [
          | inl same ↦ record {
            outcome = o;
            target = v;
            member = Memᴰ.head refl;
            goes_on = not_done v d;
            node = same;
          }
          | inr later ↦ later-Step (o, v) es m (queued-Step es m later)
        ]
]

pub member-queued :
    (es : Pairs) (o : String) (v : Value)
    → Memᴰ (o, v) es
    → v ≢ str "done"
    → seen (node_of v) (queued (seconds es)) ≡ true
member-queued [] o v m h = elim m [ ]
member-queued ((p, u) ∷ es) o v (Memᴰ.head e) h =
    let same : v ≡ u = ap (λ x. x.1) e in
    subst (λ q. seen (node_of v) q ≡ true)
      (sym (queued-take u (seconds es) (subst (λ z. is_done z ≡ false) same (not_done_too v h))))
      (subst (λ z. seen (node_of v) (node_of z ∷ queued (seconds es)) ≡ true) same
        (seen-here (node_of v) (queued (seconds es))))
member-queued ((p, u) ∷ es) o v (Memᴰ.tail m) h =
    let rest = member-queued es o v m h in
    elim (Bool-cases (is_done u)) [
      | inl d ↦ subst (λ q. seen (node_of v) q ≡ true) (sym (queued-skip u (seconds es) d)) rest
      | inr d ↦
          subst (λ q. seen (node_of v) q ≡ true) (sym (queued-take u (seconds es) d))
            (seen-there (node_of v) (node_of u) (queued (seconds es)) rest)
    ]

pub done-member :
    (es : Pairs) → any is_done (seconds es) ≡ true → (o : String) × Memᴰ (o, str "done") es
done-member [] h = cc
done-member ((o, v) ∷ es) h = elim (Bool-cases (is_done v)) [
  | inl d ↦ (o, Memᴰ.head (ap (λ z. (o, z)) (sym (is_text-eq v "done" d))))
  | inr d ↦ let (p, m) = done-member es (ground (arith, h, d)) in (p, Memᴰ.tail m)
]

pub member-done :
    (es : Pairs) (o : String) → Memᴰ (o, str "done") es → any is_done (seconds es) ≡ true
member-done [] o m = elim m [ ]
member-done ((p, u) ∷ es) o (Memᴰ.head e) =
    let d : is_done u ≡ true = subst (λ z. is_done z ≡ true) (ap (λ x. x.1) e) refl in
    ground (arith, d)
member-done ((p, u) ∷ es) o (Memᴰ.tail m) = ground (arith, member-done es o m)
