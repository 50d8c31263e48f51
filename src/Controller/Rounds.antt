-- ===== src/Controller/Rounds.antt =====
-- The loop over the writers that settle, of src/pod-controller.mjs: it handles every writer once,
-- whatever the writers, the workspace and the store answer.
use bimo.Base.{
  eq_iff, sym, subst, mem_text, ◌⊎◌, ◌||◌, ◌%◌, arith, eq_refl, ℕ, zero, suc, String, Bool, true,
  false, not, List, [], ◌∷◌, length, Option, some, none, Result, ok, err, ◌≡◌, ◌∙◌, refl, ap,
  Bool-cases, inl, inr, ◌<>◌, if◌then◌else◌, text_eq,
}
use bimo.Js.{is_text, Value, get, text_of}
use bimo.Controller.World.{World, Env, M, ◌>>=◌, perform, pure}
use bimo.Controller.Time.{Config}
use bimo.Controller.Writers.{Attempt}
use bimo.Controller.Race.{
  Race, has_slot, cancel_active, note_error, queue_request, handle_blocked, handle_value,
  handle_settled, settle_all, pick, remove, fail_race, outcome_of, next_slot, after_value,
  unless_failed, at_slot,
}
use bimo.Controller.Blocks.{>>=-returns}

-- the writer is handled: its receipt is kept, or the attempt has an error
abbrev has_error : Option String → Bool
has_error none = false
has_error (some e) = true

abbrev pub covers : Race → String → Bool
covers r slot = has_error r.first_error || has_slot slot r.initial

-- If the action returns, then with r, or with r and an error.
Ends : Race → M Race → Type 0
Ends r m =
    (env : Env) (w w' : World) (s : Race)
    → m env w ≡ (ok s, w')
    → (s ≡ r) ⊎ ((e : String) × (s ≡ fail_race r e))

Ends->>= {ℓ} :
    (r : Race) {A : Type ℓ} (m : M A) (f : A → M Race) → ((a : A) → Ends r (f a)) → Ends r (m >>= f)
unfolding Ends
Ends->>= r m f later env w w' s h = let (a, v, _, q) = >>=-returns m f env h in later a env v w' s q

Ends-if : (r : Race) (c : Bool) (x y : M Race) → Ends r x → Ends r y → Ends r (if c then x else y)
Ends-if r true x y a b = a
Ends-if r false x y a b = b

Ends-pure : (r : Race) → Ends r (pure r)
unfolding Ends
Ends-pure r env w w' s h = inl (cc)

Ends-fail : (r : Race) (e : String) → Ends r (pure (fail_race r e))
unfolding Ends
Ends-fail r e env w w' s h = inr (e, cc)

queue_request-Ends :
    (cfg : Config) (a : Attempt) (r : Race) (item workspace receipt request : Value)
    → Ends r (queue_request cfg a r item workspace receipt request)
unfolding queue_request
queue_request-Ends cfg a r item workspace receipt request = Ends->>= r _ _ λ checkpoint.
    Ends->>= r _ _ λ _. Ends->>= r _ _ λ active.
      Ends-if r (not active) _ _
        (Ends-fail r "dependency owner completed before the request could be queued")
        (Ends->>= r _ _
          λ entry. Ends->>= r _ _ λ _. Ends->>= r _ _ λ _. Ends->>= r _ _ λ _. Ends-pure r)

handle_blocked-Ends :
    (cfg : Config) (a : Attempt) (r : Race) (slot : String) (workspace receipt : Value)
    → Ends r (handle_blocked cfg a r slot workspace receipt)
unfolding handle_blocked
handle_blocked-Ends cfg a r slot workspace receipt = Ends->>= r _ _ λ plan. Ends->>= r _ _ λ active.
    Ends-if r _ _ _ (queue_request-Ends cfg a r _ workspace receipt _)
      (Ends-fail r "dependency request requires a replacement attempt")

-- What a round makes of the variables of the loop: no writer leaves, the writer of the round is
-- handled, and those handled before stay so.
pub record Handled (r : Race) (slot : String) (s : Race) : Type 0 where
  pub pending : s.pending ≡ r.pending
  pub here : covers s slot ≡ true
  pub before : (t : String) → covers r t ≡ true → covers s t ≡ true

abbrev kept : Race → String → Value → Race
kept r slot receipt = record r { initial = (slot, receipt) ∷ r.initial }

kept-Handled : (r : Race) (slot : String) (receipt : Value) → Handled r slot (kept r slot receipt)
kept-Handled r slot receipt = record {
  pending = refl;
  here = ground (arith, eq_iff slot slot);
  before = λ t h. ground (arith, h);
}

failed-Handled :
    (r : Race) (slot e : String) (s : Race) → s.pending ≡ r.pending → Handled r slot (fail_race s e)
failed-Handled r slot e s h = record { pending = h; here = refl; before = λ t k. refl }

handle_value-Handled :
    (cfg : Config) (a : Attempt) (r : Race) (slot : String) (workspace raw : Value) (env : Env)
    (w w' : World) (s : Race)
    → handle_value cfg a r slot workspace raw env w ≡ (ok s, w')
    → Handled r slot s
unfolding handle_value Ends
handle_value-Handled cfg a r slot workspace raw env w w' s h =
    let (plan, w1, p1, q1) = >>=-returns _ _ env h in
    let (receipt, w2, p2, q2) = >>=-returns _ _ env q1 in
    let r' = kept r slot receipt in
    let ends =
      Ends-if r' (is_text (get receipt "outcome") "failed") _ _
        (Ends-fail r' ("writer " <> slot <> " failed: " <> text_of (get receipt "why")))
        (Ends-if r' (is_text (get receipt "outcome") "blocked") _ _
          (handle_blocked-Ends cfg a r' slot workspace receipt) (Ends-pure r')) in
    elim (ends env w2 w' s q2) [
      | inl same ↦ subst (Handled r slot) (sym same) (kept-Handled r slot receipt)
      | inr (e, same) ↦ subst (Handled r slot) (sym same) (failed-Handled r slot e r' refl)
    ]

-- The action returns, and has handled the writer.
Returns : Race → String → M Race → Type 0
Returns r slot m = (env : Env) (w : World) → (s : Race) × ((m env w).0 ≡ ok s) × Handled r slot s

noted : Race → String → Race
noted r e = elim r.first_error [ none ↦ fail_race r e | some first ↦ r ]

noted-Handled : (r : Race) (slot e : String) → Handled r slot (noted r e)
unfolding noted
noted-Handled r slot e = record {
  pending = ground arith;
  here = ground arith;
  before = λ t h. ground arith;
}

note_error-Returns : (r : Race) (slot e : String) → Returns r slot (note_error r e)
unfolding Returns note_error cancel_active perform ◌>>=◌ noted
note_error-Returns r slot e env w = (noted r e, ground arith, noted-Handled r slot e)

after_value-Returns :
    (r : Race) (slot : String) (out : Result Race) (env : Env) (v : World)
    → ((s : Race) → out ≡ ok s → Handled r slot s)
    → (s : Race) × ((after_value r out env v).0 ≡ ok s) × Handled r slot s
unfolding after_value Returns
after_value-Returns r slot (ok s) env v h = (s, refl, h s refl)
after_value-Returns r slot (err e) env v h = note_error-Returns r slot e env v

skipped-Handled : (r : Race) (slot first : String) → r.first_error ≡ some first → Handled r slot r
skipped-Handled r slot first h = record {
  pending = refl;
  here = ground (arith, h);
  before = λ t k. k;
}

unless_failed-Returns :
    (r : Race) (slot : String) (o : Option String) (go : M Race)
    → r.first_error ≡ o
    → Returns r slot go
    → Returns r slot (unless_failed o (pure r) go)
unfolding Returns
unless_failed-Returns r slot (some first) go h b =
    λ env w. (r, refl, skipped-Handled r slot first h)
unless_failed-Returns r slot none go h b = b

handle_settled-Returns :
    (cfg : Config) (a : Attempt) (workspaces : List (String × Value)) (r : Race) (slot : String)
    (out : Result Value)
    → Returns r slot (handle_settled cfg a workspaces r slot out)
unfolding handle_settled Returns
handle_settled-Returns cfg a workspaces r slot (err e) = note_error-Returns r slot e
handle_settled-Returns cfg a workspaces r slot (ok raw) =
    unless_failed-Returns r slot r.first_error _ refl λ env w.
      let value = handle_value cfg a r slot (at_slot slot workspaces) raw in
      after_value-Returns r slot (value env w).0 env (value env w).1 λ s h.
        handle_value-Handled cfg a r slot (at_slot slot workspaces) raw env w (value env w).1 s
          (λ i. (h i, (value env w).1))

-- a slot that is chosen among pending ones is one of them, and leaves
length-remove-pick :
    (n : ℕ) (s : String) (rest : List String)
    → suc (length (remove (pick n (s ∷ rest)) (s ∷ rest))) ≡ length (s ∷ rest)
length-remove-pick n s [] = rw (eq_refl s) refl
length-remove-pick zero s (t ∷ rest) = rw (eq_refl s) refl
length-remove-pick (suc n) s (t ∷ rest) = elim (Bool-cases (text_eq (pick n (t ∷ rest)) s)) [
  | inl same ↦ rw same refl
  | inr other ↦ rw other (omega (arith, length-remove-pick n t rest))
]

length-remove : (p : List String) (k n : ℕ) → length p ≡ suc n → length (remove (pick k p) p) ≡ n
length-remove [] k n h = absurd (omega (arith, h))
length-remove (s ∷ rest) k n h = omega (arith, h, length-remove-pick k s rest)

no_slot : (p : List String) → length p ≡ 0 → p ≡ []
no_slot [] h = refl
no_slot (s ∷ rest) h = absurd (omega (arith, h))

bind-result {ℓ κ} :
    {A : Type ℓ} {B : Type κ} (m : M A) (f : A → M B) (env : Env) (w : World) (a : A)
    → (m env w).0 ≡ ok a
    → ((m >>= f) env w).0 ≡ (f a env (m env w).1).0
unfolding ◌>>=◌
bind-result m f env w a h = rw h refl

-- another writer stays pending
mem-remove-other :
    (t slot : String) (p : List String)
    → text_eq t slot ≡ false
    → mem_text t p ≡ true
    → mem_text t (remove slot p) ≡ true
mem-remove-other t slot [] other h = cc
mem-remove-other t slot (s ∷ rest) other h =
    ground (
      arith,
      h,
      other,
      mem-remove-other t slot rest other,
      eq_iff t s,
      eq_iff slot s,
      eq_iff t slot,
    )

mem-remove :
    (t slot : String) (p : List String)
    → mem_text t p ≡ true
    → (t ≡ slot) ⊎ (mem_text t (remove slot p) ≡ true)
mem-remove t slot p h = elim (Bool-cases (text_eq t slot)) [
  | inl same ↦ inl ((eq_iff t slot).0 same)
  | inr other ↦ inr (mem-remove-other t slot p other h)
]

-- The loop over the writers always ends normally, with no writer pending, given as many rounds as
-- there are pending writers. Of each writer that was pending the receipt is kept, or an error of the
-- attempt is noted, in whatever order they settle and whatever they, the workspace, the checkers and
-- the store answer; a writer that was handled before stays so.
pub settle_all-finishes :
    (cfg : Config) (a : Attempt) (workspaces : List (String × Value))
    (started : List (String × Result (Unit {0}))) (n : ℕ) (r : Race) (env : Env) (w : World)
    → length r.pending ≡ n
    → (s : Race) × ((settle_all cfg a workspaces started n r env w).0 ≡ ok s)
      × (s.pending ≡ [])
      × ((t : String) → mem_text t r.pending ≡ true → covers s t ≡ true)
      × ((t : String) → covers r t ≡ true → covers s t ≡ true)
unfolding settle_all Returns
settle_all-finishes cfg a workspaces started zero r env w h =
    let none_left = no_slot r.pending h in
    (r, refl, none_left, λ t m. nobody t r.pending none_left m, λ t c. c)
  where
    nobody : (t : String) (p : List String) → p ≡ [] → mem_text t p ≡ true → covers r t ≡ true
    nobody t [] e m = cc
    nobody t (s ∷ rest) e m = cc
settle_all-finishes cfg a workspaces started (suc n) r env w h =
    let k = env.next w.trace r.pending % length r.pending in
    let slot = pick k r.pending in
    let r' : Race = record r { pending = remove slot r.pending } in
    let out = outcome_of started slot env w in
    let (r'', handled, round) = handle_settled-Returns cfg a workspaces r' slot out.0 env out.1 in
    let v = (handle_settled cfg a workspaces r' slot out.0 env out.1).1 in
    let enough : length r''.pending ≡ n = ap length round.pending ∙ length-remove r.pending k n h in
    let (s, ends, empty, all, before) =
      settle_all-finishes cfg a workspaces started n r'' env v enough in
    let step = bind-result (next_slot r.pending) _ env w slot refl in
    let rest =
      bind-result (handle_settled cfg a workspaces r' slot out.0)
        (λ x. settle_all cfg a workspaces started n x) env out.1 r'' handled in
    (
      s,
      step ∙ rest ∙ ends,
      empty,
      λ t m. elim (mem-remove t slot r.pending m) [
        | inl same ↦ before t (subst (λ x. covers r'' x ≡ true) (sym same) round.here)
        | inr later ↦ all t (subst (λ p. mem_text t p ≡ true) (sym round.pending) later)
      ],
      λ t c. before t (round.before t c),
    )
