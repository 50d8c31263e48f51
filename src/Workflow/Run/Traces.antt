-- ===== src/Workflow/Run/Traces.antt =====
-- What an action of src/workflow.mjs adds to the trace, whether it returns or throws: how many
-- calls of `runRole`, and with which timeouts.
use bimo.Base.{
  arith, ℕ, suc, ◌+◌, ◌≤◌, String, Bool, true, false, List, [], ◌∷◌, ◌++◌, append_assoc, all, leb,
  Result, ok, err, ◌≡◌, ◌∙◌, ap, sym, refl, ◌&&◌, if◌then◌else◌,
}
use bimo.Js.{Value, Fields, get, nat_of}
use bimo.Workflow.History.{render_changelog}
use bimo.Workflow.World.{
  World, Env, Run, M, Call, Target, clock, run_role, write_temporary, rename_temporary,
  remove_temporary, append_event, perform, read_clock, atomic_write, clean_up, push_event,
  record_event, ◌>>=◌, then_do, lift, gets, attempt_to, changelog,
}

abbrev pub step_seconds : Run → ℕ
step_seconds r = nat_of (get (get r.workflow "timeouts") "stepSeconds")

-- a role gets at least ten seconds, and at most those of a step
abbrev pub within : Run → Call → Bool
within r (run_role input) =
    leb 10 (nat_of (get input "timeoutSeconds"))
    && leb (nat_of (get input "timeoutSeconds")) (step_seconds r)
within r _ = true

abbrev pub is_role : Call → Bool
is_role (run_role input) = true
is_role _ = false

-- the number of calls of `runRole`
abbrev pub roles_called : List Call → ℕ
roles_called [] = 0
roles_called (c ∷ rest) = let n = roles_called rest in if is_role c then suc n else n

called-append : (xs ys : List Call) → roles_called (xs ++ ys) ≡ roles_called xs + roles_called ys
called-append [] ys = omega arith
called-append (x ∷ xs) ys = ground (arith, called-append xs ys)

all-append :
    (p : Call → Bool) (xs ys : List Call)
    → all p xs ≡ true
    → all p ys ≡ true
    → all p (xs ++ ys) ≡ true
all-append p [] ys h k = k
all-append p (x ∷ xs) ys h k = ground (arith, h, k, all-append p xs ys)

-- What an action adds: calls within the limits, at most k of them of roles.
pub record Extends (r : Run) (k : ℕ) (w w' : World) : Type 0 where
  pub new : List Call
  pub grows : w'.trace ≡ new ++ w.trace
  pub safe : all (within r) new ≡ true
  pub few : roles_called new ≤ k

unfoldable pub Traces {ℓ} : Run → ℕ → {A : Type ℓ} → M A → Type 0
Traces r k m = (env : Env) (w : World) → Extends r k w (m env w).1

-- a value that the action may return
abbrev pub Returned {ℓ} : {A : Type ℓ} → M A → A → Type ℓ
Returned m a = (env : Env) × (w : World) × (v : World) × (m env w ≡ (ok a, v))

module _ (r : Run) where
  pub Extends-same : (k : ℕ) (w w' : World) → w'.trace ≡ w.trace → Extends r k w w'
  Extends-same k w w' h = record { new = []; grows = h; safe = refl; few = omega arith }

  pub Extends-trans :
      {j k n : ℕ} (w v u : World) → j + k ≤ n → Extends r j w v → Extends r k v u → Extends r n w u
  Extends-trans w v u le a b = record {
    new = b.new ++ a.new;
    grows = b.grows ∙ ap (λ t. b.new ++ t) a.grows ∙ sym (append_assoc b.new a.new w.trace);
    safe = all-append (within r) b.new a.new b.safe a.safe;
    few = omega (arith, le, a.few, b.few, called-append b.new a.new);
  }

  pub Traces->>=-returns {ℓ κ} :
      {A : Type ℓ} {B : Type κ} (j k n : ℕ) (m : M A) (f : A → M B)
      → j + k ≤ n
      → Traces r j m
      → ((a : A) → Returned m a → Traces r k (f a))
      → Traces r n (m >>= f)
  unfolding Traces ◌>>=◌
  Traces->>=-returns {B = B} j k n m f le first later env w = on (m env w) refl (first env w)
    where
      on :
          (p : Result _ × World)
          → m env w ≡ p
          → Extends r j w p.1
          → Extends r n w (then_do f p env).1
      on (ok a, v) e h = Extends-trans w v _ le h (later a (env, w, v, e) env v)
      on (err e, v) q h = Extends-trans w v v le h (Extends-same k v v refl)

  pub Traces->>= {ℓ κ} :
      {A : Type ℓ} {B : Type κ} (j k n : ℕ) (m : M A) (f : A → M B)
      → j + k ≤ n
      → Traces r j m
      → ((a : A) → Traces r k (f a))
      → Traces r n (m >>= f)
  Traces->>= j k n m f le first later = Traces->>=-returns j k n m f le first (λ a e. later a)

  pub Traces-attempt {ℓ κ} :
      {A : Type ℓ} {B : Type κ} (j k n : ℕ) (m : M A) (h : Result A → M B)
      → j + k ≤ n
      → Traces r j m
      → ((out : Result A) → Traces r k (h out))
      → Traces r n (attempt_to m h)
  unfolding Traces
  Traces-attempt j k n m h le first later env w =
      Extends-trans w (m env w).1 _ le (first env w) (later (m env w).0 env (m env w).1)

  pub Traces-weaken {ℓ} : {A : Type ℓ} (k n : ℕ) (m : M A) → k ≤ n → Traces r k m → Traces r n m
  unfolding Traces
  Traces-weaken k n m le h env w =
      let e = h env w in
      record { new = e.new; grows = e.grows; safe = e.safe; few = omega (arith, le, e.few) }

  -- before or after an action without calls of roles
  pub Traces-after {ℓ κ} :
      {A : Type ℓ} {B : Type κ} (n : ℕ) (m : M A) (f : A → M B)
      → Traces r 0 m
      → ((a : A) → Traces r n (f a))
      → Traces r n (m >>= f)
  Traces-after n m f = Traces->>= 0 n n m f (omega arith)

  pub Traces-before {ℓ κ} :
      {A : Type ℓ} {B : Type κ} (n : ℕ) (m : M A) (f : A → M B)
      → Traces r n m
      → ((a : A) → Traces r 0 (f a))
      → Traces r n (m >>= f)
  Traces-before n m f = Traces->>= n 0 n m f (omega arith)

  pub Traces-same {ℓ} :
      {A : Type ℓ} (k : ℕ) (m : M A)
      → ((env : Env) (w : World) → (m env w).1.trace ≡ w.trace)
      → Traces r k m
  unfolding Traces
  Traces-same k m h env w = Extends-same k w _ (h env w)

  pub Traces-lift {ℓ} : {A : Type ℓ} (k : ℕ) (out : Result A) → Traces r k (lift out)
  Traces-lift k out = Traces-same k (lift out) (λ env w. refl)

  pub Traces-perform :
      (k : ℕ) (c : Call) → within r c ≡ true → roles_called (c ∷ []) ≤ k → Traces r k (perform c)
  unfolding Traces perform
  Traces-perform k c h le env w = record {
    new = c ∷ [];
    grows = refl;
    safe = ground (arith, h);
    few = le;
  }

  pub Traces-read_clock : Traces r 0 read_clock
  unfolding Traces read_clock
  Traces-read_clock env w = record {
    new = clock ∷ [];
    grows = refl;
    safe = refl;
    few = omega arith;
  }

  -- the actions that call no role
  pub Traces-atomic_write :
      (target : Target) (text : String) → Traces r 0 (atomic_write target text)
  unfolding atomic_write clean_up
  Traces-atomic_write target text =
      Traces-attempt 0 0 0 _ (clean_up target) (omega arith)
        (Traces-after 0 _ _ (Traces-perform 0 (write_temporary target text) refl (omega arith))
          (λ _. Traces-perform 0 (rename_temporary target) refl (omega arith)))
        handler
    where
      handler : (out : Result Value) → Traces r 0 (clean_up target out)
      handler (ok done) = Traces-lift 0 (ok done)
      handler (err e) =
          Traces-attempt 0 0 0 _ _ (omega arith)
            (Traces-perform 0 (remove_temporary target) refl (omega arith))
            (λ _. Traces-lift 0 (err e))

  Traces-push_event : (type : String) (details : Fields) → Traces r 0 (push_event r type details)
  unfolding Traces push_event
  Traces-push_event type details env w = record {
    new = [];
    grows = refl;
    safe = refl;
    few = omega arith;
  }

  pub Traces-record_event :
      (type : String) (details : Fields) → Traces r 0 (record_event r type details)
  unfolding record_event
  Traces-record_event type details = Traces-after 0 _ _ (Traces-push_event type details) λ e.
      Traces-after 0 _ _ (Traces-perform 0 (append_event _) refl (omega arith)) λ _.
        Traces-after 0 (gets (λ w. w.events)) _ (Traces-same 0 _ (λ env w. refl)) λ events.
          Traces-after 0 (lift (render_changelog events)) _ (Traces-lift 0 _) λ text.
            Traces-after 0 _ _ (Traces-atomic_write changelog text) λ _. Traces-lift 0 (ok e)
