-- ===== src/Base/Results.antt =====
-- Code that may throw an `Error` with a message returns a `Result`.
use Prim.Native.String.{String}
use mathlib.Core.Path.{◌≡◌, refl}
use mathlib.Core.Logic.{◌⊎◌, inl, inr}
use mathlib.Core.Bool.{Bool, true, false}
use mathlib.Core.List.{List, [], ◌∷◌}
use bimo.Base.Lists.{All}
use Prim.Native.Nat.{ℕ, suc}

pub data Result {ℓ} (A : Type ℓ) : Type ℓ where
  err : (message : String) → Result A
  ok : (value : A) → Result A

-- To split on a computed result and keep the equation.
pub Result-cases {ℓ} :
    {A : Type ℓ} (r : Result A) → ((a : A) × (r ≡ ok a)) ⊎ ((e : String) × (r ≡ err e))
Result-cases (ok a) = inl (a, refl)
Result-cases (err e) = inr (e, refl)

pub ok-injective {ℓ} : {A : Type ℓ} {a b : A} → ok a ≡ ok b → a ≡ b
ok-injective h = cc

infixl 5 ◌>>=◌ ◌>>◌
abbrev pub ◌>>=◌ {κ ℓ} : {B : Type κ} {A : Type ℓ} → Result A → (A → Result B) → Result B
err message >>= next = err message
ok value >>= next = next value

abbrev pub ◌>>◌ {ℓ κ} : {A : Type ℓ} {B : Type κ} → Result A → Result B → Result B
m >> k = m >>= λ _. k

-- `if (!test) fail(message)`
abbrev pub check : Bool → String → Result (Unit {0})
check true e = ok tt
check false e = err e

module _ {ℓ κ} {A : Type ℓ} {B : Type κ} where
  -- Inversion of a successful bind.
  pub >>=-eq-ok :
      (first : Result A) (next : A → Result B) {end : B}
      → (first >>= next) ≡ ok end
      → (value : A) × (first ≡ ok value) × (next value ≡ ok end)
  >>=-eq-ok (err message) next h = cc
  >>=-eq-ok (ok value) next h = (value, refl, h)

  pub >>-eq-ok :
      (m : Result A) (k : Result B) {b : B} → (m >> k) ≡ ok b → ((a : A) × (m ≡ ok a)) × (k ≡ ok b)
  >>-eq-ok (ok a) k h = ((a, refl), h)
  >>-eq-ok (err e) k h = cc

pub check-eq-ok : (b : Bool) (e : String) {u : Unit {0}} → check b e ≡ ok u → b ≡ true
check-eq-ok true e h = refl
check-eq-ok false e h = cc

pub check-then {κ} :
    {B : Type κ} (c : Bool) (e : String) (k : Result B) {b : B}
    → (check c e >> k) ≡ ok b
    → (c ≡ true) × (k ≡ ok b)
check-then true e k h = (refl, h)
check-then false e k h = cc

module _ {ℓ} {A : Type ℓ} where
  -- `for (const x of xs) body(x)`
  abbrev pub each : (A → Result (Unit {0})) → List A → Result (Unit {0})
  each f [] = ok tt
  each f (x ∷ xs) = f x >> each f xs

  -- `for (let i = 0; ...) body(i, xs[i])`, from the index given
  abbrev pub each_from : ℕ → (ℕ → A → Result (Unit {0})) → List A → Result (Unit {0})
  each_from i f [] = ok tt
  each_from i f (x ∷ xs) = f i x >> each_from (suc i) f xs

  pub each-eq-ok :
      (f : A → Result (Unit {0})) (xs : List A) {u : Unit {0}}
      → each f xs ≡ ok u
      → All (λ x. f x ≡ ok tt) xs
  each-eq-ok f [] h = tt
  each-eq-ok f (x ∷ xs) h = let ((a, p), q) = >>-eq-ok (f x) (each f xs) h in (p, each-eq-ok f xs q)

  pub each-check :
      (p : A → Bool) (e : A → String) (xs : List A)
      → each (λ x. check (p x) (e x)) xs ≡ ok tt
      → All (λ x. p x ≡ true) xs
  each-check p e [] h = tt
  each-check p e (x ∷ xs) h =
      let (here, later) = check-then (p x) (e x) _ h in (here, each-check p e xs later)

  pub each-check_twice :
      (p q : A → Bool) (e f : A → String) (xs : List A)
      → each (λ x. check (p x) (e x) >> check (q x) (f x)) xs ≡ ok tt
      → All (λ x. p x ≡ true) xs × All (λ x. q x ≡ true) xs
  each-check_twice p q e f [] h = (tt, tt)
  each-check_twice p q e f (x ∷ xs) h =
      let ((_, both), later) = >>-eq-ok (check (p x) (e x) >> check (q x) (f x)) _ h in
      let (first, second) = check-then (p x) (e x) _ both in
      let (ps, qs) = each-check_twice p q e f xs later in
      ((first, ps), (check-eq-ok (q x) (f x) second, qs))

-- the value of a result, or a default
abbrev pub from_ok {ℓ} : {A : Type ℓ} → A → Result A → A
from_ok d (ok a) = a
from_ok d (err e) = d
