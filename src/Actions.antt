-- ===== src/Actions.antt =====
-- Asynchronous code that calls ports: an action takes the environment, which answers the calls, and
-- the state, and returns a value or throws an `Error`; it keeps the state as it left it either way.
pub mod Blocks
pub mod Keeps
use bimo.Base.{String, Bool, Result, ok, err, check}

abbrev pub Action {ℓ} : Type 0 → Type 0 → Type ℓ → Type ℓ
Action E S A = E → S → Result A × S

module _ {E S : Type 0} where
  infixl 5 ◌>>=◌ ◌>>◌
  -- the rest of a block, on the outcome so far
  abbrev pub then_do {ℓ κ} :
      {A : Type ℓ} {B : Type κ} → (A → Action E S B) → Result A × S → E → Result B × S
  then_do f (ok a, w) env = f a env w
  then_do f (err e, w) env = (err e, w)

  unfoldable pub ◌>>=◌ {ℓ κ} :
      {A : Type ℓ} {B : Type κ} → Action E S A → (A → Action E S B) → Action E S B
  ◌>>=◌ m f env w = then_do f (m env w) env

  abbrev pub ◌>>◌ {ℓ κ} : {A : Type ℓ} {B : Type κ} → Action E S A → Action E S B → Action E S B
  m >> k = m >>= λ _. k

  abbrev pub pure {ℓ} : {A : Type ℓ} → A → Action E S A
  pure a env w = (ok a, w)

  -- throw new Error(message)
  abbrev pub throw {ℓ} : {A : Type ℓ} → String → Action E S A
  throw e env w = (err e, w)

  -- code that has no effects
  abbrev pub lift {ℓ} : {A : Type ℓ} → Result A → Action E S A
  lift r env w = (r, w)

  abbrev pub require : Bool → String → Action E S (Unit {0})
  require b e = lift (check b e)

  abbrev pub gets {ℓ} : {A : Type ℓ} → (S → A) → Action E S A
  gets f env w = (ok (f w), w)

  abbrev pub modify : (S → S) → Action E S (Unit {0})
  modify f env w = (ok tt, f w)

  -- `try { … } catch (error) { … }`: the outcome as a value, the state as the action left it
  abbrev pub attempt_to {ℓ κ} :
      {A : Type ℓ} {B : Type κ} → Action E S A → (Result A → Action E S B) → Action E S B
  attempt_to m f env w = (λ (p : Result _ × S). f p.0 env p.1) (m env w)
