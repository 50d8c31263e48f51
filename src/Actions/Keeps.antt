-- ===== src/Actions/Keeps.antt =====
-- Actions that leave a part of the state alone, whether they return or throw.
use bimo.Base.{Result, ok, err, ◌≡◌, ◌∙◌, refl}
use bimo.Actions.{Action, ◌>>=◌, then_do}

-- The view p of the state is the same after the action.
unfoldable pub Keeps {ℓ κ} :
    {E S : Type 0} {P : Type κ} {A : Type ℓ} → (S → P) → Action E S A → Type κ
Keeps p m = (env : _) (w : _) → p (m env w).1 ≡ p w

module _ {κ} {E S : Type 0} {P : Type κ} (p : S → P) where
  pub Keeps->>= {ℓ ι} :
      {A : Type ℓ} {B : Type ι} (m : Action E S A) (f : A → Action E S B)
      → Keeps p m
      → ((a : A) → Keeps p (f a))
      → Keeps p (m >>= f)
  unfolding Keeps ◌>>=◌
  Keeps->>= m f first later env w = on (m env w) ∙ first env w
    where
      on : (r : Result _ × S) → p (then_do f r env).1 ≡ p r.1
      on (ok a, v) = later a env v
      on (err e, v) = refl
