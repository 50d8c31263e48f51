-- ===== src/Actions/Blocks.antt =====
-- Inversion of do blocks: what an action that returned went through.
use bimo.Base.{◌⊎◌, inl, inr, ◌∙◌, ◌≡◌, refl, Bool, true, false, Result, ok, err, String}
use bimo.Actions.{Action, ◌>>=◌, ◌>>◌, then_do, require, pure}

module _ {E S : Type 0} where
  -- a bind that returned: the first part returned, and then the second from the state that it left
  pub >>=-returns {ℓ κ} :
      {A : Type ℓ} {B : Type κ} (m : Action E S A) (f : A → Action E S B) (env : E) {w w' : S}
      {b : B}
      → (m >>= f) env w ≡ (ok b, w')
      → (a : A) × (v : S) × (m env w ≡ (ok a, v)) × (f a env v ≡ (ok b, w'))
  unfolding ◌>>=◌
  >>=-returns m f env {w} {w'} {b} h = split (m env w) refl h
    where
      split :
          (p : Result _ × S)
          → m env w ≡ p
          → then_do f p env ≡ (ok b, w')
          → (a : _) × (v : S) × (m env w ≡ (ok a, v)) × (f a env v ≡ (ok b, w'))
      split (ok a, v) q h = (a, v, q, h)
      split (err e, v) q h = cc

  -- a bind that threw: the first part threw, or the second one from the state that it left
  pub >>=-throws {ℓ κ} :
      {A : Type ℓ} {B : Type κ} (m : Action E S A) (f : A → Action E S B) (env : E) {w w' : S}
      {e : String}
      → (m >>= f) env w ≡ (err e, w')
      → (m env w ≡ (err e, w'))
        ⊎ ((a : A) × (v : S) × (m env w ≡ (ok a, v)) × (f a env v ≡ (err e, w')))
  unfolding ◌>>=◌
  >>=-throws m f env {w} {w'} {e} h = split (m env w) refl h
    where
      split :
          (p : Result _ × S)
          → m env w ≡ p
          → then_do f p env ≡ (err e, w')
          → (m env w ≡ (err e, w'))
            ⊎ ((a : _) × (v : S) × (m env w ≡ (ok a, v)) × (f a env v ≡ (err e, w')))
      split (ok a, v) q h = inr (a, v, q, h)
      split (err e, v) q h = inl (q ∙ cc)

  pub require-returns {κ} :
      {B : Type κ} (c : Bool) (e : String) (k : Action E S B) (env : E) {w w' : S} {b : B}
      → (require c e >> k) env w ≡ (ok b, w')
      → (c ≡ true) × (k env w ≡ (ok b, w'))
  unfolding ◌>>=◌
  require-returns true e k env h = (refl, h)
  require-returns false e k env h = cc

  -- a test at the end of a block
  pub require-ends :
      (c : Bool) (e : String) (env : E) {w w' : S} {u : Unit {0}}
      → require c e env w ≡ (ok u, w')
      → (c ≡ true) × (w' ≡ w)
  require-ends true e env h = (refl, cc)
  require-ends false e env h = cc

  pub pure-returns {ℓ} :
      {A : Type ℓ} (a : A) (env : E) {w w' : S} {b : A}
      → pure a env w ≡ (ok b, w')
      → (b ≡ a) × (w' ≡ w)
  pure-returns a env h = (cc, cc)
