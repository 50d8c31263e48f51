-- ===== src/Controller/Blocks.antt =====
-- A call of a port, of the controller (src/pod-controller.mjs).
pub use bimo.Actions.Blocks.{>>=-returns, require-returns, require-ends, pure-returns}
use bimo.Base.{◌≡◌, ok, ◌∷◌}
use bimo.Js.{Value}
use bimo.Controller.World.{World, Env, Call, perform}

-- a call of a port is recorded, and changes nothing else
pub perform-world :
    (c : Call) (env : Env) (w : World) {v : Value} {w' : World}
    → perform c env w ≡ (ok v, w')
    → w' ≡ (record w { trace = c ∷ w.trace })
unfolding perform
perform-world c env w h = cc
