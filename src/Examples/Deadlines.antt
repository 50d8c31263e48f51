-- ===== src/Examples/Deadlines.antt =====
-- Deadlines of a run (src/pod-controller.mjs).
use bimo.Base.{arith, ◌+◌, ◌*◌, ◌<◌, ◌≤◌, some, ok, ◌≡◌, refl}
use bimo.Js.{max_safe_integer}
use bimo.Js.{get, nat_of}
use bimo.Controller.World.{World, perform, ◌>>=◌}
use bimo.Controller.Time.{now_from_clock, remaining_ms, execution_seconds}
use bimo.Controller.Start.{choose_deadline}
use bimo.Controller.Run.{first_world}
use bimo.Examples.ReadyRun.{config, environment}
use bimo.Controller.Deadlines.{choose_deadline-bounds, execution_seconds-bounds}

chosen : choose_deadline 1000 7200 (some 5000000) ≡ ok 5000000
unfolding choose_deadline
chosen = refl

choose_deadline-bounds_example :
    (1000 < 5000000) × (5000000 ≤ 1000 + 7200 * 1000) × (5000000 ≤ max_safe_integer)
choose_deadline-bounds_example =
    choose_deadline-bounds 1000 7200 (some 5000000) 5000000 (omega arith) chosen

abbrev after : World
after = (execution_seconds config 3600000 environment first_world).1

granted : execution_seconds config 3600000 environment first_world ≡ (ok 1200, after)
unfolding execution_seconds remaining_ms now_from_clock perform ◌>>=◌
granted = refl

execution_seconds-bounds_example :
    (10 ≤ 1200) × (1200 ≤ nat_of (get (get config.template "timeouts") "executionSeconds"))
execution_seconds-bounds_example =
    execution_seconds-bounds config 3600000 environment first_world after 1200 (omega arith) granted
