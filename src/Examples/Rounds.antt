-- ===== src/Examples/Rounds.antt =====
-- The loop over the three writers of the example run (src/pod-controller.mjs).
use bimo.Base.{String, true, mem_text, [], none, ok, ◌≡◌, refl}
use bimo.Controller.Race.{Race, settle_all, writer_slots}
use bimo.Controller.Rounds.{covers, settle_all-finishes}
use bimo.Examples.ReadyRun.{config, environment}
use bimo.Examples.FailedRun.{attempt, before}

abbrev race : Race
race = record { pending = writer_slots; initial = []; first_error = none }

settle_all-finishes_example :
    (s : Race) × ((settle_all config attempt [] [] 3 race environment before).0 ≡ ok s)
    × (s.pending ≡ [])
    × ((t : String) → mem_text t writer_slots ≡ true → covers s t ≡ true)
    × ((t : String) → covers race t ≡ true → covers s t ≡ true)
settle_all-finishes_example =
    settle_all-finishes config attempt [] [] 3 race environment before refl
