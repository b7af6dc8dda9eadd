-- ===== src/Breaker/Tests.antt =====
-- The circuit breakers at small thresholds.
use merope.Prelude.{◌≡◌, refl, true, false, List, [], ◌∷◌, ◌&&◌, leb}
use merope.Prelude.Int.{pos, leb_ℤ, ◌-ℤ◌}
use merope.Breaker.Worker
use merope.Breaker.WorkerSteps.{none_yet, then_, enter, turn_away, fail, streak, open_iff_streak}
use merope.Breaker.Resilience.{new, allow_request, report, execute}
use merope.Breaker.Sequential.{Call, run}
use merope.Breaker.Failures.{failed_calls}

program : Unit {0}
unfolding Worker.new Worker.admit Worker.record_failure Worker.reset Worker.attempt_reset streak new
    allow_request report execute run failed_calls ◌-ℤ◌
program = tt

-- Two calls are admitted together and both fail, a third is refused.
open_iff_streak_example : true ≡ (leb 1 2 && leb_ℤ (pos 2) (pos 2))
unfolding program
open_iff_streak_example = open_iff_streak (pos 2) (pos 10) (
    then_
      (then_ (then_ (then_ (then_ none_yet (enter 100 refl)) (enter 101 refl)) (fail 105 refl))
        (fail 106 refl))
      (turn_away 110 refl))

abbrev calls : List Call
calls =
    record { start = 100; end = 101; succeeds = false }
    ∷ record { start = 102; end = 103; succeeds = true }
    ∷ record { start = 104; end = 105; succeeds = false }
    ∷ []
