-- ===== src/Engine/Tests.antt =====
-- Two workers and three tasks; the third is submitted while `Stop` runs.
use merope.Prelude.{◌++◌, ◌≡◌, refl, arith, true, false, some, List, [], ◌∷◌}
use merope.Prelude.Int.{pos}
use merope.Engine.{
  Engine, Event, starts, closes, takes, returns, leaves, submits, start, submit, take_with, step,
  run, new, has_stopped,
}
use merope.Engine.Order.{Sound, told_true, run-Sound}
use merope.Engine.Shutdown.{stopped_is_quiet}
use merope.Engine.Stopping.{run_rounds, stop_returns}

program : Unit {0}
unfolding start submit take_with step run
program = tt

abbrev events : List Event
events =
    starts
    ∷ submits (some 7) true false
    ∷ submits (some 8) true false
    ∷ takes
    ∷ takes
    ∷ returns
    ∷ closes
    ∷ submits (some 9) true false
    ∷ leaves
    ∷ returns
    ∷ leaves
    ∷ []

abbrev stopped : Engine
unfolding run
stopped = run events (new (pos 2))

stopped_test :
    (has_stopped stopped ≡ true) × (stopped.started ≡ 7 ∷ 8 ∷ []) × (stopped.task_queue ≡ 9 ∷ [])
unfolding start submit take_with step run
stopped_test = (refl, refl, refl)

run-Sound_example :
    Sound (run events (new (pos 2)))
    × (told_true events (new (pos 2))
        ≡ (run events (new (pos 2))).started ++ (run events (new (pos 2))).task_queue)
run-Sound_example = run-Sound (pos 2) events

stopped_is_quiet_example :
    (run (takes ∷ submits (some 9) true false ∷ takes ∷ []) stopped).started ≡ stopped.started
unfolding start submit take_with step run
stopped_is_quiet_example =
    stopped_is_quiet (takes ∷ submits (some 9) true false ∷ takes ∷ []) stopped refl refl

abbrev closing : Engine
unfolding run
closing =
    run (starts ∷ submits (some 7) true false ∷ submits (some 8) true false ∷ takes ∷ closes ∷ [])
      (new (pos 2))

abbrev pass : List Event
pass = takes ∷ returns ∷ leaves ∷ []

abbrev late_pass : List Event
late_pass = submits (some 9) true false ∷ pass

stop_returns_example :
    has_stopped (run_rounds (late_pass ∷ pass ∷ pass ∷ pass ∷ pass ∷ pass ∷ pass ∷ []) closing)
    ≡ true
unfolding start submit take_with step run
stop_returns_example =
    stop_returns (late_pass ∷ pass ∷ pass ∷ pass ∷ pass ∷ pass ∷ pass ∷ []) closing refl
      (
        (refl, refl, refl),
        (
          (refl, refl, refl),
          (
            (refl, refl, refl),
            (
              (refl, refl, refl),
              ((refl, refl, refl), ((refl, refl, refl), ((refl, refl, refl), tt))),
            ),
          ),
        ),
      )
      (omega arith)
