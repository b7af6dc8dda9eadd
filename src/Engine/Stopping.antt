-- ===== src/Engine/Stopping.antt =====
-- How long `Stop` of backend/internal/core/worker/worker.go waits, in rounds of the workers' steps.
use merope.Prelude.{
  ℕ, ◌+◌, ◌*◌, ◌≤◌, ◌≡◌, ◌∙◌, ◌⊎◌, inl, inr, sym, refl, arith, Bool, true, false, List, [], ◌∷◌,
  ◌||◌, either_true, length, All,
}
use merope.Engine.{Engine, Event, step, run, has_stopped}
use merope.Engine.Shutdown.{is_start, any_start, run_stopped}
use merope.Engine.Nearing.{
  steps_left, late, late_calls, is_return, is_leave, any_event, Nears, unmoved, step-Nears,
}

Nears-trans :
    (has_return has_leave more_return more_leave : Bool) (n m : ℕ) (e e' e'' : Engine)
    → Nears has_return has_leave n e e'
    → Nears more_return more_leave m e' e''
    → Nears (has_return || more_return) (has_leave || more_leave) (n + m) e e''
Nears-trans hr hl mr ml n m e e' e'' (_, first) (s, second) = (
  s,
  elim first [
    | inr near ↦ elim second [ inl (_, near') ↦ inr (omega arith) | inr near' ↦ inr (omega arith) ]
    | inl (quiet, near) ↦ elim second [
      | inr near' ↦ inr (omega arith)
      | inl (quiet', near') ↦ inl (
        record {
          waiting = quiet'.waiting ∙ quiet.waiting;
          running = quiet'.running ∙ quiet.running;
          no_task = λ h. elim (either_true hr mr h) [
            | inl p ↦ quiet.no_task p
            | inr p ↦ sym quiet.running ∙ quiet'.no_task p
          ];
          no_worker = λ h. elim (either_true hl ml h) [
            | inl p ↦ quiet.no_worker p
            | inr p ↦ sym quiet.waiting ∙ quiet'.no_worker p
          ];
        },
        omega arith,
      )
    ]
  ],
)

run-Nears :
    (events : List Event) (e : Engine)
    → any_start events ≡ false
    → e.is_stopped ≡ true
    → Nears
        (any_event is_return events)
        (any_event is_leave events)
        (late_calls events)
        e
        (run events e)
unfolding run
run-Nears [] e n s = unmoved 0 e e s refl refl (omega arith)
run-Nears (event ∷ rest) e n s =
    let first : is_start event ≡ false = ground arith in
    let later : any_start rest ≡ false = ground arith in
    let near = step-Nears event e first s in
    Nears-trans (is_return event) (is_leave event) (any_event is_return rest)
      (any_event is_leave rest) (late event) (late_calls rest) e (step event e)
      (run rest (step event e)) near (run-Nears rest (step event e) later (near.0))

-- A round: the goroutines take steps in any order, among them the return of a task and the leaving of a
-- worker, where these can happen; `Start` is not called.
abbrev pub IsRound : List Event → Type 0
IsRound events =
    (any_start events ≡ false)
    × (any_event is_return events ≡ true)
    × (any_event is_leave events ≡ true)

unfoldable pub run_rounds : List (List Event) → Engine → Engine
run_rounds [] e = e
run_rounds (events ∷ rest) e = run_rounds rest (run events e)

abbrev pub late_in : List (List Event) → ℕ
late_in [] = 0
late_in (events ∷ rest) = late_calls events + late_in rest

empty_stopped : (e : Engine) → e.is_stopped ≡ true → e.idle ≡ 0 → e.busy ≡ 0 → has_stopped e ≡ true
empty_stopped e s i b = rw (s, i, b) refl

round_nears :
    (events : List Event) (e : Engine)
    → IsRound events
    → e.is_stopped ≡ true
    → ((run events e).is_stopped ≡ true)
      × ((has_stopped (run events e) ≡ true)
          ⊎ (steps_left (run events e) + 1 ≤ steps_left e + 2 * late_calls events))
round_nears events e (n, has_return, has_leave) s =
    let (s', nears) = run-Nears events e n s in
    (
      s',
      elim nears [
        | inr near ↦ inr near
        | inl (quiet, _) ↦ inl (
            empty_stopped (run events e) s' (quiet.waiting ∙ quiet.no_worker has_leave)
              (quiet.running ∙ quiet.no_task has_return))
      ],
    )

run_rounds-stopped :
    (rounds : List (List Event)) (e : Engine)
    → All IsRound rounds
    → has_stopped e ≡ true
    → has_stopped (run_rounds rounds e) ≡ true
unfolding run_rounds
run_rounds-stopped [] e h stopped = stopped
run_rounds-stopped (events ∷ rest) e ((n, _, _), h) stopped =
    run_rounds-stopped rest (run events e) h (run_stopped events e n stopped)

-- `Stop` returns if `Start` is not called again: once `stopCh` is closed, whatever the goroutines do and in
-- any order, the workers have all left after as many rounds as there are steps left, with two more for each
-- call of `Submit` that was past its first select. In a round a running task returns and a waiting worker
-- leaves at least once, where there is one.
pub stop_returns :
    (rounds : List (List Event)) (e : Engine)
    → e.is_stopped ≡ true
    → All IsRound rounds
    → steps_left e + 2 * late_in rounds ≤ length rounds
    → has_stopped (run_rounds rounds e) ≡ true
unfolding run_rounds
stop_returns [] e s h enough = empty_stopped e s (omega arith) (omega arith)
stop_returns (events ∷ rest) e s (h, later) enough =
    let (s', nears) = round_nears events e h s in
    elim nears [
      | inl stopped ↦ run_rounds-stopped rest (run events e) later stopped
      | inr near ↦ stop_returns rest (run events e) s' later (omega arith)
    ]
