-- ===== src/Engine/Shutdown.antt =====
-- What the engine of backend/internal/core/worker/worker.go does once `Stop` has returned.
use merope.Prelude.{
  ℕ, zero, suc, ◌≡◌, ◌∙◌, refl, arith, Bool, true, false, none, some, List, [], ◌∷◌, ◌==◌, ◌||◌,
  ==_iff,
}
use merope.Engine.{
  Engine, Event, starts, closes, cancels, takes, returns, leaves, submits, submit, take_with, step,
  run, has_stopped,
}

abbrev pub is_start : Event → Bool
is_start starts = true
is_start _ = false

abbrev pub any_start : List Event → Bool
any_start [] = false
any_start (event ∷ rest) = is_start event || any_start rest

take_with_stopped :
    (n : ℕ) (queue : List ℕ) (e : Engine) → (n == 0) ≡ true → take_with n queue e ≡ e
unfolding take_with
take_with_stopped zero queue e h = refl
take_with_stopped (suc n) queue e h = absurd (omega (arith, (==_iff (suc n) 0).0 h))

step_stopped :
    (event : Event) (e : Engine)
    → is_start event ≡ false
    → has_stopped e ≡ true
    → (has_stopped (step event e) ≡ true) × ((step event e).started ≡ e.started)
unfolding step submit
step_stopped starts e n h = absurd (cc)
step_stopped closes e n h = ground arith
step_stopped cancels e n h = ground arith
step_stopped takes e n h =
    let idle : (e.idle == 0) ≡ true = ground arith in
    rw (take_with_stopped e.idle e.task_queue e idle) (h, refl)
step_stopped returns e n h = ground arith
step_stopped leaves e n h = ground arith
step_stopped (submits none passed stops) e n h = ground arith
step_stopped (submits (some t) passed stops) e n h = ground arith

pub run_stopped :
    (events : List Event) (e : Engine)
    → any_start events ≡ false
    → has_stopped e ≡ true
    → has_stopped (run events e) ≡ true
unfolding run
run_stopped [] e n h = h
run_stopped (event ∷ rest) e n h =
    let first : is_start event ≡ false = ground arith in
    let later : any_start rest ≡ false = ground arith in
    run_stopped rest (step event e) later (step_stopped event e first h).0

-- Once Stop has returned, an engine that is not started again takes no task, whatever the callers of
-- Submit, the context and the goroutines do.
pub stopped_is_quiet :
    (events : List Event) (e : Engine)
    → any_start events ≡ false
    → has_stopped e ≡ true
    → (run events e).started ≡ e.started
unfolding run
stopped_is_quiet [] e n h = refl
stopped_is_quiet (event ∷ rest) e n h =
    let first : is_start event ≡ false = ground arith in
    let later : any_start rest ≡ false = ground arith in
    let (still, same) = step_stopped event e first h in
    stopped_is_quiet rest (step event e) later still ∙ same
