-- ===== src/Engine/Order.antt =====
-- The order and the numbers of tasks of the engine in backend/internal/core/worker/worker.go.
use merope.Prelude.{
  ℕ, zero, suc, ◌+◌, ◌≤◌, ◌≡◌, ◌∙◌, sym, refl, ap, arith, Bool, Option, none, some, List, [], ◌∷◌,
  ◌++◌, length, length-append, append_assoc, append_nil, if◌then◌else◌,
}
use merope.Prelude.Int.{ℤ}
use merope.Engine.{
  Engine, Event, starts, closes, cancels, takes, returns, leaves, submits, start, submit, take_with,
  step, run, new, capacity,
}

pub record Sound (e : Engine) : Type 0 where
  pub order : e.accepted ≡ e.started ++ e.task_queue
  pub room : length e.task_queue ≤ capacity
  pub everyone : e.idle + e.busy + e.left ≡ e.spawned
  pub running : length e.started ≡ e.ended + e.busy

submit-Sound :
    (task : Option ℕ) (passed stops : Bool) (e : Engine)
    → Sound e
    → Sound (submit task passed stops e).1
unfolding submit
submit-Sound none passed stops e s = s
submit-Sound (some t) passed stops e s = ground (
  arith,
  s.order,
  s.room,
  s.everyone,
  s.running,
  length-append e.task_queue (t ∷ []),
  append_assoc e.started e.task_queue (t ∷ []),
)

take_with-Sound :
    (n : ℕ) (queue : List ℕ) (e : Engine)
    → n ≡ e.idle
    → queue ≡ e.task_queue
    → Sound e
    → Sound (take_with n queue e)
unfolding take_with
take_with-Sound zero queue e h k s = s
take_with-Sound (suc n) [] e h k s = s
take_with-Sound (suc n) (t ∷ rest) e h k s = record {
  order = s.order ∙ ap (◌++◌ e.started) (sym k) ∙ sym (append_assoc e.started (t ∷ []) rest);
  room = omega (arith, s.room, ap length k);
  everyone = omega (arith, s.everyone, h);
  running = omega (arith, s.running, length-append e.started (t ∷ []));
}

step-Sound : (event : Event) (e : Engine) → Sound e → Sound (step event e)
unfolding step start
step-Sound starts e s = ground (arith, s.order, s.room, s.everyone, s.running)
step-Sound closes e s = ground (arith, s.order, s.room, s.everyone, s.running)
step-Sound cancels e s = ground (arith, s.order, s.room, s.everyone, s.running)
step-Sound takes e s = take_with-Sound e.idle e.task_queue e refl refl s
step-Sound returns e s = ground (arith, s.order, s.room, s.everyone, s.running)
step-Sound leaves e s = ground (arith, s.order, s.room, s.everyone, s.running)
step-Sound (submits task passed stops) e s = submit-Sound task passed stops e s

run_keeps : (events : List Event) (e : Engine) → Sound e → Sound (run events e)
unfolding run
run_keeps [] e s = s
run_keeps (event ∷ rest) e s = run_keeps rest (step event e) (step-Sound event e s)

take_with-accepted :
    (n : ℕ) (queue : List ℕ) (e : Engine) → (take_with n queue e).accepted ≡ e.accepted
unfolding take_with
take_with-accepted zero queue e = refl
take_with-accepted (suc n) [] e = refl
take_with-accepted (suc n) (t ∷ rest) e = refl

-- The task of an event that is a call of `Submit` that answers true.
abbrev pub told : Event → Engine → List ℕ
told (submits (some task) passed stops) e =
    if (submit (some task) passed stops e).0 then task ∷ [] else []
told _ e = []

-- The tasks for which `Submit` answers true, the oldest first.
unfoldable pub told_true : List Event → Engine → List ℕ
told_true [] e = []
told_true (event ∷ rest) e = told event e ++ told_true rest (step event e)

step-told : (event : Event) (e : Engine) → (step event e).accepted ≡ e.accepted ++ told event e
unfolding step start submit
step-told starts e = sym (append_nil e.accepted)
step-told closes e = sym (append_nil e.accepted)
step-told cancels e = sym (append_nil e.accepted)
step-told takes e = take_with-accepted e.idle e.task_queue e ∙ sym (append_nil e.accepted)
step-told returns e = ground (arith, append_nil e.accepted)
step-told leaves e = ground (arith, append_nil e.accepted)
step-told (submits none passed stops) e = sym (append_nil e.accepted)
step-told (submits (some task) passed stops) e = ground (arith, append_nil e.accepted)

run-told :
    (events : List Event) (e : Engine) → (run events e).accepted ≡ e.accepted ++ told_true events e
unfolding run told_true
run-told [] e = sym (append_nil e.accepted)
run-told (event ∷ rest) e =
    run-told rest (step event e)
    ∙ ap (λ (xs : List ℕ). xs ++ told_true rest (step event e)) (step-told event e)
    ∙ append_assoc e.accepted (told event e) (told_true rest (step event e))

-- However the calls and the goroutines of a new engine interleave, its workers take the tasks for which
-- `Submit` answered true in the order of those calls, each once, and those not taken are in the channel,
-- which holds at most 10000; each worker started is waiting, in a task or has returned, and each task taken
-- has returned or has its worker.
pub run-Sound :
    (n : ℤ) (events : List Event)
    → Sound (run events (new n))
      × (told_true events (new n) ≡ (run events (new n)).started ++ (run events (new n)).task_queue)
run-Sound n events =
    let sound =
      run_keeps events (new n)
        (record { order = refl; room = omega arith; everyone = refl; running = refl }) in
    (sound, sym (run-told events (new n)) ∙ sound.order)
