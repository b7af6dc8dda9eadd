-- ===== src/Engine/Nearing.antt =====
-- What a step of the goroutines of backend/internal/core/worker/worker.go leaves to do, once `stopCh` is closed.
use merope.Prelude.{
  ℕ, zero, suc, ◌+◌, ◌*◌, ◌≤◌, ◌≡◌, ◌⊎◌, inl, inr, refl, ap, arith, Bool, true, false, Option, none,
  some, List, [], ◌∷◌, ◌||◌, ◌&&◌, tests, Bool-cases, length, length-append, ltb, if◌then◌else◌,
}
use merope.Engine.{
  Engine, Event, starts, closes, cancels, takes, returns, leaves, submits, submit, take_with, step,
}
use merope.Engine.Shutdown.{is_start}

-- The steps that the workers can still take, when each task is taken, returns, and no more come.
abbrev pub steps_left : Engine → ℕ
steps_left e = 2 * length e.task_queue + 2 * e.busy + e.idle

-- The calls of `Submit` that were past their first select before `stopCh` was closed.
abbrev pub late : Event → ℕ
late (submits _ passed _) = if passed then 1 else 0
late _ = 0

abbrev pub late_calls : List Event → ℕ
late_calls [] = 0
late_calls (event ∷ rest) = late event + late_calls rest

abbrev pub is_return : Event → Bool
is_return returns = true
is_return _ = false

abbrev pub is_leave : Event → Bool
is_leave leaves = true
is_leave _ = false

abbrev pub any_event : (Event → Bool) → List Event → Bool
any_event p [] = false
any_event p (event ∷ rest) = p event || any_event p rest

-- No worker moved from `e` to `e'`, although some task could return and some worker leave as the two tests say.
pub record Quiet (has_return has_leave : Bool) (e e' : Engine) : Type 0 where
  pub waiting : e'.idle ≡ e.idle
  pub running : e'.busy ≡ e.busy
  pub no_task : has_return ≡ true → e.busy ≡ 0
  pub no_worker : has_leave ≡ true → e.idle ≡ 0

-- No worker moved, or one step fewer is left, when `n` tasks came.
abbrev pub Nears : Bool → Bool → ℕ → Engine → Engine → Type 0
Nears has_return has_leave n e e' =
    (e'.is_stopped ≡ true)
    × ((Quiet has_return has_leave e e' × (steps_left e' ≤ steps_left e + 2 * n))
        ⊎ (steps_left e' + 1 ≤ steps_left e + 2 * n))

-- A step that moves no worker, and leaves at most `n` tasks more.
pub unmoved :
    (n : ℕ) (e e' : Engine)
    → e'.is_stopped ≡ true
    → e'.idle ≡ e.idle
    → e'.busy ≡ e.busy
    → length e'.task_queue ≤ length e.task_queue + n
    → Nears false false n e e'
unmoved n e e' s waiting running few = (
  s,
  inl (
    record {
      waiting = waiting;
      running = running;
      no_task = λ p. absurd (cc);
      no_worker = λ p. absurd (cc);
    },
    omega arith,
  ),
)

take_with-Nears :
    (m : ℕ) (queue : List ℕ) (e : Engine)
    → m ≡ e.idle
    → queue ≡ e.task_queue
    → e.is_stopped ≡ true
    → Nears false false 0 e (take_with m queue e)
unfolding take_with
take_with-Nears zero queue e h k s = unmoved 0 e e s refl refl (omega arith)
take_with-Nears (suc m) [] e h k s = unmoved 0 e e s refl refl (omega arith)
take_with-Nears (suc m) (t ∷ rest) e h k s = (s, inr (omega (arith, h, ap length k)))

submit-kept :
    (task : Option ℕ) (passed stops : Bool) (e : Engine)
    → e.is_stopped ≡ true
    → ((submit task passed stops e).1.is_stopped ≡ true)
      × ((submit task passed stops e).1.idle ≡ e.idle)
      × ((submit task passed stops e).1.busy ≡ e.busy)
      × (length (submit task passed stops e).1.task_queue
          ≤ length e.task_queue + late (submits task passed stops))
unfolding submit
submit-kept none passed stops e s = (s, refl, refl, omega arith)
submit-kept (some t) true stops e s = ground (arith, length-append e.task_queue (t ∷ []))
submit-kept (some t) false stops e s = ground arith

pub step-Nears :
    (event : Event) (e : Engine)
    → is_start event ≡ false
    → e.is_stopped ≡ true
    → Nears (is_return event) (is_leave event) (late event) e (step event e)
unfolding step
step-Nears starts e n s = absurd (cc)
step-Nears closes e n s = unmoved 0 e (record e { is_stopped = true }) refl refl refl (omega arith)
step-Nears cancels e n s = unmoved 0 e (record e { is_cancelled = true }) s refl refl (omega arith)
step-Nears takes e n s = take_with-Nears e.idle e.task_queue e refl refl s
step-Nears returns e n s = elim (Bool-cases (ltb 0 e.busy)) [
  | inl some_run ↦ rw some_run (s, inr (omega tests))
  | inr none_run ↦ rw none_run (
    s,
    inl (
      record {
        waiting = refl;
        running = refl;
        no_task = λ _. omega tests;
        no_worker = λ p. absurd (cc);
      },
      omega arith,
    ),
  )
]
step-Nears leaves e n s = elim (Bool-cases ((e.is_stopped || e.is_cancelled) && ltb 0 e.idle)) [
  | inl may ↦ let some_wait : ltb 0 e.idle ≡ true = ground arith in rw may (s, inr (omega tests))
  | inr may_not ↦
      let none_wait : e.idle ≡ 0 = ground arith in
      rw may_not (
        s,
        inl (
          record {
            waiting = refl;
            running = refl;
            no_task = λ p. absurd (cc);
            no_worker = λ _. none_wait;
          },
          omega arith,
        ),
      )
]
step-Nears (submits task passed stops) e n s =
    let (s', waiting, running, few) = submit-kept task passed stops e s in
    unmoved (late (submits task passed stops)) e (submit task passed stops e).1 s' waiting running
      few
