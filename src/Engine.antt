-- ===== src/Engine.antt =====
-- backend/internal/core/worker/worker.go: the worker engine. A task is a number, the channel of tasks is
-- a list, and goroutines that wait, run a task or have returned are counted. Each event is one step of
-- one goroutine; a `select` with two ready cases takes either, as the event says. The dispatcher is one
-- more caller of `Submit`.
pub mod Order
pub mod Shutdown
pub mod Nearing
pub mod Stopping
mod Tests
use merope.Prelude.{
  ℕ, zero, suc, ◌+◌, ◌-◌, Bool, true, false, not, ◌&&◌, ◌||◌, Option, none, some, List, [], ◌∷◌,
  ◌++◌, length, ltb, ◌==◌, if◌then◌else◌,
}
use merope.Prelude.Int.{ℤ, pos, negsuc}

pub record Engine : Type 0 where
  pub task_queue : List ℕ
  pub max_workers : ℕ
  pub is_stopped : Bool  -- `stopCh` is closed
  pub is_cancelled : Bool  -- the context is done
  pub idle : ℕ  -- workers at their `select`
  pub busy : ℕ  -- workers in a task
  pub left : ℕ  -- workers that returned
  pub spawned : ℕ  -- workers that `Start` made
  pub ended : ℕ  -- tasks that returned
  pub accepted : List ℕ  -- the tasks for which `Submit` gave true, the oldest first
  pub started : List ℕ  -- the tasks that a worker took, the oldest first

abbrev pub workers_of : ℤ → ℕ
workers_of (pos zero) = 100
workers_of (pos (suc n)) = suc n
workers_of (negsuc n) = 100

-- `New`
abbrev pub new : ℤ → Engine
new max_workers = record {
  task_queue = [];
  max_workers = workers_of max_workers;
  is_stopped = false;
  is_cancelled = false;
  idle = 0;
  busy = 0;
  left = 0;
  spawned = 0;
  ended = 0;
  accepted = [];
  started = [];
}

-- `Start`
unfoldable pub start : Engine → Engine
start e = record e { idle = e.idle + e.max_workers; spawned = e.spawned + e.max_workers }

abbrev pub capacity : ℕ
capacity = 10000

-- `Submit`: `passed` when its first select ran before `stopCh` was closed, `stops` when its second
-- select takes a closed `stopCh`.
unfoldable pub submit : Option ℕ → (passed stops : Bool) → Engine → Bool × Engine
submit none passed stops e = (false, e)
submit (some task) passed stops e =
    if e.is_stopped && (not passed || stops)
    then (false, e)
    else if ltb (length e.task_queue) capacity
    then (
      true,
      record e { task_queue = e.task_queue ++ (task ∷ []); accepted = e.accepted ++ (task ∷ []) },
    )
    else (false, e)

-- A worker that waits takes the oldest task; it is never nil, since `Submit` refuses nil.
unfoldable pub take_with : ℕ → List ℕ → Engine → Engine
take_with zero queue e = e
take_with (suc n) [] e = e
take_with (suc n) (task ∷ rest) e = record e {
  task_queue = rest;
  idle = n;
  busy = suc e.busy;
  started = e.started ++ (task ∷ []);
}

pub data Event : Type 0 where
  starts closes cancels takes returns leaves : Event
  submits : Option ℕ → (passed stops : Bool) → Event

-- One event; what cannot happen changes nothing. `Stop` closes `stopCh` once, a task returns with or
-- without an error, and a worker leaves by either closed channel.
unfoldable pub step : Event → Engine → Engine
unfolding take_with
step starts e = start e
step closes e = record e { is_stopped = true }
step cancels e = record e { is_cancelled = true }
step takes e = take_with e.idle e.task_queue e
step returns e =
    if ltb 0 e.busy
    then record e { busy = e.busy - 1; idle = suc e.idle; ended = suc e.ended }
    else e
step leaves e =
    if (e.is_stopped || e.is_cancelled) && ltb 0 e.idle
    then record e { idle = e.idle - 1; left = suc e.left }
    else e
step (submits task passed stops) e = (submit task passed stops e).1

unfoldable pub run : List Event → Engine → Engine
unfolding step
run [] e = e
run (event ∷ rest) e = run rest (step event e)

-- `e.wg.Wait()` in `Stop` returns.
abbrev pub has_stopped : Engine → Bool
has_stopped e = e.is_stopped && (e.idle == 0) && (e.busy == 0)
