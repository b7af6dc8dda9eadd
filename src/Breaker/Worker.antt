-- ===== src/Breaker/Worker.antt =====
-- backend/internal/core/worker/circuit_breaker.go: the state and what each critical section does to it.
-- Instants are nanoseconds since the zero `time.Time`.
use merope.Prelude.{ℕ, suc, Bool, true, false, if◌then◌else◌}
use merope.Prelude.Int.{ℤ, pos, ◌-ℤ◌, ltb_ℤ, leb_ℤ}
use merope.Prelude.Outcome.{Result, ok, err}

pub record CircuitBreaker : Type 0 where
  pub failure_count : ℕ
  pub threshold : ℤ
  pub timeout : ℤ
  pub last_failure : ℕ
  pub is_open : Bool

unfoldable pub new : ℤ → ℤ → CircuitBreaker
new threshold timeout = record {
  failure_count = 0;
  threshold = threshold;
  timeout = timeout;
  last_failure = 0;
  is_open = false;
}

-- What the read lock at the head of `Execute` decides.
pub data Admission : Type 0 where
  pass probe refuse : Admission

unfoldable pub admit : ℕ → CircuitBreaker → Admission
admit now cb =
    if cb.is_open
    then (if ltb_ℤ cb.timeout (pos now -ℤ pos cb.last_failure) then probe else refuse)
    else pass

unfoldable pub record_failure : ℕ → CircuitBreaker → CircuitBreaker
record_failure now cb = record cb {
  failure_count = suc cb.failure_count;
  last_failure = now;
  is_open = if leb_ℤ cb.threshold (pos (suc cb.failure_count)) then true else cb.is_open;
}

unfoldable pub reset : CircuitBreaker → CircuitBreaker
reset cb = record cb { failure_count = 0; is_open = false }

-- `attemptReset` runs the function under the lock; `true` when it returns no error.
unfoldable pub attempt_reset : ℕ → Bool → CircuitBreaker → CircuitBreaker
attempt_reset now true cb = record cb { is_open = false; failure_count = 0 }
attempt_reset now false cb = record cb { last_failure = now }

pub data Failure : Type 0 where
  circuit_open failed : Failure

-- `Execute` with no other call between its critical sections, of a function that returns at `end`.
unfoldable pub execute : ℕ → ℕ → Bool → CircuitBreaker → Result Failure (Unit {0}) × CircuitBreaker
unfolding admit record_failure reset attempt_reset
execute now end succeeds cb = elim (admit now cb) [
  | refuse ↦ (err circuit_open, cb)
  | probe ↦ (if succeeds then ok tt else err failed, attempt_reset end succeeds cb)
  | pass ↦ if succeeds then (ok tt, reset cb) else (err failed, record_failure end cb)
]
