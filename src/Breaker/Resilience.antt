-- ===== src/Breaker/Resilience.antt =====
-- backend/internal/platform/resilience/circuit_breaker.go: the state and what each critical section
-- does to it. Instants are nanoseconds since the zero `time.Time`.
use merope.Prelude.{ℕ, suc, Bool, true, false, if◌then◌else◌}
use merope.Prelude.Int.{ℤ, pos, ◌-ℤ◌, ltb_ℤ, leb_ℤ}
use merope.Prelude.Outcome.{Result, ok, err}

pub data State : Type 0 where
  closed opened half_open : State

pub record CircuitBreaker : Type 0 where
  pub state : State
  pub failures : ℕ
  pub threshold : ℤ
  pub timeout : ℤ
  pub last_failure : ℕ

unfoldable pub new : ℤ → ℤ → CircuitBreaker
new threshold timeout = record {
  state = closed;
  failures = 0;
  threshold = threshold;
  timeout = timeout;
  last_failure = 0;
}

-- What the read lock of `allowRequest` sees: the request is allowed, refused, or allowed once the
-- state has been set to half-open under the write lock.
pub data Admission : Type 0 where
  pass set_half_open refuse : Admission

unfoldable pub allow_request : ℕ → CircuitBreaker → Admission
allow_request now cb = elim cb.state [
  | closed ↦ pass
  | opened ↦ if ltb_ℤ cb.timeout (pos now -ℤ pos cb.last_failure) then set_half_open else refuse
  | half_open ↦ pass
]

-- The second part of `Execute`, under the lock; `true` when the function returned no error.
unfoldable pub report : ℕ → Bool → CircuitBreaker → CircuitBreaker
report now false cb =
    let counted : CircuitBreaker = record cb { failures = suc cb.failures } in
    if leb_ℤ cb.threshold (pos (suc cb.failures))
    then record counted { state = opened; last_failure = now }
    else counted
report now true cb = elim cb.state [
  | half_open ↦ record cb { state = closed; failures = 0 }
  | _ ↦ cb
]

pub data Failure : Type 0 where
  circuit_open failed : Failure

-- `Execute` with no other call between its critical sections, of a function that returns at `end`.
unfoldable pub execute : ℕ → ℕ → Bool → CircuitBreaker → Result Failure (Unit {0}) × CircuitBreaker
unfolding allow_request report
execute now end succeeds cb =
    let answer : Result Failure (Unit {0}) = if succeeds then ok tt else err failed in
    elim (allow_request now cb) [
      | refuse ↦ (err circuit_open, cb)
      | set_half_open ↦ (answer, report end succeeds (record cb { state = half_open }))
      | pass ↦ (answer, report end succeeds cb)
    ]
