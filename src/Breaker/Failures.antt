-- ===== src/Breaker/Failures.antt =====
-- How failures add up in calls one after another on the breaker of
-- backend/internal/platform/resilience/circuit_breaker.go.
use merope.Prelude.{
  ℕ, suc, sym, ap, ◌+◌, ◌≡◌, refl, true, false, List, [], ◌∷◌, arith, if◌then◌else◌, Bool-cases,
  inl, inr,
}
use merope.Prelude.Int.{ℤ, pos, leb_ℤ, ◌≤ℤ◌}
use merope.Breaker.Resilience.{closed, opened, CircuitBreaker, new, allow_request, report, execute}
use merope.Breaker.Sequential.{Call, run}

unfoldable pub failed_calls : List Call → ℕ
failed_calls [] = 0
failed_calls (c ∷ calls) = if c.succeeds then failed_calls calls else suc (failed_calls calls)

closed_success :
    (start end : ℕ) (cb : CircuitBreaker) → cb.state ≡ closed → (execute start end true cb).1 ≡ cb
unfolding execute allow_request report
closed_success start end cb h = rw h refl

closed_failure :
    (start end : ℕ) (cb : CircuitBreaker)
    → cb.state ≡ closed
    → leb_ℤ cb.threshold (pos (suc cb.failures)) ≡ false
    → (execute start end false cb).1 ≡ record cb { failures = suc cb.failures }
unfolding execute allow_request report
closed_failure start end cb h room = rw (h, room) refl

closed_trips :
    (start end : ℕ) (cb : CircuitBreaker)
    → cb.state ≡ closed
    → leb_ℤ cb.threshold (pos (suc cb.failures)) ≡ true
    → (execute start end false cb).1.state ≡ opened
unfolding execute allow_request report
closed_trips start end cb h full = rw (h, full) refl

-- The calls leave the breaker closed and have counted their failures.
record Counted (n : ℤ) (count : ℕ) (cb : CircuitBreaker) : Type 0 where
  shut : cb.state ≡ closed
  count_eq : cb.failures ≡ count
  threshold_eq : cb.threshold ≡ n

run-Counted :
    (n : ℤ) (count total : ℕ) (calls : List Call) (cb : CircuitBreaker)
    → Counted n count cb
    → total ≡ count + failed_calls calls
    → pos (suc total) ≤ℤ n
    → Counted n total (run calls cb)
unfolding run failed_calls
run-Counted n count total [] cb k sum room = record {
  shut = k.shut;
  count_eq = omega (arith, k.count_eq);
  threshold_eq = k.threshold_eq;
}
run-Counted n count total (c ∷ calls) cb k sum room = elim (Bool-cases c.succeeds) [
  | inl good ↦
      rw (good, closed_success c.start c.end cb k.shut)
        (run-Counted n count total calls cb k (rw good at sum) room)
  | inr bad ↦
      let sum' = rw bad at sum in
      let below : leb_ℤ cb.threshold (pos (suc cb.failures)) ≡ false =
        rw (k.threshold_eq, k.count_eq) (ground arith) in
      rw (bad, closed_failure c.start c.end cb k.shut below)
        (run-Counted n (suc count) total calls (record cb { failures = suc cb.failures })
          (record { shut = k.shut; count_eq = ap suc k.count_eq; threshold_eq = k.threshold_eq })
          (omega (arith, sum')) room)
]

-- A success does not reset the count of failures of a closed breaker: after any calls one after
-- another on a new breaker, of which one less than `threshold` failed, it is closed and the next failure opens it.
pub total_failures_open :
    (n timeout : ℤ) (calls : List Call) (now end : ℕ)
    → pos (suc (failed_calls calls)) ≡ n
    → let cb = run calls (new n timeout) in
      (cb.state ≡ closed) × ((execute now end false cb).1.state ≡ opened)
total_failures_open n timeout calls now end h =
    let cb = run calls (new n timeout) in
    let k =
      run-Counted n 0 (failed_calls calls) calls (new n timeout)
        (unfold new in record { shut = refl; count_eq = refl; threshold_eq = refl }) (omega arith)
        (rw (sym h) (omega arith)) in
    (k.shut, closed_trips now end cb k.shut (rw (k.threshold_eq, k.count_eq, sym h) (ground arith)))
