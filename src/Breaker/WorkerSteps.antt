-- ===== src/Breaker/WorkerSteps.antt =====
-- The breaker of backend/internal/core/worker/circuit_breaker.go under concurrent calls: a call is
-- admitted in one critical section and reports its result in another, and other calls come between.
use merope.Prelude.{
  ℕ, suc, ◌≡◌, refl, Bool, true, false, ◌&&◌, List, [], ◌∷◌, arith, if◌then◌else◌, leb, ap, ◌⊎◌,
  inl, inr,
}
use merope.Prelude.Int.{ℤ, pos, leb_ℤ}
use merope.Breaker.Worker.{
  CircuitBreaker, new, Admission, pass, probe, refuse, admit, record_failure, reset, attempt_reset,
  execute,
}

pub data Event : Type 0 where
  admitted probing refused succeeded failed probe_succeeded probe_failed : Event

-- The calls whose function runs, and those on their way to `attemptReset`.
pub record World : Type 0 where
  pub breaker : CircuitBreaker
  pub running : ℕ
  pub probes : ℕ

pub data Step : World → Event → World → Type 0 where
  enter :
      (now : ℕ) {w : World}
      → admit now w.breaker ≡ pass
      → Step w admitted (record w { running = suc w.running })
  seek :
      (now : ℕ) {w : World}
      → admit now w.breaker ≡ probe
      → Step w probing (record w { probes = suc w.probes })
  turn_away : (now : ℕ) {w : World} → admit now w.breaker ≡ refuse → Step w refused w
  succeed :
      {n : ℕ} {w : World}
      → w.running ≡ suc n
      → Step w succeeded (record w { breaker = reset w.breaker; running = n })
  fail :
      (now : ℕ) {n : ℕ} {w : World}
      → w.running ≡ suc n
      → Step w failed (record w { breaker = record_failure now w.breaker; running = n })
  recover :
      (now : ℕ) {n : ℕ} {w : World}
      → w.probes ≡ suc n
      → Step w probe_succeeded (record w { breaker = attempt_reset now true w.breaker; probes = n })
  relapse :
      (now : ℕ) {n : ℕ} {w : World}
      → w.probes ≡ suc n
      → Step w probe_failed (record w { breaker = attempt_reset now false w.breaker; probes = n })

-- A history, the latest event first.
pub data Steps (start : World) : List Event → World → Type 0 where
  none_yet : Steps start [] start
  then_ :
      {es : List Event} {e : Event} {v w : World}
      → Steps start es v
      → Step v e w
      → Steps start (e ∷ es) w

abbrev pub idle : ℤ → ℤ → World
idle threshold timeout = record { breaker = new threshold timeout; running = 0; probes = 0 }

-- The failures of admitted calls since the last success.
unfoldable pub streak : List Event → ℕ
streak [] = 0
streak (failed ∷ es) = suc (streak es)
streak (succeeded ∷ es) = 0
streak (probe_succeeded ∷ es) = 0
streak (_ ∷ es) = streak es

-- The breaker after `count` failures in a row.
record Follows (threshold : ℤ) (count : ℕ) (cb : CircuitBreaker) : Type 0 where
  threshold_eq : cb.threshold ≡ threshold
  count_eq : cb.failure_count ≡ count
  open_eq : cb.is_open ≡ (leb 1 count && leb_ℤ threshold (pos count))

opens_at :
    (n : ℤ) (count : ℕ) (b : Bool)
    → b ≡ (leb 1 count && leb_ℤ n (pos count))
    → (if leb_ℤ n (pos (suc count)) then true else b)
      ≡ (leb 1 (suc count) && leb_ℤ n (pos (suc count)))
opens_at n count b h = ground arith

record_failure-Follows :
    (now : ℕ) (n : ℤ) (count : ℕ) (cb : CircuitBreaker)
    → Follows n count cb
    → Follows n (suc count) (record_failure now cb)
unfolding record_failure
record_failure-Follows now n count cb k = record {
  threshold_eq = k.threshold_eq;
  count_eq = ap suc k.count_eq;
  open_eq = rw (k.threshold_eq, k.count_eq) (opens_at n count cb.is_open k.open_eq);
}

Steps-Follows :
    (n timeout : ℤ) {es : List Event} {w : World}
    → Steps (idle n timeout) es w
    → Follows n (streak es) w.breaker
unfolding streak new reset attempt_reset
Steps-Follows n timeout none_yet = record { threshold_eq = refl; count_eq = refl; open_eq = refl }
Steps-Follows n timeout (then_ h (enter now p)) = Steps-Follows n timeout h
Steps-Follows n timeout (then_ h (seek now p)) = Steps-Follows n timeout h
Steps-Follows n timeout (then_ h (turn_away now p)) = Steps-Follows n timeout h
Steps-Follows n timeout (then_ h (succeed p)) = record {
  threshold_eq = (Steps-Follows n timeout h).threshold_eq;
  count_eq = refl;
  open_eq = refl;
}
Steps-Follows n timeout (then_ {v = v} h (fail now p)) =
    record_failure-Follows now n _ v.breaker (Steps-Follows n timeout h)
Steps-Follows n timeout (then_ h (recover now p)) = record {
  threshold_eq = (Steps-Follows n timeout h).threshold_eq;
  count_eq = refl;
  open_eq = refl;
}
Steps-Follows n timeout (then_ h (relapse now p)) =
    let k = Steps-Follows n timeout h in
    record { threshold_eq = k.threshold_eq; count_eq = k.count_eq; open_eq = k.open_eq }

-- However concurrent calls interleave, the breaker is open exactly when at least one and at least
-- `threshold` admitted calls have failed since the last success.
pub open_iff_streak :
    (threshold timeout : ℤ) {es : List Event} {w : World}
    → Steps (idle threshold timeout) es w
    → w.breaker.is_open ≡ (leb 1 (streak es) && leb_ℤ threshold (pos (streak es)))
open_iff_streak threshold timeout h = (Steps-Follows threshold timeout h).open_eq

abbrev pub outcome : Bool → Event
outcome true = succeeded
outcome false = failed

admitted_as : (a : Admission) → (a ≡ pass) ⊎ ((a ≡ probe) ⊎ (a ≡ refuse))
admitted_as pass = inl refl
admitted_as probe = inr (inl refl)
admitted_as refuse = inr (inr refl)

-- A call of `Execute` with nothing between its critical sections is a history of this kind.
execute-Steps :
    (now end : ℕ) (succeeds : Bool) (w : World)
    → Steps w
        (elim (admit now w.breaker) [
          | pass ↦ outcome succeeds ∷ admitted ∷ []
          | probe ↦ (if succeeds then probe_succeeded else probe_failed) ∷ probing ∷ []
          | refuse ↦ refused ∷ []
        ])
        (record w { breaker = (execute now end succeeds w.breaker).1 })
unfolding execute
execute-Steps now end true w = elim (admitted_as (admit now w.breaker)) [
  | inl h ↦ rw (h, execute) (then_ (then_ none_yet (enter now h)) (succeed refl))
  | inr (inl h) ↦ rw (h, execute) (then_ (then_ none_yet (seek now h)) (recover end refl))
  | inr (inr h) ↦ rw (h, execute) (then_ none_yet (turn_away now h))
]
execute-Steps now end false w = elim (admitted_as (admit now w.breaker)) [
  | inl h ↦ rw (h, execute) (then_ (then_ none_yet (enter now h)) (fail end refl))
  | inr (inl h) ↦ rw (h, execute) (then_ (then_ none_yet (seek now h)) (relapse end refl))
  | inr (inr h) ↦ rw (h, execute) (then_ none_yet (turn_away now h))
]
