-- ===== src/Breaker/Sequential.antt =====
-- Calls one after another on the breaker of backend/internal/platform/resilience/circuit_breaker.go.
use merope.Prelude.{
  ℕ, suc, ◌≡◌, refl, Bool, true, false, List, [], ◌∷◌, arith, tests, Bool-cases, ◌⊎◌, inl, inr, ◌≢◌,
}
use merope.Prelude.Int.{ℤ, pos, leb_ℤ, ltb_ℤ, ◌-ℤ◌, ◌≤ℤ◌}
use merope.Breaker.Resilience.{
  State, closed, opened, half_open, CircuitBreaker, new, allow_request, set_half_open, report,
  execute,
}

-- A call: when it starts, when its function returns, and whether it succeeds.
pub record Call : Type 0 where
  pub start : ℕ
  pub end : ℕ
  pub succeeds : Bool

unfoldable pub run : List Call → CircuitBreaker → CircuitBreaker
run [] cb = cb
run (c ∷ calls) cb = run calls (execute c.start c.end c.succeeds cb).1

-- Between calls the breaker is closed with fewer failures than the threshold, or open.
abbrev IsSettled : State → ℕ → ℤ → Type 0
IsSettled closed failures threshold = pos (suc failures) ≤ℤ threshold
IsSettled opened failures threshold = threshold ≤ℤ pos failures
IsSettled half_open failures threshold = ⊥

record IsSound (n : ℤ) (cb : CircuitBreaker) : Type 0 where
  threshold_eq : cb.threshold ≡ n
  settled : IsSettled cb.state cb.failures cb.threshold

IsSettled-below :
    (st : State) (m : ℤ) (f : ℕ)
    → IsSettled st f m
    → st ≢ opened
    → leb_ℤ m (pos (suc f)) ≡ false
    → IsSettled st (suc f) m
IsSettled-below closed m f k shut room = omega (tests, room)
IsSettled-below opened m f k shut room = absurd (shut refl)
IsSettled-below half_open m f k shut room = k

failure-IsSound :
    (n m : ℤ) (st : State) (end f l : ℕ) (t : ℤ)
    → m ≡ n
    → (IsSettled st f m) ⊎ (m ≤ℤ pos f)
    → st ≢ opened
    → IsSound n (
        report end false
          (record { state = st; failures = f; threshold = m; timeout = t; last_failure = l }))
unfolding report
failure-IsSound n m st end f l t same h shut = elim (Bool-cases (leb_ℤ m (pos (suc f)))) [
  | inl full ↦ rw full (record { threshold_eq = same; settled = omega (tests, full) })
  | inr room ↦ rw room (record {
    threshold_eq = same;
    settled = elim h [
      | inl k ↦ IsSettled-below st m f k shut room
      | inr k ↦ absurd (omega (tests, k, room))
    ];
  })
]

probe-IsSound :
    (n m : ℤ) (end f l : ℕ) (t : ℤ) (succeeds : Bool)
    → pos 1 ≤ℤ n
    → m ≡ n
    → m ≤ℤ pos f
    → IsSound n (
        report end succeeds (record {
          state = half_open;
          failures = f;
          threshold = m;
          timeout = t;
          last_failure = l;
        }))
unfolding report
probe-IsSound n m end f l t true p same k = record { threshold_eq = same; settled = rw same p }
probe-IsSound n m end f l t false p same k =
    failure-IsSound n m half_open end f l t same (inr k) (λ e. cc)

step-IsSound :
    (n m : ℤ) (st : State) (start end f l : ℕ) (t : ℤ) (succeeds : Bool)
    → pos 1 ≤ℤ n
    → m ≡ n
    → IsSettled st f m
    → IsSound n
        (execute start end succeeds
          (record { state = st; failures = f; threshold = m; timeout = t; last_failure = l })).1
unfolding execute
step-IsSound n m closed start end f l t true p same k = record { threshold_eq = same; settled = k }
step-IsSound n m closed start end f l t false p same k =
    failure-IsSound n m closed end f l t same (inl k) (λ e. cc)
step-IsSound n m opened start end f l t succeeds p same k =
    elim (Bool-cases (ltb_ℤ t (pos start -ℤ pos l))) [
      | inl late ↦ rw (late, execute) (probe-IsSound n m end f l t succeeds p same k)
      | inr early ↦ rw (early, execute) (record { threshold_eq = same; settled = k })
    ]
step-IsSound n m half_open start end f l t succeeds p same k = absurd k

execute-IsSound :
    (n : ℤ) (start end : ℕ) (succeeds : Bool) (cb : CircuitBreaker)
    → pos 1 ≤ℤ n
    → IsSound n cb
    → IsSound n (execute start end succeeds cb).1
execute-IsSound n start end succeeds cb p k =
    step-IsSound n cb.threshold cb.state start end cb.failures cb.last_failure cb.timeout succeeds p
      k.threshold_eq k.settled

run-IsSound :
    (n : ℤ) (calls : List Call) (cb : CircuitBreaker)
    → pos 1 ≤ℤ n
    → IsSound n cb
    → IsSound n (run calls cb)
unfolding run
run-IsSound n [] cb p k = k
run-IsSound n (c ∷ calls) cb p k =
    run-IsSound n calls _ p (execute-IsSound n c.start c.end c.succeeds cb p k)

decided :
    (st : State) (f l : ℕ) (m t : ℤ) (now end : ℕ)
    → IsSettled st f m
    → let cb : CircuitBreaker = record {
      state = st;
      failures = f;
      threshold = m;
      timeout = t;
      last_failure = l;
    } in
      allow_request now cb ≡ set_half_open
      → let good = (execute now end true cb).1 in
        let bad = (execute now end false cb).1 in
        (good.state ≡ closed)
        × (good.failures ≡ 0)
        × (bad.state ≡ opened)
        × (bad.last_failure ≡ end)
unfolding report execute
decided closed f l m t now end k h = absurd (unfold allow_request in cc)
decided opened f l m t now end k h =
    let full : leb_ℤ m (pos (suc f)) ≡ true = ground arith in
    rw (h, execute, full) (refl, refl, refl, refl)
decided half_open f l m t now end k h = absurd k

-- Calls one after another on a new breaker of positive threshold: a call that is let through while the
-- breaker is open closes it with no failures counted if it succeeds, and opens it from its end on if it fails.
pub probe_decides :
    (n timeout : ℤ) (calls : List Call) (now end : ℕ)
    → pos 1 ≤ℤ n
    → allow_request now (run calls (new n timeout)) ≡ set_half_open
    → let cb = run calls (new n timeout) in
      let good = (execute now end true cb).1 in
      let bad = (execute now end false cb).1 in
      (good.state ≡ closed) × (good.failures ≡ 0) × (bad.state ≡ opened) × (bad.last_failure ≡ end)
unfolding new
probe_decides n timeout calls now end p h =
    let cb = run calls (new n timeout) in
    let k = run-IsSound n calls (new n timeout) p (record { threshold_eq = refl; settled = p }) in
    decided cb.state cb.failures cb.last_failure cb.threshold cb.timeout now end k.settled h
