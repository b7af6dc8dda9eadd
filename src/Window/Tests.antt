-- ===== src/Window/Tests.antt =====
-- The sliding windows at a few requests.
use merope.Prelude.{true, ℕ, ◌≤◌, ◌≡◌, ◌≢◌, refl, Bool, false, List, [], ◌∷◌, String, arith}
use merope.Prelude.Text.{str_eq, str_eq_iff}
use merope.Window.Admission.{covered, count_covered}
use merope.Window.Limiter.{
  keep_covered, has_member, z_add, live_members, sliding_window, limit_for, key_for, failing,
  working, Request, rate_limit,
}
use merope.Window.Bound.{Visit, serve, passed_times, IsHistory, window_bound}
use merope.Window.Anomaly.{contains_any, contains, has_prefix, malicious_injection, analyze_payload}
use merope.Window.Flood
use merope.Window.Flood.{analyzed, accepted_times, IsOrdered, flood_bound}

program : Unit {0}
unfolding covered count_covered keep_covered has_member z_add live_members sliding_window limit_for
    key_for rate_limit serve passed_times contains_any contains has_prefix analyze_payload analyzed
    accepted_times
program = tt

abbrev request : ℕ → String → Request
request now id = record { now = now; id = id; ip = "10.0.0.1"; user_id = ""; role = "" }

abbrev requests : List Visit
requests =
    (working, request 1500 "d")
    ∷ (working, request 900 "c")
    ∷ (failing false, request 300 "e")
    ∷ (working, request 200 "b")
    ∷ (failing true, request 100 "a")
    ∷ []

-- Two requests in a second: the one whose answer was lost counts as well, the third is refused, and the
-- next after the window passes.
passed_times_test : passed_times 2 1000 "p" "rl:ip:p:10.0.0.1" requests ≡ 1500 ∷ 200 ∷ []
unfolding program
passed_times_test = refl

differs : (s t : String) → str_eq s t ≡ false → s ≢ t
differs s t h e = let same = (str_eq_iff s t).1 e in absurd (cc (h, same))

requests-IsHistory : IsHistory 2 1000 "p" "rl:ip:p:10.0.0.1" 2 requests
unfolding program
requests-IsHistory = (
  omega arith,
  (
    differs "c" "d" refl,
    (differs "e" "d" refl, (differs "b" "d" refl, (differs "a" "d" refl, tt))),
  ),
  (λ e. omega arith),
  (
    omega arith,
    (differs "e" "c" refl, (differs "b" "c" refl, (differs "a" "c" refl, tt))),
    (λ e. omega arith),
    (
      omega arith,
      (differs "b" "e" refl, (differs "a" "e" refl, tt)),
      (λ e. omega arith),
      (
        omega arith,
        (differs "a" "b" refl, tt),
        (λ e. omega arith),
        (omega arith, tt, (λ e. omega arith), tt),
      ),
    ),
  ),
)

window_bound_example :
    count_covered 1000 1500 (passed_times 2 1000 "p" "rl:ip:p:10.0.0.1" requests) ≤ 2
window_bound_example =
    window_bound 2 1000 "p" "rl:ip:p:10.0.0.1" 2 requests 1500 requests-IsHistory (omega arith)

abbrev same_text : String → String
same_text s = s

abbrev never : String → Bool
never s = false

injection_test :
    (analyze_payload same_text never 5 "pia" "1 union select x" (λ u. [])).0 ≡ malicious_injection
unfolding program
injection_test = refl

abbrev payloads : List Flood.Request
payloads =
    record { now = 9; user_id = "pia"; payload = "hi" }
    ∷ record { now = 5; user_id = "pia"; payload = "hello" }
    ∷ []

flood_bound_example :
    count_covered 10000000000 9 (accepted_times same_text never "pia" payloads) ≤ 51
flood_bound_example =
    flood_bound same_text never "pia" payloads 9 (omega arith, (omega arith, tt)) (omega arith)
