-- ===== src/Lru/Tests.antt =====
-- The LRU cache at small keys: a run, and the theorems at it.
use native.Mathlib.Decide.{ℕ_discrete as dec}
use merope.Prelude.{ℕ, ◌≡◌, refl, none, some, List, [], ◌∷◌, arith, length}
use merope.Prelude.Int.{pos, ◌≤ℤ◌}
use merope.Lru
use merope.Lru.{LruCache, new}
use merope.Lru.Synced.{entries}
use merope.Lru.Refinement.{IsValid}
use merope.Lru.History.{Call, run, ideal_run, run_refines, run_bounded}

abbrev calls : List (Call ℕ ℕ)
calls =
    Call.put 1 10
    ∷ Call.put 2 20
    ∷ Call.get 1
    ∷ Call.put 3 30
    ∷ Call.get 2
    ∷ Call.put 1 11
    ∷ Call.get 1
    ∷ []

run_test :
    let (answers, c) = run dec calls (new (pos 2)) in
    (answers ≡ some 10 ∷ none ∷ some 11 ∷ []) × (entries c.list ≡ (1, 11) ∷ (3, 30) ∷ [])
unfolding run new Lru.get Lru.put Lru.get_key Lru.delete_key Lru.move_to_front Lru.value_at
    Lru.set_value Lru.back Lru.remove dec
run_test = (refl, refl)

-- A cache of capacity 0 keeps one element.
run_zero :
    entries {V = ℕ} (run dec (Call.put 1 10 ∷ Call.put 2 20 ∷ []) (new (pos 0))).1.list
    ≡ (2, 20) ∷ []
unfolding run new Lru.get Lru.put Lru.get_key Lru.delete_key Lru.move_to_front Lru.value_at
    Lru.set_value Lru.back Lru.remove dec
run_zero = refl

run_refines_example :
    let (answers, c) = run dec calls (new (pos 2)) in
    let (ideal_answers, l) = ideal_run dec (pos 2) calls [] in
    (answers ≡ ideal_answers) × (entries c.list ≡ l) × IsValid dec c
run_refines_example = run_refines dec (pos 2) calls

run_bounded_example : pos (length (run dec calls (new (pos 2))).1.list) ≤ℤ pos 2
run_bounded_example = run_bounded dec (pos 2) calls (omega arith)
