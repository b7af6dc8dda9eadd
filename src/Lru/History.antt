-- ===== src/Lru/History.antt =====
-- Runs of the LRU cache of backend/internal/core/util/lru_cache.go, from `NewLRUCache` on.
use merope.Prelude.{
  suc, ◌≤◌, ◌≡◌, refl, sym, ap, ◌∙◌, Option, some, List, [], ◌∷◌, arith, length, tests, Bool-cases,
  Option-cases, inl, inr,
}
use merope.Prelude.Int.{ℤ, pos, leb_ℤ, ◌≤ℤ◌}
use merope.Lru
use merope.Lru.{LruCache}
use mathlib.Core.Path.{ap₂}
use merope.Lru.Entries.{init, find, without, ideal_get, ideal_put}
use merope.Lru.Synced.{entries, id_of}
use merope.Lru.Refinement.{IsValid, get-Refines, length-entries}
use merope.Lru.Insertion.{put-Refines}

pub data Call {ℓ} (K V : Type ℓ) : Type ℓ where
  get : K → Call K V
  put : K → V → Call K V
  clear : Call K V

module _ {K V : Type 0} (dec : Discrete K) where
  -- The answers of the calls of `Get`, and the cache that is left.
  unfoldable pub run : List (Call K V) → LruCache K V → List (Option V) × LruCache K V
  run [] c = ([], c)
  run (Call.get k ∷ calls) c =
      let (r, c') = Lru.get dec k c in let (rs, last) = run calls c' in (r ∷ rs, last)
  run (Call.put k v ∷ calls) c = run calls (Lru.put dec k v c)
  run (Call.clear ∷ calls) c = run calls (Lru.clear c)

  -- The same calls on the ideal list.
  unfoldable pub ideal_run : ℤ → List (Call K V) → List (K × V) → List (Option V) × List (K × V)
  ideal_run n [] l = ([], l)
  ideal_run n (Call.get k ∷ calls) l =
      let (r, l') = ideal_get dec k l in let (rs, last) = ideal_run n calls l' in (r ∷ rs, last)
  ideal_run n (Call.put k v ∷ calls) l = ideal_run n calls (ideal_put dec n k v l)
  ideal_run n (Call.clear ∷ calls) l = ideal_run n calls []

  clear-IsValid : (c : LruCache K V) → IsValid dec (Lru.clear c)
  unfolding Lru.clear Lru.get_key id_of
  clear-IsValid c = record { linked = tt; synced = λ k. refl }

  new-IsValid : (capacity : ℤ) → IsValid dec (Lru.new {V = V} capacity)
  unfolding Lru.new Lru.get_key id_of
  new-IsValid capacity = record { linked = tt; synced = λ k. refl }

  run_from :
      (n : ℤ) (calls : List (Call K V)) (c : LruCache K V) (l : List (K × V))
      → IsValid dec c
      → c.capacity ≡ n
      → entries c.list ≡ l
      → ((run calls c).0 ≡ (ideal_run n calls l).0)
        × (entries (run calls c).1.list ≡ (ideal_run n calls l).1)
        × IsValid dec (run calls c).1
  unfolding run ideal_run
  run_from n [] c l v cap same = (refl, same, v)
  run_from n (Call.get k ∷ calls) c l v cap same =
      let (step, answer) = get-Refines dec k c v in
      let ih =
        run_from n calls (Lru.get dec k c).1 (ideal_get dec k l).1 step.valid (step.capacity ∙ cap)
          (step.entries ∙ ap (λ m. (ideal_get dec k m).1) same) in
      (ap₂ ◌∷◌ (answer ∙ ap (λ m. (ideal_get dec k m).0) same) ih.0, ih.1, ih.2)
  run_from n (Call.put k w ∷ calls) c l v cap same =
      let step = put-Refines dec k w c v in
      run_from n calls (Lru.put dec k w c) (ideal_put dec n k w l) step.valid (step.capacity ∙ cap)
        (step.entries ∙ ap₂ (λ m n. ideal_put dec n k w m) same cap)
  run_from n (Call.clear ∷ calls) c l v cap same =
      run_from n calls (Lru.clear c) [] (clear-IsValid c) (unfold Lru.clear in cap)
        (unfold Lru.clear in refl)

  -- From a new cache on, any calls of `Get`, `Put` and `Clear` return what they return on the ideal
  -- list, the cache holds the entries of the ideal list in its order, and its map and list agree.
  pub run_refines :
      (capacity : ℤ) (calls : List (Call K V))
      → let (answers, c) = run calls (Lru.new capacity) in
        let (ideal_answers, l) = ideal_run capacity calls [] in
        (answers ≡ ideal_answers) × (entries c.list ≡ l) × IsValid dec c
  unfolding Lru.new
  run_refines capacity calls =
      run_from capacity calls (Lru.new capacity) [] (new-IsValid capacity) refl refl

  length-init : (l : List (K × V)) → 1 ≤ length l → suc (length (init l)) ≡ length l
  unfolding init
  length-init [] h = absurd (omega arith)
  length-init (x ∷ []) h = refl
  length-init (x ∷ y ∷ l) h = ap suc (length-init (y ∷ l) (omega arith))

  length-without :
      (k : K) (l : List (K × V)) (v : V)
      → find dec k l ≡ some v
      → suc (length (without dec k l)) ≡ length l
  unfolding find without
  length-without k [] v h = absurd (cc)
  length-without k ((j, w) ∷ l) v h = ground (arith, length-without k l v)

  -- The list is no longer than the capacity.
  abbrev pub IsBounded : ℤ → List (K × V) → Type 0
  IsBounded n l = pos (length l) ≤ℤ n

  ideal_get-IsBounded :
      (n : ℤ) (k : K) (l : List (K × V)) → IsBounded n l → IsBounded n (ideal_get dec k l).1
  unfolding ideal_get
  ideal_get-IsBounded n k l h = elim (Option-cases (find dec k l)) [
    | inl miss ↦ rw (miss, ideal_get) h
    | inr (v, found) ↦ rw (found, ideal_get) (omega (arith, length-without k l v found))
  ]

  ideal_put-IsBounded :
      (n : ℤ) (k : K) (w : V) (l : List (K × V))
      → pos 1 ≤ℤ n
      → IsBounded n l
      → IsBounded n (ideal_put dec n k w l)
  unfolding ideal_put
  ideal_put-IsBounded n k w l p h = elim (Option-cases (find dec k l)) [
    | inl miss ↦
        rw (miss, ideal_put)
          (elim (Bool-cases (leb_ℤ n (pos (length l)))) [
            | inl full ↦ rw full (omega (tests, length-init l, full))
            | inr room ↦ rw room (omega (tests, room))
          ])
    | inr (v, found) ↦ rw (found, ideal_put) (omega (arith, length-without k l v found))
  ]

  ideal_run-IsBounded :
      (n : ℤ) (calls : List (Call K V)) (l : List (K × V))
      → pos 1 ≤ℤ n
      → IsBounded n l
      → IsBounded n (ideal_run n calls l).1
  unfolding ideal_run
  ideal_run-IsBounded n [] l p h = h
  ideal_run-IsBounded n (Call.get k ∷ calls) l p h =
      ideal_run-IsBounded n calls (ideal_get dec k l).1 p (ideal_get-IsBounded n k l h)
  ideal_run-IsBounded n (Call.put k w ∷ calls) l p h =
      ideal_run-IsBounded n calls (ideal_put dec n k w l) p (ideal_put-IsBounded n k w l p h)
  ideal_run-IsBounded n (Call.clear ∷ calls) l p h = ideal_run-IsBounded n calls [] p (omega arith)

  -- A cache of positive capacity never holds more elements than its capacity, whatever the calls.
  pub run_bounded :
      (capacity : ℤ) (calls : List (Call K V))
      → pos 1 ≤ℤ capacity
      → pos (length (run calls (Lru.new capacity)).1.list) ≤ℤ capacity
  run_bounded capacity calls p =
      let c = (run calls (Lru.new capacity)).1 in
      let bound = ideal_run-IsBounded capacity calls [] p (omega arith) in
      rw (sym (length-entries dec c.list), (run_refines capacity calls).1) bound
