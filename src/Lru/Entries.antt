-- ===== src/Lru/Entries.antt =====
-- An ideal cache: the entries alone, the most recently used first.
use merope.Prelude.{Option, none, some, List, [], ◌∷◌, if◌then◌else◌, length, ite}
use merope.Prelude.Int.{ℤ, pos, leb_ℤ}

module _ {ℓ} {A : Type ℓ} where
  -- All but the last.
  unfoldable pub init : List A → List A
  init [] = []
  init (x ∷ []) = []
  init (x ∷ y ∷ l) = x ∷ init (y ∷ l)

module _ {ℓ} {K V : Type ℓ} (dec : Discrete K) where
  unfoldable pub find : K → List (K × V) → Option V
  find k [] = none
  find k ((j, v) ∷ l) = ite (dec j k) (some v) (find k l)

  unfoldable pub without : K → List (K × V) → List (K × V)
  without k [] = []
  without k ((j, v) ∷ l) = ite (dec j k) l ((j, v) ∷ without k l)

  -- A hit moves to the front.
  unfoldable pub ideal_get : K → List (K × V) → Option V × List (K × V)
  ideal_get k l = elim (find k l) [ none ↦ (none, l) | some v ↦ (some v, (k, v) ∷ without k l) ]

  -- The entry goes to the front. A new key in a full cache costs the last entry.
  unfoldable pub ideal_put : ℤ → K → V → List (K × V) → List (K × V)
  ideal_put capacity k v l = elim (find k l) [
    | none ↦ (k, v) ∷ (if leb_ℤ capacity (pos (length l)) then init l else l)
    | some w ↦ (k, v) ∷ without k l
  ]
