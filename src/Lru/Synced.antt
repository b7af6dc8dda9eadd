-- ===== src/Lru/Synced.antt =====
-- When the map and the list of an LRU cache (backend/internal/core/util/lru_cache.go) agree, and what
-- taking an element out of the list does then.
use merope.Prelude.{
  ℕ, ◌<◌, ◌≡◌, refl, ◌≢◌, Bool, true, false, ◌||◌, Option, none, some, List, [], ◌∷◌, arith, ◌==◌,
  ite,
}
use merope.Lru.{Element, extract}
use merope.Lru.Entries.{find, without}

module _ {K V : Type 0} where
  abbrev pub entries : List (Element K V) → List (K × V)
  entries [] = []
  entries (e ∷ l) = (e.key, e.value) ∷ entries l

  unfoldable pub has_id : ℕ → List (Element K V) → Bool
  has_id p [] = false
  has_id p (e ∷ l) = (e.id == p) || has_id p l

module _ {K V : Type 0} (dec : Discrete K) where
  -- The first element with the key.
  unfoldable pub id_of : K → List (Element K V) → Option ℕ
  id_of k [] = none
  id_of k (e ∷ l) = ite (dec e.key k) (some e.id) (id_of k l)

  -- No key and no address twice, and every address given out already.
  abbrev pub IsLinked : ℕ → List (Element K V) → Type 0
  IsLinked n [] = Unit
  IsLinked n (e ∷ l) = (id_of e.key l ≡ none) × (has_id e.id l ≡ false) × (e.id < n) × IsLinked n l

  pub has_id-id_of :
      (k : K) (p : ℕ) (l : List (Element K V)) → id_of k l ≡ some p → has_id p l ≡ true
  unfolding id_of has_id
  has_id-id_of k p [] h = absurd (cc)
  has_id-id_of k p (e ∷ l) h = ground (arith, has_id-id_of k p l)

  pub find-entries_none :
      (k : K) (l : List (Element K V)) → id_of k l ≡ none → find dec k (entries l) ≡ none
  unfolding id_of find
  find-entries_none k [] h = refl
  find-entries_none k (e ∷ l) h = ground (arith, find-entries_none k l)

  pub record Extracted (n : ℕ) (k : K) (p : ℕ) (l : List (Element K V)) (e : Element K V)
      (rest : List (Element K V)) : Type 0 where
    pub taken : extract p l ≡ some (e, rest)
    pub at : e.id ≡ p
    pub key : e.key ≡ k
    pub found : find dec k (entries l) ≡ some e.value
    pub left : entries rest ≡ without dec k (entries l)
    pub absent : id_of k rest ≡ none
    pub fresh : has_id p rest ≡ false
    pub below : p < n
    pub linked : IsLinked n rest
    pub others : (j : K) → j ≢ k → id_of j rest ≡ id_of j l
    pub ids : (q : ℕ) → has_id q l ≡ false → has_id q rest ≡ false

  pub extract-Extracted :
      (n : ℕ) (k : K) (p : ℕ) (l : List (Element K V))
      → id_of k l ≡ some p
      → IsLinked n l
      → (e : Element K V) × (rest : List (Element K V)) × Extracted n k p l e rest
  unfolding id_of has_id extract find without
  extract-Extracted n k p [] h v = absurd (cc)
  extract-Extracted n k p (d ∷ l) h v = elim (dec d.key k) [
    | yes same ↦ (
      d,
      l,
      record {
        taken = ground arith;
        at = ground arith;
        key = same;
        found = ground arith;
        left = ground arith;
        absent = rw (← same) v.0;
        fresh = ground arith;
        below = ground arith;
        linked = v.3;
        others = λ j ne. ground arith;
        ids = λ q. ground arith;
      },
    )
    | no differ ↦
        let (e, rest, x) = extract-Extracted n k p l (ground arith) v.3 in
        (
          e,
          d ∷ rest,
          record {
            taken = ground (arith, x.taken, has_id-id_of k p l);
            at = x.at;
            key = x.key;
            found = ground (arith, x.found);
            left = ground (arith, x.left);
            absent = ground (arith, x.absent);
            fresh = ground (arith, x.fresh, has_id-id_of k p l);
            below = x.below;
            linked = (ground (arith, x.others d.key differ), x.ids d.id v.1, v.2, x.linked);
            others = λ j ne. ground (arith, x.others j ne);
            ids = λ q. ground (arith, x.ids q);
          },
        )
  ]
