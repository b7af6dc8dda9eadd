-- ===== src/Lru/Refinement.antt =====
-- The LRU cache of backend/internal/core/util/lru_cache.go does what an ideal list of entries does.
use merope.Prelude.{
  ℕ, suc, ◌≡◌, refl, sym, ap, ◌∙◌, Option, none, some, List, [], ◌∷◌, arith, length, Option-cases,
  inl, inr,
}
use merope.Lru.{Element, LruCache, extract, move_to_front, value_at, get_key, get}
use merope.Lru.Entries.{ideal_get}
use merope.Lru.Synced.{entries, id_of, find-entries_none, IsLinked, Extracted, extract-Extracted}

module _ {K V : Type 0} (dec : Discrete K) where
  -- The list is linked, and the map sends each key to the address of its element, and no other key
  -- anywhere.
  pub record IsValid (c : LruCache K V) : Type 0 where
    pub linked : IsLinked dec c.next c.list
    pub synced : (k : K) → get_key dec k c.cache ≡ id_of dec k c.list

  -- What a hit finds.
  pub hit :
      (k : K) (p : ℕ) (c : LruCache K V)
      → IsValid c
      → get_key dec k c.cache ≡ some p
      → (e : Element K V) × (rest : List (Element K V)) × Extracted dec c.next k p c.list e rest
  hit k p c v h = extract-Extracted dec c.next k p c.list (sym (v.synced k) ∙ h) v.linked

  -- An element that has moved to the front is linked, and the map still points to it.
  pub front-synced :
      (k : K) (p n : ℕ) (w : V) (l : List (Element K V)) (e : Element K V)
      (rest : List (Element K V))
      → Extracted dec n k p l e rest
      → id_of dec k l ≡ some p
      → IsLinked dec n (record e { value = w } ∷ rest)
        × ((j : K) → id_of dec j l ≡ id_of dec j (record e { value = w } ∷ rest))
  unfolding id_of
  front-synced k p n w l e rest x h = (
    (rw x.key x.absent, rw x.at x.fresh, rw x.at x.below, x.linked),
    λ j. elim (dec k j) [
      | yes same ↦ ground (arith, ap (λ i. id_of dec i l) same, x.key, x.at)
      | no differ ↦ ground (arith, x.others j (λ q. differ (sym q)), x.key)
    ],
  )

  pub length-entries : (l : List (Element K V)) → length (entries l) ≡ length l
  length-entries [] = refl
  length-entries (e ∷ l) = ap suc (length-entries l)

  -- `Get` returns what the ideal list returns, and leaves what it leaves.
  pub record Refines (c c' : LruCache K V) (l : List (K × V)) : Type 0 where
    pub valid : IsValid c'
    pub capacity : c'.capacity ≡ c.capacity
    pub entries : entries c'.list ≡ l

  get_hit_eq :
      (k : K) (p : ℕ) (c : LruCache K V) (e : Element K V) (rest : List (Element K V))
      → get_key dec k c.cache ≡ some p
      → extract p c.list ≡ some (e, rest)
      → e.id ≡ p
      → get dec k c ≡ (some e.value, record c { list = e ∷ rest })
  unfolding get move_to_front value_at
  get_hit_eq k p c e rest h taken at = ground arith

  get_miss_eq : (k : K) (c : LruCache K V) → get_key dec k c.cache ≡ none → get dec k c ≡ (none, c)
  unfolding get
  get_miss_eq k c h = rw (h, get) refl

  -- What a method has done when it returned `r` and left `c'`, against the ideal result.
  abbrev pub Gets : LruCache K V → Option V × LruCache K V → Option V × List (K × V) → Type 0
  Gets c (r, c') (r', l) = Refines c c' l × (r ≡ r')

  get_hit :
      (k : K) (p : ℕ) (c : LruCache K V)
      → IsValid c
      → get_key dec k c.cache ≡ some p
      → Gets c (get dec k c) (ideal_get dec k (entries c.list))
  unfolding ideal_get
  get_hit k p c v h =
      let (e, rest, x) = hit k p c v h in
      let (linked, synced) =
        front-synced k p c.next e.value c.list e rest x (sym (v.synced k) ∙ h) in
      rw (get_hit_eq k p c e rest h x.taken x.at, x.found, ideal_get)
        (
          record {
            valid = record { linked = linked; synced = λ j. v.synced j ∙ synced j };
            capacity = refl;
            entries = ground (arith, x.key, x.left);
          },
          refl,
        )

  get_miss :
      (k : K) (c : LruCache K V)
      → IsValid c
      → get_key dec k c.cache ≡ none
      → Gets c (get dec k c) (ideal_get dec k (entries c.list))
  unfolding ideal_get
  get_miss k c v h =
      rw (get_miss_eq k c h, find-entries_none dec k c.list (sym (v.synced k) ∙ h), ideal_get)
        (record { valid = v; capacity = refl; entries = refl }, refl)

  -- On a cache whose map and list agree, `Get` returns what the ideal list of entries returns, the new
  -- cache holds the entries that the ideal list then holds, in that order, and agrees again.
  pub get-Refines :
      (k : K) (c : LruCache K V)
      → IsValid c
      → Gets c (get dec k c) (ideal_get dec k (entries c.list))
  get-Refines k c v = elim (Option-cases (get_key dec k c.cache)) [
    | inl miss ↦ get_miss k c v miss
    | inr (p, found) ↦ get_hit k p c v found
  ]
