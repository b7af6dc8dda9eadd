-- ===== src/Lru/Insertion.antt =====
-- `Put`, `Clear` and `NewLRUCache` of backend/internal/core/util/lru_cache.go against an ideal list.
use merope.Prelude.{
  ℕ, suc, ◌≡◌, refl, sym, ap, ◌∙◌, Bool, true, false, none, some, List, [], ◌∷◌, arith,
  if◌then◌else◌, length, Option-cases, inl, inr,
}
use merope.Prelude.Int.{pos, leb_ℤ}
use mathlib.Core.Logic.{if_pos, if_neg}
use merope.Lru.{
  Element, LruCache, extract, move_to_front, set_value, back, remove, get_key, remove_oldest,
  push_front, put,
}
use merope.Lru.Entries.{init, ideal_put}
use merope.Lru.Synced.{entries, has_id, id_of, find-entries_none, IsLinked}
use merope.Lru.Eviction.{get_key-delete_key, back-eq-none, back-Dropped}
use merope.Lru.Refinement.{IsValid, Refines, hit, front-synced, length-entries}

module _ {K V : Type 0} (dec : Discrete K) where
  IsLinked-fresh : (n : ℕ) (l : List (Element K V)) → IsLinked dec n l → has_id n l ≡ false
  unfolding has_id
  IsLinked-fresh n [] h = refl
  IsLinked-fresh n (e ∷ l) h = ground (arith, IsLinked-fresh n l h.3)

  IsLinked-mono : (n : ℕ) (l : List (Element K V)) → IsLinked dec n l → IsLinked dec (suc n) l
  IsLinked-mono n [] h = tt
  IsLinked-mono n (e ∷ l) h = (h.0, h.1, omega (arith, h.2), IsLinked-mono n l h.3)

  push_front-IsValid :
      (k : K) (w : V) (c : LruCache K V)
      → IsValid dec c
      → get_key dec k c.cache ≡ none
      → IsValid dec (push_front dec k w c)
  unfolding push_front get_key id_of
  push_front-IsValid k w c v h = record {
    linked = (
      sym (v.synced k) ∙ h,
      IsLinked-fresh c.next c.list v.linked,
      omega arith,
      IsLinked-mono c.next c.list v.linked,
    );
    synced = λ j. elim (dec k j) [
      | yes same ↦ if_pos (dec k j) same _ _ ∙ sym (if_pos (dec k j) same _ _)
      | no differ ↦
          if_neg (dec k j) differ _ _
          ∙ get_key-delete_key dec k j c.cache
          ∙ if_neg (dec k j) differ _ _
          ∙ v.synced j
          ∙ sym (if_neg (dec k j) differ _ _)
    ];
  }

  -- What `removeOldest` leaves.
  record Trimmed (c c' : LruCache K V) : Type 0 where
    valid : IsValid dec c'
    capacity : c'.capacity ≡ c.capacity
    entries : entries c'.list ≡ init (entries c.list)
    absent : (j : K) → get_key dec j c.cache ≡ none → get_key dec j c'.cache ≡ none

  Trimmed-empty :
      (c : LruCache K V) → IsValid dec c → back c.list ≡ none → Trimmed c (remove_oldest dec c)
  unfolding remove_oldest init
  Trimmed-empty c v h =
      let empty : c.list ≡ [] = back-eq-none dec c.list h in
      rw (h, remove_oldest)
        (record {
          valid = v;
          capacity = refl;
          entries = ap (λ l. entries l) empty ∙ sym (ap (λ l. init (entries l)) empty);
          absent = λ j k. k;
        })

  Trimmed-some :
      (c : LruCache K V) (e : Element K V)
      → IsValid dec c
      → back c.list ≡ some e
      → Trimmed c (remove_oldest dec c)
  unfolding remove_oldest
  Trimmed-some c e v h =
      let x = back-Dropped dec c.next c.list e h v.linked in
      rw (h, remove_oldest)
        (record {
          valid = record {
            linked = x.linked;
            synced = λ j. get_key-delete_key dec e.key j c.cache ∙ elim (dec e.key j) [
              | yes same ↦
                  if_pos (dec e.key j) same _ _
                  ∙ sym x.absent
                  ∙ ap (λ i. id_of dec i (remove e.id c.list)) same
              | no differ ↦
                  if_neg (dec e.key j) differ _ _
                  ∙ v.synced j
                  ∙ sym (x.others j (λ q. differ (sym q)))
            ];
          };
          capacity = refl;
          entries = x.left;
          absent = λ j k. get_key-delete_key dec e.key j c.cache ∙ elim (dec e.key j) [
            | yes same ↦ if_pos (dec e.key j) same _ _
            | no differ ↦ if_neg (dec e.key j) differ _ _ ∙ k
          ];
        })

  trimmed : (c : LruCache K V) → IsValid dec c → Trimmed c (remove_oldest dec c)
  trimmed c v = elim (Option-cases (back c.list)) [
    | inl none_left ↦ Trimmed-empty c v none_left
    | inr (e, last) ↦ Trimmed-some c e v last
  ]

  -- The cache that a new key is pushed on, and the ideal list that it is put before.
  room :
      (c : LruCache K V)
      → IsValid dec c
      → (full : Bool) → (full ≡ leb_ℤ c.capacity (pos (length c.list)))
      → let c' = if full then remove_oldest dec c else c in
        IsValid dec c'
        × (c'.capacity ≡ c.capacity)
        × (entries c'.list ≡ (if full then init (entries c.list) else entries c.list))
        × ((j : K) → get_key dec j c.cache ≡ none → get_key dec j c'.cache ≡ none)
  room c v true e = let t = trimmed c v in (t.valid, t.capacity, t.entries, t.absent)
  room c v false e = (v, refl, refl, λ j h. h)

  put_hit_eq :
      (k : K) (w : V) (p : ℕ) (c : LruCache K V) (e : Element K V) (rest : List (Element K V))
      → get_key dec k c.cache ≡ some p
      → extract p c.list ≡ some (e, rest)
      → e.id ≡ p
      → put dec k w c ≡ record c { list = record e { value = w } ∷ rest }
  unfolding put move_to_front set_value
  put_hit_eq k w p c e rest h taken at = ground arith

  put_hit :
      (k : K) (w : V) (p : ℕ) (c : LruCache K V)
      → IsValid dec c
      → get_key dec k c.cache ≡ some p
      → Refines dec c (put dec k w c) (ideal_put dec c.capacity k w (entries c.list))
  unfolding ideal_put
  put_hit k w p c v h =
      let (e, rest, x) = hit dec k p c v h in
      let (linked, synced) = front-synced dec k p c.next w c.list e rest x (sym (v.synced k) ∙ h) in
      rw (put_hit_eq k w p c e rest h x.taken x.at, x.found, ideal_put)
        (record {
          valid = record { linked = linked; synced = λ j. v.synced j ∙ synced j };
          capacity = refl;
          entries = ground (arith, x.key, x.left);
        })

  put_miss_eq :
      (k : K) (w : V) (c : LruCache K V)
      → get_key dec k c.cache ≡ none
      → put dec k w c
        ≡ push_front dec k w
            (if leb_ℤ c.capacity (pos (length c.list)) then remove_oldest dec c else c)
  unfolding put
  put_miss_eq k w c h = rw (h, put) refl

  put_miss :
      (k : K) (w : V) (c : LruCache K V)
      → IsValid dec c
      → get_key dec k c.cache ≡ none
      → Refines dec c (put dec k w c) (ideal_put dec c.capacity k w (entries c.list))
  unfolding ideal_put
  put_miss k w c v h =
      let (valid, capacity, left, absent) = room c v _ refl in
      rw
        (
          put_miss_eq k w c h,
          find-entries_none dec k c.list (sym (v.synced k) ∙ h),
          ideal_put,
          length-entries dec c.list,
        )
        (record {
          valid = push_front-IsValid k w _ valid (absent k h);
          capacity = unfold push_front in capacity;
          entries = unfold push_front in ap (◌∷◌ (k, w)) left;
        })

  -- On a cache whose map and list agree, `Put` leaves the entries that the ideal list leaves, in that
  -- order: a known key gets the new value and moves to the front, and a new key costs a full cache its
  -- least recently used entry. The map and the list agree again.
  pub put-Refines :
      (k : K) (w : V) (c : LruCache K V)
      → IsValid dec c
      → Refines dec c (put dec k w c) (ideal_put dec c.capacity k w (entries c.list))
  put-Refines k w c v = elim (Option-cases (get_key dec k c.cache)) [
    | inl miss ↦ put_miss k w c v miss
    | inr (p, found) ↦ put_hit k w p c v found
  ]
