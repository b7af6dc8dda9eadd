-- ===== src/Lru/Eviction.antt =====
-- Dropping the last element of an LRU cache's list, and the map of its keys
-- (backend/internal/core/util/lru_cache.go).
use merope.Prelude.{
  ℕ, ◌≡◌, refl, sym, ◌≢◌, true, false, none, some, List, [], ◌∷◌, arith, ◌==◌, ite, ==_iff,
  Bool-cases, inl, inr, ap, ◌∙◌,
}
use mathlib.Core.Bool.{false≢true}
use mathlib.Core.Logic.{if_neg}
use mathlib.Core.Path.{subst}
use merope.Lru.{Element, back, remove, get_key, delete_key}
use merope.Lru.Entries.{init}
use merope.Lru.Synced.{entries, has_id, id_of, has_id-id_of, IsLinked}

module _ {K : Type 0} (dec : Discrete K) where
  -- A deleted key is gone, and no other.
  pub get_key-delete_key :
      (k j : K) (m : List (K × ℕ))
      → get_key dec j (delete_key dec k m) ≡ ite (dec k j) none (get_key dec j m)
  unfolding get_key delete_key
  get_key-delete_key k j [] = ground arith
  get_key-delete_key k j ((i, p) ∷ m) = ground (arith, get_key-delete_key k j m)

module _ {K V : Type 0} (dec : Discrete K) where
  pub back-eq-none : (l : List (Element K V)) → back l ≡ none → l ≡ []
  unfolding back
  back-eq-none [] h = refl
  back-eq-none (e ∷ []) h = absurd (cc)
  back-eq-none (e ∷ f ∷ l) h = absurd (nonempty (back-eq-none (f ∷ l) h))
    where
      nonempty : (f ∷ l) ≡ [] → ⊥
      nonempty q = cc

  pub record Dropped (n : ℕ) (l : List (Element K V)) (e : Element K V) : Type 0 where
    pub left : entries (remove e.id l) ≡ init (entries l)
    pub was : id_of dec e.key l ≡ some e.id
    pub absent : id_of dec e.key (remove e.id l) ≡ none
    pub linked : IsLinked dec n (remove e.id l)
    pub others : (j : K) → j ≢ e.key → id_of dec j (remove e.id l) ≡ id_of dec j l
    pub ids : (q : ℕ) → has_id q l ≡ false → has_id q (remove e.id l) ≡ false

  pub back-Dropped :
      (n : ℕ) (l : List (Element K V)) (e : Element K V)
      → back l ≡ some e
      → IsLinked dec n l
      → Dropped n l e
  unfolding back remove init id_of has_id
  back-Dropped n [] e h v = absurd (cc)
  back-Dropped n (d ∷ []) e h v = record {
    left = ground arith;
    was = ground arith;
    absent = ground arith;
    linked = ground arith;
    others = λ j ne. ground arith;
    ids = λ q. ground arith;
  }
  back-Dropped n (d ∷ f ∷ l) e h v =
      let x = back-Dropped n (f ∷ l) e h v.3 in
      let seen = has_id-id_of dec e.key e.id (f ∷ l) x.was in
      let other_id : (d.id == e.id) ≡ false = apart d.id e.id v.1 seen in
      let other_key : d.key ≢ e.key = λ q. cc (ap (λ k. id_of dec k (f ∷ l)) q, v.0, x.was) in
      record {
        left = rw other_id (ap (◌∷◌ (d.key, d.value)) x.left);
        was = rw (if_neg (dec d.key e.key) other_key) x.was;
        absent = rw (other_id, if_neg (dec d.key e.key) other_key) x.absent;
        linked = rw other_id (rw (x.others d.key other_key) v.0, x.ids d.id v.1, v.2, x.linked);
        others = λ j ne. rw other_id (ap (ite (dec d.key j) (some d.id)) (x.others j ne));
        ids = λ q h. ground (arith, x.ids q);
      }
    where
      apart : (p q : ℕ) → has_id p (f ∷ l) ≡ false → has_id q (f ∷ l) ≡ true → (p == q) ≡ false
      apart p q a b = elim (Bool-cases (p == q)) [
        | inl same ↦ absurd (
            false≢true (sym a ∙ subst (λ r. has_id r (f ∷ l) ≡ true) (sym ((==_iff p q).0 same)) b))
        | inr differ ↦ differ
      ]
