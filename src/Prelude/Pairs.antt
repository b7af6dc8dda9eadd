-- ===== src/Prelude/Pairs.antt =====
-- Tables whose primary key is a pair of identifiers, with the statements on them.
use mathlib.Core.Path.{◌≡◌, refl, ap, ◌∙◌}
use mathlib.Core.Logic.{inl, inr}
use mathlib.Core.Bool.{Bool, true, false, ◌&&◌, ◌||◌}
use mathlib.Core.Option.{Option, none, some}
use mathlib.Core.List.{List, [], ◌∷◌}
use merope.Prelude.Tests.{if◌then◌else◌, Bool-cases}
use merope.Prelude.Lists.{All}
use Prim.Native.String.{String}
use merope.Prelude.Text.{str_eq, str_eq_iff, str_eq_refl}

-- A table whose primary key is a pair of identifiers.
abbrev pub Pairs : Type 0 → Type 0
Pairs A = List ((String × String) × A)

abbrev pub pair_eq : String × String → String × String → Bool
pair_eq j k = str_eq j.0 k.0 && str_eq j.1 k.1

-- INSERT ... ON CONFLICT (the key) DO UPDATE
unfoldable pub upsert : {A : Type 0} → String × String → A → Pairs A → Pairs A
upsert k a [] = (k, a) ∷ []
upsert k a ((j, b) ∷ rest) =
    let below = upsert k a rest in if pair_eq j k then (j, a) ∷ rest else (j, b) ∷ below

-- DELETE, of the rows with the key that the test holds of.
unfoldable pub remove : {A : Type 0} → String × String → (A → Bool) → Pairs A → Pairs A
remove k test [] = []
remove k test ((j, b) ∷ rest) =
    let below = remove k test rest in if pair_eq j k && test b then below else (j, b) ∷ below

unfoldable pub find_pair : {A : Type 0} → String × String → Pairs A → Option A
find_pair k [] = none
find_pair k ((j, a) ∷ rest) = if pair_eq j k then some a else find_pair k rest

unfoldable pub has_key : {A : Type 0} → String × String → Pairs A → Bool
has_key k [] = false
has_key k ((j, a) ∷ rest) = pair_eq j k || has_key k rest

-- No key comes twice.
abbrev pub IsKeyed : {A : Type 0} → Pairs A → Type 0
IsKeyed [] = Unit
IsKeyed ((j, a) ∷ rest) = (has_key j rest ≡ false) × IsKeyed rest

pub pair_eq_lem : (j k : String × String) → pair_eq j k ≡ true → j ≡ k
pair_eq_lem (a, b) (c, e) h =
    let (x, y) = both (str_eq a c) (str_eq b e) h in
    ap (λ u. (u, b)) ((str_eq_iff a c).0 x) ∙ ap (λ v. (c, v)) ((str_eq_iff b e).0 y)
  where
    both : (p q : Bool) → (p && q) ≡ true → (p ≡ true) × (q ≡ true)
    both true q h = (refl, h)
    both false q h = absurd (cc)

pair_eq_refl : (k : String × String) → pair_eq k k ≡ true
pair_eq_refl (a, b) = rw (str_eq_refl a, str_eq_refl b) refl

pub pair_eq_comm : (j k : String × String) → pair_eq j k ≡ false → pair_eq k j ≡ false
pair_eq_comm j k h = elim (Bool-cases (pair_eq k j)) [
  | inr other ↦ other
  | inl same ↦
      let e = pair_eq_lem k j same in absurd (cc (h, ap (λ z. pair_eq z k) e, pair_eq_refl k))
]

module _ {A : Type 0} where
  -- An upsert of another key finds what was there.
  has_key-upsert :
      (i k : String × String) (a : A) (ps : Pairs A)
      → pair_eq k i ≡ false
      → has_key i ps ≡ false
      → has_key i (upsert k a ps) ≡ false
  unfolding has_key upsert
  has_key-upsert i k a [] other h = rw other refl
  has_key-upsert i k a ((j, b) ∷ rest) other h = elim (Bool-cases (pair_eq j k)) [
    | inl same ↦ rw (upsert, same) h
    | inr differs ↦ elim (Bool-cases (pair_eq j i)) [
      | inl here ↦ absurd (cc (rw (has_key, here) at h))
      | inr away ↦
          rw (upsert, differs, has_key, away)
            (has_key-upsert i k a rest other (rw (has_key, away) at h))
    ]
  ]

  pub upsert-IsKeyed :
      (k : String × String) (a : A) (ps : Pairs A) → IsKeyed ps → IsKeyed (upsert k a ps)
  unfolding upsert has_key
  upsert-IsKeyed k a [] h = (refl, tt)
  upsert-IsKeyed k a ((j, b) ∷ rest) h = elim (Bool-cases (pair_eq j k)) [
    | inl same ↦ rw same h
    | inr other ↦
        rw other
          (has_key-upsert j k a rest (pair_eq_comm j k other) h.0, upsert-IsKeyed k a rest h.1)
  ]

  module _ (P : String × String → Type 0) where
    -- Every row's key satisfies a predicate, when the new one does.
    pub upsert-All :
        (k : String × String) (a : A) (ps : Pairs A)
        → P k
        → All (λ p. P p.0) ps
        → All (λ p. P p.0) (upsert k a ps)
    unfolding upsert
    upsert-All k a [] new h = (new, tt)
    upsert-All k a ((j, b) ∷ rest) new h = elim (Bool-cases (pair_eq j k)) [
      | inl same ↦ rw same h
      | inr other ↦ rw other (h.0, upsert-All k a rest new h.1)
    ]

-- What is upserted is found.
pub find_pair-upsert :
    {A : Type 0} (k : String × String) (a : A) (ps : Pairs A) → find_pair k (upsert k a ps) ≡ some a
unfolding find_pair upsert
find_pair-upsert k a [] = rw (pair_eq_refl k) refl
find_pair-upsert k a ((j, b) ∷ rest) = elim (Bool-cases (pair_eq j k)) [
  | inl same ↦ rw (upsert, same, find_pair, same) refl
  | inr other ↦ rw (upsert, other, find_pair, other) (find_pair-upsert k a rest)
]
