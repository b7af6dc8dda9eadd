-- ===== src/Social/Requests.antt =====
-- Edges onto private accounts, in the follow graph of backend/internal/modules/social.
use merope.Prelude.{
  ℕ, ◌≡◌, refl, ap, Bool, true, false, not, ◌&&◌, ◌||◌, inl, inr, Bool-cases, Option, none, some,
  [], ◌∷◌, String, All,
}
use merope.Prelude.Pairs.{Pairs, pair_eq, upsert, remove, find_pair, has_key}
use merope.Social.Graph.{User, Graph, Faults, exec, find_user, is_status, set_status}

abbrev pub is_open : Option User → Bool
is_open none = false
is_open (some u) = not u.is_private

-- The account that an edge leads to is public, or was asked.
abbrev pub IsAsked : Graph → String × String → Type 0
IsAsked g k = (is_open (find_user k.1 g.users) || has_key k g.requests) ≡ true

-- Every edge of the graph leads to a public account, or has a follow request.
abbrev pub IsPolite : Graph → Type 0
IsPolite g = All (λ e. IsAsked g e.0) g.follows

pub asked_still :
    (o : Bool) (k : String × String) (r r' : Pairs String)
    → (has_key k r ≡ true → has_key k r' ≡ true)
    → (o || has_key k r) ≡ true
    → (o || has_key k r') ≡ true
asked_still true k r r' up h = refl
asked_still false k r r' up h = up h

pub has_key-upsert_mono :
    (i k : String × String) (s : String) (r : Pairs String)
    → has_key i r ≡ true
    → has_key i (upsert k s r) ≡ true
unfolding has_key upsert
has_key-upsert_mono i k s [] h = absurd (cc)
has_key-upsert_mono i k s ((j, t) ∷ rest) h = elim (Bool-cases (pair_eq j k)) [
  | inl same ↦ rw same h
  | inr other ↦ elim (Bool-cases (pair_eq j i)) [
    | inl here ↦ rw (other, here) refl
    | inr away ↦ rw (other, away) (has_key-upsert_mono i k s rest (rw (has_key, away) at h))
  ]
]

pub has_key-set_status :
    (i k : String × String) (s : String) (r : Pairs String)
    → has_key i (set_status k s r) ≡ has_key i r
unfolding has_key set_status
has_key-set_status i k s [] = refl
has_key-set_status i k s ((j, t) ∷ rest) = elim (Bool-cases (pair_eq j k)) [
  | inl same ↦ rw same refl
  | inr other ↦ rw other (ap (λ b. pair_eq j i || b) (has_key-set_status i k s rest))
]

-- A request that has a status is there.
pub has_key-find_pair :
    (k : String × String) (s : String) (r : Pairs String)
    → is_status (find_pair k r) s ≡ true
    → has_key k r ≡ true
unfolding has_key find_pair
has_key-find_pair k s [] h = absurd (cc)
has_key-find_pair k s ((j, t) ∷ rest) h = elim (Bool-cases (pair_eq j k)) [
  | inl here ↦ rw here refl
  | inr away ↦ rw away (has_key-find_pair k s rest (rw (find_pair, away) at h))
]

module _ (P : String × String → Type 0) where
  pub remove-All :
      (k : String × String) (test : String → Bool) (ps : Pairs String)
      → All (λ e. P e.0) ps
      → All (λ e. P e.0) (remove k test ps)
  unfolding remove
  remove-All k test [] h = tt
  remove-All k test ((j, s) ∷ rest) h = elim (Bool-cases (pair_eq j k && test s)) [
    | inl out ↦ rw out (remove-All k test rest h.1)
    | inr stays ↦ rw stays (h.0, remove-All k test rest h.1)
  ]

pub exec-IsPolite :
    (f : Faults) (n : ℕ) (old new : Graph)
    → IsPolite old
    → IsPolite new
    → IsPolite (exec f n old new).1
exec-IsPolite f n old new h k = elim (Bool-cases (f.fails n)) [
  | inr works ↦ rw works k
  | inl fails ↦ elim (Bool-cases f.kept) [
    | inl kept ↦ rw (fails, kept) k
    | inr lost ↦ rw (fails, lost) h
  ]
]
