-- ===== src/Identity/Rows.antt =====
-- Rows of the table of users under updates.
use merope.Prelude.{
  ℕ, ◌≡◌, sym, ap, ◌∙◌, subst, arith, Bool, true, false, ◌||◌, some, List, [], ◌∷◌, String, ◌==◌,
  ==_iff, Bool-cases, inl, inr,
}
use merope.Prelude.Text.{str_eq}
use merope.Identity.Accounts.{User, find_user, find_identifier, change}

abbrev pub answers_to : String → User → Bool
answers_to name u = str_eq u.username name || str_eq u.email name

-- The row that a name finds is the row of its identifier.
pub record Found (name : String) (u : User) (users : List User) : Type 0 where
  pub by_name : find_identifier name users ≡ some u
  pub by_id : find_user u.id users ≡ some u

found_answers :
    (name : String) (users : List User) (u : User)
    → find_identifier name users ≡ some u
    → answers_to name u ≡ true
unfolding find_identifier
found_answers name [] u h = absurd (cc)
found_answers name (r ∷ rs) u h = elim (Bool-cases (answers_to name r)) [
  | inl yes_ ↦
      let same : r ≡ u = ground arith in subst (λ (x : User). answers_to name x ≡ true) same yes_
  | inr other ↦ found_answers name rs u (ground arith)
]

find_user-id : (id : ℕ) (users : List User) (u : User) → find_user id users ≡ some u → u.id ≡ id
unfolding find_user
find_user-id id [] u h = absurd (cc)
find_user-id id (r ∷ rs) u h = elim (Bool-cases (r.id == id)) [
  | inl here ↦
      let same : r ≡ u = ground arith in
      sym (ap (λ (x : User). x.id) same) ∙ (==_iff r.id id).0 here
  | inr other ↦ find_user-id id rs u (ground arith)
]

elsewhere :
    (name : String) (r u : User) (rs : List User)
    → find_identifier name (r ∷ rs) ≡ some u
    → (r.id == u.id) ≡ false
    → answers_to name r ≡ false
unfolding find_identifier
elsewhere name r u rs h there = elim (Bool-cases (answers_to name r)) [
  | inr other ↦ other
  | inl mine ↦
      let e : r ≡ u = ground arith in
      let same = (==_iff r.id u.id).1 (ap (λ (x : User). x.id) e) in absurd (cc (same, there))
]

-- An update of the found row that keeps its identifier and its names.
pub change-Found :
    (name : String) (g : User → User) (u : User) (users : List User)
    → Found name u users
    → (g u).id ≡ u.id
    → answers_to name (g u) ≡ answers_to name u
    → Found name (g u) (change u.id g users)
unfolding find_user find_identifier change
change-Found name g u [] found same names = absurd (cc (found.by_name))
change-Found name g u (r ∷ rs) found same names = elim (Bool-cases (r.id == u.id)) [
  | inl here ↦
      let e : r ≡ u = ground (arith, found.by_id, here) in
      let hit : answers_to name (g r) ≡ true =
        ap (λ (x : User). answers_to name (g x)) e
        ∙ names
        ∙ found_answers name (r ∷ rs) u found.by_name in
      let mine : ((g r).id == (g u).id) ≡ true =
        (==_iff (g r).id (g u).id).1 (ap (λ (x : User). (g x).id) e) in
      rw here (record {
        by_name = rw hit (ap (λ (x : User). some (g x)) e);
        by_id = rw mine (ap (λ (x : User). some (g x)) e);
      })
  | inr there ↦
      let other : answers_to name r ≡ false = elsewhere name r u rs found.by_name there in
      let miss : (r.id == (g u).id) ≡ false = rw same there in
      let rest =
        change-Found name g u rs
          (record {
            by_name = ground (arith, found.by_name, other);
            by_id = ground (arith, found.by_id, there);
          })
          same names in
      rw there (record { by_name = rw other rest.by_name; by_id = rw miss rest.by_id })
]
