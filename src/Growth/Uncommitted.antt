-- ===== src/Growth/Uncommitted.antt =====
-- Shields and boosts are spent in transactions that never commit: `ClaimStreakShield` and `ActivateBoost`
-- of backend/internal/modules/growth/infra/postgres_repository.go.
use merope.Prelude.{ℕ, ◌≡◌, refl, not, Option, none, some, [], ◌∷◌, String, arith}
use merope.Prelude.Outcome.{Result, ok, err, >>=-eq-ok, fail_if-eq-ok}
use merope.Growth.Progress.{Profile}
use merope.Growth.Profiles.{
  Profiles, Error, Faults, View, find_profile, update_profile, ensure_profile, or_fail,
  profile_for_tx, rolled_back, can_boost, spend_energy, boost_body, activate_boost, begin_failed,
  statement_failed, no_energy_or_boosted,
}

find-update :
    (user : String) (f : Profile → Profile) (t : Profiles) (p : Profile)
    → find_profile user t ≡ some p
    → find_profile user (update_profile user f t) ≡ some (f p)
unfolding find_profile update_profile
find-update user f [] p h = absurd (cc)
find-update user f ((id, q) ∷ rest) p h = ground (arith, find-update user f rest p)

rolled_back_store : (t : Profiles) (r : Result Error (View × Profiles)) → (rolled_back t r).1 ≡ t
unfolding rolled_back
rolled_back_store t (ok (v, new)) = refl
rolled_back_store t (err e) = refl

rolled_back-eq-ok :
    (t : Profiles) (r : Result Error (View × Profiles)) {v : View}
    → (rolled_back t r).0 ≡ ok v
    → (new : Profiles) × (r ≡ ok (v, new))
unfolding rolled_back
rolled_back-eq-ok t (ok (w, new)) h = (new, cc (h))
rolled_back-eq-ok t (err e) h = absurd (cc)

or_fail-eq-ok : {A : Type 0} (e : Error) (o : Option A) {a : A} → or_fail e o ≡ ok a → o ≡ some a
or_fail-eq-ok e none h = absurd (cc)
or_fail-eq-ok e (some a) h = cc

viewed :
    (now : ℕ) (f : Faults) (user : String) (t : Profiles) (p : Profile) {v : View}
    → find_profile user t ≡ some p
    → profile_for_tx now f user t ≡ ok v
    → v.stored ≡ p
unfolding profile_for_tx
viewed now f user t p found h =
    let (_, read) = fail_if-eq-ok (not f.last) statement_failed _ h in cc (rw found at read)

-- What a body that got through read and answered.
Spent : Profiles → String → (Profile → Profile) → View → Type 0
Spent t user spend v = (p : Profile) × (find_profile user t ≡ some p) × (v.stored ≡ spend p)

boost_body-Spent :
    (now cost minutes : ℕ) (f : Faults) (user : String) (t new : Profiles) {v : View}
    → boost_body now cost minutes f user t ≡ ok (v, new)
    → Spent (ensure_profile now user t) user (spend_energy now cost minutes) v
unfolding boost_body Spent
boost_body-Spent now cost minutes f user t new {v} h =
    let t' = ensure_profile now user t in
    let spend = spend_energy now cost minutes in
    let (_, begun) = fail_if-eq-ok (not f.begin) begin_failed _ h in
    let (_, ensured) = fail_if-eq-ok (not f.ensure) statement_failed _ begun in
    let (_, read) = fail_if-eq-ok (not f.first) statement_failed _ ensured in
    let (p, found, k) = >>=-eq-ok (or_fail no_energy_or_boosted (find_profile user t')) _ read in
    let (_, k1) = fail_if-eq-ok (not (can_boost now cost p)) no_energy_or_boosted _ k in
    let row = or_fail-eq-ok no_energy_or_boosted (find_profile user t') found in
    let updated = find-update user spend t' p row in
    let (w, seen, same) =
      >>=-eq-ok (profile_for_tx now f user (update_profile user spend t')) _ k1 in
    (p, row, cc (viewed now f user _ (spend p) updated seen, same))

-- A boost that is activated is not kept: the profile that a successful activation answers has spent
-- the energy and is boosted, the table stays as it was, and the same activation succeeds again.
pub boost_not_kept :
    (now cost minutes : ℕ) (f : Faults) (user : String) (t : Profiles) {v : View}
    → (activate_boost now cost minutes f user t).0 ≡ ok v
    → let after = (activate_boost now cost minutes f user t).1 in
      (p : Profile) × (find_profile user (ensure_profile now user t) ≡ some p)
      × (v.stored ≡ spend_energy now cost minutes p)
      × (after ≡ t)
      × ((activate_boost now cost minutes f user after).0 ≡ ok v)
unfolding activate_boost Spent
boost_not_kept now cost minutes f user t {v} h =
    let body = boost_body now cost minutes f user t in
    let (new, run_) = rolled_back-eq-ok t body h in
    let (p, found, stored) = boost_body-Spent now cost minutes f user t new run_ in
    rw (rolled_back_store t body) (p, found, stored, refl, h)
