-- ===== src/Growth/Profiles.antt =====
-- `ClaimStreakShield` and `ActivateBoost` of
-- backend/internal/modules/growth/infra/postgres_repository.go: transactions on progression_profiles.
use merope.Prelude.{
  ℕ, min, ◌+◌, ◌-◌, ◌*◌, ◌/◌, Bool, not, ◌&&◌, Option, none, some, List, [], ◌∷◌, String,
  if◌then◌else◌, leb, ltb,
}
use merope.Prelude.Int.{pos, ◌-ℤ◌, leb_ℤ}
use merope.Prelude.Text.{str_eq}
use merope.Prelude.Outcome.{Result, ok, err, ◌>>=◌, ◌>>◌, fail_if}
use merope.Growth.Rules.{next_level_xp, combo_multiplier}
use merope.Growth.Progress.{Profile, minute, date_of, is_boosted}

abbrev pub Profiles : Type 0
Profiles = List (String × Profile)

pub data Error : Type 0 where
  begin_failed statement_failed no_row no_shield nothing_to_protect already_active gap_too_large
        no_energy_or_boosted :
      Error

-- Whether the statements of a transaction go through.
pub record Faults : Type 0 where
  pub begin : Bool
  pub ensure : Bool
  pub first : Bool
  pub second : Bool
  pub last : Bool

-- `profileForTx`: a domain.Profile.
pub record View : Type 0 where
  pub user_id : String
  pub stored : Profile
  pub next_level_xp : ℕ
  pub combo_multiplier : ℕ
  pub boost_active : Bool

-- SELECT ... FROM progression_profiles WHERE user_id = $1
unfoldable pub find_profile : String → Profiles → Option Profile
find_profile user [] = none
find_profile user ((id, p) ∷ rest) = if str_eq id user then some p else find_profile user rest

-- UPDATE progression_profiles SET ... WHERE user_id = $1, as a function of the row.
unfoldable pub update_profile : String → (Profile → Profile) → Profiles → Profiles
update_profile user f [] = []
update_profile user f ((id, p) ∷ rest) =
    let below = update_profile user f rest in
    if str_eq id user then (id, f p) ∷ rest else (id, p) ∷ below

-- The defaults of the table's columns.
abbrev pub fresh : ℕ → Profile
fresh now = record {
  xp = pos 0;
  level = 1;
  reputation = pos 0;
  energy = 100;
  energy_updated_at = now;
  current_streak = 0;
  longest_streak = 0;
  last_activity_date = none;
  combo = 0;
  combo_updated_at = none;
  boost_until = none;
  streak_shields = pos 1;
}

-- INSERT INTO progression_profiles(user_id) VALUES($1) ON CONFLICT(user_id) DO NOTHING
unfoldable pub ensure_profile : ℕ → String → Profiles → Profiles
ensure_profile now user [] = (user, fresh now) ∷ []
ensure_profile now user ((id, p) ∷ rest) =
    let below = ensure_profile now user rest in
    if str_eq id user then (id, p) ∷ rest else (id, p) ∷ below

abbrev pub or_fail : {A : Type 0} → Error → Option A → Result Error A
or_fail e none = err e
or_fail e (some a) = ok a

unfoldable pub profile_for_tx : ℕ → Faults → String → Profiles → Result Error View
unfolding find_profile
profile_for_tx now f user t = do
  fail_if (not f.last) statement_failed
  p ← or_fail no_row (find_profile user t)
  ok (record {
    user_id = user;
    stored = p;
    next_level_xp = next_level_xp p.level;
    combo_multiplier = combo_multiplier p.combo;
    boost_active = is_boosted now p.boost_until;
  })

-- The end of a transaction that returns with no `tx.Commit`: the deferred `tx.Rollback` undoes it.
unfoldable pub rolled_back :
    Profiles → Result Error (View × Profiles) → Result Error View × Profiles
rolled_back old (ok (v, new)) = (ok v, old)
rolled_back old (err e) = (err e, old)

abbrev pub spend_shield : ℕ → Profile → Profile
spend_shield now p = record p {
  streak_shields = p.streak_shields -ℤ pos 1;
  last_activity_date = some (date_of now);
}

unfoldable pub shield_body : ℕ → Faults → String → Profiles → Result Error (View × Profiles)
unfolding ensure_profile find_profile update_profile profile_for_tx
shield_body now f user t = do
  fail_if (not f.begin) begin_failed
  fail_if (not f.ensure) statement_failed
  let t' = ensure_profile now user t
  fail_if (not f.first) statement_failed
  p ← or_fail no_row (find_profile user t')
  fail_if (leb_ℤ p.streak_shields (pos 0)) no_shield
  last ← or_fail nothing_to_protect p.last_activity_date
  fail_if (leb (date_of now) last) already_active
  fail_if (ltb 2 (date_of now - last)) gap_too_large
  fail_if (not f.second) statement_failed
  let new = update_profile user (spend_shield now) t'
  v ← profile_for_tx now f user new
  ok (v, new)

unfoldable pub claim_streak_shield : ℕ → Faults → String → Profiles → Result Error View × Profiles
unfolding shield_body rolled_back
claim_streak_shield now f user t = rolled_back t (shield_body now f user t)

abbrev pub can_boost : ℕ → ℕ → Profile → Bool
can_boost now cost p = leb cost p.energy && not (is_boosted now p.boost_until)

-- An earlier boost is over when this row is updated, so the later end is the new one's.
abbrev pub spend_energy : ℕ → ℕ → ℕ → Profile → Profile
spend_energy now cost minutes p = record p {
  energy = min 100 (p.energy + (now - p.energy_updated_at) / minute) - cost;
  energy_updated_at = now;
  boost_until = some (now + minutes * minute);
}

unfoldable pub boost_body : ℕ → ℕ → ℕ → Faults → String → Profiles → Result Error (View × Profiles)
unfolding ensure_profile find_profile update_profile profile_for_tx
boost_body now cost minutes f user t = do
  fail_if (not f.begin) begin_failed
  fail_if (not f.ensure) statement_failed
  let t' = ensure_profile now user t
  fail_if (not f.first) statement_failed
  p ← or_fail no_energy_or_boosted (find_profile user t')
  fail_if (not (can_boost now cost p)) no_energy_or_boosted
  let new = update_profile user (spend_energy now cost minutes) t'
  v ← profile_for_tx now f user new
  ok (v, new)

unfoldable pub activate_boost :
    ℕ → ℕ → ℕ → Faults → String → Profiles → Result Error View × Profiles
unfolding boost_body rolled_back
activate_boost now cost minutes f user t = rolled_back t (boost_body now cost minutes f user t)
