-- ===== src/Growth/Tests.antt =====
-- The growth theorems at a small table.
use merope.Prelude.{true, false, ℕ, ◌+◌, ◌*◌, ◌≡◌, refl, some, [], ◌∷◌}
use merope.Prelude.Int.{pos, wrap_int64, ◌+ℤ◌, ◌-ℤ◌}
use merope.Growth.Rules.{
  isqrt, next_level, next_level_xp, combo_multiplier, base_xp, tier_for_level,
}
use merope.Growth.Progress.{
  Profile, minute, next_streak, next_combo, multiplier, streak_bonus, awarded, advance,
}
use merope.Growth.Profiles.{
  Faults, View, spend_shield, Profiles, fresh, find_profile, ensure_profile, update_profile,
  profile_for_tx, shield_body, boost_body, rolled_back, claim_streak_shield, activate_boost,
}

program : Unit {0}
unfolding isqrt next_level next_level_xp combo_multiplier base_xp tier_for_level next_streak
    next_combo multiplier streak_bonus awarded advance find_profile ensure_profile update_profile
    profile_for_tx shield_body boost_body rolled_back claim_streak_shield activate_boost wrap_int64
    ◌+ℤ◌ ◌-ℤ◌
program = tt

abbrev day : ℕ
day = 86400000000000

abbrev pia : Profile
pia = record (fresh day) {
  xp = pos 390;
  level = 2;
  current_streak = 4;
  longest_streak = 6;
  last_activity_date = some 1;
  combo = 2;
  combo_updated_at = some (2 * day);
}

-- A post on the next day within five minutes of the last event: 50 XP at 1.2, and a streak of 5.
advance_test :
    let p = advance (2 * day + minute) (base_xp "post_created") pia in
    (p.xp ≡ pos 455) × (p.level ≡ 3) × (p.current_streak ≡ 5)
unfolding program
advance_test = (refl, refl, refl)

abbrev table : Profiles
table = ("pia", pia) ∷ []

abbrev up : Faults
up = record { begin = true; ensure = true; first = true; second = true; last = true }

abbrev shield_view : View
shield_view = record {
  user_id = "pia";
  stored = spend_shield (2 * day) pia;
  next_level_xp = 400;
  combo_multiplier = 11;
  boost_active = false;
}
