-- ===== src/Growth/Awards.antt =====
-- What an event brings to a profile: bounds on the award. It is about
-- `RecordEvent` of backend/internal/modules/growth/infra/postgres_repository.go.
use merope.Prelude.{
  ℕ, ◌+◌, ◌*◌, ◌/◌, ◌≤◌, Bool, true, false, arith, Option, none, some, if◌then◌else◌, ltb,
}
use merope.Growth.Rules.{combo_multiplier}
use merope.Growth.Progress.{
  Profile, date_of, next_streak, next_combo, multiplier, is_boosted, streak_bonus, awarded,
}

combo_multiplier_bounds :
    (combo : ℕ) → (10 ≤ combo_multiplier combo) × (combo_multiplier combo ≤ 20)
unfolding combo_multiplier
combo_multiplier_bounds combo = ground arith

capped :
    (m : ℕ) (b : Bool)
    → 10 ≤ m
    → m ≤ 20
    → let boosted = if b then m * 2 else m in
      (10 ≤ (if ltb 40 boosted then 40 else boosted))
      × ((if ltb 40 boosted then 40 else boosted) ≤ 40)
capped m true low high = ground arith
capped m false low high = ground arith

multiplier_bounds :
    (now combo : ℕ) (boost : Option ℕ)
    → (10 ≤ multiplier now combo boost) × (multiplier now combo boost ≤ 40)
unfolding multiplier
multiplier_bounds now combo boost =
    let (low, high) = combo_multiplier_bounds combo in
    capped (combo_multiplier combo) (is_boosted now boost) low high

streak_bonus_bound :
    (today : ℕ) (last : Option ℕ) (streak : ℕ) → streak_bonus today last streak ≤ 20
unfolding streak_bonus
streak_bonus_bound today none streak = omega arith
streak_bonus_bound today (some last) streak = ground arith

scaled :
    (base m : ℕ) → 10 ≤ m → m ≤ 40 → (base ≤ (base * m + 5) / 10) × ((base * m + 5) / 10 ≤ 4 * base)
scaled base m low high =
    let at_least : base * 10 ≤ base * m = grind arith in
    let at_most : base * m ≤ base * 40 = grind arith in (omega arith, omega arith)

-- An event brings at least its base XP, and at most four times that and 20 more.
pub award_bounds :
    (now base : ℕ) (p : Profile)
    → (base ≤ awarded now base p) × (awarded now base p ≤ 4 * base + 20)
unfolding awarded
award_bounds now base p =
    let streak = next_streak (date_of now) p.last_activity_date p.current_streak in
    let m = multiplier now (next_combo now p.combo_updated_at p.combo) p.boost_until in
    let (m_low, m_high) =
      multiplier_bounds now (next_combo now p.combo_updated_at p.combo) p.boost_until in
    let (low, high) = scaled base m m_low m_high in
    let bonus = streak_bonus_bound (date_of now) p.last_activity_date streak in
    (omega (arith, low), omega (arith, high, bonus))
