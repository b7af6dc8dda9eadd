-- ===== src/Growth/Progress.antt =====
-- The part of `RecordEvent` of backend/internal/modules/growth/infra/postgres_repository.go that computes
-- the new values of a profile. An instant is a number of nanoseconds since 1970, a date its number of days.
use merope.Prelude.{
  ℕ, min, suc, ◌+◌, ◌-◌, ◌*◌, ◌/◌, Bool, false, Option, none, some, if◌then◌else◌, leb, ltb, ◌==◌,
}
use merope.Prelude.Int.{ℤ, pos, add_int64}
use merope.Growth.Rules.{next_level, combo_multiplier}

-- A row of progression_profiles.
pub record Profile : Type 0 where
  pub xp : ℤ
  pub level : ℕ
  pub reputation : ℤ
  pub energy : ℕ
  pub energy_updated_at : ℕ
  pub current_streak : ℕ
  pub longest_streak : ℕ
  pub last_activity_date : Option ℕ
  pub combo : ℕ
  pub combo_updated_at : Option ℕ
  pub boost_until : Option ℕ
  pub streak_shields : ℤ

abbrev pub minute : ℕ
minute = 60000000000

abbrev pub date_of : ℕ → ℕ
date_of now = now / 86400000000000

unfoldable pub next_streak : ℕ → Option ℕ → ℕ → ℕ
next_streak today none streak = 1
next_streak today (some last) streak =
    if today == suc last then suc streak else if ltb (suc last) today then 1 else streak

unfoldable pub next_combo : ℕ → Option ℕ → ℕ → ℕ
next_combo now none combo = 1
next_combo now (some at) combo = if leb now (at + 5 * minute) then suc combo else 1

abbrev pub is_boosted : ℕ → Option ℕ → Bool
is_boosted now none = false
is_boosted now (some until) = ltb now until

-- In tenths.
unfoldable pub multiplier : ℕ → ℕ → Option ℕ → ℕ
unfolding combo_multiplier
multiplier now combo boost =
    let m = combo_multiplier combo in
    let boosted = if is_boosted now boost then m * 2 else m in
    if ltb 40 boosted then 40 else boosted

unfoldable pub streak_bonus : ℕ → Option ℕ → ℕ → ℕ
streak_bonus today none streak = min streak 20
streak_bonus today (some last) streak = if last == today then 0 else min streak 20

-- The XP that an event of base value `base` brings, rounded to the nearest, halves up.
unfoldable pub awarded : ℕ → ℕ → Profile → ℕ
unfolding next_streak next_combo multiplier streak_bonus
awarded now base p =
    let streak = next_streak (date_of now) p.last_activity_date p.current_streak in
    let mult = multiplier now (next_combo now p.combo_updated_at p.combo) p.boost_until in
    (base * mult + 5) / 10 + streak_bonus (date_of now) p.last_activity_date streak

-- The values that the UPDATE after it writes.
unfoldable pub advance : ℕ → ℕ → Profile → Profile
unfolding awarded next_streak next_combo next_level
advance now base p =
    let streak = next_streak (date_of now) p.last_activity_date p.current_streak in
    let xp = add_int64 p.xp (pos (awarded now base p)) in
    record p {
      xp = xp;
      level = next_level xp;
      reputation = add_int64 p.reputation (pos (awarded now base p / 10));
      energy = min 100 (p.energy + (now - p.energy_updated_at) / minute);
      energy_updated_at = now;
      current_streak = streak;
      longest_streak = if ltb p.longest_streak streak then streak else p.longest_streak;
      last_activity_date = some (date_of now);
      combo = next_combo now p.combo_updated_at p.combo;
      combo_updated_at = some now;
    }
