-- ===== src/Growth/Rules.antt =====
-- The rules of backend/internal/modules/growth: XP of an action, levels, tiers, the combo multiplier.
use merope.Prelude.{ℕ, zero, min, suc, ◌+◌, ◌-◌, ◌*◌, ◌/◌, String, if◌then◌else◌, leb, ltb}
use merope.Prelude.Int.{ℤ, pos, negsuc}
use merope.Prelude.Text.{str_eq}

-- `math.Floor(math.Sqrt(float64(xp)/100))` is the integer root of `xp / 100` while XP is below 10^15; above
-- 4 * 10^15 the rounding of the square root can reach the next integer, and the model differs.
unfoldable pub isqrt : ℕ → ℕ
isqrt zero = 0
isqrt (suc n) = let r = isqrt n in if leb (suc r * suc r) (suc n) then suc r else r

-- `nextLevel`, and `LevelForXP` of the service, which is the same function.
unfoldable pub next_level : ℤ → ℕ
unfolding isqrt
next_level (negsuc n) = 1
next_level (pos zero) = 1
next_level (pos (suc n)) = suc (isqrt (suc n / 100))

-- `nextLevelXP`
unfoldable pub next_level_xp : ℕ → ℕ
next_level_xp level = let l = if ltb level 1 then 1 else level in l * l * 100

-- `comboMultiplier`, in tenths.
unfoldable pub combo_multiplier : ℕ → ℕ
combo_multiplier combo =
    if leb combo 1 then 10 else (let m = 10 + min (combo - 1) 10 in if ltb 20 m then 20 else m)

unfoldable pub base_xp : String → ℕ
base_xp action =
    if str_eq action "daily_login"
    then 20
    else if str_eq action "post_created"
    then 50
    else if str_eq action "comment_created"
    then 15
    else if str_eq action "reaction_added"
    then 5
    else if str_eq action "message_sent"
    then 5
    else if str_eq action "content_viewed"
    then 2
    else if str_eq action "story_viewed"
    then 2
    else if str_eq action "follow_created"
    then 10
    else if str_eq action "story_created"
    then 20
    else if str_eq action "community_joined"
    then 25
    else if str_eq action "community_event_rsvp"
    then 15
    else if str_eq action "referral_completed"
    then 100
    else 0

unfoldable pub tier_for_level : ℕ → String
tier_for_level level =
    if leb 50 level
    then "Apex"
    else if leb 25 level
    then "Nova"
    else if leb 15 level
    then "Orbit"
    else if leb 10 level
    then "Pulse"
    else if leb 5 level
    then "Spark"
    else "Seed"
