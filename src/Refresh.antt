-- ===== src/Refresh.antt =====
-- backend/internal/core/security/refresh_rotation.go: refresh tokens in Redis, with instants in
-- seconds; the digest of a token is a parameter, SHA-256 in base64.
mod Rotation
mod Tests
use merope.Prelude.{
  ℕ, zero, suc, ◌+◌, ◌/◌, Bool, true, false, not, ◌||◌, Option, none, some, String, if◌then◌else◌,
  leb, ltb, ◌==◌,
}
use merope.Redis.{Redis, get, del, set_ex}
use merope.Prelude.Int.{ℤ, pos, pos_part, leb_ℤ}
use merope.Prelude.Text.{str_eq, is_empty, str_append}
use merope.Prelude.Outcome.{Result, ok, err}

pub data Error : Type 0 where
  invalid_request rotation_failed invalid_token : Error

module _ (digest : String → String) where
  unfoldable pub refresh_v2_key : String → String
  refresh_v2_key token = str_append "refresh:v2:" (digest token)

  unfoldable pub legacy_key : String → String
  legacy_key token = str_append "refresh:" token

  -- The end of the script, for the value that it found. Redis refuses `EX 0`, and what a script has done
  -- before an error stays done.
  unfoldable pub move_token : ℕ → String → String → ℕ → String → Redis → Result Error String × Redis
  unfolding del set_ex refresh_v2_key
  move_token now old new seconds user m =
      if seconds == 0 then (err rotation_failed, del (refresh_v2_key old) m) else (
        if is_empty user then err invalid_token else ok user,
        set_ex now (refresh_v2_key new) user seconds (del (refresh_v2_key old) m),
      )

  -- `rotateRefreshTokenScript`
  unfoldable pub rotate_script : ℕ → String → String → ℕ → Redis → Result Error String × Redis
  unfolding get legacy_key move_token
  rotate_script now old new seconds m = elim (get now (refresh_v2_key old) m) [
    | some user ↦ move_token now old new seconds user m
    | none ↦ elim (get now (legacy_key old) m) [
      | some user ↦ move_token now old new seconds user (del (legacy_key old) m)
      | none ↦ (err invalid_token, m)
    ]
  ]

  -- `RotateRefreshTokenV2`; `up` says whether Redis answers, `expiration` is in nanoseconds.
  unfoldable pub rotate_refresh_token :
      Bool → ℕ → String → String → ℤ → Redis → Result Error String × Redis
  unfolding rotate_script
  rotate_refresh_token up now old new expiration m =
      if is_empty old || is_empty new || leb_ℤ expiration (pos 0)
      then (err invalid_request, m)
      else (if up
          then rotate_script now old new (pos_part expiration / 1000000000) m
          else (err rotation_failed, m))

  -- `ValidateRefreshTokenV2` when Redis answers.
  unfoldable pub validate_refresh_token : ℕ → String → Redis → Result Error String
  unfolding get refresh_v2_key legacy_key
  validate_refresh_token now token m =
      let by_key : String → Result Error String = λ k. elim (get now k m) [
        | none ↦ err invalid_token
        | some user ↦ if is_empty user then err invalid_token else ok user
      ] in
      if is_empty token then err invalid_token else elim (by_key (refresh_v2_key token)) [
        | ok user ↦ ok user
        | err e ↦ by_key (legacy_key token)
      ]
