-- ===== src/Refresh/Tests.antt =====
-- A rotation of one refresh token, with the identity for a digest.
use merope.Prelude.{◌≡◌, refl, true, none, some, String, arith, if◌then◌else◌, inr}
use merope.Prelude.Int.{pos}
use merope.Prelude.Text.{str_eq}
use merope.Prelude.Outcome.{ok, err}
use merope.Redis.{Redis, get, del, set_ex}
use merope.Refresh.{
  invalid_token, refresh_v2_key, legacy_key, move_token, rotate_script, rotate_refresh_token,
  validate_refresh_token,
}
use merope.Refresh.Rotation.{rotation_replaces}

program : Unit {0}
unfolding get del set_ex refresh_v2_key legacy_key move_token rotate_script rotate_refresh_token
    validate_refresh_token
program = tt

abbrev plain : String → String
plain token = token

abbrev sessions : Redis
sessions = λ k. if str_eq k "refresh:v2:old" then some ("pia", 1000) else none

rotation_replaces_example :
    let after = (rotate_refresh_token plain true 500 "old" "new" (pos 3600000000000) sessions).1 in
    (validate_refresh_token plain 600 "old" after ≡ err invalid_token)
    × (validate_refresh_token plain 600 "new" after ≡ ok "pia")
unfolding program
rotation_replaces_example =
    rotation_replaces plain true 500 600 "old" "new" (pos 3600000000000) sessions (inr refl) refl
      refl refl (omega arith) (omega arith)
