-- ===== src/Refresh/Rotation.antt =====
-- What a rotation leaves: backend/internal/core/security/refresh_rotation.go.
use merope.Prelude.{
  ℕ, ◌+◌, ◌/◌, ◌≤◌, ◌<◌, ◌≡◌, refl, sym, ap, ◌∙◌, Bool, true, false, ◌||◌, ◌⊎◌, Bool-cases,
  Option-cases, inl, inr, none, some, String, ◌==◌,
}
use merope.Prelude.Int.{ℤ, pos, pos_part, leb_ℤ}
use merope.Prelude.Text.{str_eq, is_empty}
use merope.Prelude.Outcome.{ok, err}
use merope.Redis.{
  Redis, get, del, set_ex, get-del_same, get-del-none, get-set_ex_same, get-set_ex_other, get-later,
}
use merope.Refresh.{
  invalid_token, refresh_v2_key, legacy_key, move_token, rotate_script, rotate_refresh_token,
  validate_refresh_token,
}

middle_false : (a b c : Bool) → (a || b || c) ≡ false → b ≡ false
middle_false true b c h = absurd (cc)
middle_false false true c h = absurd (cc)
middle_false false false c h = refl

module _ (digest : String → String) where
  -- A store from which the old token is gone, with the new one set for the user.
  record Rotated (now : ℕ) (old new user : String) (seconds : ℕ) (m : Redis) : Type 0 where
    before : Redis
    set : m ≡ set_ex now (refresh_v2_key digest new) user seconds before
    gone : get now (refresh_v2_key digest old) before ≡ none
    legacy_gone : get now (legacy_key digest old) before ≡ none
    named : is_empty user ≡ false

  move_token-Rotated :
      (now : ℕ) (old new : String) (seconds : ℕ) (found : String) (m : Redis) {user : String}
      → get now (legacy_key digest old) m ≡ none
      → (move_token digest now old new seconds found m).0 ≡ ok user
      → Rotated now old new user seconds (move_token digest now old new seconds found m).1
  unfolding move_token
  move_token-Rotated now old new seconds found m {user} h moved = elim (Bool-cases (seconds == 0)) [
    | inl zero_ ↦ absurd (cc (rw zero_ at moved))
    | inr positive ↦ elim (Bool-cases (is_empty found)) [
      | inl empty ↦ absurd (cc (rw (positive, empty) at moved))
      | inr full ↦
          let same : found ≡ user = cc (rw (positive, full) at moved) in
          rw positive (record {
            before = del (refresh_v2_key digest old) m;
            set =
                ap
                  (λ u.
                    set_ex now (refresh_v2_key digest new) u seconds
                      (del (refresh_v2_key digest old) m))
                  same;
            gone = get-del_same now (refresh_v2_key digest old) m;
            legacy_gone = get-del-none now (legacy_key digest old) (refresh_v2_key digest old) m h;
            named = rw (sym same) full;
          })
    ]
  ]

  rotate_script-Rotated :
      (now : ℕ) (old new : String) (seconds : ℕ) (m : Redis) {user : String}
      → (get now (refresh_v2_key digest old) m ≡ none) ⊎ (get now (legacy_key digest old) m ≡ none)
      → (rotate_script digest now old new seconds m).0 ≡ ok user
      → Rotated now old new user seconds (rotate_script digest now old new seconds m).1
  unfolding rotate_script
  rotate_script-Rotated now old new seconds m single h =
      elim (Option-cases (get now (refresh_v2_key digest old) m)) [
        | inr (found, v2) ↦
            let legacy : get now (legacy_key digest old) m ≡ none = elim single [
              | inl missing ↦ absurd (cc (missing, v2))
              | inr missing ↦ missing
            ] in
            rw (rotate_script, v2)
              (move_token-Rotated now old new seconds found m legacy (rw (rotate_script, v2) at h))
        | inl v2 ↦ elim (Option-cases (get now (legacy_key digest old) m)) [
          | inl missing ↦ absurd (cc (rw (rotate_script, v2, missing) at h))
          | inr (found, legacy) ↦
              rw (rotate_script, v2, legacy)
                (move_token-Rotated now old new seconds found (del (legacy_key digest old) m)
                  (get-del_same now (legacy_key digest old) m)
                  (rw (rotate_script, v2, legacy) at h))
        ]
      ]

  rotate-Rotated :
      (up : Bool) (now : ℕ) (old new : String) (expiration : ℤ) (m : Redis) {user : String}
      → (get now (refresh_v2_key digest old) m ≡ none) ⊎ (get now (legacy_key digest old) m ≡ none)
      → (rotate_refresh_token digest up now old new expiration m).0 ≡ ok user
      → Rotated now old new user
          (pos_part expiration / 1000000000)
          (rotate_refresh_token digest up now old new expiration m).1
        × (is_empty new ≡ false)
  unfolding rotate_refresh_token
  rotate-Rotated up now old new expiration m single h =
      let short = leb_ℤ expiration (pos 0) in
      elim (Bool-cases (is_empty old || is_empty new || short)) [
        | inl bad ↦ absurd (cc (rw bad at h))
        | inr good ↦ elim (Bool-cases up) [
          | inl answers ↦ (
            rw (good, answers)
                (rotate_script-Rotated now old new (pos_part expiration / 1000000000) m single
                  (rw (good, answers) at h)),
            middle_false (is_empty old) (is_empty new) short good,
          )
          | inr silent ↦ absurd (cc (rw (good, silent) at h))
        ]
      ]

  validate_gone :
      (now : ℕ) (token : String) (m : Redis)
      → get now (refresh_v2_key digest token) m ≡ none
      → get now (legacy_key digest token) m ≡ none
      → validate_refresh_token digest now token m ≡ err invalid_token
  unfolding validate_refresh_token
  validate_gone now token m a b = elim (Bool-cases (is_empty token)) [
    | inl empty ↦ rw empty refl
    | inr full ↦ rw (full, a, b) refl
  ]

  validate_found :
      (now : ℕ) (token user : String) (m : Redis)
      → is_empty token ≡ false
      → is_empty user ≡ false
      → get now (refresh_v2_key digest token) m ≡ some user
      → validate_refresh_token digest now token m ≡ ok user
  unfolding validate_refresh_token
  validate_found now token user m full named a = rw (full, a, named) refl

  -- After a rotation that succeeds, until the new token expires, the old token is refused and the new
  -- one is valid for the user that the rotation answered, if the old token was not stored under both its
  -- keys and neither of them is the key of the new one.
  pub rotation_replaces :
      (up : Bool) (now later : ℕ) (old new : String) (expiration : ℤ) (m : Redis) {user : String}
      → (get now (refresh_v2_key digest old) m ≡ none) ⊎ (get now (legacy_key digest old) m ≡ none)
      → str_eq (refresh_v2_key digest old) (refresh_v2_key digest new) ≡ false
      → str_eq (legacy_key digest old) (refresh_v2_key digest new) ≡ false
      → (rotate_refresh_token digest up now old new expiration m).0 ≡ ok user
      → now ≤ later
      → later < now + pos_part expiration / 1000000000
      → let after = (rotate_refresh_token digest up now old new expiration m).1 in
        (validate_refresh_token digest later old after ≡ err invalid_token)
        × (validate_refresh_token digest later new after ≡ ok user)
  rotation_replaces up now later old new expiration m {user} single other legacy_other h ordered
        alive =
      let (k, full) = rotate-Rotated up now old new expiration m single h in
      let seconds = pos_part expiration / 1000000000 in
      rw k.set (
        validate_gone later old _
            (get-set_ex_other now later (refresh_v2_key digest old) (refresh_v2_key digest new) user
                seconds k.before other
              ∙ get-later now later (refresh_v2_key digest old) k.before ordered k.gone)
            (get-set_ex_other now later (legacy_key digest old) (refresh_v2_key digest new) user
                seconds k.before legacy_other
              ∙ get-later now later (legacy_key digest old) k.before ordered k.legacy_gone),
        validate_found later new user _ full k.named
            (get-set_ex_same now later (refresh_v2_key digest new) user seconds k.before alive),
      )
