-- ===== src/Identity/Service.antt =====
-- backend/internal/modules/identity/service/identity_service.go: registering, logging in, and the second
-- factor. bcrypt, TOTP, the estimate of a password's strength, the random salt and the signed token are
-- parameters.
use merope.Prelude.{
  ℕ, ◌+◌, ◌*◌, Bool, true, false, not, ◌&&◌, Option, none, some, [], ◌∷◌, String, ltb, leb, ◌==◌,
  if◌then◌else◌,
}
use merope.Prelude.Text.{codes}
use merope.Prelude.Outcome.{Result, ok, err}
use merope.Password.Base64.{Bytes}
use merope.Password.Encoding.{hash_password, compare_password}
use merope.Identity.Accounts.{
  User, State, Faults, find_identifier, get_user_by_id, increment_failed_login, reset_failed_login,
  lock_account, update_user, update_mfa,
}
use merope.Identity.Sentinel.{assess_risk, register_device, fingerprint}

pub data Error : Type 0 where
  invalid_credentials account_locked locked_now high_risk no_session no_token : Error
  weak_password no_hash not_created no_user not_updated : Error

pub record Env : Type 0 where
  pub version : ℕ
  pub id_key : Bytes → Bytes → ℕ → ℕ → ℕ → ℕ → Bytes
  pub bcrypt_matches : Bytes → Bytes → Bool  -- hash, password
  pub sha256 : Bytes → Bytes
  pub totp_valid : ℕ → String → String → Bool  -- time, code, secret
  pub has_sentinel : Bool

abbrev pub has_prefix : Bytes → Bytes → Bool
has_prefix [] text = true
has_prefix (p ∷ ps) [] = false
has_prefix (p ∷ ps) (c ∷ cs) = p == c && has_prefix ps cs

abbrev pub is_argon : Bytes → Bool
is_argon hash = has_prefix (codes "$argon2id$") hash

abbrev pub is_ok_true : {E : Type 0} → Result E Bool → Bool
is_ok_true (ok b) = b
is_ok_true (err e) = false

-- Whether `Login` takes the password for the hash of the user.
unfoldable pub accepts : Env → Bytes → Bytes → Bool
unfolding compare_password
accepts env password hash =
    if is_argon hash
    then is_ok_true (compare_password env.version env.id_key password hash)
    else env.bcrypt_matches hash password

abbrev pub is_locked : ℕ → Option ℕ → Bool
is_locked now none = false
is_locked now (some until) = ltb now until

abbrev pub lock_time : ℕ
lock_time = 15 * 60

-- `Login` after a wrong password, once it has read the user again
unfoldable pub lock_or_refuse :
    Faults → ℕ → ℕ → Option User × State → Result Error (User × Option String × Bool) × State
lock_or_refuse f now id (none, s) = (err invalid_credentials, s)
lock_or_refuse f now id (some u, s) =
    if leb 5 u.failed_login_attempts
    then (err locked_now, lock_account f.locks id (now + lock_time) s)
    else (err invalid_credentials, s)

-- `Login` after a wrong password
unfoldable pub refuse :
    Faults → ℕ → User → State → Result Error (User × Option String × Bool) × State
unfolding lock_or_refuse
refuse f now user s = lock_or_refuse f now user.id (
    get_user_by_id f.cache_up f.rereads now user.id (increment_failed_login f.increments user.id s))

-- The hash that `Login` keeps for the user of a bcrypt hash, and what `UpdateUser` then does.
unfoldable pub rehash : Env → Faults → Bytes → Option Bytes → User → State → User × State
unfolding hash_password
rehash env f password salt user s =
    if is_argon user.password_hash
    then (user, s)
    else elim (hash_password env.version env.id_key password salt) [
      | err _ ↦ (user, s)
      | ok new ↦ let u = record user { password_hash = new } in (u, update_user f u s)
    ]

-- `Login` once the password is right: `salt` is what `rand.Read` gives, `token` what `GenerateToken` does.
unfoldable pub admit :
    Env
    → Faults
    → ℕ
    → Bytes
    → Option Bytes
    → Option String
    → String
    → String
    → String
    → User
    → State
    → Result Error (User × Option String × Bool) × State
admit env f now password salt token device_id ip ua user s =
    let cleared =
      if ltb 0 user.failed_login_attempts then reset_failed_login f.resets user.id s else s in
    let (u, s') = rehash env f password salt user cleared in
    if u.mfa_enabled
    then (ok (u, none, true), s')
    else if env.has_sentinel && ltb 8 (assess_risk f.reads_sessions now u.id ip ua s')
    then (err high_risk, s')
    else if not f.inserts_session
    then (err no_session, s')
    else (
      elim token [ none ↦ err no_token | some t ↦ ok (u, some t, false) ],
      record s' {
        sessions =
            record {
              user_id = u.id;
              device_id = device_id;
              ip_address = ip;
              user_agent = ua;
              is_active = true;
              last_active_at = now;
            }
            ∷ s'.sessions;
      },
    )

-- `Login`
unfoldable pub login :
    Env
    → Faults
    → ℕ
    → String
    → Bytes
    → Option Bytes
    → Option String
    → String
    → String
    → String
    → State
    → Result Error (User × Option String × Bool) × State
unfolding accepts refuse admit find_identifier
login env f now identifier password salt token device_id ip ua s =
    elim (if f.finds then find_identifier identifier s.users else none) [
      | none ↦ (err invalid_credentials, s)
      | some user ↦
          if is_locked now user.locked_until
          then (err account_locked, s)
          else if accepts env password user.password_hash
          then admit env f now password salt token device_id ip ua user s
          else refuse f now user s
    ]

-- `SetupMFA` once it has read the user, with the secret that `totp.Generate` made
unfoldable pub keep_secret :
    Faults → ℕ → Option String → Option User × State → Result Error String × State
keep_secret f id secret (none, s) = (err no_user, s)
keep_secret f id none (some u, s) = (err not_updated, s)
keep_secret f id (some key) (some u, s) =
    if f.updates then (ok key, update_mfa true id false key s) else (err not_updated, s)

-- `SetupMFA`
unfoldable pub setup_mfa : Faults → ℕ → ℕ → Option String → State → Result Error String × State
unfolding keep_secret
setup_mfa f now id secret s = keep_secret f id secret (get_user_by_id f.cache_up f.rereads now id s)

-- `VerifyMFA` once it has read the user
unfoldable pub check_code :
    Env → Faults → ℕ → ℕ → String → Option User × State → Result Error Bool × State
check_code env f now id code (none, s) = (err no_user, s)
check_code env f now id code (some u, s) =
    if not (env.totp_valid now code u.mfa_secret)
    then (ok false, s)
    else if u.mfa_enabled
    then (ok true, s)
    else if f.updates
    then (ok true, update_mfa true id true u.mfa_secret s)
    else (err not_updated, s)

-- `VerifyMFA`
unfoldable pub verify_mfa : Env → Faults → ℕ → ℕ → String → State → Result Error Bool × State
unfolding check_code
verify_mfa env f now id code s =
    check_code env f now id code (get_user_by_id f.cache_up f.rereads now id s)

abbrev pub new_user : ℕ → String → String → Bytes → User
new_user fresh username email hash = record {
  id = fresh;
  username = username;
  email = email;
  password_hash = hash;
  mfa_enabled = false;
  mfa_secret = "";
  failed_login_attempts = 0;
  locked_until = none;
}

-- `Register`. The unique columns of a user start with its tenant, which is NULL here, so that no INSERT
-- violates them. `score` is the strength of the password, `reaches` whether the INSERT does, and `fresh` the
-- identifier that the database gives.
unfoldable pub register :
    Env
    → ℕ
    → Bool
    → ℕ
    → String
    → String
    → Bytes
    → Option Bytes
    → Option String
    → String
    → String
    → State
    → Result Error (User × String) × State
unfolding hash_password register_device
register env score reaches fresh username email password salt token ip ua s =
    if ltb score 3
    then (err weak_password, s)
    else elim (hash_password env.version env.id_key password salt) [
      | err _ ↦ (err no_hash, s)
      | ok hash ↦ if not reaches then (err not_created, s) else (
        elim token [ none ↦ err no_token | some t ↦ ok (new_user fresh username email hash, t) ],
        record s {
          users = new_user fresh username email hash ∷ s.users;
          devices =
              if env.has_sentinel
              then (λ k.
                  if k == fresh
                  then register_device (fingerprint env.sha256 ip ua) (s.devices k)
                  else s.devices k)
              else s.devices;
        },
      )
    ]
