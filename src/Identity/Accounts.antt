-- ===== src/Identity/Accounts.antt =====
-- The table of users and sessions, and the cache of users in Redis, as
-- backend/internal/modules/identity/infra/postgres_repository.go uses them for one of its two databases.
-- Identifiers are those of rows; presence and the state of the profile lock are left out.
use merope.Prelude.{
  ℕ, ◌+◌, Bool, ◌||◌, Option, none, some, List, [], ◌∷◌, String, ltb, ◌==◌, if◌then◌else◌,
}
use merope.Prelude.Text.{str_eq}
use merope.Password.Base64.{Bytes}

-- A row, and the user that `mapUser` makes of it. No secret (NULL) is the empty text.
pub record User : Type 0 where
  pub id : ℕ
  pub username : String
  pub email : String
  pub password_hash : Bytes
  pub mfa_enabled : Bool
  pub mfa_secret : String
  pub failed_login_attempts : ℕ
  pub locked_until : Option ℕ

pub record Session : Type 0 where
  pub user_id : ℕ
  pub device_id : String
  pub ip_address : String
  pub user_agent : String
  pub is_active : Bool
  pub last_active_at : ℕ

-- Times are in seconds. The cache maps the key `user:<id>` to a user and the instant at which it expires;
-- `devices` is the registry in memory.
pub record State : Type 0 where
  pub users : List User
  pub sessions : List Session
  pub cache : ℕ → Option (User × ℕ)
  pub devices : ℕ → List Bytes

-- What reaches the server, for each statement of a call.
pub record Faults : Type 0 where
  pub cache_up : Bool
  pub finds : Bool
  pub rereads : Bool
  pub increments : Bool
  pub resets : Bool
  pub locks : Bool
  pub updates : Bool
  pub reads_sessions : Bool
  pub inserts_session : Bool

unfoldable pub find_user : ℕ → List User → Option User
find_user id [] = none
find_user id (u ∷ us) = if u.id == id then some u else find_user id us

-- `WHERE username = $1 OR email = $1 LIMIT 1`
unfoldable pub find_identifier : String → List User → Option User
find_identifier name [] = none
find_identifier name (u ∷ us) =
    if str_eq u.username name || str_eq u.email name then some u else find_identifier name us

-- `UPDATE users SET ... WHERE id = $1`
unfoldable pub change : ℕ → (User → User) → List User → List User
change id f [] = []
change id f (u ∷ us) = if u.id == id then f u ∷ us else u ∷ change id f us

-- A statement on one user that may fail; its error is ignored by the callers.
abbrev pub try_change : Bool → ℕ → (User → User) → State → State
try_change reaches id f s = if reaches then record s { users = change id f s.users } else s

-- `IncrementFailedLogin`
abbrev pub increment_failed_login : Bool → ℕ → State → State
increment_failed_login reaches id s =
    try_change reaches id (λ u. record u { failed_login_attempts = u.failed_login_attempts + 1 }) s

-- `ResetFailedLogin`
abbrev pub reset_failed_login : Bool → ℕ → State → State
reset_failed_login reaches id s =
    try_change reaches id (λ u. record u { failed_login_attempts = 0; locked_until = none }) s

-- `LockAccount`
abbrev pub lock_account : Bool → ℕ → ℕ → State → State
lock_account reaches id until s =
    try_change reaches id (λ u. record u { locked_until = some until }) s

-- `UpdateMFA`; it leaves the cache as it is.
abbrev pub update_mfa : Bool → ℕ → Bool → String → State → State
update_mfa reaches id enabled secret s =
    try_change reaches id (λ u. record u { mfa_enabled = enabled; mfa_secret = secret }) s

-- `UpdateUser`: the names, which are those that were read, and not the hash; then the cache is told.
abbrev pub update_user : Faults → User → State → State
update_user f u s =
    if f.updates
    then record s {
      users = change u.id (λ r. record r { username = u.username; email = u.email }) s.users;
      cache = if f.cache_up then (λ k. if k == u.id then none else s.cache k) else s.cache;
    }
    else s

-- A user as JSON: `password_hash` and `mfa_secret` are left out.
abbrev pub in_json : User → User
in_json u = record u { password_hash = []; mfa_secret = "" }

abbrev pub live : ℕ → Option (User × ℕ) → Option User
live now none = none
live now (some (u, expires)) = if ltb now expires then some u else none

abbrev pub hour : ℕ
hour = 3600

-- `GetUserByID`: from the cache if it has the user, else from the table, and into the cache for an hour.
unfoldable pub get_user_by_id : Bool → Bool → ℕ → ℕ → State → Option User × State
unfolding find_user
get_user_by_id cache_up reaches now id s =
    let cached : Option User = if cache_up then live now (s.cache id) else none in
    elim cached [
      | some u ↦ (some u, s)
      | none ↦ elim (if reaches then find_user id s.users else none) [
        | none ↦ (none, s)
        | some u ↦ (
          some u,
          record s {
            cache =
                if cache_up
                then (λ k. if k == id then some (in_json u, now + hour) else s.cache k)
                else s.cache;
          },
        )
      ]
    ]
