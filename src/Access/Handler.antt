-- ===== src/Access/Handler.antt =====
-- `Login` and `Verify` of backend/internal/modules/identity/transport/preauth_mfa_handler.go. Parsed bodies,
-- the cleaning of the address, random and signed tokens, and the refresh tokens' store are parameters; a
-- challenge is kept as the record that is encoded.
use merope.Prelude.{
  ℕ, ◌+◌, ◌*◌, Bool, true, false, not, ◌||◌, Option, none, some, ◌++◌, String, ltb, if◌then◌else◌,
}
use merope.Prelude.Bytes.{bytes_eq}
use merope.Prelude.Text.{codes, is_empty, trim_space}
use merope.Prelude.Outcome.{ok, err}
use merope.Password.Base64.{Bytes, encode}
use merope.Identity.Accounts.{User, State, Faults, get_user_by_id}
use merope.Identity.Sentinel.{fingerprint}
use merope.Identity.Service.{Env, login, verify_mfa}
use merope.Access.Counters.{Counters, rate_limit_check}

pub record Challenge : Type 0 where
  pub user_id : ℕ
  pub fingerprint : Bytes

-- What the handlers share: challenges expire, and are keyed by the hash of their id, without its prefix.
pub record Store : Type 0 where
  pub counters : Counters
  pub challenges : Bytes → Option (Challenge × ℕ)
  pub identity : State

-- What fails around the service; `counted` is whether a failing script has run.
pub record Net : Type 0 where
  pub limits : Bool
  pub counted : Bool
  pub gets : Bool
  pub sets : Bool
  pub dels : Bool
  pub refresh_stored : Bool
  pub exports : Bool

-- The answers, by their codes; `challenge_kept` has the code of `challenge_unavailable`.
pub data Response : Type 0 where
  limit_unavailable rate_limited auth_failed no_session challenge_unavailable : Response
  challenge_kept bad_request no_challenge verify_failed invalid_code load_failed : Response
  mfa_required : ℕ → String → Response
  signed_in : ℕ → String → String → Response

-- What the random source and the signer give; `none` is an error.
pub record Tokens : Type 0 where
  pub access : Option String
  pub refresh : Option String
  pub challenge_id : Option String
  pub salt : Option Bytes

-- `security.HashDeviceID`
abbrev pub hash_id : (Bytes → Bytes) → String → Bytes
hash_id sha256 text = encode (sha256 (codes text))

abbrev pub set_challenge : Bytes → Challenge → ℕ → Store → Store
set_challenge key c expires s = record s {
  challenges = λ k. if bytes_eq k key then some (c, expires) else s.challenges k;
}

abbrev pub del_challenge : Bytes → Store → Store
del_challenge key s = record s { challenges = λ k. if bytes_eq k key then none else s.challenges k }

abbrev pub live : ℕ → Option (Challenge × ℕ) → Option Challenge
live now none = none
live now (some (c, expires)) = if ltb now expires then some c else none

-- `Login` once the service has answered
unfoldable pub answer_login :
    Env
    → Net
    → Tokens
    → ℕ
    → String
    → String
    → Store
    → User
    → Option String
    → Bool
    → Response × Store
answer_login env n t now ip ua s u token false = elim t.refresh [
  | none ↦ (no_session, s)
  | some refresh ↦ elim token [
    | none ↦ (no_session, s)
    | some access ↦ if n.refresh_stored then (signed_in u.id access refresh, s) else (no_session, s)
  ]
]
answer_login env n t now ip ua s u token true = elim t.challenge_id [
  | none ↦ (no_session, s)
  | some id ↦
      if n.sets
      then (
        mfa_required u.id id,
        set_challenge (hash_id env.sha256 id)
            (record { user_id = u.id; fingerprint = fingerprint env.sha256 ip ua }) (now + 300) s,
      )
      else (challenge_unavailable, s)
]

-- `Login`, for an address that has been cleaned
unfoldable pub login_handler :
    Env
    → Net
    → Faults
    → Tokens
    → ℕ
    → String
    → Bytes
    → String
    → String
    → String
    → Store
    → Response × Store
unfolding rate_limit_check answer_login
login_handler env n f t now email password device ip ua s =
    let limit =
      rate_limit_check n.limits n.counted now 10 (15 * 60)
        (codes "login:" ++ hash_id env.sha256 email) s.counters in
    let s' = record s { counters = limit.1 } in
    elim (limit.0) [
      | none ↦ (limit_unavailable, s')
      | some allowed ↦
          if not allowed
          then (rate_limited, s')
          else (let served =
                login env f now email password t.salt t.access device ip ua s.identity in
              let s'' = record s' { identity = served.1 } in
              elim (served.0) [
                | err _ ↦ (auth_failed, s'')
                | ok (u, token, mfa) ↦ answer_login env n t now ip ua s'' u token mfa
              ])
    ]

-- `Verify` once it has deleted the challenge. `ExportData` reads the user, whom the cache may then have, and
-- the sessions; `exports` is whether it answers.
unfoldable pub open_session : Net → Faults → Tokens → ℕ → ℕ → Store → Response × Store
unfolding get_user_by_id
open_session n f t now user s = elim t.access [
  | none ↦ (no_session, s)
  | some access ↦ elim t.refresh [
    | none ↦ (no_session, s)
    | some refresh ↦ if not n.refresh_stored then (no_session, s) else (
      if n.exports then signed_in user access refresh else load_failed,
      record s { identity = (get_user_by_id f.cache_up n.exports now user s.identity).1 },
    )
  ]
]

-- `Verify` once the code was found right
unfoldable pub sign_in : Net → Faults → Tokens → ℕ → Bytes → ℕ → Store → Response × Store
unfolding open_session
sign_in n f t now key user s =
    if not n.dels then (challenge_kept, s) else open_session n f t now user (del_challenge key s)

-- `Verify` once the limit allows the code
unfoldable pub check_challenge :
    Env → Net → Faults → Tokens → ℕ → Bytes → ℕ → String → Store → Response × Store
unfolding sign_in
check_challenge env n f t now key user code s =
    let served = verify_mfa env f now user code s.identity in
    let s' = record s { identity = served.1 } in
    elim (served.0) [
      | err _ ↦ (verify_failed, s')
      | ok valid ↦ if valid then sign_in n f t now key user s' else (invalid_code, s')
    ]

-- The key of the counter of a user's codes; `user_text` is the text of an identifier.
abbrev pub mfa_key : Env → (ℕ → String) → ℕ → Bytes
mfa_key env user_text user = codes "mfa:user:" ++ hash_id env.sha256 (user_text user)

-- `Verify` once the limit has answered
unfoldable pub code_allowed :
    Env → Net → Faults → Tokens → ℕ → Bytes → ℕ → String → Option Bool → Store → Response × Store
unfolding check_challenge
code_allowed env n f t now key user code none s = (limit_unavailable, s)
code_allowed env n f t now key user code (some false) s = (rate_limited, s)
code_allowed env n f t now key user code (some true) s =
    check_challenge env n f t now key user code s

-- `Verify` for a challenge of this device
unfoldable pub limit_code :
    Env → (ℕ → String) → Net → Faults → Tokens → ℕ → Bytes → ℕ → String → Store → Response × Store
unfolding code_allowed
limit_code env user_text n f t now key user code s =
    let limit =
      rate_limit_check n.limits n.counted now 5 (10 * 60) (mfa_key env user_text user) s.counters in
    code_allowed env n f t now key user code (limit.0) (record s { counters = limit.1 })

-- `Verify`
unfoldable pub verify_handler :
    Env
    → (ℕ → String)
    → Net
    → Faults
    → Tokens
    → ℕ
    → String
    → String
    → String
    → String
    → Store
    → Response × Store
unfolding limit_code trim_space
verify_handler env user_text n f t now challenge_id code ip ua s =
    if is_empty (trim_space challenge_id) || is_empty (trim_space code)
    then (bad_request, s)
    else if not n.gets
    then (challenge_unavailable, s)
    else (let key = hash_id env.sha256 (trim_space challenge_id) in
        elim (live now (s.challenges key)) [
          | none ↦ (no_challenge, s)
          | some c ↦
              if bytes_eq c.fingerprint (fingerprint env.sha256 ip ua)
              then limit_code env user_text n f t now key c.user_id (trim_space code) s
              else (no_challenge, s)
        ])
