-- ===== src/Identity/Lockout.antt =====
-- Wrong passwords at `Login` of backend/internal/modules/identity.
use merope.Prelude.{
  ℕ, ◌+◌, ◌<◌, ◌≡◌, refl, subst, ◌∙◌, arith, Bool, true, false, Option, none, some, List, [], ◌∷◌,
  String, leb, lt→ltb, Bool-cases, inl, inr,
}
use merope.Prelude.Outcome.{Result, err}
use merope.Password.Base64.{Bytes}
use merope.Identity.Accounts.{User, State, Faults, change, get_user_by_id, try_change}
use merope.Identity.Service.{Env, Error, invalid_credentials, accepts, refuse, login}
use merope.Identity.Rows.{Found, change-Found}

-- A login that somebody tries.
pub record Attempt : Type 0 where
  pub faults : Faults
  pub now : ℕ
  pub password : Bytes
  pub salt : Option Bytes
  pub token : Option String
  pub device_id : String
  pub ip : String
  pub ua : String

abbrev pub try : Env → String → Attempt → State → Result Error (User × Option String × Bool) × State
try env name a s = login env a.faults a.now name a.password a.salt a.token a.device_id a.ip a.ua s

unfoldable pub try_all : Env → String → List Attempt → State → State
try_all env name [] s = s
try_all env name (a ∷ rest) s = try_all env name rest (try env name a s).1

-- An account that is not locked, of which the cache holds a copy with fewer than five failures.
pub record Cached (name : String) (hash : Bytes) (id expires : ℕ) (s : State) : Type 0 where
  pub user : User
  pub found : Found name user s.users
  pub is_id : user.id ≡ id
  pub has_hash : user.password_hash ≡ hash
  pub open_ : user.locked_until ≡ none
  pub copy : User
  pub copied : s.cache id ≡ some (copy, expires)
  pub few : copy.failed_login_attempts < 5

-- A wrong password while that copy lives.
pub record IsWrong (env : Env) (hash : Bytes) (expires : ℕ) (a : Attempt) : Type 0 where
  pub connected : a.faults.cache_up ≡ true
  pub early : a.now < expires
  pub wrong : accepts env a.password hash ≡ false

abbrev pub AllWrong : Env → Bytes → ℕ → List Attempt → Type 0
AllWrong env hash expires [] = Unit {0}
AllWrong env hash expires (a ∷ rest) = IsWrong env hash expires a × AllWrong env hash expires rest

abbrev one_more : User → User
one_more u = record u { failed_login_attempts = u.failed_login_attempts + 1 }

cache_kept :
    (reaches : Bool) (id : ℕ) (s : State) → (try_change reaches id one_more s).cache id ≡ s.cache id
cache_kept true id s = refl
cache_kept false id s = refl

-- A failure is counted, unless the statement fails.
counted-Cached :
    (reaches : Bool) (name : String) (hash : Bytes) (id expires : ℕ) (s : State)
    → Cached name hash id expires s
    → Cached name hash id expires (
        try_change reaches id
          (λ u. record u { failed_login_attempts = u.failed_login_attempts + 1 })
          s)
counted-Cached false name hash id expires s c = c
counted-Cached true name hash id expires s c = record {
  user = record c.user { failed_login_attempts = c.user.failed_login_attempts + 1 };
  found =
      subst (λ (k : ℕ). Found name (one_more c.user) (change k one_more s.users)) c.is_id
        (change-Found name one_more c.user s.users c.found refl refl);
  is_id = c.is_id;
  has_hash = c.has_hash;
  open_ = c.open_;
  copy = c.copy;
  copied = c.copied;
  few = c.few;
}

pub cached_copy :
    (reaches : Bool) (now id expires : ℕ) (s : State) (copy : User)
    → s.cache id ≡ some (copy, expires)
    → now < expires
    → get_user_by_id true reaches now id s ≡ (some copy, s)
unfolding get_user_by_id
cached_copy reaches now id expires s copy h k = rw (h, lt→ltb now expires k, get_user_by_id) refl

refused :
    (f : Faults) (now id expires : ℕ) (user : User) (s : State) (copy : User)
    → f.cache_up ≡ true
    → user.id ≡ id
    → s.cache id ≡ some (copy, expires)
    → now < expires
    → copy.failed_login_attempts < 5
    → refuse f now user s ≡ (err invalid_credentials, try_change f.increments id one_more s)
unfolding refuse
refused f now id expires user s copy up same h k few =
    let cached : (try_change f.increments id one_more s).cache id ≡ some (copy, expires) =
      cache_kept f.increments id s ∙ h in
    let low : leb 5 copy.failed_login_attempts ≡ false = ground (arith, few) in
    let reread : get_user_by_id f.cache_up f.rereads now user.id
          (try_change f.increments user.id one_more s)
        ≡ (some copy, try_change f.increments id one_more s) =
      rw (up, same)
        (cached_copy f.rereads now id expires (try_change f.increments id one_more s) copy cached
          k) in
    rw (reread, refuse) (rw low refl)

try-Cached :
    (env : Env) (name : String) (hash : Bytes) (id expires : ℕ) (a : Attempt) (s : State)
    → Cached name hash id expires s
    → IsWrong env hash expires a
    → Cached name hash id expires (try env name a s).1
unfolding login
try-Cached env name hash id expires a s c w = elim (Bool-cases a.faults.finds) [
  | inr lost ↦ rw (lost, login) c
  | inl finds ↦
      let counted =
        refused a.faults a.now id expires c.user s c.copy w.connected c.is_id c.copied w.early
          c.few in
      let wrong : accepts env a.password c.user.password_hash ≡ false = rw c.has_hash w.wrong in
      rw (finds, login)
        (rw c.found.by_name (
          rw (c.open_, wrong)
            (rw counted (counted-Cached a.faults.increments name hash id expires s c))))
]

-- Wrong passwords do not lock an account while the cache holds a copy of the user with fewer than five
-- failures, however many they are: the account stays open, with its hash.
pub never_locked :
    (env : Env) (name : String) (hash : Bytes) (id expires : ℕ) (attempts : List Attempt)
    (s : State)
    → Cached name hash id expires s
    → AllWrong env hash expires attempts
    → Cached name hash id expires (try_all env name attempts s)
unfolding try_all
never_locked env name hash id expires [] s c w = c
never_locked env name hash id expires (a ∷ rest) s c w =
    never_locked env name hash id expires rest (try env name a s).1
      (try-Cached env name hash id expires a s c w.0) w.1
