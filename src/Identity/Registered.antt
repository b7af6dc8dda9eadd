-- ===== src/Identity/Registered.antt =====
-- From `Register` to `Login` of backend/internal/modules/identity/service/identity_service.go.
use merope.Prelude.{
  ℕ, ◌^◌, ◌<◌, ◌≡◌, refl, sym, ap, ◌∙◌, arith, Bool, true, false, ◌&&◌, Option, none, some, ◌∷◌,
  String, ltb, leb, Bool-cases, inl, inr, if◌then◌else◌, length, All,
}
use merope.Prelude.Bytes.{bytes_eq}
use merope.Prelude.Text.{str_eq, str_eq_refl}
use merope.Prelude.Outcome.{Result, ok, err, ok_inj}
use merope.Password.Base64.{Bytes, IsByte}
use merope.Password.Encoding.{default_params, key_of, encoded, hash_password}
use merope.Password.RoundTrip.{compare-hash}
use merope.Identity.Accounts.{
  User, State, Faults, find_identifier, get_user_by_id, increment_failed_login,
}
use merope.Identity.Sentinel.{assess_risk}
use merope.Identity.Service.{
  Env, login, admit, refuse, lock_or_refuse, rehash, accepts, new_user, register, is_argon,
  is_ok_true, is_locked,
}
use merope.Identity.Risk.{assess_risk-le}

-- The key that Argon2 derives of a password.
abbrev pub password_key : Env → Bytes → Bytes → Bytes
password_key env salt password = key_of env.version env.id_key default_params password salt

abbrev pub hash_of : Env → Bytes → Bytes → Bytes
hash_of env salt password = encoded env.version salt (password_key env salt password)

abbrev pub value : {E A : Type 0} → Result E A → Option A
value (ok a) = some a
value (err _) = none

lock_or_refuse-value :
    (f : Faults) (now id : ℕ) (x : Option User × State) → value (lock_or_refuse f now id x).0 ≡ none
unfolding lock_or_refuse
lock_or_refuse-value f now id (none, s) = refl
lock_or_refuse-value f now id (some u, s) = elim (Bool-cases (leb 5 u.failed_login_attempts)) [
  | inl many ↦ rw many refl
  | inr few ↦ rw few refl
]

refuse-value :
    (f : Faults) (now : ℕ) (user : User) (s : State) → value (refuse f now user s).0 ≡ none
unfolding refuse
refuse-value f now user s = lock_or_refuse-value f now user.id (
    get_user_by_id f.cache_up f.rereads now user.id (increment_failed_login f.increments user.id s))

-- A registration that succeeds puts the user into the table.
register-row :
    (env : Env) (score : ℕ) (reaches : Bool) (fresh : ℕ) (username email : String)
    (password salt : Bytes) (token : Option String) (ip ua : String) (s : State) (user : User)
    (t : String)
    → (register env score reaches fresh username email password (some salt) token ip ua s).0
      ≡ ok (user, t)
    → (user ≡ new_user fresh username email (hash_of env salt password))
      × ((register env score reaches fresh username email password
            (some salt)
            token
            ip
            ua
            s).1.users
          ≡ new_user fresh username email (hash_of env salt password) ∷ s.users)
unfolding register hash_password
register-row env score false fresh username email password salt token ip ua s user t h =
    absurd (ground arith)
register-row env score true fresh username email password salt none ip ua s user t h =
    absurd (ground arith)
register-row env score true fresh username email password salt (some t') ip ua s user t h =
    elim (Bool-cases (ltb score 3)) [
      | inl weak ↦ absurd (ground arith)
      | inr strong ↦
          let made =
            ap (λ (r : User × String). r.0)
              (ok_inj (new_user fresh username email (hash_of env salt password), t') (user, t)
                (rw strong at h)) in
          rw strong (sym made, refl)
    ]

hash_accepts :
    (env : Env) (password other salt : Bytes)
    → env.version < 2 ^ 63
    → All IsByte salt
    → length salt ≡ 16
    → All IsByte (password_key env salt password)
    → length (password_key env salt password) ≡ 32
    → accepts env other (hash_of env salt password)
      ≡ bytes_eq (password_key env salt password) (password_key env salt other)
unfolding accepts encoded hash_password
hash_accepts env password other salt v b l k kl =
    ap is_ok_true (compare-hash env.version env.id_key password other salt v b l k kl refl)

-- `Login` of a user without a second factor, no failures and a hash by Argon2, once the password is right.
admit-new :
    (env : Env) (f : Faults) (now fresh : ℕ) (username email : String) (hash other : Bytes)
    (salt : Option Bytes) (t device ip ua : String) (s : State)
    → is_argon hash ≡ true
    → f.inserts_session ≡ true
    → value
        (admit env f now other salt (some t) device ip ua (new_user fresh username email hash) s).0
      ≡ some (new_user fresh username email hash, some t, false)
unfolding admit rehash
admit-new env f now fresh username email hash other salt t device ip ua s argon works =
    let row = new_user fresh username email hash in
    let kept : rehash env f other salt row s ≡ (row, s) = rw (argon, rehash) refl in
    elim (Bool-cases (env.has_sentinel && ltb 8 (assess_risk f.reads_sessions now fresh ip ua s))) [
      | inl risky ↦
          let low = assess_risk-le f.reads_sessions now fresh ip ua s in absurd (ground arith)
      | inr safe ↦ rw (argon, safe, works) refl
    ]

login-found :
    (env : Env) (f : Faults) (now : ℕ) (name : String) (password : Bytes) (salt : Option Bytes)
    (token : Option String) (device ip ua : String) (u : User) (s : State) (b : Bool)
    → (if f.finds then find_identifier name s.users else none) ≡ some u
    → is_locked now u.locked_until ≡ false
    → accepts env password u.password_hash ≡ b
    → value (login env f now name password salt token device ip ua s).0
      ≡ (if b then value (admit env f now password salt token device ip ua u s).0 else none)
unfolding login
login-found env f now name password salt token device ip ua u s true found open_ right =
    rw (found, open_, right, login) refl
login-found env f now name password salt token device ip ua u s false found open_ wrong =
    rw (found, open_, wrong, login) (refuse-value f now u s)

-- What `Login` answers to a user who has just registered, by that user name, which no other account has as its
-- name or address: if the table can be read, the session can be stored and a token is made, the user with
-- that token and no second factor exactly if the password has the key of the one that was registered, and
-- else an error. The salt has 16 bytes and the key 32.
pub registered_logs_in :
    (env : Env) (score : ℕ) (reaches : Bool) (fresh : ℕ) (username email : String)
    (password salt : Bytes) (token : Option String) (ip ua : String) (s : State) (user : User)
    (t : String) (f : Faults) (now : ℕ) (other : Bytes) (salt' : Option Bytes)
    (t' device ip' ua' : String)
    → env.version < 2 ^ 63
    → All IsByte salt
    → length salt ≡ 16
    → All IsByte (password_key env salt password)
    → length (password_key env salt password) ≡ 32
    → find_identifier username s.users ≡ none
    → (register env score reaches fresh username email password (some salt) token ip ua s).0
      ≡ ok (user, t)
    → f.finds ≡ true
    → f.inserts_session ≡ true
    → value
        (login env f now username other salt'
          (some t')
          device
          ip'
          ua'
          (register env score reaches fresh username email password (some salt) token ip ua s).1).0
      ≡ (if bytes_eq (password_key env salt password) (password_key env salt other)
          then some (user, some t', false)
          else none)
unfolding find_identifier encoded
registered_logs_in env score reaches fresh username email password salt token ip ua s user t f now
      other salt' t' device ip' ua' v b l k kl unused made finds works =
    let s' =
      (register env score reaches fresh username email password (some salt) token ip ua s).1 in
    let hash = hash_of env salt password in
    let (is_row, rows) =
      register-row env score reaches fresh username email password salt token ip ua s user t made in
    let own : str_eq username username ≡ true = str_eq_refl username in
    let row = new_user fresh username email hash in
    let found : find_identifier username s'.users ≡ some row =
      ap (find_identifier username) rows ∙ rw own refl in
    let found' : (if f.finds then find_identifier username s'.users else none) ≡ some row =
      rw finds found in
    let same = bytes_eq (password_key env salt password) (password_key env salt other) in
    let checks = hash_accepts env password other salt v b l k kl in
    login-found env f now username other salt' (some t') device ip' ua' row s' same found' refl
      checks
    ∙ ap (λ (a : Option (User × Option String × Bool)). if same then a else none)
        (admit-new env f now fresh username email hash other salt' t' device ip' ua' s' refl works
          ∙ ap (λ (u : User). some (u, some t', false)) (sym is_row))
