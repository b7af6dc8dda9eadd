-- ===== src/Identity/Risk.antt =====
-- The risk of a login in backend/internal/modules/identity/service/identity_sentinel.go.
use merope.Prelude.{
  ℕ, ◌<◌, ◌≤◌, ◌≡◌, ◌≢◌, refl, ap, ◌∙◌, arith, Bool, true, false, ◌||◌, Option, none, some, List,
  [], ◌∷◌, ◌++◌, String, ltb, leb, ◌==◌, Bool-cases, Option-cases, inl, inr, if◌then◌else◌, length,
  drop, All, map, All-drop,
}
use merope.Prelude.Bytes.{bytes_eq, bytes_eq_lem}
use merope.Prelude.Text.{codes}
use merope.Prelude.Outcome.{err}
use merope.Password.Base64.{Bytes, letter, sixes, encode-map, IsByte, sixes_small}
use merope.Identity.Accounts.{
  User, Session, State, Faults, find_identifier, reset_failed_login, increment_failed_login,
  get_user_by_id,
}
use merope.Identity.Sentinel.{
  request_text, fingerprint, knows, register_device, last_session, device_risk, travel_risk,
  assess_risk,
}
use merope.Identity.Service.{
  Env, high_risk, login, admit, refuse, lock_or_refuse, rehash, accepts, is_locked,
}

device_risk-le : (d : Bytes) (ds : List Bytes) → device_risk d ds ≤ 3
unfolding knows
device_risk-le d [] = omega arith
device_risk-le d (e ∷ es) = ground arith

travel_risk-le : (now : ℕ) (ip : String) (s : Option Session) → travel_risk now ip s ≤ 5
travel_risk-le now ip none = omega arith
travel_risk-le now ip (some s) = ground arith

pub assess_risk-le :
    (reads : Bool) (now user : ℕ) (ip ua : String) (s : State)
    → assess_risk reads now user ip ua s ≤ 8
unfolding assess_risk
assess_risk-le reads now user ip ua s = ground (
  arith,
  device_risk-le (request_text ip ua) (s.devices user),
  travel_risk-le now ip (last_session user s.sessions none),
)

lock_or_refuse-ne-risk :
    (f : Faults) (now id : ℕ) (x : Option User × State)
    → (lock_or_refuse f now id x).0 ≢ err high_risk
unfolding lock_or_refuse
lock_or_refuse-ne-risk f now id (none, s) = λ h. cc
lock_or_refuse-ne-risk f now id (some u, s) = elim (Bool-cases (leb 5 u.failed_login_attempts)) [
  | inl many ↦ rw many (λ h. cc)
  | inr few ↦ rw few (λ h. cc)
]

admit-ne-risk :
    (env : Env) (f : Faults) (now : ℕ) (password : Bytes) (salt : Option Bytes)
    (token : Option String) (device ip ua : String) (user : User) (s : State)
    → (admit env f now password salt token device ip ua user s).0 ≢ err high_risk
unfolding admit
admit-ne-risk env f now password salt token device ip ua user s h =
    let cleared : State =
      if ltb 0 user.failed_login_attempts then reset_failed_login f.resets user.id s else s in
    let after = rehash env f password salt user cleared in
    let low = assess_risk-le f.reads_sessions now after.0.id ip ua after.1 in ground (arith, low)

-- No login is refused for its risk: no faults, devices or sessions make `Login` answer `high_risk`.
pub login-ne-risk :
    (env : Env) (f : Faults) (now : ℕ) (name : String) (password : Bytes) (salt : Option Bytes)
    (token : Option String) (device ip ua : String) (s : State)
    → (login env f now name password salt token device ip ua s).0 ≢ err high_risk
unfolding login refuse
login-ne-risk env f now name password salt token device ip ua s =
    elim (Option-cases (if f.finds then find_identifier name s.users else none)) [
      | inl gone ↦ rw (gone, login) (λ h. cc)
      | inr (user, found) ↦ elim (Bool-cases (is_locked now user.locked_until)) [
        | inl locked ↦ rw (found, login) (rw locked (λ h. cc))
        | inr open_ ↦ elim (Bool-cases (accepts env password user.password_hash)) [
          | inl right ↦
              rw (found, login)
                (rw (open_, right)
                  (admit-ne-risk env f now password salt token device ip ua user s))
          | inr wrong ↦
              rw (found, login)
                (rw (open_, wrong)
                  (lock_or_refuse-ne-risk f now user.id (
                    get_user_by_id f.cache_up f.rereads now user.id
                      (increment_failed_login f.increments user.id s))))
        ]
      ]
    ]

-- The byte 0 is in no base64 text, and in every text of a request.
has_zero : Bytes → Bool
has_zero [] = false
has_zero (c ∷ cs) = c == 0 || has_zero cs

request_zero : (xs ys : Bytes) → has_zero (xs ++ (0 ∷ ys)) ≡ true
unfolding has_zero
request_zero [] ys = refl
request_zero (x ∷ xs) ys = rw (has_zero, request_zero xs ys) (ground arith)

letter-ne-zero : (v : ℕ) → v < 64 → (letter v == 0) ≡ false
unfolding letter
letter-ne-zero v h = ground arith

letters_no_zero : (vs : List ℕ) → All (λ v. v < 64) vs → has_zero (map letter vs) ≡ false
unfolding has_zero
letters_no_zero [] h = refl
letters_no_zero (v ∷ vs) h = rw (letter-ne-zero v h.0, has_zero) (letters_no_zero vs h.1)

fingerprint_no_zero :
    (sha256 : Bytes → Bytes) (ip ua : String)
    → All IsByte (sha256 (request_text ip ua))
    → has_zero (fingerprint sha256 ip ua) ≡ false
fingerprint_no_zero sha256 ip ua h =
    let hash = sha256 (request_text ip ua) in
    ap has_zero (encode-map hash) ∙ letters_no_zero (sixes hash) (sixes_small hash h)

unknown :
    (ip ua : String) (ds : List Bytes)
    → All (λ d. has_zero d ≡ false) ds
    → knows (request_text ip ua) ds ≡ false
unfolding knows
unknown ip ua [] h = refl
unknown ip ua (d ∷ ds) h = elim (Bool-cases (bytes_eq d (request_text ip ua))) [
  | inr other ↦ rw (other, knows) (unknown ip ua ds h.1)
  | inl same ↦
      let e = (bytes_eq_lem d (request_text ip ua)).0 same in
      absurd (cc (h.0, ap has_zero e, request_zero (codes ip) (codes ua)))
]

abbrev Zeroless : List Bytes → Type 0
Zeroless ds = All (λ d. has_zero d ≡ false) ds

Zeroless-append :
    (ds : List Bytes) (d : Bytes) → Zeroless ds → has_zero d ≡ false → Zeroless (ds ++ (d ∷ []))
Zeroless-append [] d h k = (k, tt)
Zeroless-append (e ∷ es) d h k = (h.0, Zeroless-append es d h.1 k)

register_device-Zeroless :
    (d : Bytes) (ds : List Bytes)
    → has_zero d ≡ false
    → Zeroless ds
    → Zeroless (register_device d ds)
unfolding register_device
register_device-Zeroless d ds k h = elim (Bool-cases (knows d ds)) [
  | inl old ↦ rw (old, register_device) h
  | inr new ↦ elim (Bool-cases (leb 10 (length ds))) [
    | inl full ↦
        rw (new, register_device)
          (rw full (Zeroless-append (drop 1 ds) d (All-drop (λ e. has_zero e ≡ false) 1 ds h) k))
    | inr room ↦ rw (new, register_device) (rw room (Zeroless-append ds d h k))
  ]
]

-- The devices of a user after requests (address and agent) that were registered in order.
unfoldable pub register_all : (Bytes → Bytes) → List (String × String) → List Bytes → List Bytes
unfolding register_device
register_all sha256 [] ds = ds
register_all sha256 ((ip, ua) ∷ rest) ds =
    register_all sha256 rest (register_device (fingerprint sha256 ip ua) ds)

register_all-Zeroless :
    (sha256 : Bytes → Bytes)
    → ((x : Bytes) → All IsByte (sha256 x))
    → (requests : List (String × String)) (ds : List Bytes) → Zeroless ds
    → Zeroless (register_all sha256 requests ds)
unfolding register_all
register_all-Zeroless sha256 hashes [] ds h = h
register_all-Zeroless sha256 hashes ((ip, ua) ∷ rest) ds h =
    register_all-Zeroless sha256 hashes rest (register_device (fingerprint sha256 ip ua) ds) (
      register_device-Zeroless (fingerprint sha256 ip ua) ds
        (fingerprint_no_zero sha256 ip ua (hashes (request_text ip ua))) h)

-- Whatever devices a user has registered, and from whichever device the login comes, `AssessRisk` does
-- not find it among them, if SHA-256 gives bytes.
pub registered_device_unknown :
    (sha256 : Bytes → Bytes)
    → ((x : Bytes) → All IsByte (sha256 x))
    → (requests : List (String × String)) (ip ua : String)
    → knows (request_text ip ua) (register_all sha256 requests []) ≡ false
registered_device_unknown sha256 hashes requests ip ua =
    unknown ip ua (register_all sha256 requests [])
      (register_all-Zeroless sha256 hashes requests [] tt)
