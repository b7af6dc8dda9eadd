-- ===== src/Identity/Sentinel.antt =====
-- backend/internal/modules/identity/service/identity_sentinel.go: devices and the risk of a login. SHA-256
-- is a parameter; a risk is counted in tenths, which its sums in float64 stand for exactly enough: 0.3 + 0.5
-- is the float64 0.8. The audit events are left out.
use merope.Prelude.{
  ℕ, ◌+◌, Bool, true, false, not, ◌&&◌, Option, none, some, List, [], ◌∷◌, ◌++◌, String, ltb, leb,
  ◌==◌, if◌then◌else◌, length, drop,
}
use merope.Prelude.Bytes.{bytes_eq}
use merope.Prelude.Text.{codes, str_eq}
use merope.Password.Base64.{Bytes, encode}
use merope.Identity.Accounts.{Session, State}

-- `ip + "\x00" + ua`
abbrev pub request_text : String → String → Bytes
request_text ip ua = codes ip ++ (0 ∷ codes ua)

-- `security.GenerateFingerprint`
abbrev pub fingerprint : (Bytes → Bytes) → String → String → Bytes
fingerprint sha256 ip ua = encode (sha256 (request_text ip ua))

unfoldable pub knows : Bytes → List Bytes → Bool
knows d [] = false
knows d (e ∷ es) = if bytes_eq e d then true else knows d es

-- `RegisterDevice`, on the devices of one user, of a fingerprint that is not empty: at most ten.
unfoldable pub register_device : Bytes → List Bytes → List Bytes
unfolding knows
register_device d devices =
    if knows d devices
    then devices
    else if leb 10 (length devices)
    then drop 1 devices ++ (d ∷ [])
    else devices ++ (d ∷ [])

-- The active session of a user that was used last, of those with the same time the first.
unfoldable pub last_session : ℕ → List Session → Option Session → Option Session
last_session user [] best = best
last_session user (s ∷ rest) best = last_session user rest (
    if s.user_id == user && s.is_active
    then (elim best [
      | none ↦ some s
      | some b ↦ if ltb b.last_active_at s.last_active_at then some s else some b
    ])
    else best)

-- A device that is not known, of a user who has some.
abbrev pub device_risk : Bytes → List Bytes → ℕ
device_risk d [] = 0
device_risk d (e ∷ es) = if knows d (e ∷ es) then 0 else 3

abbrev pub travel_risk : ℕ → String → Option Session → ℕ
travel_risk now ip none = 0
travel_risk now ip (some s) =
    if not (str_eq s.ip_address ip) && ltb now (s.last_active_at + 3600) then 5 else 0

-- `AssessRisk`, in tenths
unfoldable pub assess_risk : Bool → ℕ → ℕ → String → String → State → ℕ
unfolding last_session knows
assess_risk reads_sessions now user ip ua s =
    let risk =
      device_risk (request_text ip ua) (s.devices user)
      + (if reads_sessions then travel_risk now ip (last_session user s.sessions none) else 0) in
    if ltb 10 risk then 10 else risk
