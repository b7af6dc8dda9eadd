-- ===== src/Window/Limiter.antt =====
-- backend/internal/core/middleware/rate_limit_redis.go: the script on a sorted set, and the handler around it.
-- Instants and the window are in milliseconds. The set is a list, since the script never asks for an
-- order; the key expires at an instant.
use merope.Prelude.{
  ℕ, suc, ◌+◌, ◌-◌, ◌*◌, ◌/◌, Bool, true, false, ◌&&◌, List, [], ◌∷◌, String, length, ltb, ◌==◌,
  if◌then◌else◌,
}
use merope.Prelude.Text.{str_eq, is_empty, str_append}
use merope.Window.Admission.{covers}

-- A member of the set: its score, and the short id that its name ends in.
pub record Member : Type 0 where
  pub score : ℕ
  pub id : String

pub record SortedSet : Type 0 where
  pub members : List Member
  pub expires : ℕ

abbrev pub no_key : SortedSet
no_key = record { members = []; expires = 0 }

-- ZREMRANGEBYSCORE key 0 (now - window)
unfoldable pub keep_covered : ℕ → ℕ → List Member → List Member
keep_covered window now [] = []
keep_covered window now (m ∷ ms) =
    let rest = keep_covered window now ms in if covers window now m.score then m ∷ rest else rest

unfoldable pub has_member : ℕ → String → List Member → Bool
has_member now id [] = false
has_member now id (m ∷ ms) =
    let below = has_member now id ms in if (m.score == now) && str_eq m.id id then true else below

-- ZADD of the member `now:id`, which does nothing when it is there: its score is `now` then.
unfoldable pub z_add : ℕ → String → List Member → List Member
unfolding has_member
z_add now id ms = if has_member now id ms then ms else record { score = now; id = id } ∷ ms

-- What the script answers: whether the request is blocked, and the count.
pub record Answer : Type 0 where
  pub blocked : Bool
  pub count : ℕ

-- The members of a key that has not expired.
unfoldable pub live_members : ℕ → SortedSet → List Member
live_members now set = if ltb now set.expires then set.members else []

unfoldable pub sliding_window : ℕ → ℕ → String → ℕ → SortedSet → Answer × SortedSet
unfolding keep_covered z_add live_members
sliding_window window limit id now set =
    let kept = keep_covered window now (live_members now set) in
    if ltb (length kept) limit
    then (
      record { blocked = false; count = suc (length kept) },
      record { members = z_add now id kept; expires = now + ((window + 999) / 1000 + 1) * 1000 },
    )
    else (record { blocked = true; count = length kept }, record set { members = kept })

-- What the handler does with a request: pass it on, or answer it.
pub data Response : Type 0 where
  unavailable failure limited passed : Response

unfoldable pub limit_for : ℕ → String → ℕ
limit_for max_requests role =
    if str_eq role "verified"
    then max_requests * 5
    else if str_eq role "admin"
    then max_requests * 2
    else max_requests

unfoldable pub key_for : String → String → String → String
key_for prefix ip user_id =
    if is_empty user_id
    then str_append (str_append (str_append "rl:ip:" prefix) ":") ip
    else str_append (str_append (str_append "rl:user:" prefix) ":") user_id

abbrev pub Redis : Type 0
Redis = String → SortedSet

-- Redis is not configured, the script's answer does not arrive or has another form, when it `ran` all the
-- same or not, or it arrives.
pub data Connection : Type 0 where
  absent working : Connection
  failing : (ran : Bool) → Connection

-- The headers X-RateLimit-Limit and X-RateLimit-Remaining.
pub record Headers : Type 0 where
  pub allowance : ℕ
  pub remaining : ℕ

abbrev pub no_headers : Headers
no_headers = record { allowance = 0; remaining = 0 }

pub record Request : Type 0 where
  pub now : ℕ
  pub id : String
  pub ip : String
  pub user_id : String
  pub role : String

unfoldable pub rate_limit :
    Connection → ℕ → ℕ → String → Request → Redis → Response × Headers × Redis
unfolding sliding_window limit_for key_for
rate_limit absent max_requests window prefix r redis = (unavailable, no_headers, redis)
rate_limit (failing ran) max_requests window prefix r redis =
    let key = key_for prefix r.ip r.user_id in
    let set = (sliding_window window (limit_for max_requests r.role) r.id r.now (redis key)).1 in
    (failure, no_headers, λ k. if ran && str_eq k key then set else redis k)
rate_limit working max_requests window prefix r redis =
    let limit = limit_for max_requests r.role in
    let key = key_for prefix r.ip r.user_id in
    let (answer, set) = sliding_window window limit r.id r.now (redis key) in
    (
      if answer.blocked then limited else passed,
      record { allowance = limit; remaining = limit - answer.count },
      λ k. if str_eq k key then set else redis k,
    )
