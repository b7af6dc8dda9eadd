-- ===== src/Access/Counters.antt =====
-- `RateLimitCheck` of backend/internal/core/security/auth.go: counters in Redis, each with the instant at
-- which it expires; the prefix that all their keys have is left out. Times are in seconds.
use merope.Prelude.{ℕ, suc, ◌+◌, Bool, true, false, Option, none, some, ltb, leb, if◌then◌else◌}
use merope.Prelude.Bytes.{bytes_eq}
use merope.Password.Base64.{Bytes}

abbrev pub Counters : Type 0
Counters = Bytes → Option (ℕ × ℕ)

-- What INCR and, for a count of 1, EXPIRE leave of a counter.
abbrev pub bump : ℕ → ℕ → Option (ℕ × ℕ) → ℕ × ℕ
bump now window none = (1, now + window)
bump now window (some (n, expires)) =
    if ltb now expires then (suc n, expires) else (1, now + window)

-- The script: the count, and the counters.
unfoldable pub incr : ℕ → ℕ → Bytes → Counters → ℕ × Counters
incr now window key c = (
  (bump now window (c key)).0,
  λ k. if bytes_eq k key then some (bump now window (c key)) else c k,
)

-- `RateLimitCheck` with a client, for a key, a limit and a window that are not empty or 0; `none` is an
-- error of the server, after which the script has run or not.
unfoldable pub rate_limit_check :
    (reaches kept : Bool) → ℕ → ℕ → ℕ → Bytes → Counters → Option Bool × Counters
unfolding incr
rate_limit_check true kept now limit window key c =
    (some (leb (incr now window key c).0 limit), (incr now window key c).1)
rate_limit_check false true now limit window key c = (none, (incr now window key c).1)
rate_limit_check false false now limit window key c = (none, c)
