-- ===== src/Idempotency/Stages.antt =====
-- The handler of backend/internal/core/middleware/idempotency.go in three stages, between which other requests
-- can run: it looks for a stored response, takes the lock, and runs the next handler, whose response it
-- stores. Instants are in milliseconds, `ttl` is in nanoseconds. SHA-256 in hexadecimal and encoding/json
-- are parameters.
use merope.Prelude.{
  ℕ, ◌/◌, Bool, true, not, ◌&&◌, ◌||◌, Option, none, some, List, [], ◌∷◌, String, if◌then◌else◌,
  leb, ltb, ◌==◌,
}
use merope.Prelude.Int.{ℤ, pos, pos_part, leb_ℤ}
use merope.Prelude.Text.{str_eq, is_empty, str_append, byte_len, codes, trim_space}
use merope.Redis.{Redis, get, del, set_ex, set_nx}

pub record Request : Type 0 where
  pub method : String
  pub path : String
  pub key_header : String
  pub user_id : String
  pub body : String

-- What the next handler has answered; `failed` says that it returned an error.
pub record Outcome : Type 0 where
  pub failed : Bool
  pub status : ℕ
  pub content_type : String
  pub body : String

-- storedIdempotentResponse
pub record Stored : Type 0 where
  pub request_hash : String
  pub status : ℕ
  pub content_type : String
  pub body : String

pub data Reply : Type 0 where
  key_invalid unauthorized state_invalid key_reused unavailable in_progress : Reply
  replayed : ℕ → String → String → Reply
  answered : Outcome → Reply

-- `isSafeMethod`
unfoldable pub is_safe_method : String → Bool
is_safe_method method = str_eq method "GET" || str_eq method "HEAD" || str_eq method "OPTIONS"

abbrev pub is_key_char : ℕ → Bool
is_key_char c =
    leb 97 c && leb c 122
    || leb 65 c && leb c 90
    || leb 48 c && leb c 57
    || c == 45
    || c == 95
    || c == 46
    || c == 58

abbrev pub all_key_chars : List ℕ → Bool
all_key_chars [] = true
all_key_chars (c ∷ cs) = is_key_char c && all_key_chars cs

-- `validIdempotencyKey`
unfoldable pub valid_idempotency_key : String → Bool
valid_idempotency_key value = all_key_chars (codes value)

-- The `ttl` of the handler, and the milliseconds that go-redis sends for it.
unfoldable pub ttl_ms : ℤ → ℕ
ttl_ms ttl =
    if leb_ℤ ttl (pos 0)
    then 86400000
    else if ltb (pos_part ttl) 1000000
    then 1
    else pos_part ttl / 1000000

abbrev pub lock_ms : ℕ
lock_ms = 120000

unfoldable pub is_storable : Outcome → Bool
is_storable o = not o.failed && ltb o.status 500 && leb (byte_len o.body) 524288

-- Whether the command of a number (GET, SETNX, SET, the release) answers an error, and whether what it was
-- to write is kept all the same.
pub record Faults : Type 0 where
  pub fails : ℕ → Bool
  pub kept : Bool

pub data Look : Type 0 where
  -- The request goes on to the next handler without protection.
  through : Look
  decided : Reply → Look
  -- No response is stored.
  proceed : Look

module _ (digest : String → String) where
  unfoldable pub resource_id : Request → String
  resource_id r = digest (
      str_append r.user_id (
        str_append "\0" (
          str_append r.method
            (str_append "\0" (str_append r.path (str_append "\0" (trim_space r.key_header)))))))

  unfoldable pub response_key : Request → String
  unfolding resource_id
  response_key r = str_append "idempotency:v1:" (resource_id r)

  unfoldable pub lock_key : Request → String
  unfolding response_key
  lock_key r = str_append (response_key r) ":lock"

  -- What is stored of an answer.
  abbrev pub response : Request → Outcome → Stored
  response r o = record {
    request_hash = digest r.body;
    status = o.status;
    content_type = o.content_type;
    body = o.body;
  }

  module _ (marshal : Stored → String) (unmarshal : String → Option Stored) where
    -- What is answered from a stored response.
    unfoldable pub replay : Request → String → Reply
    replay r text = elim (unmarshal text) [
      | none ↦ state_invalid
      | some s ↦
          if is_empty s.request_hash
          then state_invalid
          else if str_eq s.request_hash (digest r.body)
          then replayed s.status s.content_type s.body
          else key_reused
    ]

    -- The first stage; `connected` says that there is a Redis client.
    unfoldable pub look : Bool → Faults → ℕ → Request → Redis → Look
    unfolding is_safe_method valid_idempotency_key get response_key replay
    look connected f now r m =
        let key = trim_space r.key_header in
        if not connected || is_safe_method r.method
        then through
        else if is_empty key
        then through
        else if ltb 128 (byte_len key) || not (valid_idempotency_key key)
        then decided key_invalid
        else if is_empty r.user_id
        then decided unauthorized
        else if f.fails 0
        then decided unavailable
        else elim (get now (response_key r) m) [
          | none ↦ proceed
          | some text ↦ decided (replay r text)
        ]

    -- The second stage: the reply of a request that does not get the lock.
    unfoldable pub lock : Faults → ℕ → String → Request → Redis → Option Reply × Redis
    unfolding set_nx lock_key
    lock f now token r m =
        let (acquired, m') = set_nx now (lock_key r) token lock_ms m in
        if f.fails 1
        then (some unavailable, if f.kept then m' else m)
        else if acquired
        then (none, m')
        else (some in_progress, m)

    unfoldable pub store : Faults → ℕ → ℤ → Request → Outcome → Redis → Redis
    unfolding set_ex response_key ttl_ms is_storable
    store f now ttl r o m =
        let m' = set_ex now (response_key r) (marshal (response r o)) (ttl_ms ttl) m in
        if is_storable o && (not (f.fails 2) || f.kept) then m' else m

    -- releaseIdempotencyLock
    unfoldable pub release : Faults → ℕ → String → Request → Redis → Redis
    unfolding get del lock_key
    release f now token r m = elim (get now (lock_key r) m) [
      | none ↦ m
      | some v ↦ if str_eq v token && (not (f.fails 3) || f.kept) then del (lock_key r) m else m
    ]

    module _ {W : Type 0} (next : Request → W → Outcome × W) where
      -- The third stage, which ends at `later`.
      unfoldable pub finish : Faults → ℕ → String → ℤ → Request → Redis → W → Reply × Redis × W
      unfolding store release
      finish f later token ttl r m w =
          let (o, w') = next r w in
          (answered o, release f later token r (store f later ttl r o m), w')

      -- A request that no other runs between.
      unfoldable pub serve :
          Bool → Faults → ℕ → ℕ → String → ℤ → Request → Redis → W → Reply × Redis × W
      unfolding look lock finish
      serve connected f now later token ttl r m w = elim (look connected f now r m) [
        | through ↦ let (o, w') = next r w in (answered o, m, w')
        | decided reply ↦ (reply, m, w)
        | proceed ↦
            let (refused, m') = lock f now token r m in
            elim refused [ some reply ↦ (reply, m', w) | none ↦ finish f later token ttl r m' w ]
      ]
