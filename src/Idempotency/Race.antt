-- ===== src/Idempotency/Race.antt =====
-- Two requests with one key at a time, in backend/internal/core/middleware/idempotency.go: the stored response
-- is looked for before the lock is taken, and not again after.
use merope.Prelude.{ℕ, ◌+◌, ◌<◌, ◌≤◌, ◌≡◌, refl, ◌∙◌, true, false, Option, none, some, String}
use merope.Prelude.Int.{ℤ}
use merope.Prelude.Text.{str_eq_refl, byte_len}
use merope.Redis.{Redis, get, set_ex, set_nx, set_ex_here, get_here, get-del_same, get-later}
use merope.Idempotency.Stages.{
  Request, Outcome, Stored, Faults, proceed, response, is_storable, ttl_ms, lock_ms, response_key,
  lock_key, look, lock, store, release, finish,
}
use merope.Idempotency.Keys.{response-lock, lock-response, release_other, store_other}

-- No command fails.
abbrev pub well : Faults
well = record { fails = λ _. false; kept = false }

module _ (digest : String → String) (is_hex : (s : String) → byte_len (digest s) ≡ 64)
    (marshal : Stored → String) (unmarshal : String → Option Stored) {W : Type 0}
    (next : Request → W → Outcome × W) where
  -- A response that may be stored is.
  store_here :
      (now : ℕ) (ttl : ℤ) (r : Request) (o : Outcome) (m : Redis)
      → is_storable o ≡ true
      → store digest marshal unmarshal well now ttl r o m (response_key digest r)
        ≡ some (marshal (response digest r o), now + ttl_ms ttl)
  unfolding store
  store_here now ttl r o m storable =
      rw storable (set_ex_here now (response_key digest r) _ (ttl_ms ttl) m)

  -- A lock that is free is taken.
  lock_free :
      (now : ℕ) (token : String) (r : Request) (m : Redis)
      → get now (lock_key digest r) m ≡ none
      → lock digest marshal unmarshal well now token r m
        ≡ (none, set_ex now (lock_key digest r) token lock_ms m)
  unfolding lock set_nx
  lock_free now token r m free = rw (set_nx, free) refl

  -- The end of a request frees its lock.
  finish-frees :
      (now later : ℕ) (token : String) (ttl : ℤ) (r : Request) (m : Redis) (w : W)
      → later < now + lock_ms
      → m (lock_key digest r) ≡ some (token, now + lock_ms)
      → get later
          (lock_key digest r)
          (finish digest marshal unmarshal next well later token ttl r m w).1
        ≡ none
  unfolding finish release
  finish-frees now later token ttl r m w soon held =
      let (o, w') = next r w in
      let stored = store digest marshal unmarshal well later ttl r o m in
      let found : get later (lock_key digest r) stored ≡ some token =
        get_here later (lock_key digest r) token (now + lock_ms) stored
          (store_other digest marshal unmarshal well later ttl r o m (lock_key digest r)
              (lock-response digest is_hex r r)
            ∙ held)
          soon in
      rw (release, found, str_eq_refl token) (get-del_same later (lock_key digest r) stored)

  -- When two copies of a request have both looked for a response before the first of them stores its own,
  -- the second gets the lock after the first has ended, and the next handler runs again, on what its
  -- first run has left, although the response of the first run is stored by then.
  pub handler_runs_twice :
      (start end restart finish_ : ℕ) (token token' : String) (ttl : ℤ) (r : Request) (m : Redis)
      (w : W)
      → look digest marshal unmarshal true well start r m ≡ proceed
      → get start (lock_key digest r) m ≡ none
      → is_storable (next r w).0 ≡ true
      → end < start + lock_ms
      → end ≤ restart
      → restart < end + ttl_ms ttl
      → let (refused, m1) = lock digest marshal unmarshal well start token r m in
        let (_, m2, w1) = finish digest marshal unmarshal next well end token ttl r m1 w in
        let (refused', m3) = lock digest marshal unmarshal well restart token' r m2 in
        let (_, _, w2) = finish digest marshal unmarshal next well finish_ token' ttl r m3 w1 in
        (refused ≡ none)
        × ((text : String) × (get restart (response_key digest r) m2 ≡ some text))
        × (refused' ≡ none)
        × (w2 ≡ (next r (next r w).1).1)
  unfolding finish
  handler_runs_twice start end restart finish_ token token' ttl r m w looks free storable soon
        ordered kept =
      let taken = set_ex start (lock_key digest r) token lock_ms m in
      let locked = lock_free start token r m free in
      let o = (next r w).0 in
      let stored = store digest marshal unmarshal well end ttl r o taken in
      let m2 = (finish digest marshal unmarshal next well end token ttl r taken w).1 in
      let freed : get restart (lock_key digest r) m2 ≡ none =
        get-later end restart (lock_key digest r) m2 ordered (
          finish-frees start end token ttl r taken w soon
            (set_ex_here start (lock_key digest r) token lock_ms m)) in
      let there : get restart (response_key digest r) m2 ≡ some (marshal (response digest r o)) =
        get_here restart (response_key digest r) (marshal (response digest r o)) (end + ttl_ms ttl)
          m2
          (release_other digest marshal unmarshal well end token r stored (response_key digest r)
              (response-lock digest is_hex r r)
            ∙ store_here end ttl r o taken storable)
          kept in
      rw locked (
        refl,
        (marshal (response digest r o), there),
        rw (lock_free restart token' r m2 freed) refl,
        refl,
      )
