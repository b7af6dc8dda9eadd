-- ===== src/Idempotency/Replay.antt =====
-- A response that backend/internal/core/middleware/idempotency.go has stored is what later requests get.
use merope.Prelude.{
  ℕ, ◌+◌, ◌<◌, ◌≡◌, refl, ◌∙◌, arith, Bool, true, false, ◌⊎◌, inl, inr, Bool-cases, Option-cases,
  Option, none, some, List, [], ◌∷◌, String, if◌then◌else◌, All,
}
use merope.Prelude.Int.{ℤ}
use merope.Prelude.Text.{str_eq, str_eq_iff, byte_len, is_empty}
use merope.Redis.{Redis, set_ex, set_ex_here, get_here}
use merope.Idempotency.Stages.{
  Request, Outcome, Stored, Reply, Faults, Look, through, decided, proceed, replayed, key_reused,
  is_storable, ttl_ms, response, response_key, replay, look, lock, store, finish, serve,
}
use merope.Idempotency.Keys.{
  response-lock, lock_other, store_other, release_other, look-Protected, look-replay,
}

Look-cases : (l : Look) → (l ≡ through) ⊎ ((reply : Reply) × (l ≡ decided reply)) ⊎ (l ≡ proceed)
Look-cases through = inl refl
Look-cases (decided reply) = inr (inl (reply, refl))
Look-cases proceed = inr (inr refl)

nonempty : (s : String) → byte_len s ≡ 64 → is_empty s ≡ false
nonempty String.[] h = absurd (omega (arith, h))
nonempty (String.◌∷◌ c s) h = refl

-- A request with all that happens to it.
pub record Visit : Type 0 where
  pub connected : Bool
  pub faults : Faults
  pub now : ℕ
  pub later : ℕ
  pub token : String
  pub ttl : ℤ
  pub request : Request

module _ (digest : String → String) (marshal : Stored → String) (unmarshal : String → Option Stored)
    {W : Type 0} (next : Request → W → Outcome × W) where
  unfoldable pub visit : Visit → Redis × W → Redis × W
  unfolding serve
  visit v (m, w) =
      let (_, m', w') =
        serve digest marshal unmarshal next v.connected v.faults v.now v.later v.token v.ttl
          v.request m w in
      (m', w')

  -- Requests one after another.
  unfoldable pub visits : List Visit → Redis × W → Redis × W
  unfolding visit
  visits [] s = s
  visits (v ∷ vs) s = visits vs (visit v s)

module _ (digest : String → String) (is_hex : (s : String) → byte_len (digest s) ≡ 64)
    (marshal : Stored → String) (unmarshal : String → Option Stored) {W : Type 0}
    (next : Request → W → Outcome × W) where
  -- While a response has not expired, a request leaves it where it is.
  visit_keeps :
      (v : Visit) (r : Request) (text : String) (expires : ℕ) (m : Redis) (w : W)
      → v.now < expires
      → m (response_key digest r) ≡ some (text, expires)
      → (visit digest marshal unmarshal next v (m, w)).0 (response_key digest r)
        ≡ some (text, expires)
  unfolding visit serve finish
  visit_keeps v r text expires m w alive here =
      let q = v.request in
      let k = response_key digest r in
      let stage = look digest marshal unmarshal v.connected v.faults v.now q m in
      elim (Look-cases stage) [
        | inl bare ↦ rw (serve, bare) here
        | inr (inl (reply, is_decided)) ↦ rw (serve, is_decided) here
        | inr (inr goes) ↦
            let (_, missing) =
              look-Protected digest marshal unmarshal v.connected v.faults v.now q m goes in
            let other : str_eq k (response_key digest q) ≡ false =
              elim (Bool-cases (str_eq k (response_key digest q))) [
                | inr differs ↦ differs
                | inl same ↦
                    let found = get_here v.now k text expires m here alive in
                    absurd (cc (found, missing, (str_eq_iff k (response_key digest q)).0 same))
              ] in
            let apart = response-lock digest is_hex r q in
            let locked = (lock digest marshal unmarshal v.faults v.now v.token q m).1 in
            let o = (next q w).0 in
            let stored = store digest marshal unmarshal v.faults v.later v.ttl q o locked in
            let lock_kept =
              lock_other digest marshal unmarshal v.faults v.now v.token q m k apart in
            elim (Option-cases (lock digest marshal unmarshal v.faults v.now v.token q m).0) [
              | inr (reply, refused) ↦ rw (serve, goes, refused) (lock_kept ∙ here)
              | inl acquired ↦
                  rw (serve, goes, acquired)
                    (release_other digest marshal unmarshal v.faults v.later v.token q stored k
                        apart
                      ∙ store_other digest marshal unmarshal v.faults v.later v.ttl q o locked k
                          other
                      ∙ lock_kept
                      ∙ here)
            ]
      ]

  visits_keep :
      (vs : List Visit) (r : Request) (text : String) (expires : ℕ) (s : Redis × W)
      → All (λ v. v.now < expires) vs
      → s.0 (response_key digest r) ≡ some (text, expires)
      → (visits digest marshal unmarshal next vs s).0 (response_key digest r) ≡ some (text, expires)
  unfolding visits
  visits_keep [] r text expires s h here = here
  visits_keep (v ∷ vs) r text expires (m, w) h here =
      visits_keep vs r text expires (visit digest marshal unmarshal next v (m, w)) h.1
        (visit_keeps v r text expires m w h.0 here)

  -- A response that is stored is there, for as long as it is kept, when the request has ended.
  serve-stores :
      (connected : Bool) (f : Faults) (now later : ℕ) (token : String) (ttl : ℤ) (r : Request)
      (m : Redis) (w : W)
      → look digest marshal unmarshal connected f now r m ≡ proceed
      → (lock digest marshal unmarshal f now token r m).0 ≡ none
      → is_storable (next r w).0 ≡ true
      → f.fails 2 ≡ false
      → let o = (next r w).0 in
        (serve digest marshal unmarshal next connected f now later token ttl r m w).1
          (response_key digest r)
        ≡ some (marshal (response digest r o), later + ttl_ms ttl)
  unfolding serve finish store
  serve-stores connected f now later token ttl r m w goes acquired storable works =
      let locked = (lock digest marshal unmarshal f now token r m).1 in
      let o = (next r w).0 in
      let s = response digest r o in
      let set = set_ex later (response_key digest r) (marshal s) (ttl_ms ttl) locked in
      rw (serve, goes, acquired, storable, works)
        (release_other digest marshal unmarshal f later token r set (response_key digest r)
            (response-lock digest is_hex r r)
          ∙ set_ex_here later (response_key digest r) (marshal s) (ttl_ms ttl) locked)

  -- What a stored response answers to a request with a body.
  replay-marshal :
      (r : Request) (b : String) (o : Outcome)
      → unmarshal (marshal (response digest r o)) ≡ some (response digest r o)
      → replay digest marshal unmarshal (record r { body = b }) (marshal (response digest r o)) ≡ (
          if str_eq (digest r.body) (digest b)
          then replayed o.status o.content_type o.body
          else key_reused)
  unfolding replay
  replay-marshal r b o law = rw (replay, law, nonempty (digest r.body) (is_hex r.body)) refl

  -- When a request that finds no response gets the lock, and its response is stored, a later request of
  -- the same user, method, path and key runs nothing until the response expires, whatever other requests
  -- come between them, if what is stored can be read back: with a body of the same digest it gets the same
  -- status, content type and body, and with another body it is refused.
  pub replayed_until_expiry :
      (first : Visit) (others : List Visit) (f : Faults) (now later : ℕ) (token b : String)
      (ttl : ℤ) (m : Redis) (w : W)
      → look digest marshal unmarshal first.connected first.faults first.now first.request m
        ≡ proceed
      → (lock digest marshal unmarshal first.faults first.now first.token first.request m).0 ≡ none
      → is_storable (next first.request w).0 ≡ true
      → (let s = response digest first.request (next first.request w).0 in
          unmarshal (marshal s) ≡ some s)
      → first.faults.fails 2 ≡ false
      → All (λ v. v.now < first.later + ttl_ms first.ttl) others
      → now < first.later + ttl_ms first.ttl
      → f.fails 0 ≡ false
      → let o = (next first.request w).0 in
        let (m', w') =
          visits digest marshal unmarshal next others
            (visit digest marshal unmarshal next first (m, w)) in
        serve digest marshal unmarshal next first.connected f now later token ttl
          (record first.request { body = b })
          m'
          w'
        ≡ (
          if str_eq (digest first.request.body) (digest b)
              then replayed o.status o.content_type o.body
              else key_reused,
          m',
          w',
        )
  unfolding serve visit
  replayed_until_expiry first others f now later token b ttl m w goes acquired storable law stored
        between alive works =
      let r = first.request in
      let o = (next r w).0 in
      let s = response digest r o in
      let expires = first.later + ttl_ms first.ttl in
      let (m', w') =
        visits digest marshal unmarshal next others
          (visit digest marshal unmarshal next first (m, w)) in
      let here : (visit digest marshal unmarshal next first (m, w)).0 (response_key digest r)
          ≡ some (marshal s, expires) =
        serve-stores first.connected first.faults first.now first.later first.token first.ttl r m w
          goes acquired storable stored in
      let there : m' (response_key digest r) ≡ some (marshal s, expires) =
        visits_keep others r (marshal s) expires (visit digest marshal unmarshal next first (m, w))
          between here in
      let (p, _) =
        look-Protected digest marshal unmarshal first.connected first.faults first.now r m goes in
      let looks =
        look-replay digest marshal unmarshal first.connected f now r b m' p works
          (get_here now (response_key digest r) (marshal s) expires m' there alive) in
      rw (serve, looks, replay-marshal r b o law) refl
