-- ===== src/Idempotency/Keys.antt =====
-- The keys of backend/internal/core/middleware/idempotency.go in Redis: which stage writes which, and that a
-- lock never takes the place of a response.
use merope.Prelude.{
  ℕ, ◌≡◌, refl, sym, ap, arith, Bool, false, not, ◌&&◌, ◌||◌, inl, inr, Bool-cases, Option-cases,
  Option, none, some, String, ltb,
}
use merope.Prelude.Int.{ℤ}
use merope.Prelude.Text.{str_eq, str_eq_iff, byte_len, is_empty, trim_space}
use text.Mathlib.TextPositions.{len-append}
use merope.Redis.{Redis, get, set_nx, set_ex_other, del_other, set_nx_other}
use merope.Idempotency.Stages.{
  Request, Outcome, Stored, Faults, decided, proceed, is_safe_method, valid_idempotency_key,
  lock_ms, ttl_ms, is_storable, resource_id, response_key, lock_key, replay, look, lock, store,
  release,
}

-- Texts of different lengths are different.
lengths-differ : (s t : String) → (byte_len s ≡ byte_len t → ⊥) → str_eq s t ≡ false
lengths-differ s t h = elim (Bool-cases (str_eq s t)) [
  | inl same ↦ absurd (h (ap byte_len ((str_eq_iff s t).0 same)))
  | inr other ↦ other
]

module _ (digest : String → String) (is_hex : (s : String) → byte_len (digest s) ≡ 64) where
  pub response-lock : (r q : Request) → str_eq (response_key digest r) (lock_key digest q) ≡ false
  unfolding response_key lock_key
  response-lock r q = lengths-differ (response_key digest r) (lock_key digest q) (λ e. omega (
    arith,
    e,
    len-append "idempotency:v1:" (resource_id digest r),
    len-append "idempotency:v1:" (resource_id digest q),
    len-append (response_key digest q) ":lock",
    is_hex _,
    is_hex _,
  ))

  pub lock-response : (r q : Request) → str_eq (lock_key digest r) (response_key digest q) ≡ false
  lock-response r q = elim (Bool-cases (str_eq (lock_key digest r) (response_key digest q))) [
    | inr differs ↦ differs
    | inl same ↦
        let equal = (str_eq_iff (lock_key digest r) (response_key digest q)).0 same in
        let other = response-lock q r in
        absurd (cc (other, (str_eq_iff (response_key digest q) (lock_key digest r)).1 (sym equal)))
  ]

module _ (digest : String → String) (marshal : Stored → String)
    (unmarshal : String → Option Stored) where
  pub lock_other :
      (f : Faults) (now : ℕ) (token : String) (r : Request) (m : Redis) (k : String)
      → str_eq k (lock_key digest r) ≡ false
      → (lock digest marshal unmarshal f now token r m).1 k ≡ m k
  unfolding lock
  lock_other f now token r m k other =
      let set = set_nx now (lock_key digest r) token lock_ms m in
      let same = set_nx_other now k (lock_key digest r) token lock_ms m other in
      elim (Bool-cases (f.fails 1)) [
        | inl fails ↦ elim (Bool-cases f.kept) [
          | inl kept ↦ rw (fails, kept) same
          | inr lost ↦ rw (fails, lost) refl
        ]
        | inr works ↦ elim (Bool-cases set.0) [
          | inl acquired ↦ rw (works, acquired) same
          | inr held ↦ rw (works, held) refl
        ]
      ]

  pub store_other :
      (f : Faults) (now : ℕ) (ttl : ℤ) (r : Request) (o : Outcome) (m : Redis) (k : String)
      → str_eq k (response_key digest r) ≡ false
      → store digest marshal unmarshal f now ttl r o m k ≡ m k
  unfolding store
  store_other f now ttl r o m k other =
      elim (Bool-cases (is_storable o && (not (f.fails 2) || f.kept))) [
        | inl stores ↦ rw stores (set_ex_other now k (response_key digest r) _ (ttl_ms ttl) m other)
        | inr drops ↦ rw drops refl
      ]

  pub release_other :
      (f : Faults) (now : ℕ) (token : String) (r : Request) (m : Redis) (k : String)
      → str_eq k (lock_key digest r) ≡ false
      → release digest marshal unmarshal f now token r m k ≡ m k
  unfolding release
  release_other f now token r m k other = elim (Option-cases (get now (lock_key digest r) m)) [
    | inl free ↦ rw (release, free) refl
    | inr (v, held) ↦ elim (Bool-cases (str_eq v token && (not (f.fails 3) || f.kept))) [
      | inl ours ↦ rw (release, held, ours) (del_other k (lock_key digest r) m other)
      | inr theirs ↦ rw (release, held, theirs) refl
    ]
  ]

  -- The checks of a request that pass do not depend on its body.
  pub record Protected (connected : Bool) (r : Request) : Type 0 where
    active : (not connected || is_safe_method r.method) ≡ false
    keyed : is_empty (trim_space r.key_header) ≡ false
    valid :
        (ltb 128 (byte_len (trim_space r.key_header))
          || not (valid_idempotency_key (trim_space r.key_header)))
        ≡ false
    named : is_empty r.user_id ≡ false

  -- A request that goes on to the lock is protected, and no response is stored for it.
  pub look-Protected :
      (connected : Bool) (f : Faults) (now : ℕ) (r : Request) (m : Redis)
      → look digest marshal unmarshal connected f now r m ≡ proceed
      → Protected connected r × (get now (response_key digest r) m ≡ none)
  unfolding look
  look-Protected connected f now r m h =
      let bare = not connected || is_safe_method r.method in
      let key = trim_space r.key_header in
      let bad = ltb 128 (byte_len key) || not (valid_idempotency_key key) in
      elim (Bool-cases bare) [
        | inl stops ↦ absurd (cc (rw (look, stops) at h))
        | inr active ↦ elim (Bool-cases (is_empty key)) [
          | inl stops ↦ absurd (cc (rw (look, active, stops) at h))
          | inr keyed ↦ elim (Bool-cases bad) [
            | inl stops ↦ absurd (cc (rw (look, active, keyed, stops) at h))
            | inr valid ↦ elim (Bool-cases (is_empty r.user_id)) [
              | inl stops ↦ absurd (cc (rw (look, active, keyed, valid, stops) at h))
              | inr named ↦ elim (Bool-cases (f.fails 0)) [
                | inl stops ↦ absurd (cc (rw (look, active, keyed, valid, named, stops) at h))
                | inr works ↦ elim (Option-cases (get now (response_key digest r) m)) [
                  | inr (text, found) ↦
                      absurd (cc (rw (look, active, keyed, valid, named, works, found) at h))
                  | inl missing ↦ (
                    record { active = active; keyed = keyed; valid = valid; named = named },
                    missing,
                  )
                ]
              ]
            ]
          ]
        ]
      ]

  -- A protected request for which a response is stored gets it, with any body, when the first command
  -- works.
  pub look-replay :
      (connected : Bool) (f : Faults) (now : ℕ) (r : Request) (b : String) (m : Redis)
      {text : String}
      → Protected connected r
      → f.fails 0 ≡ false
      → get now (response_key digest r) m ≡ some text
      → look digest marshal unmarshal connected f now (record r { body = b }) m
        ≡ decided (replay digest marshal unmarshal (record r { body = b }) text)
  unfolding look
  look-replay connected f now r b m p works found =
      rw (p.active, p.keyed, p.valid, p.named, works, found) refl
