-- ===== src/Access/Guesses.antt =====
-- How many codes of a user are tried, at the handlers of
-- backend/internal/modules/identity/transport/preauth_mfa_handler.go.
use merope.Prelude.{
  Option-cases, ℕ, suc, ◌+◌, ◌≤◌, ◌<◌, ◌≡◌, ◌⊎◌, inl, inr, refl, sym, subst, arith, Bool, true,
  false, Option, none, some, String, leb, leb→le, Bool-cases,
}
use merope.Prelude.Bytes.{bytes_eq, bytes_eq_lem}
use merope.Prelude.Outcome.{Result-cases}
use merope.Password.Base64.{Bytes}
use merope.Identity.Accounts.{Faults}
use merope.Identity.Service.{Env, verify_mfa}
use merope.Access.Counters.{Counters, bump, incr, rate_limit_check}
use merope.Access.Handler.{
  open_session, del_challenge, Store, Net, Tokens, Response, limit_unavailable, rate_limited,
  challenge_unavailable, bad_request, no_challenge, sign_in, check_challenge, mfa_key, code_allowed,
  limit_code,
}

-- What is known of a counter at a time within 600 seconds from `start`, when `tried` codes were tried
-- since then.
abbrev pub Bounded : ℕ → ℕ → Option (ℕ × ℕ) → Type 0
Bounded start tried none = tried ≡ 0
Bounded start tried (some (n, expires)) =
    ((tried ≤ n) × (tried ≤ 5)) ⊎ ((start + 600 ≤ expires) × (tried ≤ 5 + n) × (tried ≤ 10))

module _ (start now window : ℕ) (after : start ≤ now) (before : now < start + 600)
    (long : 600 ≤ window) where
  bump-Bounded :
      (tried : ℕ) (o : Option (ℕ × ℕ))
      → Bounded start tried o
      → Bounded start tried (some (bump now window o))
  bump-Bounded tried none h = ground arith
  bump-Bounded tried (some (n, expires)) h = ground arith

  tried-Bounded :
      (tried : ℕ) (o : Option (ℕ × ℕ))
      → Bounded start tried o
      → (bump now window o).0 ≤ 5
      → Bounded start (suc tried) (some (bump now window o))
  tried-Bounded tried none h k = ground arith
  tried-Bounded tried (some (n, expires)) h k = ground arith

  incr-Bounded :
      (tried : ℕ) (j key : Bytes) (c : Counters)
      → Bounded start tried (c j)
      → Bounded start tried ((incr now window key c).1 j)
  unfolding incr
  incr-Bounded tried j key c h = elim (Bool-cases (bytes_eq j key)) [
    | inr other ↦ rw other h
    | inl same ↦
        let e = (bytes_eq_lem j key).0 same in
        rw same (bump-Bounded tried (c key) (subst (λ (k : Bytes). Bounded start tried (c k)) e h))
  ]

  pub check-Bounded :
      (reaches kept : Bool) (limit tried : ℕ) (j key : Bytes) (c : Counters)
      → Bounded start tried (c j)
      → Bounded start tried ((rate_limit_check reaches kept now limit window key c).1 j)
  unfolding rate_limit_check
  check-Bounded true kept limit tried j key c h = incr-Bounded tried j key c h
  check-Bounded false true limit tried j key c h = incr-Bounded tried j key c h
  check-Bounded false false limit tried j key c h = h

-- The code was tried, as far as the answer of `Verify` tells.
abbrev pub tries : Response → Bool
tries bad_request = false
tries challenge_unavailable = false
tries no_challenge = false
tries limit_unavailable = false
tries rate_limited = false
tries _ = true

-- A session changes neither the counters nor the challenges.
pub open_session-kept :
    (n : Net) (f : Faults) (t : Tokens) (now user : ℕ) (s : Store)
    → ((open_session n f t now user s).1.counters ≡ s.counters)
      × ((open_session n f t now user s).1.challenges ≡ s.challenges)
unfolding open_session
open_session-kept n f t now user s = elim (Option-cases t.access) [
  | inl missing ↦ rw (missing, open_session) (refl, refl)
  | inr (_, signed) ↦ elim (Option-cases t.refresh) [
    | inl missing ↦ rw (signed, missing, open_session) (refl, refl)
    | inr (_, made) ↦ elim (Bool-cases n.refresh_stored) [
      | inl works ↦ rw (signed, made, works, open_session) (refl, refl)
      | inr fails ↦ rw (signed, made, fails, open_session) (refl, refl)
    ]
  ]
]

sign_in-counters :
    (n : Net) (f : Faults) (t : Tokens) (now : ℕ) (key : Bytes) (user : ℕ) (s : Store)
    → (sign_in n f t now key user s).1.counters ≡ s.counters
unfolding sign_in
sign_in-counters n f t now key user s = elim (Bool-cases n.dels) [
  | inl works ↦ rw (works, sign_in) (open_session-kept n f t now user (del_challenge key s)).0
  | inr fails ↦ rw (fails, sign_in) refl
]

check_challenge-counters :
    (env : Env) (n : Net) (f : Faults) (t : Tokens) (now : ℕ) (key : Bytes) (user : ℕ)
    (code : String) (s : Store)
    → (check_challenge env n f t now key user code s).1.counters ≡ s.counters
unfolding check_challenge
check_challenge-counters env n f t now key user code s =
    elim (Result-cases ((verify_mfa env f now user code s.identity).0)) [
      | inl (e, failed) ↦ rw (failed, check_challenge) refl
      | inr (true, answered) ↦
          rw (answered, check_challenge)
            (sign_in-counters n f t now key user
              (record s { identity = (verify_mfa env f now user code s.identity).1 }))
      | inr (false, answered) ↦ rw (answered, check_challenge) refl
    ]

module _ (env : Env) (n : Net) (f : Faults) (t : Tokens) (now : ℕ) (key : Bytes) (user : ℕ)
    (code : String) where
  code_allowed-counters :
      (o : Option Bool) (s : Store)
      → (code_allowed env n f t now key user code o s).1.counters ≡ s.counters
  unfolding code_allowed
  code_allowed-counters none s = refl
  code_allowed-counters (some false) s = refl
  code_allowed-counters (some true) s = check_challenge-counters env n f t now key user code s

  tries-code_allowed :
      (o : Option Bool) (s : Store)
      → tries (code_allowed env n f t now key user code o s).0 ≡ true
      → o ≡ some true
  unfolding code_allowed
  tries-code_allowed none s h = absurd (cc)
  tries-code_allowed (some false) s h = absurd (cc)
  tries-code_allowed (some true) s h = refl

-- `Verify` keeps what is known of the counter of a user, at a time within 600 seconds.
module _ (env : Env) (user_text : ℕ → String) (start now : ℕ) (after : start ≤ now)
    (before : now < start + 600) where
  allowed-Bounded :
      (reaches kept : Bool) (tried : ℕ) (key : Bytes) (c : Counters)
      → Bounded start tried (c key)
      → (rate_limit_check reaches kept now 5 600 key c).0 ≡ some true
      → Bounded start (suc tried) ((rate_limit_check reaches kept now 5 600 key c).1 key)
  unfolding rate_limit_check incr
  allowed-Bounded true kept tried key c h k =
      let same = (bytes_eq_lem key key).1 refl in
      let few : leb (bump now 600 (c key)).0 5 ≡ true = cc in
      rw same (
        tried-Bounded start now 600 after before (omega arith) tried (c key) h
          (leb→le (bump now 600 (c key)).0 5 few))
  allowed-Bounded false true tried key c h k = absurd (cc)
  allowed-Bounded false false tried key c h k = absurd (cc)

  pub limit_code-other :
      (n : Net) (f : Faults) (t : Tokens) (key j : Bytes) (user : ℕ) (code : String) (s : Store)
      (tried : ℕ)
      → Bounded start tried (s.counters j)
      → Bounded start tried ((limit_code env user_text n f t now key user code s).1.counters j)
  unfolding limit_code
  limit_code-other n f t key j user code s tried h =
      let mine = mfa_key env user_text user in
      let limit = rate_limit_check n.limits n.counted now 5 600 mine s.counters in
      subst (λ (c : Counters). Bounded start tried (c j))
        (sym (
          code_allowed-counters env n f t now key user code (limit.0)
            (record s { counters = limit.1 })))
        (check-Bounded start now 600 after before (omega arith) n.limits n.counted 5 tried j mine
          s.counters h)

  pub limit_code-Bounded :
      (n : Net) (f : Faults) (t : Tokens) (key : Bytes) (user : ℕ) (code : String) (s : Store)
      (tried : ℕ)
      → Bounded start tried (s.counters (mfa_key env user_text user))
      → tries (limit_code env user_text n f t now key user code s).0 ≡ true
      → Bounded start (suc tried) (
          (limit_code env user_text n f t now key user code s).1.counters
            (mfa_key env user_text user))
  unfolding limit_code
  limit_code-Bounded n f t key user code s tried h tries_ =
      let mine = mfa_key env user_text user in
      let limit = rate_limit_check n.limits n.counted now 5 600 mine s.counters in
      let s' : Store = record s { counters = limit.1 } in
      subst (λ (c : Counters). Bounded start (suc tried) (c mine))
        (sym (code_allowed-counters env n f t now key user code (limit.0) s'))
        (allowed-Bounded n.limits n.counted tried mine s.counters h
          (tries-code_allowed env n f t now key user code (limit.0) s' tries_))
