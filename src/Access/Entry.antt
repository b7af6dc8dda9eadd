-- ===== src/Access/Entry.antt =====
-- From `Login` to `Verify` of backend/internal/modules/identity/transport/preauth_mfa_handler.go.
use merope.Prelude.{
  ℕ, ◌+◌, ◌≤◌, ◌<◌, ◌≡◌, inl, inr, refl, sym, ap, ◌∙◌, subst, true, false, Option, none, some,
  String, Bool-cases, lt→ltb, le→leb,
}
use merope.Prelude.Bytes.{bytes_eq, bytes_eq_lem}
use merope.Prelude.Text.{is_empty, trim_space}
use merope.Prelude.Outcome.{ok}
use merope.Password.Base64.{Bytes}
use merope.Identity.Accounts.{State, Faults}
use merope.Identity.Sentinel.{fingerprint}
use merope.Identity.Service.{Env, verify_mfa}
use merope.Access.Counters.{bump, incr, rate_limit_check}
use merope.Access.Handler.{
  Challenge, Store, Net, Tokens, Response, mfa_required, signed_in, hash_id, set_challenge, sign_in,
  open_session, check_challenge, code_allowed, mfa_key, limit_code, verify_handler, login_handler,
}
use merope.Access.Calls.{
  asks_code, challenge_for, challenge_of, limited, login_counters, login_handler-cases,
}

-- Nothing around the service fails.
abbrev pub all_up : Net
all_up = record {
  limits = true;
  counted = true;
  gets = true;
  sets = true;
  dels = true;
  refresh_stored = true;
  exports = true;
}

abbrev pub drawn : String → String → Tokens
drawn access refresh = record {
  access = some access;
  refresh = some refresh;
  challenge_id = none;
  salt = none;
}

-- `Verify` signs in by a live challenge of this device, for a code that the limit allows and that is right.
right_code_signs_in :
    (env : Env) (user_text : ℕ → String) (f : Faults) (access refresh : String) (now : ℕ)
    (id code ip ua : String) (c : Challenge) (s : Store)
    → is_empty (trim_space id) ≡ false
    → is_empty (trim_space code) ≡ false
    → challenge_of env now id s ≡ some c
    → bytes_eq c.fingerprint (fingerprint env.sha256 ip ua) ≡ true
    → (bump now 600 (s.counters (mfa_key env user_text c.user_id))).0 ≤ 5
    → (verify_mfa env f now c.user_id (trim_space code) s.identity).0 ≡ ok true
    → (verify_handler env user_text all_up f (drawn access refresh) now id code ip ua s).0
      ≡ signed_in c.user_id access refresh
unfolding verify_handler limit_code code_allowed rate_limit_check incr check_challenge sign_in
    open_session
right_code_signs_in env user_text f access refresh now id code ip ua c s given typed found same few
      right =
    rw
      (
        given,
        typed,
        found,
        same,
        le→leb ((bump now 600 (s.counters (mfa_key env user_text c.user_id))).0) 5 few,
        right,
        verify_handler,
        code_allowed,
        check_challenge,
      )
      refl

-- The counter of the user's codes is not the one of an address.
mfa_key_fresh :
    (env : Env) (user_text : ℕ → String) (n : Net) (now user : ℕ) (email : String) (s : Store)
    → login_counters env n now email s (mfa_key env user_text user)
      ≡ s.counters (mfa_key env user_text user)
unfolding rate_limit_check incr
mfa_key_fresh env user_text n now user email s = elim (Bool-cases n.limits) [
  | inl reaches ↦ rw reaches refl
  | inr fails ↦ elim (Bool-cases n.counted) [
    | inl kept ↦ rw (fails, kept) refl
    | inr lost ↦ rw (fails, lost) refl
  ]
]

mfa_user : Response → ℕ
mfa_user (mfa_required user _) = user
mfa_user _ = 0

mfa_id : Response → String
mfa_id (mfa_required _ id) = id
mfa_id _ = ""

-- A login that asks for a code keeps the challenge of the identifier that it answers for 300 seconds.
login_handler-challenge :
    (env : Env) (n : Net) (f : Faults) (t : Tokens) (now : ℕ) (email : String) (password : Bytes)
    (device ip ua : String) (s : Store) (user : ℕ) (id : String)
    → (login_handler env n f t now email password device ip ua s).0 ≡ mfa_required user id
    → (i : State) × ((login_handler env n f t now email password device ip ua s).1
        ≡ set_challenge
            (hash_id env.sha256 id)
            (challenge_for env user ip ua)
            (now + 300)
            (limited env n now email s i))
unfolding mfa_user mfa_id
login_handler-challenge env n f t now email password device ip ua s user id asked =
    let (i, outcome) = login_handler-cases env n f t now email password device ip ua s in
    (
      i,
      elim outcome [
        | inl (_, unasked) ↦
            let asks : asks_code (login_handler env n f t now email password device ip ua s).0
                ≡ true =
              ap asks_code asked in
            absurd (cc)
        | inr (user', id', _, stored) ↦
            let same = sym (ap (λ (r : Response × Store). r.0) stored) ∙ asked in
            let same_user : user' ≡ user = ap mfa_user same in
            let same_id : id' ≡ id = ap mfa_id same in
            ap (λ (r : Response × Store). r.1) stored
            ∙ ap
                (λ (u : ℕ).
                  set_challenge (hash_id env.sha256 id') (challenge_for env u ip ua) (now + 300)
                    (limited env n now email s i))
                same_user
            ∙ ap
                (λ (d : String).
                  set_challenge (hash_id env.sha256 d) (challenge_for env user ip ua) (now + 300)
                    (limited env n now email s i))
                same_id
      ],
    )

-- When `Login` has asked a user for a code, `Verify` with the identifier that it answered signs that user in
-- and answers the tokens that were drawn, within 300 seconds and from the same address and agent, if nothing
-- fails around the service, the count of the user's codes is then at most five and `VerifyMFA` finds the code
-- right. The identifier and the code are not blank, and the identifier has no space around it.
pub login_then_verify :
    (env : Env) (user_text : ℕ → String) (n : Net) (f f' : Faults) (t : Tokens)
    (access refresh : String) (now now' : ℕ) (email : String) (password : Bytes)
    (device ip ua code : String) (s : Store) (user : ℕ) (id : String)
    → (login_handler env n f t now email password device ip ua s).0 ≡ mfa_required user id
    → now' < now + 300
    → trim_space id ≡ id
    → is_empty id ≡ false
    → is_empty (trim_space code) ≡ false
    → (bump now' 600 (s.counters (mfa_key env user_text user))).0 ≤ 5
    → (verify_mfa env f' now' user
        (trim_space code)
        (login_handler env n f t now email password device ip ua s).1.identity).0
      ≡ ok true
    → (verify_handler env user_text all_up f'
        (drawn access refresh)
        now'
        id
        code
        ip
        ua
        (login_handler env n f t now email password device ip ua s).1).0
      ≡ signed_in user access refresh
login_then_verify env user_text n f f' t access refresh now now' email password device ip ua code s
      user id asked early trimmed named typed few right =
    let s' = (login_handler env n f t now email password device ip ua s).1 in
    let key = hash_id env.sha256 id in
    let c = challenge_for env user ip ua in
    let (i, kept) =
      login_handler-challenge env n f t now email password device ip ua s user id asked in
    let own : bytes_eq key key ≡ true = (bytes_eq_lem key key).1 refl in
    let found : challenge_of env now' id s' ≡ some c =
      rw (trimmed, kept, own, lt→ltb now' (now + 300) early) refl in
    let count : s'.counters (mfa_key env user_text user) ≡ s.counters (mfa_key env user_text user) =
      ap (λ (r : Store). r.counters (mfa_key env user_text user)) kept
      ∙ mfa_key_fresh env user_text n now user email s in
    right_code_signs_in env user_text f' access refresh now' id code ip ua c s'
      (ap is_empty trimmed ∙ named) typed found ((bytes_eq_lem c.fingerprint c.fingerprint).1 refl)
      (subst (λ (o : Option (ℕ × ℕ)). (bump now' 600 o).0 ≤ 5) (sym count) few) right
