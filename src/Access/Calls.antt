-- ===== src/Access/Calls.antt =====
-- Sequences of calls of `Login` and `Verify` of
-- backend/internal/modules/identity/transport/preauth_mfa_handler.go.
use merope.Prelude.{
  ap, ◌+◌, ℕ, suc, ◌*◌, ◌≡◌, ◌⊎◌, inl, inr, refl, Bool, true, false, ◌&&◌, ◌||◌, Option, none, some,
  List, [], ◌∷◌, ◌++◌, String, ◌==◌, if◌then◌else◌, Bool-cases, Option-cases,
}
use merope.Prelude.Bytes.{bytes_eq}
use merope.Prelude.Text.{codes, is_empty, trim_space}
use merope.Prelude.Outcome.{Result-cases}
use merope.Password.Base64.{Bytes}
use merope.Identity.Accounts.{User, State, Faults}
use merope.Identity.Sentinel.{fingerprint}
use merope.Identity.Service.{Env, login}
use merope.Access.Counters.{Counters, rate_limit_check}
use merope.Access.Handler.{
  Challenge, Store, Net, Tokens, Response, mfa_required, hash_id, live, answer_login, login_handler,
  set_challenge, limit_code, verify_handler,
}
use merope.Access.Guesses.{tries}

pub data Call : Type 0 where
  signs_in : Net → Faults → Tokens → ℕ → String → Bytes → String → String → String → Call
  verifies : Net → Faults → Tokens → ℕ → String → String → String → String → Call

abbrev pub call_time : Call → ℕ
call_time (signs_in _ _ _ now _ _ _ _ _) = now
call_time (verifies _ _ _ now _ _ _ _) = now

unfoldable pub step : Env → (ℕ → String) → Call → Store → Response × Store
step env user_text (signs_in n f t now email password device ip ua) s =
    login_handler env n f t now email password device ip ua s
step env user_text (verifies n f t now id code ip ua) s =
    verify_handler env user_text n f t now id code ip ua s

-- The live challenge that an identifier names.
abbrev pub challenge_of : Env → ℕ → String → Store → Option Challenge
challenge_of env now id s = live now (s.challenges (hash_id env.sha256 (trim_space id)))

abbrev pub is_for : ℕ → Option Challenge → Bool
is_for user none = false
is_for user (some c) = c.user_id == user

-- The call tries a code of the user.
abbrev pub tries_code : Env → (ℕ → String) → ℕ → Call → Store → Bool
tries_code env user_text user (signs_in _ _ _ _ _ _ _ _ _) s = false
tries_code env user_text user (verifies n f t now id code ip ua) s =
    is_for user (challenge_of env now id s)
    && tries (verify_handler env user_text n f t now id code ip ua s).0

-- How many calls try a code of the user.
unfoldable pub tried_codes : Env → (ℕ → String) → ℕ → List Call → Store → ℕ
unfolding step
tried_codes env user_text user [] s = 0
tried_codes env user_text user (call ∷ calls) s =
    let rest = tried_codes env user_text user calls (step env user_text call s).1 in
    if tries_code env user_text user call s then suc rest else rest

-- The counters after the limit of `Login`.
abbrev pub login_counters : Env → Net → ℕ → String → Store → Counters
login_counters env n now email s =
    (rate_limit_check n.limits n.counted now 10 (15 * 60)
      (codes "login:" ++ hash_id env.sha256 email) s.counters).1

abbrev pub asks_code : Response → Bool
asks_code (mfa_required _ _) = true
asks_code _ = false

-- The challenge that `Login` keeps for a user at an address.
abbrev pub challenge_for : Env → ℕ → String → String → Challenge
challenge_for env user ip ua = record { user_id = user; fingerprint = fingerprint env.sha256 ip ua }

-- No code is asked for and the store is as before, or it keeps the challenge of an identifier that was drawn.
answer_login-cases :
    (env : Env) (n : Net) (t : Tokens) (now : ℕ) (ip ua : String) (s : Store) (u : User)
    (token : Option String) (mfa : Bool)
    → (((answer_login env n t now ip ua s u token mfa).1 ≡ s)
        × (asks_code (answer_login env n t now ip ua s u token mfa).0 ≡ false))
      ⊎ ((id : String) × (t.challenge_id ≡ some id)
          × (answer_login env n t now ip ua s u token mfa ≡ (
            mfa_required u.id id,
            set_challenge (hash_id env.sha256 id) (challenge_for env u.id ip ua) (now + 300) s,
          )))
unfolding answer_login
answer_login-cases env n t now ip ua s u token false = elim (Option-cases t.refresh) [
  | inl missing ↦ inl (rw (missing, answer_login) (refl, refl))
  | inr (_, made) ↦ elim (Option-cases token) [
    | inl missing ↦ inl (rw (made, missing, answer_login) (refl, refl))
    | inr (_, given) ↦ elim (Bool-cases n.refresh_stored) [
      | inl works ↦ inl (rw (made, given, works, answer_login) (refl, refl))
      | inr fails ↦ inl (rw (made, given, fails, answer_login) (refl, refl))
    ]
  ]
]
answer_login-cases env n t now ip ua s u token true = elim (Option-cases t.challenge_id) [
  | inl missing ↦ inl (rw (missing, answer_login) (refl, refl))
  | inr (id, made) ↦ elim (Bool-cases n.sets) [
    | inl works ↦ inr (id, made, rw (made, works, answer_login) refl)
    | inr fails ↦ inl (rw (made, fails, answer_login) (refl, refl))
  ]
]

-- The store of `Login` when it keeps no challenge: the counters are those of the limit.
abbrev pub limited : Env → Net → ℕ → String → Store → State → Store
limited env n now email s i = record s { counters = login_counters env n now email s; identity = i }

-- `Login` asks for no code and keeps no challenge, or it asks for one by an identifier that it has drawn, and
-- keeps its challenge.
pub login_handler-cases :
    (env : Env) (n : Net) (f : Faults) (t : Tokens) (now : ℕ) (email : String) (password : Bytes)
    (device ip ua : String) (s : Store)
    → (i : State) × ((((login_handler env n f t now email password device ip ua s).1
            ≡ limited env n now email s i)
          × (asks_code (login_handler env n f t now email password device ip ua s).0 ≡ false))
        ⊎ ((user : ℕ) × (id : String) × (t.challenge_id ≡ some id)
            × (login_handler env n f t now email password device ip ua s ≡ (
              mfa_required user id,
              set_challenge
                  (hash_id env.sha256 id)
                  (challenge_for env user ip ua)
                  (now + 300)
                  (limited env n now email s i),
            ))))
unfolding login_handler
login_handler-cases env n f t now email password device ip ua s =
    let limit =
      rate_limit_check n.limits n.counted now 10 (15 * 60)
        (codes "login:" ++ hash_id env.sha256 email) s.counters in
    let served = login env f now email password t.salt t.access device ip ua s.identity in
    elim (Option-cases (limit.0)) [
      | inl failed ↦ (s.identity, inl (rw (failed, login_handler) (refl, refl)))
      | inr (false, refused) ↦ (s.identity, inl (rw (refused, login_handler) (refl, refl)))
      | inr (true, allowed) ↦ elim (Result-cases (served.0)) [
        | inl (_, denied) ↦ (served.1, inl (rw (allowed, denied, login_handler) (refl, refl)))
        | inr ((u, token, mfa), admitted) ↦ (
          served.1,
          rw (allowed, admitted, login_handler)
              (elim (answer_login-cases env n t now ip ua
                (record s { counters = limit.1; identity = served.1 }) u token mfa) [
                  | inl kept ↦ inl kept
                  | inr (id, drawn, stored) ↦ inr (u.id, id, drawn, stored)
                ]),
        )
      ]
    ]

pub login_handler-counters :
    (env : Env) (n : Net) (f : Faults) (t : Tokens) (now : ℕ) (email : String) (password : Bytes)
    (device ip ua : String) (s : Store)
    → (login_handler env n f t now email password device ip ua s).1.counters
      ≡ login_counters env n now email s
login_handler-counters env n f t now email password device ip ua s =
    let (_, outcome) = login_handler-cases env n f t now email password device ip ua s in
    elim outcome [
      | inl (kept, _) ↦ ap (λ (r : Store). r.counters) kept
      | inr (_, _, _, stored) ↦ ap (λ (r : Response × Store). r.1.counters) stored
    ]

-- `Verify` refuses before it counts, or counts for the user of a live challenge.
pub verify_handler-cases :
    (env : Env) (user_text : ℕ → String) (n : Net) (f : Faults) (t : Tokens) (now : ℕ)
    (id code ip ua : String) (s : Store)
    → (((verify_handler env user_text n f t now id code ip ua s).1 ≡ s)
        × (tries (verify_handler env user_text n f t now id code ip ua s).0 ≡ false))
      ⊎ ((c : Challenge) × (challenge_of env now id s ≡ some c)
          × (verify_handler env user_text n f t now id code ip ua s
              ≡ limit_code env user_text n f t now
                  (hash_id env.sha256 (trim_space id))
                  c.user_id
                  (trim_space code)
                  s))
unfolding verify_handler
verify_handler-cases env user_text n f t now id code ip ua s =
    elim (Bool-cases (is_empty (trim_space id) || is_empty (trim_space code))) [
      | inl blank ↦ inl (rw (blank, verify_handler) (refl, refl))
      | inr given ↦ elim (Bool-cases n.gets) [
        | inr down ↦ inl (rw (given, down, verify_handler) (refl, refl))
        | inl up ↦ elim (Option-cases (challenge_of env now id s)) [
          | inl missing ↦ inl (rw (given, up, missing, verify_handler) (refl, refl))
          | inr (c, found) ↦
              elim (Bool-cases (bytes_eq c.fingerprint (fingerprint env.sha256 ip ua))) [
                | inl same ↦ inr (c, found, rw (given, up, found, same, verify_handler) refl)
                | inr other ↦ inl (rw (given, up, found, other, verify_handler) (refl, refl))
              ]
        ]
      ]
    ]
