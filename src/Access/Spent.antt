-- ===== src/Access/Spent.antt =====
-- What becomes of a challenge at `Verify` of
-- backend/internal/modules/identity/transport/preauth_mfa_handler.go.
use merope.Prelude.{
  ℕ, ◌≡◌, ◌⊎◌, inl, inr, refl, sym, ap, ◌∙◌, subst, Bool, true, false, Option, none, some, List, [],
  ◌∷◌, String, Bool-cases, All,
}
use merope.Prelude.Bytes.{bytes_eq, bytes_eq_lem}
use merope.Prelude.Text.{trim_space}
use merope.Prelude.Outcome.{Result-cases}
use merope.Password.Base64.{Bytes}
use merope.Identity.Accounts.{Faults}
use merope.Identity.Service.{Env, verify_mfa}
use merope.Access.Counters.{rate_limit_check}
use merope.Access.Handler.{
  Challenge, Store, Net, Tokens, Response, signed_in, hash_id, live, del_challenge, sign_in,
  check_challenge, code_allowed, mfa_key, limit_code, verify_handler,
}
use merope.Access.Guesses.{open_session-kept, tries}
use merope.Access.Calls.{
  Call, signs_in, verifies, step, challenge_of, login_handler-cases, verify_handler-cases,
}

-- `Login` draws an identifier of this key.
abbrev pub draws : Env → Bytes → Call → Bool
draws env key (signs_in _ _ t _ _ _ _ _ _) = elim t.challenge_id [
  | none ↦ false
  | some id ↦ bytes_eq key (hash_id env.sha256 id)
]
draws env key (verifies _ _ _ _ _ _ _ _) = false

unfoldable pub after_calls : Env → (ℕ → String) → List Call → Store → Store
unfolding step
after_calls env user_text [] s = s
after_calls env user_text (call ∷ calls) s =
    after_calls env user_text calls (step env user_text call s).1

-- The challenge of the key is deleted or nothing is, and it is deleted where the answer signs in.
abbrev IsSpent : Bytes → Store → Response × Store → Type 0
IsSpent key s r =
    ((r.1.challenges ≡ (del_challenge key s).challenges) ⊎ (r.1.challenges ≡ s.challenges))
    × ((user : ℕ) (access refresh : String)
        → r.0 ≡ signed_in user access refresh
        → r.1.challenges ≡ (del_challenge key s).challenges)

sign_in-IsSpent :
    (n : Net) (f : Faults) (t : Tokens) (now : ℕ) (key : Bytes) (user : ℕ) (s : Store)
    → IsSpent key s (sign_in n f t now key user s)
unfolding sign_in
sign_in-IsSpent n f t now key user s = elim (Bool-cases n.dels) [
  | inl works ↦
      let gone = (open_session-kept n f t now user (del_challenge key s)).1 in
      rw (works, sign_in) (inl gone, λ _ _ _ _. gone)
  | inr fails ↦ rw (fails, sign_in) (inr refl, λ _ _ _ h. absurd (cc))
]

module _ (env : Env) (n : Net) (f : Faults) (t : Tokens) (now : ℕ) (key : Bytes) (user : ℕ)
    (code : String) where
  check_challenge-IsSpent :
      (s : Store) → IsSpent key s (check_challenge env n f t now key user code s)
  unfolding check_challenge
  check_challenge-IsSpent s = elim (Result-cases ((verify_mfa env f now user code s.identity).0)) [
    | inl (e, failed) ↦ rw (failed, check_challenge) (inr refl, λ _ _ _ h. absurd (cc))
    | inr (true, answered) ↦
        rw (answered, check_challenge)
          (sign_in-IsSpent n f t now key user
            (record s { identity = (verify_mfa env f now user code s.identity).1 }))
    | inr (false, answered) ↦ rw (answered, check_challenge) (inr refl, λ _ _ _ h. absurd (cc))
  ]

  code_allowed-IsSpent :
      (o : Option Bool) (s : Store) → IsSpent key s (code_allowed env n f t now key user code o s)
  unfolding code_allowed
  code_allowed-IsSpent none s = (inr refl, λ _ _ _ h. absurd (cc))
  code_allowed-IsSpent (some false) s = (inr refl, λ _ _ _ h. absurd (cc))
  code_allowed-IsSpent (some true) s = check_challenge-IsSpent s

  limit_code-IsSpent :
      (user_text : ℕ → String) (s : Store)
      → IsSpent key s (limit_code env user_text n f t now key user code s)
  unfolding limit_code
  limit_code-IsSpent user_text s =
      let limit =
        rate_limit_check n.limits n.counted now 5 600 (mfa_key env user_text user) s.counters in
      code_allowed-IsSpent (limit.0) (record s { counters = limit.1 })

module _ (env : Env) (user_text : ℕ → String) (key : Bytes) where
  login-absent :
      (n : Net) (f : Faults) (t : Tokens) (now : ℕ) (email : String) (password : Bytes)
      (device ip ua : String) (s : Store)
      → s.challenges key ≡ none
      → draws env key (signs_in n f t now email password device ip ua) ≡ false
      → (step env user_text (signs_in n f t now email password device ip ua) s).1.challenges key
        ≡ none
  unfolding step
  login-absent n f t now email password device ip ua s absent other =
      let (_, outcome) = login_handler-cases env n f t now email password device ip ua s in
      elim outcome [
        | inl (kept, _) ↦ ap (λ (r : Store). r.challenges key) kept ∙ absent
        | inr (_, id, made, stored) ↦
            let differs : bytes_eq key (hash_id env.sha256 id) ≡ false =
              subst
                (λ (o : Option String).
                  draws env key
                    (signs_in n f (record t { challenge_id = o }) now email password device ip ua)
                  ≡ false)
                made other in
            ap (λ (r : Response × Store). r.1.challenges key) stored ∙ rw differs absent
      ]

  verify-absent :
      (n : Net) (f : Faults) (t : Tokens) (now : ℕ) (id code ip ua : String) (s : Store)
      → s.challenges key ≡ none
      → (step env user_text (verifies n f t now id code ip ua) s).1.challenges key ≡ none
  unfolding step
  verify-absent n f t now id code ip ua s absent =
      elim (verify_handler-cases env user_text n f t now id code ip ua s) [
        | inl (kept, _) ↦ ap (λ (r : Store). r.challenges key) kept ∙ absent
        | inr (c, _, reached) ↦
            let own = hash_id env.sha256 (trim_space id) in
            let at_key = ap (λ (r : Response × Store). r.1.challenges key) reached in
            let (kept, _) =
              limit_code-IsSpent env n f t now own c.user_id (trim_space code) user_text s in
            elim kept [
              | inl deleted ↦
                  at_key
                  ∙ ap (λ (m : Bytes → Option (Challenge × ℕ)). m key) deleted
                  ∙ elim (Bool-cases (bytes_eq key own)) [
                    | inl same ↦ rw same refl
                    | inr other ↦ rw other absent
                  ]
              | inr same ↦ at_key ∙ ap (λ (m : Bytes → Option (Challenge × ℕ)). m key) same ∙ absent
            ]
      ]

  after_calls-absent :
      (calls : List Call) (s : Store)
      → All (λ call. draws env key call ≡ false) calls
      → s.challenges key ≡ none
      → (after_calls env user_text calls s).challenges key ≡ none
  unfolding after_calls
  after_calls-absent [] s _ absent = absent
  after_calls-absent (signs_in n f t now email password device ip ua ∷ calls) s (other, others)
        absent =
      after_calls-absent calls
        (step env user_text (signs_in n f t now email password device ip ua) s).1 others
        (login-absent n f t now email password device ip ua s absent other)
  after_calls-absent (verifies n f t now id code ip ua ∷ calls) s (_, others) absent =
      after_calls-absent calls (step env user_text (verifies n f t now id code ip ua) s).1 others
        (verify-absent n f t now id code ip ua s absent)

module _ (env : Env) (user_text : ℕ → String) (n : Net) (f : Faults) (t : Tokens) (now : ℕ)
    (id code ip ua : String) (s : Store) where
  absent_refused :
      s.challenges (hash_id env.sha256 (trim_space id)) ≡ none
      → tries (verify_handler env user_text n f t now id code ip ua s).0 ≡ false
  absent_refused absent = elim (verify_handler-cases env user_text n f t now id code ip ua s) [
    | inl (_, refused) ↦ refused
    | inr (c, found, _) ↦
        let missing : challenge_of env now id s ≡ none = ap (live now) absent in absurd (cc)
  ]

  signed_in-absent :
      (user : ℕ) (access refresh : String)
      → (verify_handler env user_text n f t now id code ip ua s).0 ≡ signed_in user access refresh
      → (verify_handler env user_text n f t now id code ip ua s).1.challenges
          (hash_id env.sha256 (trim_space id))
        ≡ none
  signed_in-absent user access refresh signed =
      let key = hash_id env.sha256 (trim_space id) in
      elim (verify_handler-cases env user_text n f t now id code ip ua s) [
        | inl (_, refused) ↦
            let tried : tries (verify_handler env user_text n f t now id code ip ua s).0 ≡ true =
              ap tries signed in
            absurd (cc)
        | inr (c, _, reached) ↦
            let (_, gone) =
              limit_code-IsSpent env n f t now key c.user_id (trim_space code) user_text s in
            let deleted =
              gone user access refresh
                (sym (ap (λ (r : Response × Store). r.0) reached) ∙ signed) in
            let same = (bytes_eq_lem key key).1 refl in
            ap (λ (r : Response × Store). r.1.challenges key) reached
            ∙ ap (λ (m : Bytes → Option (Challenge × ℕ)). m key) deleted
            ∙ rw same refl
      ]

-- When `Verify` has signed a user in by a challenge, a later `Verify` with the identifier of that challenge
-- tries no code, whatever calls of `Login` and `Verify` lie between and however they fail, if no `Login`
-- among them draws an identifier with the same hash.
pub spent_once :
    (env : Env) (user_text : ℕ → String) (n n' : Net) (f f' : Faults) (t t' : Tokens) (now now' : ℕ)
    (id code code' ip ip' ua ua' : String) (user : ℕ) (access refresh : String) (calls : List Call)
    (s : Store)
    → (verify_handler env user_text n f t now id code ip ua s).0 ≡ signed_in user access refresh
    → All (λ call. draws env (hash_id env.sha256 (trim_space id)) call ≡ false) calls
    → tries
        (verify_handler env user_text n' f' t' now' id code' ip' ua' (
          after_calls env user_text calls
            (verify_handler env user_text n f t now id code ip ua s).1)).0
      ≡ false
spent_once env user_text n n' f f' t t' now now' id code code' ip ip' ua ua' user access refresh
      calls s signed others =
    let key = hash_id env.sha256 (trim_space id) in
    let s' = (verify_handler env user_text n f t now id code ip ua s).1 in
    absent_refused env user_text n' f' t' now' id code' ip' ua' (after_calls env user_text calls s')
      (after_calls-absent env user_text key calls s' others
        (signed_in-absent env user_text n f t now id code ip ua s user access refresh signed))
