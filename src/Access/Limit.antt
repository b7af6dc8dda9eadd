-- ===== src/Access/Limit.antt =====
-- How many codes of a user are tried within 600 seconds, at the handlers of
-- backend/internal/modules/identity/transport/preauth_mfa_handler.go.
use merope.Prelude.{
  ℕ, suc, ◌+◌, ◌*◌, ◌≤◌, ◌<◌, ◌≡◌, inl, inr, refl, sym, ap, ◌∙◌, subst, arith, Bool, true, Option,
  none, some, List, [], ◌∷◌, ◌++◌, String, ==_iff, if◌then◌else◌, Bool-cases, both_true, All,
}
use merope.Prelude.Text.{codes, trim_space}
use merope.Password.Base64.{Bytes}
use merope.Identity.Accounts.{Faults}
use merope.Identity.Service.{Env}
use merope.Access.Counters.{Counters}
use merope.Access.Handler.{
  Challenge, Store, Net, Tokens, Response, hash_id, mfa_key, limit_code, verify_handler,
}
use merope.Access.Guesses.{Bounded, check-Bounded, tries, limit_code-other, limit_code-Bounded}
use merope.Access.Calls.{
  Call, signs_in, verifies, call_time, step, challenge_of, is_for, tries_code, tried_codes,
  login_handler-counters, verify_handler-cases,
}

is_for-some :
    (user : ℕ) (c : Challenge) (o : Option Challenge)
    → o ≡ some c
    → is_for user o ≡ true
    → c.user_id ≡ user
is_for-some user c o e h = (==_iff c.user_id user).0 (ap (is_for user) (sym e) ∙ h)

module _ (env : Env) (user_text : ℕ → String) (user start : ℕ) where
  verify-other :
      (n : Net) (f : Faults) (t : Tokens) (now : ℕ) (id code ip ua : String) (s : Store) (tried : ℕ)
      (j : Bytes)
      → start ≤ now
      → now < start + 600
      → Bounded start tried (s.counters j)
      → Bounded start tried ((verify_handler env user_text n f t now id code ip ua s).1.counters j)
  verify-other n f t now id code ip ua s tried j after before h =
      elim (verify_handler-cases env user_text n f t now id code ip ua s) [
        | inl (kept, _) ↦ subst (λ (s' : Store). Bounded start tried (s'.counters j)) (sym kept) h
        | inr (c, _, reached) ↦
            subst (λ (r : Response × Store). Bounded start tried (r.1.counters j)) (sym reached)
              (limit_code-other env user_text start now after before n f t
                (hash_id env.sha256 (trim_space id)) j c.user_id (trim_space code) s tried h)
      ]

  verify-tried :
      (n : Net) (f : Faults) (t : Tokens) (now : ℕ) (id code ip ua : String) (s : Store) (tried : ℕ)
      → start ≤ now
      → now < start + 600
      → Bounded start tried (s.counters (mfa_key env user_text user))
      → tries_code env user_text user (verifies n f t now id code ip ua) s ≡ true
      → Bounded start (suc tried) (
          (verify_handler env user_text n f t now id code ip ua s).1.counters
            (mfa_key env user_text user))
  verify-tried n f t now id code ip ua s tried after before h counts =
      let (own, tries_) =
        both_true (is_for user (challenge_of env now id s))
          (tries (verify_handler env user_text n f t now id code ip ua s).0) counts in
      elim (verify_handler-cases env user_text n f t now id code ip ua s) [
        | inl (_, refused) ↦ absurd (cc)
        | inr (c, found, reached) ↦
            let is_user = is_for-some user c (challenge_of env now id s) found own in
            let reached' =
              reached
              ∙ ap
                  (λ (u : ℕ).
                    limit_code env user_text n f t now (hash_id env.sha256 (trim_space id)) u
                      (trim_space code) s)
                  is_user in
            subst
              (λ (r : Response × Store).
                Bounded start (suc tried) (r.1.counters (mfa_key env user_text user)))
              (sym reached')
              (limit_code-Bounded env user_text start now after before n f t
                (hash_id env.sha256 (trim_space id)) user (trim_space code) s tried h
                (subst (λ (r : Response × Store). tries r.0 ≡ true) reached' tries_))
      ]

  step-Bounded :
      (call : Call) (s : Store) (tried : ℕ)
      → start ≤ call_time call
      → call_time call < start + 600
      → Bounded start tried (s.counters (mfa_key env user_text user))
      → Bounded start
          (if tries_code env user_text user call s then suc tried else tried)
          ((step env user_text call s).1.counters (mfa_key env user_text user))
  unfolding step
  step-Bounded (signs_in n f t now email password device ip ua) s tried after before h =
      subst (λ (c : Counters). Bounded start tried (c (mfa_key env user_text user)))
        (sym (login_handler-counters env n f t now email password device ip ua s))
        (check-Bounded start now (15 * 60) after before (omega arith) n.limits n.counted 10 tried
          (mfa_key env user_text user) (codes "login:" ++ hash_id env.sha256 email) s.counters h)
  step-Bounded (verifies n f t now id code ip ua) s tried after before h =
      elim (Bool-cases (tries_code env user_text user (verifies n f t now id code ip ua) s)) [
        | inl counts ↦
            rw counts (verify-tried n f t now id code ip ua s tried after before h counts)
        | inr passes ↦ rw passes (
            verify-other n f t now id code ip ua s tried (mfa_key env user_text user) after before
              h)
      ]

  Bounded-le_ten : (tried : ℕ) (o : Option (ℕ × ℕ)) → Bounded start tried o → tried ≤ 10
  Bounded-le_ten tried none h = omega arith
  Bounded-le_ten tried (some (n, expires)) (inl (_, few)) = omega arith
  Bounded-le_ten tried (some (n, expires)) (inr (_, _, few)) = few

  tried_codes-Bounded :
      (calls : List Call) (s : Store) (tried : ℕ)
      → All (λ call. (start ≤ call_time call) × (call_time call < start + 600)) calls
      → Bounded start tried (s.counters (mfa_key env user_text user))
      → tried + tried_codes env user_text user calls s ≤ 10
  unfolding tried_codes
  tried_codes-Bounded [] s tried _ h =
      let few = Bounded-le_ten tried (s.counters (mfa_key env user_text user)) h in omega arith
  tried_codes-Bounded (call ∷ calls) s tried ((after, before), later) h =
      let s' = (step env user_text call s).1 in
      let h' = step-Bounded call s tried after before h in
      elim (Bool-cases (tries_code env user_text user call s)) [
        | inl counts ↦
            let more = tried_codes-Bounded calls s' (suc tried) later (
              subst
                (λ (b : Bool).
                  Bounded start (if b then suc tried else tried)
                    (s'.counters (mfa_key env user_text user)))
                counts h') in
            rw counts (omega arith)
        | inr passes ↦ rw passes (
            tried_codes-Bounded calls s' tried later (
              subst
                (λ (b : Bool).
                  Bounded start (if b then suc tried else tried)
                    (s'.counters (mfa_key env user_text user)))
                passes h'))
      ]

Bounded-zero : (start : ℕ) (o : Option (ℕ × ℕ)) → Bounded start 0 o
Bounded-zero start none = refl
Bounded-zero start (some (n, expires)) = inl (omega arith, omega arith)

-- Whatever the counters, the challenges and the accounts are, and however the calls of `Login` and
-- `Verify` fail, of the calls at times within 600 seconds from any instant at most ten try a code of the
-- same user.
pub ten_codes :
    (env : Env) (user_text : ℕ → String) (user start : ℕ) (calls : List Call) (s : Store)
    → All (λ call. (start ≤ call_time call) × (call_time call < start + 600)) calls
    → tried_codes env user_text user calls s ≤ 10
ten_codes env user_text user start calls s times =
    let few =
      tried_codes-Bounded env user_text user start calls s 0 times
        (Bounded-zero start (s.counters (mfa_key env user_text user))) in
    omega arith
