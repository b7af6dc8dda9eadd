-- ===== src/Identity/Fifth.antt =====
-- The fifth wrong password at `Login` of backend/internal/modules/identity.
use merope.Prelude.{
  All, [], ◌∷◌, ℕ, ◌+◌, ◌<◌, ◌≤◌, ◌≡◌, refl, sym, ap, subst, arith, Bool, true, false, Option, none,
  some, List, String, leb, ◌==◌, lt→ltb, if◌then◌else◌,
}
use merope.Prelude.Outcome.{Result, err}
use merope.Identity.Accounts.{
  User, State, Faults, find_user, change, get_user_by_id, live, in_json, hour,
  increment_failed_login,
}
use merope.Identity.Service.{
  Env, Error, account_locked, locked_now, accepts, refuse, lock_or_refuse, login, is_locked,
  lock_time,
}
use merope.Identity.Rows.{Found, change-Found}
use merope.Identity.Lockout.{Attempt, try}

-- A login whose statements on the users work.
pub record Works (f : Faults) : Type 0 where
  pub finds : f.finds ≡ true
  pub rereads : f.rereads ≡ true
  pub increments : f.increments ≡ true
  pub locks : f.locks ≡ true

abbrev one_more : User → User
one_more u = record u { failed_login_attempts = u.failed_login_attempts + 1 }

abbrev lock_row : ℕ → User → User
lock_row now u = record u { locked_until = some (now + lock_time) }

abbrev pub locked_row : ℕ → User → User
locked_row now u = record u {
  failed_login_attempts = u.failed_login_attempts + 1;
  locked_until = some (now + lock_time);
}

-- When the cache does not have the user, the row is read.
read_row :
    (cache_up : Bool) (now id : ℕ) (s : State) (u : User)
    → live now (s.cache id) ≡ none
    → find_user id s.users ≡ some u
    → (s' : State) × (get_user_by_id cache_up true now id s ≡ (some u, s')) × (s'.users ≡ s.users)
unfolding get_user_by_id
read_row true now id s u stale row = (
  record s { cache = λ k. if k == id then some (in_json u, now + hour) else s.cache k },
  rw (stale, row, get_user_by_id) refl,
  refl,
)
read_row false now id s u stale row = (s, rw (row, get_user_by_id) refl, refl)

-- What logins one after another answer, each by a name.
unfoldable pub answers :
    Env → List (String × Attempt) → State → List (Result Error (User × Option String × Bool))
answers env [] s = []
answers env ((name, a) ∷ rest) s = let (r, s') = try env name a s in r ∷ answers env rest s'

-- A login of the account before its lock ends, for which the table can be read.
abbrev pub IsEarly : User → ℕ → List User → String × Attempt → Type 0
IsEarly user until users (name, b) =
    Found name user users × (b.faults.finds ≡ true) × (b.now < until)

try_locked :
    (env : Env) (name : String) (user : User) (b : Attempt) (until : ℕ) (s : State)
    → Found name user s.users
    → user.locked_until ≡ some until
    → b.faults.finds ≡ true
    → b.now < until
    → try env name b s ≡ (err account_locked, s)
unfolding login
try_locked env name user b until s found locked finds early =
    let shut : is_locked b.now (some until) ≡ true = lt→ltb b.now until early in
    rw (finds, login) (rw found.by_name (rw locked (rw shut refl)))

answers_locked :
    (env : Env) (user : User) (until : ℕ) (later : List (String × Attempt)) (s : State)
    → user.locked_until ≡ some until
    → All (IsEarly user until s.users) later
    → All (λ r. r ≡ err account_locked) (answers env later s)
unfolding answers
answers_locked env user until [] s locked h = tt
answers_locked env user until ((name, b) ∷ rest) s locked ((found, finds, early), h) =
    rw (try_locked env name user b until s found locked finds early)
      (refl, answers_locked env user until rest s locked h)

IsEarly-locked :
    (user : User) (now until : ℕ) (users : List User) (later : List (String × Attempt))
    → All (IsEarly user until users) later
    → All
        (IsEarly
          (locked_row now user)
          until
          (change user.id (lock_row now) (change user.id one_more users)))
        later
IsEarly-locked user now until users [] h = tt
IsEarly-locked user now until users ((name, b) ∷ rest) ((found, finds, early), h) = (
  (
    change-Found name (lock_row now) (one_more user) (change user.id one_more users)
        (change-Found name one_more user users found refl refl) refl refl,
    finds,
    early,
  ),
  IsEarly-locked user now until users rest h,
)

-- A wrong password for an account that is not locked at that time, has failed four times or more, and is
-- not in the cache, when the statements work: the login is refused, the failure is counted, and the account
-- is locked. The logins that follow, one after another and with any of the account's names and any
-- passwords, are all refused as locked until 900 seconds later, if the table can be read.
pub fifth_failure_locks :
    (env : Env) (name : String) (user : User) (a : Attempt) (later : List (String × Attempt))
    (s : State)
    → Found name user s.users
    → is_locked a.now user.locked_until ≡ false
    → 4 ≤ user.failed_login_attempts
    → live a.now (s.cache user.id) ≡ none
    → Works a.faults
    → accepts env a.password user.password_hash ≡ false
    → All (IsEarly user (a.now + lock_time) s.users) later
    → ((try env name a s).0 ≡ err locked_now)
      × Found name (locked_row a.now user) (try env name a s).1.users
      × All (λ r. r ≡ err account_locked) (answers env later (try env name a s).1)
unfolding login
fifth_failure_locks env name user a later s found open_ four stale w wrong early =
    let counted : State = record s { users = change user.id one_more s.users } in
    let row = change-Found name one_more user s.users found refl refl in
    let (s', reread, kept) =
      read_row a.faults.cache_up a.now user.id counted (one_more user) stale row.by_id in
    let enough : leb 5 (user.failed_login_attempts + 1) ≡ true = ground arith in
    let final : State = record s' { users = change user.id (lock_row a.now) s'.users } in
    let answer : try env name a s ≡ (err locked_now, final) =
      rw (w.finds, login)
        (rw found.by_name (
          rw (open_, wrong)
            (let r : get_user_by_id a.faults.cache_up a.faults.rereads a.now user.id
                    (increment_failed_login a.faults.increments user.id s)
                  ≡ (some (one_more user), s') =
                rw (w.increments, w.rereads) reread in
              rw (r, refuse) (rw (lock_or_refuse, enough, w.locks) refl)))) in
    let after : Found name (locked_row a.now user) final.users =
      subst
        (λ (us : List User).
          Found name (locked_row a.now user) (change user.id (lock_row a.now) us))
        (sym kept)
        (change-Found name (lock_row a.now) (one_more user) counted.users row refl refl) in
    let early' : All (IsEarly (locked_row a.now user) (a.now + lock_time) final.users) later =
      subst
        (λ (us : List User).
          All
            (IsEarly (locked_row a.now user) (a.now + lock_time)
              (change user.id (lock_row a.now) us))
            later)
        (sym kept) (IsEarly-locked user a.now (a.now + lock_time) s.users later early) in
    (
      ap (λ (x : Result Error (User × Option String × Bool) × State). x.0) answer,
      rw answer after,
      rw answer
          (answers_locked env (locked_row a.now user) (a.now + lock_time) later final refl early'),
    )
