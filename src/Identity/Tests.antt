-- ===== src/Identity/Tests.antt =====
-- An account with a bcrypt hash, which one password fits.
use merope.Prelude.{
  String, take, ◌++◌, ℕ, ◌<◌, ◌≡◌, refl, arith, true, false, none, some, List, [], ◌∷◌, All,
  if◌then◌else◌, ◌==◌,
}
use merope.Prelude.Bytes.{bytes_eq}
use merope.Prelude.Text.{codes, str_eq}
use merope.Prelude.Outcome.{ok, err}
use merope.Audit.{zeros}
use merope.Password.Base64.{Bytes, IsByte}
use merope.Identity.Accounts.{User, State, Faults, find_user, find_identifier}
use merope.Identity.Service.{
  new_user, register, Env, locked_now, account_locked, accepts, login, setup_mfa, verify_mfa,
}
use merope.Identity.Rows.{Found}
use merope.Identity.Lockout.{Attempt, Cached, IsWrong, try, try_all, never_locked}
use merope.Identity.Fifth.{Works, locked_row, answers, fifth_failure_locks}
use merope.Identity.Factor.{Well, forgotten_row, setup_is_forgotten}
use merope.Password.Encoding.{hash_password}
use merope.Identity.Registered.{password_key, hash_of, value, registered_logs_in}

abbrev env : Env
env = record {
  version = 19;
  id_key = λ _ _ _ _ _ _. [];
  bcrypt_matches = λ hash password. bytes_eq password (codes "sesame");
  sha256 = λ _. zeros;
  totp_valid = λ now code secret. str_eq code "123456";
  has_sentinel = true;
}

abbrev well : Faults
well = record {
  cache_up = true;
  finds = true;
  rereads = true;
  increments = true;
  resets = true;
  locks = true;
  updates = true;
  reads_sessions = true;
  inserts_session = true;
}

abbrev kit : User
kit = record {
  id = 5;
  username = "kit";
  email = "kit@merope";
  password_hash = codes "$2a$";
  mfa_enabled = false;
  mfa_secret = "";
  failed_login_attempts = 4;
  locked_until = none;
}

abbrev start : State
start = record { users = kit ∷ []; sessions = []; cache = λ _. none; devices = λ _. [] }

abbrev attempt : Bytes → ℕ → Attempt
attempt password now = record {
  faults = well;
  now = now;
  password = password;
  salt = none;
  token = some "token";
  device_id = "phone";
  ip = "10.0.0.1";
  ua = "app";
}

kit-Found : Found "kit" kit start.users
unfolding find_user find_identifier
kit-Found = record { by_name = refl; by_id = refl }

guess_refused : accepts env (codes "guess") (codes "$2a$") ≡ false
unfolding accepts
guess_refused = refl

works : Works well
works = record { finds = refl; rereads = refl; increments = refl; locks = refl }

kit-Found_by_address : Found "kit@merope" kit start.users
unfolding find_user find_identifier
kit-Found_by_address = record { by_name = refl; by_id = refl }

abbrev later_logins : List (String × Attempt)
later_logins =
    ("kit", attempt (codes "sesame") 200) ∷ ("kit@merope", attempt (codes "sesame") 999) ∷ []

fifth_failure_locks_example :
    ((try env "kit" (attempt (codes "guess") 100) start).0 ≡ err locked_now)
    × Found "kit" (locked_row 100 kit) (try env "kit" (attempt (codes "guess") 100) start).1.users
    × All
        (λ r. r ≡ err account_locked)
        (answers env later_logins (try env "kit" (attempt (codes "guess") 100) start).1)
fifth_failure_locks_example =
    fifth_failure_locks env "kit" kit (attempt (codes "guess") 100) later_logins start kit-Found
      refl (omega arith) refl works guess_refused
      ((kit-Found, refl, omega arith), ((kit-Found_by_address, refl, omega arith), tt))

-- The copy in the cache was made before the failures.
abbrev stale : State
stale = record start {
  cache = λ k. if k == 5 then some (record kit { failed_login_attempts = 0 }, 3600) else none;
}

stale-Cached : Cached "kit" (codes "$2a$") 5 3600 stale
stale-Cached = record {
  user = kit;
  found = kit-Found;
  is_id = refl;
  has_hash = refl;
  open_ = refl;
  copy = record kit { failed_login_attempts = 0 };
  copied = refl;
  few = omega arith;
}

guess-IsWrong :
    (now : ℕ) → now < 3600 → IsWrong env (codes "$2a$") 3600 (attempt (codes "guess") now)
guess-IsWrong now h = record { connected = refl; early = h; wrong = guess_refused }

abbrev guesses : List Attempt
guesses = attempt (codes "guess") 100 ∷ attempt (codes "guess") 101 ∷ []

never_locked_example : Cached "kit" (codes "$2a$") 5 3600 (try_all env "kit" guesses stale)
never_locked_example =
    never_locked env "kit" (codes "$2a$") 5 3600 guesses stale stale-Cached
      (guess-IsWrong 100 (omega arith), (guess-IsWrong 101 (omega arith), tt))

well-Well : Well well
well-Well = record { cache_up = refl; rereads = refl; updates = refl }

setup_is_forgotten_example :
    ((setup_mfa well 100 5 (some "secret") start).0 ≡ ok "secret")
    × ((verify_mfa env well 160 5 "123456" (setup_mfa well 100 5 (some "secret") start).1).0
        ≡ ok true)
    × (find_user 5
          (verify_mfa env well 160 5 "123456"
            (setup_mfa well 100 5 (some "secret") start).1).1.users
        ≡ some (forgotten_row true "secret" kit))
setup_is_forgotten_example =
    setup_is_forgotten env well well 100 160 5 "secret" "123456" kit start well-Well well-Well refl
      kit-Found.by_id (omega arith)

zeros_bytes : (x : Bytes) → All IsByte (env.sha256 x)
zeros_bytes x = omega arith

-- A key function that keeps the front of the password.
abbrev keyed : Env
keyed = record env { id_key = λ password _ _ _ _ key_length. take key_length (password ++ zeros) }

abbrev salt : Bytes
salt = take 16 zeros

abbrev ivy : User
ivy = new_user 9 "ivy" "ivy@merope" (hash_of keyed salt (codes "sesame"))

ivy_registered :
    (register keyed 4 true 9 "ivy" "ivy@merope"
      (codes "sesame")
      (some salt)
      (some "first")
      "10.0.0.1"
      "app"
      start).0
    ≡ ok (ivy, "first")
unfolding register hash_password
ivy_registered = refl

no_ivy : find_identifier "ivy" start.users ≡ none
unfolding find_identifier
no_ivy = refl

salt_bytes : All IsByte salt
salt_bytes = omega arith

key_bytes : All IsByte (password_key keyed salt (codes "sesame"))
key_bytes = omega arith

registered_logs_in_example :
    value
      (login keyed well 100 "ivy"
        (codes "sesame")
        none
        (some "second")
        "phone"
        "10.0.0.1"
        "app"
        (register keyed 4 true 9 "ivy" "ivy@merope"
          (codes "sesame")
          (some salt)
          (some "first")
          "10.0.0.1"
          "app"
          start).1).0
    ≡ some (ivy, some "second", false)
registered_logs_in_example =
    registered_logs_in keyed 4 true 9 "ivy" "ivy@merope" (codes "sesame") salt (some "first")
      "10.0.0.1" "app" start ivy "first" well 100 (codes "sesame") none "second" "phone" "10.0.0.1"
      "app" (omega arith) salt_bytes refl key_bytes refl no_ivy ivy_registered refl refl
