-- ===== src/Access/Tests.antt =====
-- An account with a second factor, and one challenge that is open.
use merope.Prelude.{
  false, if◌then◌else◌, ◌≡◌, ◌≤◌, refl, arith, ℕ, true, none, some, List, [], ◌∷◌, String,
}
use merope.Prelude.Bytes.{bytes_eq}
use merope.Prelude.Text.{codes, trim_space, str_eq}
use merope.Identity.Sentinel.{fingerprint}
use merope.Identity.Accounts.{User, Faults, get_user_by_id}
use merope.Identity.Service.{Env, login, rehash, verify_mfa}
use merope.Access.Handler.{
  mfa_required, Challenge, hash_id, signed_in, Store, Net, Tokens, login_handler, verify_handler,
}
use merope.Password.Base64.{encode}
use merope.Access.Counters.{rate_limit_check}
use merope.Access.Calls.{Call, signs_in, verifies, tried_codes}
use merope.Access.Limit.{ten_codes}
use merope.Access.Guesses.{tries}
use merope.Access.Entry.{all_up, drawn, login_then_verify}
use merope.Prelude.Outcome.{ok}
use merope.Access.Spent.{after_calls, spent_once}

abbrev env : Env
env = record {
  version = 19;
  id_key = λ _ _ _ _ _ _. [];
  bcrypt_matches = λ hash password. bytes_eq password (codes "sesame");
  sha256 = λ _. [];
  totp_valid = λ now code secret. str_eq code "123456";
  has_sentinel = true;
}

abbrev well : Faults
well = record {
  cache_up = true;
  finds = true;
  rereads = true;
  increments = true;
  resets = true;
  locks = true;
  updates = true;
  reads_sessions = true;
  inserts_session = true;
}

abbrev up : Net
up = record {
  limits = true;
  counted = true;
  gets = true;
  sets = true;
  dels = true;
  refresh_stored = true;
  exports = true;
}

abbrev tokens : Tokens
tokens = record {
  access = some "access";
  refresh = some "refresh";
  challenge_id = some "challenge";
  salt = none;
}

abbrev ada : User
ada = record {
  id = 5;
  username = "ada";
  email = "ada@merope";
  password_hash = codes "$2a$";
  mfa_enabled = true;
  mfa_secret = "secret";
  failed_login_attempts = 0;
  locked_until = none;
}

abbrev begin : Store
begin = record {
  counters = λ _. none;
  challenges = λ _. none;
  identity = record { users = ada ∷ []; sessions = []; cache = λ _. none; devices = λ _. [] };
}

abbrev shown : ℕ → String
shown _ = "5"

abbrev guess : ℕ → Call
guess now = verifies up well tokens now "challenge" "000000" "10.0.0.1" "app"

abbrev calls : List Call
calls =
    signs_in up well tokens 100 "ada@merope" (codes "sesame") "phone" "10.0.0.1" "app"
    ∷ guess 101
    ∷ guess 102
    ∷ guess 103
    ∷ guess 104
    ∷ guess 105
    ∷ guess 106
    ∷ []

five_tried : tried_codes env shown 5 calls begin ≡ 5
unfolding tried_codes login_handler login rehash verify_handler verify_mfa get_user_by_id
five_tried = refl

ten_codes_example : tried_codes env shown 5 calls begin ≤ 10
ten_codes_example = ten_codes env shown 5 100 calls begin (
  (omega arith, omega arith),
  (
    (omega arith, omega arith),
    (
      (omega arith, omega arith),
      (
        (omega arith, omega arith),
        (
          (omega arith, omega arith),
          ((omega arith, omega arith), ((omega arith, omega arith), tt)),
        ),
      ),
    ),
  ),
)

abbrev open_challenge : Challenge
open_challenge = record { user_id = 5; fingerprint = fingerprint env.sha256 "10.0.0.1" "app" }

abbrev opened : Store
opened = record begin {
  challenges =
      λ k. if bytes_eq k (hash_id env.sha256 "challenge") then some (open_challenge, 400) else none;
}

right_code :
    (verify_handler env shown up well tokens 101 "challenge" "123456" "10.0.0.1" "app" opened).0
    ≡ signed_in 5 "access" "refresh"
unfolding verify_handler verify_mfa get_user_by_id encode rate_limit_check
right_code = refl

spent_once_example :
    tries
      (verify_handler env shown up well tokens 103 "challenge" "123456" "10.0.0.1" "app" (
        after_calls env shown
          (guess 102 ∷ [])
          (verify_handler env shown up well tokens 101 "challenge" "123456" "10.0.0.1" "app"
            opened).1)).0
    ≡ false
spent_once_example =
    spent_once env shown up up well well tokens tokens 101 103 "challenge" "123456" "123456"
      "10.0.0.1" "10.0.0.1" "app" "app" 5 "access" "refresh" (guess 102 ∷ []) opened right_code
      (refl, tt)

code_asked :
    (login_handler env up well tokens 100 "ada@merope"
      (codes "sesame")
      "phone"
      "10.0.0.1"
      "app"
      begin).0
    ≡ mfa_required 5 "challenge"
unfolding login_handler login rehash get_user_by_id
code_asked = refl

code_right :
    (verify_mfa env well 160 5
      (trim_space " 123456 ")
      (login_handler env up well tokens 100 "ada@merope"
        (codes "sesame")
        "phone"
        "10.0.0.1"
        "app"
        begin).1.identity).0
    ≡ ok true
unfolding login_handler login rehash verify_mfa get_user_by_id trim_space
code_right = refl

login_then_verify_example :
    (verify_handler env shown all_up well
      (drawn "token" "refresh")
      160
      "challenge"
      " 123456 "
      "10.0.0.1"
      "app"
      (login_handler env up well tokens 100 "ada@merope"
        (codes "sesame")
        "phone"
        "10.0.0.1"
        "app"
        begin).1).0
    ≡ signed_in 5 "token" "refresh"
unfolding trim_space
login_then_verify_example =
    login_then_verify env shown up well well tokens "token" "refresh" 100 160 "ada@merope"
      (codes "sesame") "phone" "10.0.0.1" "app" " 123456 " begin 5 "challenge" code_asked
      (omega arith) refl refl refl (omega arith) code_right
