-- ===== src/Password/Tests.antt =====
-- A key function that keeps the front of the password, and a salt of zeros.
use merope.Prelude.{ℕ, ◌≡◌, refl, arith, true, false, some, ◌++◌, take, All}
use merope.Prelude.Text.{codes}
use merope.Prelude.Outcome.{ok}
use merope.Audit.{zeros}
use merope.Password.Base64.{Bytes, IsByte}
use merope.Password.Encoding.{hash_password, compare_password}
use merope.Password.RoundTrip.{compare-hash}

abbrev id_key : Bytes → Bytes → ℕ → ℕ → ℕ → ℕ → Bytes
id_key password salt iterations memory parallelism key_length = take key_length (password ++ zeros)

abbrev salt : Bytes
salt = take 16 zeros

abbrev text : Bytes
text =
    codes
      "$argon2id$v=19$m=65536,t=3,p=2$AAAAAAAAAAAAAAAAAAAAAA$a2l0AAAAAAAAAAAAAAAAAAAAAAAAAAAAAAAAAAAAAAA"

hashed : hash_password 19 id_key (codes "kit") (some salt) ≡ ok text
unfolding hash_password
hashed = refl

refused : compare_password 19 id_key (codes "cat") text ≡ ok false
unfolding compare_password
refused = refl

zeros_bytes : All IsByte salt
zeros_bytes = omega arith

key_bytes : All IsByte (id_key (codes "kit") salt 3 65536 2 32)
key_bytes = omega arith

compare-hash_example : compare_password 19 id_key (codes "kit") text ≡ ok true
compare-hash_example =
    compare-hash 19 id_key (codes "kit") (codes "kit") salt (omega arith) zeros_bytes refl key_bytes
      refl hashed
