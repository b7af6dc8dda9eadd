-- ===== src/Password/Encoding.antt =====
-- `HashPassword`, `ComparePassword` and `decodeHash`.
use merope.Prelude.{
  ℕ, ◌*◌, Bool, true, false, not, ◌||◌, Option, none, some, List, [], ◌∷◌, ◌++◌, String, ltb, ◌==◌,
  length,
}
use merope.Prelude.Int.{ℤ, pos, negsuc}
use merope.Prelude.Bytes.{bytes_eq}
use merope.Prelude.Text.{codes}
use merope.Prelude.Outcome.{Result, ok, err, ◌>>=◌, ◌>>◌, fail_if}
use merope.Password.Base64.{Bytes, encode, decode}
use merope.Password.Scan.{split, expect, scan_uint, scan_int, decimal, print}

pub data Error : Type 0 where
  invalid_hash incompatible_version no_randomness : Error

-- `Argon2Params`
pub record Params : Type 0 where
  pub memory : ℕ
  pub iterations : ℕ
  pub parallelism : ℕ
  pub salt_length : ℕ
  pub key_length : ℕ

-- `DefaultArgon2Params`
abbrev pub default_params : Params
default_params = record {
  memory = 64 * 1024;
  iterations = 3;
  parallelism = 2;
  salt_length = 16;
  key_length = 32;
}

abbrev valid : {A : Type 0} → Option A → Result Error A
valid none = err invalid_hash
valid (some a) = ok a

-- The field of the costs, as it is printed.
unfoldable pub print_costs : Params → Bytes
unfolding print
print_costs p =
    codes "m="
    ++ (decimal p.memory
        ++ (codes ",t=" ++ (decimal p.iterations ++ (codes ",p=" ++ decimal p.parallelism))))

-- `Sscanf(vals[2], "v=%d", &version)`
unfoldable pub scan_version : Bytes → Option ℤ
unfolding expect scan_int
scan_version text = elim (expect (codes "v=") text) [ none ↦ none | some rest ↦ scan_int rest ]

-- An unsigned integer of so many bits, behind a literal.
unfoldable pub scan_field : String → ℕ → Bytes → Option (ℕ × Bytes)
unfolding expect scan_uint
scan_field literal bits text = elim (expect (codes literal) text) [
  | none ↦ none
  | some rest ↦ scan_uint bits rest
]

-- `Sscanf(vals[3], "m=%d,t=%d,p=%d", ...)` into `uint32`, `uint32` and `uint8`
unfoldable pub scan_costs : Bytes → Result Error (ℕ × ℕ × ℕ)
unfolding scan_field
scan_costs text = do
  (memory, behind_memory) ← valid (scan_field "m=" 32 text)
  (iterations, behind_iterations) ← valid (scan_field ",t=" 32 behind_memory)
  (parallelism, _) ← valid (scan_field ",p=" 8 behind_iterations)
  ok (memory, iterations, parallelism)

-- The costs that the check refuses before Argon2 allocates memory.
abbrev pub out_of_range : ℕ → ℕ → ℕ → Bool
out_of_range memory iterations parallelism =
    ltb memory (16 * 1024)
    || ltb (256 * 1024) memory
    || ltb iterations 1
    || ltb 10 iterations
    || ltb parallelism 1
    || ltb 16 parallelism

-- A salt or a hash: base64 of 16 to 64 bytes.
unfoldable pub decode_part : Bytes → Result Error Bytes
unfolding decode
decode_part text = do
  bytes ← valid (decode text)
  fail_if (ltb (length bytes) 16 || ltb 64 (length bytes)) invalid_hash
  ok bytes

abbrev is_version : ℕ → ℤ → Bool
is_version version (pos n) = n == version
is_version version (negsuc _) = false

abbrev is_nil : Bytes → Bool
is_nil [] = true
is_nil (_ ∷ _) = false

-- Hashes of one version of Argon2.
module _ (version : ℕ) where
  -- What `HashPassword` prints.
  unfoldable pub encoded : Bytes → Bytes → Bytes
  unfolding print print_costs encode
  encoded salt hash =
      b'$'
      ∷ (codes "argon2id"
          ++ (b'$'
              ∷ ((codes "v=" ++ decimal version)
                  ++ (b'$'
                      ∷ (print_costs default_params
                          ++ (b'$' ∷ (encode salt ++ (b'$' ∷ encode hash))))))))

  -- The six fields of an encoded hash.
  unfoldable pub decode_fields :
      Bytes → Bytes → Bytes → Bytes → Bytes → Bytes → Result Error (Params × Bytes × Bytes)
  unfolding scan_version scan_costs decode_part
  decode_fields first name version_field costs salt_field hash_field = do
    fail_if (not (is_nil first) || not (bytes_eq name (codes "argon2id"))) invalid_hash
    v ← valid (scan_version version_field)
    fail_if (not (is_version version v)) incompatible_version
    (memory, iterations, parallelism) ← scan_costs costs
    fail_if (out_of_range memory iterations parallelism) invalid_hash
    salt ← decode_part salt_field
    hash ← decode_part hash_field
    ok (
      record {
        memory = memory;
        iterations = iterations;
        parallelism = parallelism;
        salt_length = length salt;
        key_length = length hash;
      },
      salt,
      hash,
    )

  unfoldable pub decode_list : List Bytes → Result Error (Params × Bytes × Bytes)
  unfolding decode_fields
  decode_list (a ∷ b ∷ c ∷ d ∷ e ∷ f ∷ []) = decode_fields a b c d e f
  decode_list _ = err invalid_hash

  -- `decodeHash`
  unfoldable pub decode_hash : Bytes → Result Error (Params × Bytes × Bytes)
  unfolding split decode_list
  decode_hash text = decode_list (split b'$' text)

-- Argon2 takes a password, a salt, the iterations, the memory, the parallelism and the length of the key.
module _ (version : ℕ) (id_key : Bytes → Bytes → ℕ → ℕ → ℕ → ℕ → Bytes) where
  -- The key of a password by the costs and the lengths of `p`.
  abbrev pub key_of : Params → Bytes → Bytes → Bytes
  key_of p password salt = id_key password salt p.iterations p.memory p.parallelism p.key_length

  -- `HashPassword`, with the salt that `rand.Read` gave
  unfoldable pub hash_password : Bytes → Option Bytes → Result Error Bytes
  unfolding encoded
  hash_password password none = err no_randomness
  hash_password password (some salt) =
      ok (encoded version salt (key_of default_params password salt))

  -- `ComparePassword`
  unfoldable pub compare_password : Bytes → Bytes → Result Error Bool
  unfolding decode_hash
  compare_password password text = do
    (p, salt, hash) ← decode_hash version text
    ok (bytes_eq hash (key_of p password salt))
