-- ===== src/Password/RoundTrip.antt =====
-- `ComparePassword` on what `HashPassword` wrote.
use merope.Prelude.{
  ℕ, suc, ◌^◌, ◌<◌, ◌≤◌, ◌≡◌, refl, subst, ap, ◌∙◌, arith, Bool, true, false, not, ◌&&◌, ◌||◌, some,
  [], ◌∷◌, ◌++◌, ltb, ◌==◌, length, All, both_true, ==_iff,
}
use merope.Prelude.Int.{pos}
use merope.Prelude.Bytes.{bytes_eq}
use merope.Prelude.Text.{codes}
use merope.Prelude.Outcome.{ok_inj, ok}
use merope.Password.Base64.{Bytes, IsByte, encode, decode-encode, encode_plain}
use merope.Password.Scan.{split, decimal, scan_int-decimal, print-AllDigits, AllDigits, digit_lem}
use merope.Password.Encoding.{
  default_params, print_costs, scan_version, decode_part, key_of, encoded, hash_password,
  decode_fields, decode_list, decode_hash, compare_password,
}

abbrev Plain : Bytes → Type 0
Plain text = All (λ c. (c == b'$') ≡ false) text

abbrev is_plain : Bytes → Bool
is_plain [] = true
is_plain (c ∷ cs) = not (c == b'$') && is_plain cs

is_plain-Plain : (text : Bytes) → is_plain text ≡ true → Plain text
is_plain-Plain [] h = tt
is_plain-Plain (c ∷ cs) h =
    (ground arith, is_plain-Plain cs (both_true (not (c == b'$')) (is_plain cs) h).1)

split-Plain : (xs ys : Bytes) → Plain xs → split b'$' (xs ++ (b'$' ∷ ys)) ≡ xs ∷ split b'$' ys
unfolding split
split-Plain [] ys h = refl
split-Plain (x ∷ xs) ys h = rw (h.0, split) (rw (split-Plain xs ys h.1) refl)

split_last : (xs : Bytes) → Plain xs → split b'$' xs ≡ xs ∷ []
unfolding split
split_last [] h = refl
split_last (x ∷ xs) h = rw (h.0, split) (rw (split_last xs h.1) refl)

digits-Plain : (xs : Bytes) → AllDigits xs → Plain xs
digits-Plain [] h = tt
digits-Plain (x ∷ xs) h = ((digit_lem x h.0).4, digits-Plain xs h.1)

-- The costs of `DefaultArgon2Params` as they are printed.
abbrev costs_text : Bytes
costs_text = codes "m=65536,t=3,p=2"

print_costs-default : print_costs default_params ≡ costs_text
unfolding print_costs
print_costs-default = refl

scan_version-decimal : (n : ℕ) → n < 2 ^ 63 → scan_version (codes "v=" ++ decimal n) ≡ some (pos n)
unfolding scan_version
scan_version-decimal n h = scan_int-decimal n h

decode_part-encode :
    (bs : Bytes) → All IsByte bs → 16 ≤ length bs → length bs ≤ 64 → decode_part (encode bs) ≡ ok bs
unfolding decode_part
decode_part-encode bs h low high =
    let sizes : (ltb (length bs) 16 || ltb 64 (length bs)) ≡ false = ground arith in
    rw (decode-encode bs h, decode_part) (rw sizes refl)

module _ (version : ℕ) where
  split-encoded :
      (salt hash : Bytes)
      → All IsByte salt
      → All IsByte hash
      → split b'$' (encoded version salt hash)
        ≡ []
          ∷ codes "argon2id"
          ∷ (codes "v=" ++ decimal version)
          ∷ costs_text
          ∷ encode salt
          ∷ encode hash
          ∷ []
  unfolding encoded
  split-encoded salt hash s h =
      split-Plain [] _ tt
      ∙ ap (◌∷◌ []) (
          split-Plain (codes "argon2id") _ (is_plain-Plain (codes "argon2id") refl)
          ∙ ap (◌∷◌ (codes "argon2id")) (
              split-Plain (codes "v=" ++ decimal version) _
                (refl, (refl, digits-Plain _ (print-AllDigits (suc version) version)))
              ∙ ap (◌∷◌ (codes "v=" ++ decimal version)) (
                  ap
                    (λ (c : Bytes).
                      split b'$' (c ++ (b'$' ∷ (encode salt ++ (b'$' ∷ encode hash)))))
                    print_costs-default
                  ∙ split-Plain costs_text _ (is_plain-Plain costs_text refl)
                  ∙ ap (◌∷◌ costs_text) (
                      split-Plain (encode salt) _ (encode_plain salt s)
                      ∙ ap (◌∷◌ (encode salt)) (split_last (encode hash) (encode_plain hash h))))))

  decode_hash-encoded :
      (salt hash : Bytes)
      → version < 2 ^ 63
      → All IsByte salt
      → length salt ≡ 16
      → All IsByte hash
      → length hash ≡ 32
      → decode_hash version (encoded version salt hash) ≡ ok (default_params, salt, hash)
  unfolding decode_hash decode_list decode_fields
  decode_hash-encoded salt hash v s ls h lh =
      let parts = split-encoded salt hash s h in
      let same : (version == version) ≡ true = (==_iff version version).1 refl in
      let first = decode_part-encode salt s (omega (arith, ls)) (omega (arith, ls)) in
      let second = decode_part-encode hash h (omega (arith, lh)) (omega (arith, lh)) in
      rw (parts, decode_hash)
        (rw (scan_version-decimal version v, same) (rw (first, second, ls, lh) refl))

-- A password is compared with an encoded hash of another one, for a salt of 16 bytes and keys of 32
-- bytes: the answer is whether the two have the same key under the salt and the default costs. So the
-- password that was hashed is accepted.
pub compare-hash :
    (version : ℕ) (id_key : Bytes → Bytes → ℕ → ℕ → ℕ → ℕ → Bytes) (password other salt : Bytes)
    {text : Bytes}
    → version < 2 ^ 63
    → All IsByte salt
    → length salt ≡ 16
    → All IsByte (key_of version id_key default_params password salt)
    → length (key_of version id_key default_params password salt) ≡ 32
    → hash_password version id_key password (some salt) ≡ ok text
    → compare_password version id_key other text
      ≡ ok (
          bytes_eq
            (key_of version id_key default_params password salt)
            (key_of version id_key default_params other salt))
unfolding hash_password compare_password
compare-hash version id_key password other salt v s ls h lh hashed =
    let key = key_of version id_key default_params password salt in
    let text_lem : encoded version salt key ≡ _ = ok_inj _ _ hashed in
    subst
      (λ (t : Bytes).
        compare_password version id_key other t
        ≡ ok (bytes_eq key (key_of version id_key default_params other salt)))
      text_lem (rw (decode_hash-encoded version salt key v s ls h lh, compare_password) refl)
