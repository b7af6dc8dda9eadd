-- ===== src/Password/Scan.antt =====
-- What password.go uses of `strings.Split` and `fmt.Sscanf`, on texts as lists of code points.
use merope.Prelude.{
  ℕ, zero, suc, ◌+◌, ◌-◌, ◌*◌, ◌/◌, ◌%◌, ◌^◌, ◌<◌, ◌≡◌, refl, arith, ◌∙◌, Bool, true, false, ◌&&◌,
  Option, none, some, List, [], ◌∷◌, ◌++◌, ltb, leb, ◌==◌, if◌then◌else◌, All, Bool-cases, lt→ltb,
  inl, inr,
}
use merope.Prelude.Int.{ℤ, pos, negsuc}
use merope.Prelude.Text.{is_space}
use merope.Password.Base64.{Bytes}

abbrev pub glue : ℕ → List Bytes → List Bytes
glue c [] = (c ∷ []) ∷ []
glue c (first ∷ rest) = (c ∷ first) ∷ rest

-- `strings.Split` by a separator of one character
unfoldable pub split : ℕ → Bytes → List Bytes
split sep [] = [] ∷ []
split sep (c ∷ cs) = let rest = split sep cs in if c == sep then [] ∷ rest else glue c rest

-- `SkipSpace` of a scan in one line: a line end is an error.
unfoldable pub skip_space : Bytes → Option Bytes
unfolding is_space
skip_space [] = some []
skip_space (c ∷ cs) =
    let rest = skip_space cs in
    if c == b'\n' then none else if is_space c then rest else some (c ∷ cs)

-- A literal part of the format.
unfoldable pub expect : Bytes → Bytes → Option Bytes
expect [] text = some text
expect (l ∷ ls) [] = none
expect (l ∷ ls) (c ∷ cs) = let rest = expect ls cs in if l == c then rest else none

abbrev pub is_digit : ℕ → Bool
is_digit c = leb b'0' c && leb c b'9'

-- The number that the digits at the front stand for, after `acc`, and the text behind them.
unfoldable pub digits : ℕ → Bytes → ℕ × Bytes
digits acc [] = (acc, [])
digits acc (c ∷ cs) =
    let more = digits (acc * 10 + (c - b'0')) cs in if is_digit c then more else (acc, c ∷ cs)

abbrev pub starts_digit : Bytes → Bool
starts_digit [] = false
starts_digit (c ∷ cs) = is_digit c

-- At least one digit, and a number below a limit.
unfoldable pub number : ℕ → Bytes → Option (ℕ × Bytes)
unfolding digits
number limit text =
    if starts_digit text && ltb (digits 0 text).0 limit then some (digits 0 text) else none

-- `%d` into an unsigned integer of so many bits
unfoldable pub scan_uint : ℕ → Bytes → Option (ℕ × Bytes)
unfolding skip_space number
scan_uint bits text = elim (skip_space text) [ none ↦ none | some rest ↦ number (2 ^ bits) rest ]

abbrev pub minus : ℕ → ℤ
minus zero = pos 0
minus (suc n) = negsuc n

abbrev pub signed : Bytes → Option ℤ
signed [] = none
signed (c ∷ cs) =
    if c == b'-'
    then elim (number (2 ^ 63 + 1) cs) [ none ↦ none | some (n, rest) ↦ some (minus n) ]
    else elim (number (2 ^ 63) (if c == b'+' then cs else c ∷ cs)) [
      | none ↦ none
      | some (n, rest) ↦ some (pos n)
    ]

-- `%d` into an `int`, at the end of the format: the rest of the text is not looked at.
unfoldable pub scan_int : Bytes → Option ℤ
unfolding skip_space number
scan_int text = elim (skip_space text) [ none ↦ none | some rest ↦ signed rest ]

-- The decimal digits of a number, for `%d` of a print; fuel above the number is enough.
unfoldable pub print : ℕ → ℕ → Bytes
print zero n = []
print (suc fuel) n =
    let front = print fuel (n / 10) in
    if ltb n 10 then (b'0' + n) ∷ [] else front ++ ((b'0' + n % 10) ∷ [])

abbrev pub decimal : ℕ → Bytes
decimal n = print (suc n) n

abbrev pub AllDigits : Bytes → Type 0
AllDigits text = All (λ c. is_digit c ≡ true) text

digits-append :
    (acc : ℕ) (xs ys : Bytes) → AllDigits xs → digits acc (xs ++ ys) ≡ digits (digits acc xs).0 ys
unfolding digits
digits-append acc [] ys h = refl
digits-append acc (x ∷ xs) ys h = rw (digits, h.0) (digits-append (acc * 10 + (x - b'0')) xs ys h.1)

AllDigits-append :
    (xs : Bytes) (d : ℕ) → AllDigits xs → d < 10 → AllDigits (xs ++ ((b'0' + d) ∷ []))
AllDigits-append [] d h k = (ground arith, tt)
AllDigits-append (x ∷ xs) d h k = (h.0, AllDigits-append xs d h.1 k)

pub print-AllDigits : (fuel n : ℕ) → AllDigits (print fuel n)
unfolding print
print-AllDigits zero n = tt
print-AllDigits (suc fuel) n = elim (Bool-cases (ltb n 10)) [
  | inl small ↦ rw small (ground (arith, small), tt)
  | inr big ↦ rw big (
      AllDigits-append (print fuel (n / 10)) (n % 10) (print-AllDigits fuel (n / 10)) (omega arith))
]

pub digits-print : (fuel n : ℕ) → n < fuel → digits 0 (print fuel n) ≡ (n, [])
unfolding print digits
digits-print zero n h = absurd (omega arith)
digits-print (suc fuel) n h = elim (Bool-cases (ltb n 10)) [
  | inl small ↦ rw small (ground (arith, small))
  | inr big ↦
      let front = digits-print fuel (n / 10) (ground (arith, big)) in
      rw big (
        digits-append 0 (print fuel (n / 10)) ((b'0' + n % 10) ∷ []) (print-AllDigits fuel (n / 10))
        ∙ rw front (ground arith))
]

starts-append : (xs ys : Bytes) → starts_digit xs ≡ true → starts_digit (xs ++ ys) ≡ true
starts-append [] ys h = absurd (cc)
starts-append (x ∷ xs) ys h = h

pub print_starts : (fuel n : ℕ) → n < fuel → starts_digit (print fuel n) ≡ true
unfolding print
print_starts zero n h = absurd (omega arith)
print_starts (suc fuel) n h = elim (Bool-cases (ltb n 10)) [
  | inl small ↦ rw small (ground (arith, small))
  | inr big ↦ rw big (
      starts-append (print fuel (n / 10)) ((b'0' + n % 10) ∷ [])
        (print_starts fuel (n / 10) (ground (arith, big))))
]

pub digit_lem :
    (c : ℕ)
    → is_digit c ≡ true
    → ((c == b'\n') ≡ false)
      × (is_space c ≡ false)
      × ((c == b'-') ≡ false)
      × ((c == b'+') ≡ false)
      × ((c == b'$') ≡ false)
unfolding is_space
digit_lem c h = ground arith

skip_space_done :
    (c : ℕ) (cs : Bytes)
    → (c == b'\n') ≡ false
    → is_space c ≡ false
    → skip_space (c ∷ cs) ≡ some (c ∷ cs)
unfolding skip_space
skip_space_done c cs line space = rw (line, space, skip_space) refl

number-digits :
    (limit n : ℕ) (text : Bytes)
    → starts_digit text ≡ true
    → digits 0 text ≡ (n, [])
    → n < limit
    → number limit text ≡ some (n, [])
unfolding number
number-digits limit n text h e k = rw (h, e, lt→ltb n limit k, number) refl

scan_int-digits :
    (n : ℕ) (text : Bytes)
    → starts_digit text ≡ true
    → digits 0 text ≡ (n, [])
    → n < 2 ^ 63
    → scan_int text ≡ some (pos n)
unfolding scan_int digits
scan_int-digits n [] h e k = absurd (cc)
scan_int-digits n (c ∷ cs) h e k =
    let d = digit_lem c h in
    let skipped : skip_space (c ∷ cs) ≡ some (c ∷ cs) = skip_space_done c cs d.0 d.1 in
    let counted : number (2 ^ 63) (c ∷ cs) ≡ some (n, []) =
      number-digits (2 ^ 63) n (c ∷ cs) h e k in
    rw (skipped, scan_int) (rw (d.2, d.3, counted) refl)

-- What `%d` reads of what `%d` printed.
pub scan_int-decimal : (n : ℕ) → n < 2 ^ 63 → scan_int (decimal n) ≡ some (pos n)
scan_int-decimal n h =
    scan_int-digits n (decimal n) (print_starts (suc n) n (omega arith))
      (digits-print (suc n) n (omega arith)) h
