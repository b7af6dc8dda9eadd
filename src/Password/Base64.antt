-- ===== src/Password/Base64.antt =====
-- `base64.RawStdEncoding`, on lists of bytes.
use merope.Prelude.{
  ℕ, ◌+◌, ◌-◌, ◌*◌, ◌/◌, ◌%◌, ◌<◌, ◌≡◌, refl, ap, ◌∙◌, arith, false, ◌&&◌, ◌||◌, Option, none, some,
  List, [], ◌∷◌, ltb, leb, ◌==◌, if◌then◌else◌, All, map,
}

abbrev pub Bytes : Type 0
Bytes = List ℕ

-- The letter of six bits.
unfoldable pub letter : ℕ → ℕ
letter v =
    if ltb v 26
    then b'A' + v
    else if ltb v 52
    then b'a' + (v - 26)
    else if ltb v 62
    then b'0' + (v - 52)
    else if v == 62
    then b'+'
    else b'/'

-- The six bits of a letter.
unfoldable pub six_bits : ℕ → Option ℕ
six_bits c =
    if leb b'A' c && leb c b'Z'
    then some (c - b'A')
    else if leb b'a' c && leb c b'z'
    then some (c - b'a' + 26)
    else if leb b'0' c && leb c b'9'
    then some (c - b'0' + 52)
    else if c == b'+'
    then some 62
    else if c == b'/'
    then some 63
    else none

-- `EncodeToString`
unfoldable pub encode : Bytes → Bytes
unfolding letter
encode [] = []
encode (a ∷ []) = letter (a / 4) ∷ letter (a % 4 * 16) ∷ []
encode (a ∷ b ∷ []) = letter (a / 4) ∷ letter (a % 4 * 16 + b / 16) ∷ letter (b % 16 * 4) ∷ []
encode (a ∷ b ∷ c ∷ rest) =
    letter (a / 4)
    ∷ letter (a % 4 * 16 + b / 16)
    ∷ letter (b % 16 * 4 + c / 64)
    ∷ letter (c % 64)
    ∷ encode rest

-- The letters as six bits each; line ends are skipped, and any other byte is an error.
unfoldable pub values : Bytes → Option (List ℕ)
unfolding six_bits
values [] = some []
values (c ∷ cs) =
    let rest = values cs in
    if c == b'\n' || c == b'\r' then rest else elim (six_bits c) [
      | none ↦ none
      | some v ↦ elim rest [ none ↦ none | some vs ↦ some (v ∷ vs) ]
    ]

-- Four values are three bytes; a last group of one is an error, and the spare bits of a last group are
-- not looked at.
unfoldable pub join : List ℕ → Option Bytes
join [] = some []
join (p ∷ []) = none
join (p ∷ q ∷ []) = some ((p * 4 + q / 16) ∷ [])
join (p ∷ q ∷ r ∷ []) = some ((p * 4 + q / 16) ∷ (q % 16 * 16 + r / 4) ∷ [])
join (p ∷ q ∷ r ∷ s ∷ rest) = elim (join rest) [
  | none ↦ none
  | some bytes ↦ some ((p * 4 + q / 16) ∷ (q % 16 * 16 + r / 4) ∷ (r % 4 * 64 + s) ∷ bytes)
]

-- `DecodeString`
unfoldable pub decode : Bytes → Option Bytes
unfolding values join
decode text = elim (values text) [ none ↦ none | some vs ↦ join vs ]

abbrev pub IsByte : ℕ → Type 0
IsByte b = b < 256

letter_lem :
    (v : ℕ)
    → v < 64
    → (six_bits (letter v) ≡ some v)
      × ((letter v == b'\n' || letter v == b'\r') ≡ false)
      × ((letter v == b'$') ≡ false)
unfolding letter six_bits
letter_lem v h = ground arith

-- The values that the letters of an encoding stand for.
abbrev pub sixes : Bytes → List ℕ
sixes [] = []
sixes (a ∷ []) = (a / 4) ∷ (a % 4 * 16) ∷ []
sixes (a ∷ b ∷ []) = (a / 4) ∷ (a % 4 * 16 + b / 16) ∷ (b % 16 * 4) ∷ []
sixes (a ∷ b ∷ c ∷ rest) =
    (a / 4) ∷ (a % 4 * 16 + b / 16) ∷ (b % 16 * 4 + c / 64) ∷ (c % 64) ∷ sixes rest

pub encode-map : (bs : Bytes) → encode bs ≡ map letter (sixes bs)
unfolding encode
encode-map [] = refl
encode-map (a ∷ []) = refl
encode-map (a ∷ b ∷ []) = refl
encode-map (a ∷ b ∷ c ∷ rest) = rw (encode-map rest) refl

pub sixes_small : (bs : Bytes) → All IsByte bs → All (λ v. v < 64) (sixes bs)
sixes_small [] h = tt
sixes_small (a ∷ []) h = (omega (arith, h), (omega arith, tt))
sixes_small (a ∷ b ∷ []) h = (omega (arith, h), (omega (arith, h), (omega arith, tt)))
sixes_small (a ∷ b ∷ c ∷ rest) (p, (q, (r, more))) =
    (omega arith, (omega arith, (omega arith, (omega arith, sixes_small rest more))))

values-map : (vs : List ℕ) → All (λ v. v < 64) vs → values (map letter vs) ≡ some vs
unfolding values
values-map [] h = refl
values-map (v ∷ vs) h =
    let l = letter_lem v h.0 in rw (values, l.1) (rw (l.0, values-map vs h.1) refl)

join-sixes : (bs : Bytes) → All IsByte bs → join (sixes bs) ≡ some bs
unfolding join
join-sixes [] h = refl
join-sixes (a ∷ []) h = ground arith
join-sixes (a ∷ b ∷ []) (p, (q, h)) = ground arith
join-sixes (a ∷ b ∷ c ∷ rest) (p, (q, (r, more))) = rw (join-sixes rest more) (ground arith)

-- What `DecodeString` makes of what `EncodeToString` wrote.
pub decode-encode : (bs : Bytes) → All IsByte bs → decode (encode bs) ≡ some bs
unfolding decode
decode-encode bs h =
    ap decode (encode-map bs)
    ∙ rw (values-map (sixes bs) (sixes_small bs h), decode) (join-sixes bs h)

-- No letter is the separator `$`.
pub encode_plain : (bs : Bytes) → All IsByte bs → All (λ c. (c == b'$') ≡ false) (encode bs)
encode_plain bs h = rw (encode-map bs) (letters (sixes bs) (sixes_small bs h))
  where
    letters : (vs : List ℕ) → All (λ v. v < 64) vs → All (λ c. (c == b'$') ≡ false) (map letter vs)
    letters [] h = tt
    letters (v ∷ vs) h = ((letter_lem v h.0).2, letters vs h.1)
