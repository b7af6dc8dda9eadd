-- ===== src/Finance/Money.antt =====
-- The money in the tables: wallet balances, and what held escrows have reserved. How each statement
-- of the finance repository moves it.
use merope.Prelude.{
  ℕ, String, ◌≡◌, true, false, ◌&&◌, [], ◌∷◌, arith, if◌then◌else◌, ◌==◌, All, Bool-cases, inl, inr,
}
use merope.Prelude.Int.{ℤ, pos, ◌+ℤ◌, ◌-ℤ◌, ◌≤ℤ◌, leb_ℤ, int_laws}
use merope.Prelude.Text.{str_eq}
use merope.Finance.Store.{
  Store, Escrow, Wallets, Escrows, Reply, row, no_rows, failed, map_row, debit, credit, settle,
  insert_escrow, in_int64,
}

-- Whether `P` holds of the row, if there is one.
abbrev pub OnRow {κ} : {A : Type 0} → (A → Type κ) → Reply A → Type κ
OnRow P (row a) = P a
OnRow P no_rows = Unit
OnRow P failed = Unit

-- A statement that skips a row does to the others what it does without that row.
pub OnRow-map_row {κ} :
    {A B : Type 0} (P : A → Type κ) (Q : B → Type κ) (f : A → B) (r : Reply A)
    → ((a : A) → P a → Q (f a))
    → OnRow P r
    → OnRow Q (map_row f r)
unfolding map_row
OnRow-map_row P Q f (row a) step h = step a h
OnRow-map_row P Q f no_rows step h = tt
OnRow-map_row P Q f failed step h = tt

pub OnRow-row {κ} :
    {A : Type 0} (P : A → Type κ) (r : Reply A) {a : A} → OnRow P r → r ≡ row a → P a
OnRow-row P r h e = rw e at h

-- The sum of the balances.
abbrev pub balances : Wallets → ℤ
balances [] = pos 0
balances ((_, b) ∷ ws) = b +ℤ balances ws

abbrev pub reserved : Escrow → ℤ
reserved e = if str_eq e.status "held" then e.amount else pos 0

-- The sum of the amounts of the held escrows.
abbrev pub held : Escrows → ℤ
held [] = pos 0
held ((_, e) ∷ es) = reserved e +ℤ held es

abbrev pub total : Store → ℤ
total s = balances s.wallets +ℤ held s.escrows

-- No balance is negative.
abbrev pub IsCovered : Wallets → Type 0
IsCovered = All (λ w. pos 0 ≤ℤ w.1)

-- Every escrow has a positive amount.
abbrev pub IsPositive : Escrows → Type 0
IsPositive = All (λ e. pos 1 ≤ℤ e.1.amount)

-- Sums of which one part is given.
debit_below : (b x y a : ℤ) → x +ℤ a ≡ y → b +ℤ x +ℤ a ≡ b +ℤ y
debit_below b x y a h = rw (← h) (omega int_laws)

credit_below : (b x y a : ℤ) → x ≡ y +ℤ a → b +ℤ x ≡ b +ℤ y +ℤ a
credit_below b x y a h = rw h (omega int_laws)

abbrev pub Debits : ℤ → Wallets → Wallets → Type 0
Debits a ws ws' = balances ws' +ℤ a ≡ balances ws

abbrev pub Credits : ℤ → Wallets → Wallets → Type 0
Credits a ws ws' = balances ws' ≡ balances ws +ℤ a

-- `debit` takes exactly the amount.
pub debit-OnRow : (u : ℕ) (a : ℤ) (ws : Wallets) → OnRow (Debits a ws) (debit u a ws)
unfolding debit
debit-OnRow u a [] = tt
debit-OnRow u a ((id, b) ∷ ws) = elim (Bool-cases ((id == u) && leb_ℤ a b)) [
  | inl hit ↦ rw hit (omega int_laws)
  | inr miss ↦ rw miss (
      OnRow-map_row (Debits a ws) _ _ (debit u a ws)
        (λ ws' h. debit_below b (balances ws') (balances ws) a h) (debit-OnRow u a ws))
]

pub debit-IsCovered : (u : ℕ) (a : ℤ) (ws : Wallets) → IsCovered ws → OnRow IsCovered (debit u a ws)
unfolding debit
debit-IsCovered u a [] h = tt
debit-IsCovered u a ((id, b) ∷ ws) h = elim (Bool-cases ((id == u) && leb_ℤ a b)) [
  | inl hit ↦ rw hit (debited hit, h.1)
  | inr miss ↦
      rw miss (
        OnRow-map_row IsCovered _ _ (debit u a ws) (λ ws' k. (h.0, k)) (debit-IsCovered u a ws h.1))
]
  where
    debited : ((id == u) && leb_ℤ a b) ≡ true → pos 0 ≤ℤ b -ℤ a
    debited e = grind int_laws

-- `credit` adds exactly the amount.
pub credit-OnRow : (u : ℕ) (a : ℤ) (ws : Wallets) → OnRow (Credits a ws) (credit u a ws)
unfolding credit
credit-OnRow u a [] = tt
credit-OnRow u a ((id, b) ∷ ws) = elim (Bool-cases (id == u)) [
  | inl hit ↦ elim (Bool-cases (in_int64 (b +ℤ a))) [
    | inl fits ↦ rw (hit, fits) (omega int_laws)
    | inr over ↦ rw (hit, over) tt
  ]
  | inr miss ↦ rw miss (
      OnRow-map_row (Credits a ws) _ _ (credit u a ws)
        (λ ws' h. credit_below b (balances ws') (balances ws) a h) (credit-OnRow u a ws))
]

pub credit-IsCovered :
    (u : ℕ) (a : ℤ) (ws : Wallets) → pos 0 ≤ℤ a → IsCovered ws → OnRow IsCovered (credit u a ws)
unfolding credit
credit-IsCovered u a [] p h = tt
credit-IsCovered u a ((id, b) ∷ ws) p h = elim (Bool-cases (id == u)) [
  | inl hit ↦ elim (Bool-cases (in_int64 (b +ℤ a))) [
    | inl fits ↦ rw (hit, fits) (credited h.0, h.1)
    | inr over ↦ rw (hit, over) tt
  ]
  | inr miss ↦ rw miss (
      OnRow-map_row IsCovered _ _ (credit u a ws) (λ ws' k. (h.0, k))
        (credit-IsCovered u a ws p h.1))
]
  where
    credited : pos 0 ≤ℤ b → pos 0 ≤ℤ b +ℤ a
    credited e = omega int_laws

-- What `settle` does: the row was held, and its amount is no longer reserved.
pub record Settles (es : Escrows) (r : Escrow × Escrows) : Type 0 where
  pub was_held : str_eq r.0.status "held" ≡ true
  pub freed : held es ≡ held r.1 +ℤ r.0.amount
  pub positive : IsPositive es → (pos 1 ≤ℤ r.0.amount) × IsPositive r.1

pub settle-OnRow :
    (status : String) (key : ℕ) (es : Escrows)
    → str_eq status "held" ≡ false
    → OnRow (Settles es) (settle status key es)
unfolding settle
settle-OnRow status key [] out = tt
settle-OnRow status key ((id, e) ∷ es) out =
    elim (Bool-cases ((id == key) && str_eq e.status "held")) [
      | inl hit ↦ rw hit (record {
        was_held = ground arith;
        freed =
            let is_held : str_eq e.status "held" ≡ true = ground arith in
            rw (is_held, out) (omega int_laws);
        positive = λ p. (p.0, p);
      })
      | inr miss ↦ rw miss (
          OnRow-map_row (Settles es) _ _ (settle status key es)
            (λ r (h : Settles es r). record {
              was_held = h.was_held;
              freed = credit_below (reserved e) (held es) (held r.1) r.0.amount h.freed;
              positive = λ p. let q = h.positive p.1 in (q.0, (p.0, q.1));
            })
            (settle-OnRow status key es out))
    ]

pub insert-OnRow :
    (key : ℕ) (e : Escrow) (es : Escrows)
    → pos 1 ≤ℤ e.amount
    → OnRow
        (λ es'. (held es' ≡ held es +ℤ reserved e) × (IsPositive es → IsPositive es'))
        (insert_escrow key e es)
unfolding insert_escrow
insert-OnRow key e [] p = (omega int_laws, λ _. (p, tt))
insert-OnRow key e ((id, d) ∷ es) p = elim (Bool-cases (id == key)) [
  | inl hit ↦ rw hit tt
  | inr miss ↦ rw miss (
      OnRow-map_row (λ es'. (held es' ≡ held es +ℤ reserved e) × (IsPositive es → IsPositive es')) _
        _ (insert_escrow key e es)
        (λ es' h.
          (credit_below (reserved d) (held es') (held es) (reserved e) h.0, λ q. (q.0, h.1 q.1)))
        (insert-OnRow key e es p))
]

pub OnRow-both :
    {A : Type 0} (P Q : A → Type 0) (r : Reply A) → OnRow P r → OnRow Q r → OnRow (λ a. P a × Q a) r
OnRow-both P Q (row a) x y = (x, y)
OnRow-both P Q no_rows x y = tt
OnRow-both P Q failed x y = tt

-- A debit takes its amount and overdraws nobody.
pub debit_law :
    (u : ℕ) (a : ℤ) (ws : Wallets)
    → IsCovered ws
    → OnRow (λ ws'. Debits a ws ws' × IsCovered ws') (debit u a ws)
debit_law u a ws h = OnRow-both _ _ (debit u a ws) (debit-OnRow u a ws) (debit-IsCovered u a ws h)

-- A credit adds its amount and overdraws nobody.
pub credit_law :
    (u : ℕ) (a : ℤ) (ws : Wallets)
    → pos 0 ≤ℤ a
    → IsCovered ws
    → OnRow (λ ws'. Credits a ws ws' × IsCovered ws') (credit u a ws)
credit_law u a ws p h =
    OnRow-both _ _ (credit u a ws) (credit-OnRow u a ws) (credit-IsCovered u a ws p h)
