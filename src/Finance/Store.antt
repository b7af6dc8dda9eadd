-- ===== src/Finance/Store.antt =====
-- The tables behind backend/internal/modules/finance/infra/postgres_repository.go, and the
-- statements that the repository sends to them. A statement returns its row, finds no row
-- (`pgx.ErrNoRows`), or fails. `user_id` and `id` are primary keys.
use merope.Prelude.{ℕ, ◌^◌, ◌-◌, String, Bool, ◌&&◌, List, [], ◌∷◌, if◌then◌else◌, ◌==◌}
use merope.Prelude.Int.{ℤ, pos, negsuc, ◌+ℤ◌, ◌-ℤ◌, leb_ℤ}
use merope.Prelude.Text.{str_eq}

pub record Escrow : Type 0 where
  pub buyer_id : ℕ
  pub seller_id : ℕ
  pub amount : ℤ
  pub status : String
  pub description : String

pub record Transaction : Type 0 where
  pub sender_wallet_id : ℕ
  pub receiver_wallet_id : ℕ
  pub amount : ℤ
  pub tx_type : String
  pub reference : String

abbrev pub Wallets : Type 0
Wallets = List (ℕ × ℤ)

abbrev pub Escrows : Type 0
Escrows = List (ℕ × Escrow)

pub record Store : Type 0 where
  pub wallets : Wallets
  pub escrows : Escrows
  pub transactions : List Transaction

-- `tx.QueryRow(...).Scan(...)`
pub data Reply {ℓ} (A : Type ℓ) : Type ℓ where
  row : A → Reply A
  no_rows : Reply A
  failed : Reply A

unfoldable pub map_row {ℓ} : {A B : Type ℓ} → (A → B) → Reply A → Reply B
map_row f (row a) = row (f a)
map_row f no_rows = no_rows
map_row f failed = failed

-- The range of BIGINT, and of `int64`.
unfoldable pub in_int64 : ℤ → Bool
in_int64 z = leb_ℤ (negsuc (2 ^ 63 - 1)) z && leb_ℤ z (pos (2 ^ 63 - 1))

-- UPDATE wallets SET balance = balance - $2 WHERE user_id = $1 AND balance >= $2
unfoldable pub debit : ℕ → ℤ → Wallets → Reply Wallets
unfolding map_row
debit user amount [] = no_rows
debit user amount ((id, balance) ∷ rest) =
    let below = map_row (◌∷◌ (id, balance)) (debit user amount rest) in
    if (id == user) && leb_ℤ amount balance then row ((id, balance -ℤ amount) ∷ rest) else below

-- UPDATE wallets SET balance = balance + $2 WHERE user_id = $1. A sum out of range fails.
unfoldable pub credit : ℕ → ℤ → Wallets → Reply Wallets
unfolding map_row in_int64
credit user amount [] = no_rows
credit user amount ((id, balance) ∷ rest) =
    let below = map_row (◌∷◌ (id, balance)) (credit user amount rest) in
    if id == user
    then (if in_int64 (balance +ℤ amount) then row ((id, balance +ℤ amount) ∷ rest) else failed)
    else below

-- UPDATE escrow_records SET status = $s WHERE id = $1 AND status = 'held'
-- RETURNING buyer_id, seller_id, amount
unfoldable pub settle : String → ℕ → Escrows → Reply (Escrow × Escrows)
unfolding map_row
settle status key [] = no_rows
settle status key ((id, e) ∷ rest) =
    let below = map_row (λ (r : Escrow × Escrows). (r.0, (id, e) ∷ r.1)) (settle status key rest) in
    if (id == key) && str_eq e.status "held"
    then row (e, (id, record e { status = status }) ∷ rest)
    else below

-- SELECT ... FROM escrow_records WHERE id = $1
unfoldable pub find_escrow : ℕ → Escrows → Reply Escrow
find_escrow key [] = no_rows
find_escrow key ((id, e) ∷ rest) = if id == key then row e else find_escrow key rest

-- SELECT ... FROM wallets WHERE user_id = $1
unfoldable pub find_wallet : ℕ → Wallets → Reply ℤ
find_wallet key [] = no_rows
find_wallet key ((id, balance) ∷ rest) = if id == key then row balance else find_wallet key rest

-- INSERT INTO escrow_records ..., which fails on a second row with the same id.
unfoldable pub insert_escrow : ℕ → Escrow → Escrows → Reply Escrows
unfolding map_row
insert_escrow key e [] = row ((key, e) ∷ [])
insert_escrow key e ((id, d) ∷ rest) =
    let below = map_row (◌∷◌ (id, d)) (insert_escrow key e rest) in
    if id == key then failed else below

-- UPDATE escrow_records SET status = $2 WHERE id = $1
unfoldable pub set_status : String → ℕ → Escrows → Escrows
set_status status key [] = []
set_status status key ((id, e) ∷ rest) =
    let below = set_status status key rest in
    if id == key then (id, record e { status = status }) ∷ rest else (id, e) ∷ below
