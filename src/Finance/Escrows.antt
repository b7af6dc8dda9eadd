-- ===== src/Finance/Escrows.antt =====
-- The escrow methods of backend/internal/modules/finance/infra/postgres_repository.go.
use merope.Prelude.{ℕ, String, not, ◌∷◌}
use merope.Prelude.Int.{ℤ, pos, leb_ℤ}
use merope.Prelude.Text.{str_eq}
use merope.Prelude.Outcome.{Result, ok, ◌>>=◌, ◌>>◌, fail_if}
use merope.Finance.Store.{
  Store, Escrow, Transaction, debit, credit, settle, find_escrow, insert_escrow, set_status,
}
use merope.Finance.Env.{
  Error, same_parties, pool_required, invalid_uuid, begin_failed, insufficient_balance,
  statement_failed, invalid_escrow, not_releasable, not_refundable, seller_not_found,
  buyer_not_found, not_found, Faults, Env, ask, scan, finish, from_option, parse_finance_uuid,
  to_db_amount,
}

-- `CreateEscrow` between `Begin` and `Commit`. `id` is what the server generates.
unfoldable pub create_body : Faults → ℕ → Escrow → Store → Result Error Store
create_body f id e s = do
  reserved ← scan insufficient_balance (ask f.first (debit e.buyer_id e.amount s.wallets))
  inserted ← scan statement_failed (ask f.second (insert_escrow id e s.escrows))
  ok (record s { wallets = reserved; escrows = inserted })

-- The fields of `*domain.EscrowRecord` that the repository reads.
pub record EscrowRequest : Type 0 where
  pub buyer_id : String
  pub seller_id : String
  pub amount : ℤ
  pub description : String

unfoldable pub create_escrow :
    Env → Faults → ℕ → EscrowRequest → Store → Result Error (Unit {0}) × Store
create_escrow env f id request s = finish f s (do
  fail_if (leb_ℤ request.amount (pos 0)) invalid_escrow
  fail_if (str_eq request.buyer_id request.seller_id) same_parties
  fail_if (not env.has_pool) pool_required
  bid ← parse_finance_uuid env request.buyer_id
  sid ← parse_finance_uuid env request.seller_id
  amount_db ← to_db_amount request.amount
  fail_if (not f.begin) begin_failed
  create_body f id
      (record {
        buyer_id = bid;
        seller_id = sid;
        amount = amount_db;
        status = "held";
        description = request.description;
      })
      s)

-- `GetEscrow` does not trim the id.
unfoldable pub get_escrow : Env → Faults → String → Store → Result Error Escrow
get_escrow env f id s = do
  eid ← from_option invalid_uuid (env.scan_uuid id)
  scan not_found (ask f.first (find_escrow eid s.escrows))

-- `UpdateEscrowStatus`, an UPDATE outside any transaction.
unfoldable pub update_escrow_status :
    Env → Faults → String → String → Store → Result Error (Unit {0}) × Store
update_escrow_status env f id status s = finish f s (do
  eid ← from_option invalid_uuid (env.scan_uuid id)
  fail_if (not f.first) statement_failed
  ok (record s { escrows = set_status status eid s.escrows }))

-- The row that settles an escrow in the table of transactions.
abbrev pub settlement : ℕ → ℕ → ℤ → String → String → Transaction
settlement sender receiver amount kind reference = record {
  sender_wallet_id = sender;
  receiver_wallet_id = receiver;
  amount = amount;
  tx_type = kind;
  reference = reference;
}

-- `ReleaseEscrow` between `Begin` and `Commit`. The amount of an escrow is an INTEGER column (`EscrowRecord` of
-- backend/internal/database/db/models.go), so that its scan into an int32 does not fail.
unfoldable pub release_body : Faults → ℕ → String → Store → Result Error Store
release_body f eid reference s = do
  (e, settled) ← scan not_releasable (ask f.first (settle "released" eid s.escrows))
  credited ← scan seller_not_found (ask f.second (credit e.seller_id e.amount s.wallets))
  fail_if (not f.third) statement_failed
  ok (record s {
    wallets = credited;
    escrows = settled;
    transactions =
        settlement e.buyer_id e.seller_id e.amount "escrow_release" reference ∷ s.transactions;
  })

-- `RefundEscrow` between `Begin` and `Commit`.
unfoldable pub refund_body : Faults → ℕ → String → Store → Result Error Store
refund_body f eid reference s = do
  (e, settled) ← scan not_refundable (ask f.first (settle "refunded" eid s.escrows))
  credited ← scan buyer_not_found (ask f.second (credit e.buyer_id e.amount s.wallets))
  fail_if (not f.third) statement_failed
  ok (record s {
    wallets = credited;
    escrows = settled;
    transactions =
        settlement e.seller_id e.buyer_id e.amount "escrow_refund" reference ∷ s.transactions;
  })

unfoldable pub release_escrow : Env → Faults → String → Store → Result Error (Unit {0}) × Store
release_escrow env f escrow_id s = finish f s (do
  fail_if (not env.has_pool) pool_required
  eid ← parse_finance_uuid env escrow_id
  fail_if (not f.begin) begin_failed
  release_body f eid escrow_id s)

unfoldable pub refund_escrow : Env → Faults → String → Store → Result Error (Unit {0}) × Store
refund_escrow env f escrow_id s = finish f s (do
  fail_if (not env.has_pool) pool_required
  eid ← parse_finance_uuid env escrow_id
  fail_if (not f.begin) begin_failed
  refund_body f eid escrow_id s)
