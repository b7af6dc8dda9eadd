-- ===== src/Finance/Transfers.antt =====
-- `Transfer` of backend/internal/modules/finance/infra/postgres_repository.go.
use merope.Prelude.{ℕ, String, not, Option, ◌∷◌}
use merope.Prelude.Int.{ℤ, pos, leb_ℤ}
use merope.Prelude.Text.{str_eq}
use merope.Prelude.Outcome.{Result, ok, ◌>>=◌, ◌>>◌, fail_if}
use merope.Finance.Store.{Store, debit, credit}
use merope.Finance.Env.{
  Error, amount_not_positive, same_parties, pool_required, begin_failed, insufficient_balance,
  receiver_not_found, statement_failed, Faults, Env, ask, scan, finish, parse_finance_uuid,
  transaction_reference,
}

-- The statements of `Transfer` between `Begin` and `Commit`.
unfoldable pub transfer_body : Faults → ℕ → ℕ → ℤ → String → String → Store → Result Error Store
transfer_body f sid rid amount kind reference s = do
  debited ← scan insufficient_balance (ask f.first (debit sid amount s.wallets))
  credited ← scan receiver_not_found (ask f.second (credit rid amount debited))
  fail_if (not f.third) statement_failed
  ok (record s {
    wallets = credited;
    transactions =
        record {
          sender_wallet_id = sid;
          receiver_wallet_id = rid;
          amount = amount;
          tx_type = kind;
          reference = reference;
        }
        ∷ s.transactions;
  })

unfoldable pub transfer :
    Env
    → Faults
    → String
    → String
    → ℤ
    → String
    → Option String
    → Option String
    → Store
    → Result Error (Unit {0}) × Store
transfer env f sender_id receiver_id amount kind entity_type entity_id s = finish f s (do
  fail_if (leb_ℤ amount (pos 0)) amount_not_positive
  fail_if (str_eq sender_id receiver_id) same_parties
  fail_if (not env.has_pool) pool_required
  sid ← parse_finance_uuid env sender_id
  rid ← parse_finance_uuid env receiver_id
  fail_if (not f.begin) begin_failed
  transfer_body f sid rid amount kind (transaction_reference entity_type entity_id) s)
