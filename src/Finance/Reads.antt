-- ===== src/Finance/Reads.antt =====
-- The reading methods of backend/internal/modules/finance/infra/postgres_repository.go.
use merope.Prelude.{
  ℕ, ◌^◌, ◌-◌, String, Bool, not, ◌&&◌, ◌||◌, List, [], ◌∷◌, if◌then◌else◌, ◌==◌, take, drop,
}
use merope.Prelude.Int.{ℤ, pos, negsuc, ltb_ℤ, leb_ℤ, pos_part}
use merope.Prelude.Outcome.{Result, ok, err, ◌>>=◌, ◌>>◌, fail_if}
use merope.Finance.Store.{Store, Transaction, find_wallet}
use merope.Finance.Env.{
  Error, pool_required, invalid_uuid, statement_failed, not_found, Faults, Env, ask, scan,
  from_option, parse_finance_uuid,
}

-- A BIGINT that is scanned into an `int32` must fit.
abbrev pub in_int32 : ℤ → Bool
in_int32 z = leb_ℤ (negsuc (2 ^ 31 - 1)) z && leb_ℤ z (pos (2 ^ 31 - 1))

abbrev pub scan_int32 : ℤ → Result Error ℤ
scan_int32 z = if in_int32 z then ok z else err statement_failed

-- The balance that `GetWallet` returns. It does not trim the id.
unfoldable pub get_wallet : Env → Faults → String → Store → Result Error ℤ
get_wallet env f user_id s = do
  uid ← from_option invalid_uuid (env.scan_uuid user_id)
  balance ← scan not_found (ask f.first (find_wallet uid s.wallets))
  scan_int32 balance

-- The rows of a user, in the order of the table: newest first.
unfoldable pub of_user : ℕ → List Transaction → List Transaction
of_user uid [] = []
of_user uid (t ∷ ts) =
    let rest = of_user uid ts in
    if (t.sender_wallet_id == uid) || (t.receiver_wallet_id == uid) then t ∷ rest else rest

-- The loop over `rows`, which scans each amount into an `int32`.
unfoldable pub scan_rows : List Transaction → Result Error (List Transaction)
scan_rows [] = ok []
scan_rows (t ∷ ts) = do
  amount ← scan_int32 t.amount
  rest ← scan_rows ts
  ok (record t { amount = amount } ∷ rest)

unfoldable pub clamp_limit : ℤ → ℕ
clamp_limit limit =
    if leb_ℤ limit (pos 0) then 25 else if ltb_ℤ (pos 100) limit then 100 else pos_part limit

unfoldable pub get_user_transactions :
    Env → Faults → String → ℤ → ℤ → Store → Result Error (List Transaction)
unfolding clamp_limit
get_user_transactions env f user_id limit offset s = do
  fail_if (not env.has_pool) pool_required
  uid ← parse_finance_uuid env user_id
  fail_if (not f.first) statement_failed
  scan_rows (take (clamp_limit limit) (drop (pos_part offset) (of_user uid s.transactions)))
