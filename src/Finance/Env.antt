-- ===== src/Finance/Env.antt =====
-- The errors of backend/internal/modules/finance, and what postgres_repository.go in its infra
-- folder needs of Postgres and the driver. What they do besides the statements is a parameter of
-- each call: whether `Begin` and each statement reach the server, and how the commit ends.
use merope.Prelude.{ℕ, ◌^◌, ◌-◌, String, Bool, true, false, ◌||◌, Option, none, some, if◌then◌else◌}
use merope.Prelude.Int.{ℤ, pos, negsuc, ltb_ℤ}
use merope.Prelude.Text.{is_empty, trim_space, str_append}
use merope.Prelude.Outcome.{Result, ok, err}
use merope.Finance.Store.{Store, Reply, row, no_rows, failed}

-- One constructor for each error that the module returns.
pub data Error : Type 0 where
  amount_not_positive same_parties pool_required invalid_uuid begin_failed : Error
  insufficient_balance receiver_not_found statement_failed commit_failed : Error
  invalid_escrow amount_out_of_range not_releasable not_refundable seller_not_found : Error
  buyer_not_found not_found : Error
  invalid_transfer invalid_participants only_buyer only_seller post_not_found : Error

-- `lost`: an error, and nothing is written. `unclear`: an error, though the server committed.
pub data Commit : Type 0 where
  done lost unclear : Commit

pub record Faults : Type 0 where
  pub begin : Bool
  pub first : Bool
  pub second : Bool
  pub third : Bool
  pub commit : Commit

-- The repository's handle: `pool != nil`, and `pgtype.UUID.Scan` (`none` is its error).
pub record Env : Type 0 where
  pub has_pool : Bool
  pub scan_uuid : String → Option ℕ

-- A statement that does not reach the server, or whose connection breaks, fails.
abbrev pub ask : {A : Type 0} → Bool → Reply A → Reply A
ask true r = r
ask false r = failed

-- `if err == pgx.ErrNoRows { return missing }; return err`
abbrev pub scan : {A : Type 0} → Error → Reply A → Result Error A
scan missing (row a) = ok a
scan missing no_rows = err missing
scan missing failed = err statement_failed

-- `tx.Commit(ctx)` after the body of a transaction, and the deferred `tx.Rollback(ctx)`.
abbrev pub end_with : Commit → Store → Store → Result Error (Unit {0}) × Store
end_with done old new = (ok tt, new)
end_with lost old new = (err commit_failed, old)
end_with unclear old new = (err commit_failed, new)

-- The server forgets a transaction that is rolled back.
unfoldable pub finish : Faults → Store → Result Error Store → Result Error (Unit {0}) × Store
finish f old (err e) = (err e, old)
finish f old (ok new) = end_with f.commit old new

abbrev pub from_option : {A : Type 0} → Error → Option A → Result Error A
from_option e none = err e
from_option e (some a) = ok a

unfoldable pub parse_finance_uuid : Env → String → Result Error ℕ
unfolding trim_space
parse_finance_uuid env value = from_option invalid_uuid (env.scan_uuid (trim_space value))

unfoldable pub to_db_amount : ℤ → Result Error ℤ
to_db_amount amount =
    if ltb_ℤ amount (negsuc (2 ^ 31 - 1)) || ltb_ℤ (pos (2 ^ 31 - 1)) amount
    then err amount_out_of_range
    else ok amount

unfoldable pub transaction_reference : Option String → Option String → String
unfolding trim_space
transaction_reference (some kind) (some key) =
    if is_empty (trim_space key)
    then ""
    else str_append (trim_space kind) (str_append ":" (trim_space key))
transaction_reference _ _ = ""
