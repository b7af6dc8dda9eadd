-- ===== src/Finance/Tests.antt =====
-- The finance theorems at a small set of tables.
use merope.Prelude.{
  ℕ, ◌≡◌, refl, ◌≢◌, true, false, Option, none, some, List, [], ◌∷◌, arith, ◌==◌, if◌then◌else◌,
  String,
}
use merope.Prelude.Int.{pos, ◌+ℤ◌, ◌-ℤ◌}
use merope.Prelude.Text.{str_eq}
use merope.Prelude.Outcome.{Result, ok}
use merope.Finance.Store.{
  Store, Escrow, debit, credit, settle, find_escrow, find_wallet, insert_escrow, in_int64,
}
use merope.Finance.Env.{Error, Error, Env, Faults, done, finish, parse_finance_uuid, to_db_amount}
use merope.Finance.Transfers.{transfer, transfer_body}
use merope.Finance.Escrows.{
  create_escrow, create_body, get_escrow, release_escrow, refund_escrow, release_body, refund_body,
}
use merope.Finance.Reads.{of_user, scan_rows, get_user_transactions}
use merope.Finance.Service
use merope.Finance.Bodies.{Keeps}
use merope.Finance.Calls.{Op, execute, run}
use merope.Finance.Conservation.{run-Keeps}
use merope.Finance.Settled.{has}
use merope.Finance.Once.{releasing, refunding, settle_call, settled_once}
use merope.Finance.Effects.{Moved, transfer_moves}
use merope.Finance.Authorization.{release_needs_buyer}

abbrev ids : String → Option ℕ
ids v =
    if str_eq v "ana"
    then some 1
    else if str_eq v "bob"
    then some 2
    else if str_eq v "e9"
    then some 9
    else none

abbrev names : ℕ → String
names n = if n == 1 then "ana" else "bob"

abbrev env : Env
env = record { has_pool = true; scan_uuid = ids }

abbrev up : Faults
up = record { begin = true; first = true; second = true; third = true; commit = done }

abbrev held_escrow : Escrow
held_escrow = record {
  buyer_id = 1;
  seller_id = 2;
  amount = pos 30;
  status = "held";
  description = "";
}

abbrev tables : Store
tables = record {
  wallets = (1, pos 100) ∷ (2, pos 5) ∷ [];
  escrows = (9, held_escrow) ∷ [];
  transactions = [];
}

abbrev author : String → Result Error (Option String)
author p = ok (some "bob")

abbrev calls : List Op
calls =
    Op.transfer_funds up "ana" "bob" (pos 40)
    ∷ Op.tip_user (record up { second = false }) "ana" "bob" (pos 1)
    ∷ Op.unlock_content up "ana" "post" (pos 10)
    ∷ Op.initiate_escrow up 7
        (record { buyer_id = "bob"; seller_id = "ana"; amount = pos 20; description = "" })
    ∷ Op.release_escrow up up "e9" "ana"
    ∷ []

program : Unit {0}
unfolding debit credit settle find_escrow find_wallet insert_escrow finish parse_finance_uuid
    to_db_amount transfer transfer_body create_escrow create_body get_escrow release_escrow
    refund_escrow release_body refund_body Service.transfer_funds Service.tip_user
    Service.unlock_content Service.initiate_escrow Service.release Service.refund execute run ◌+ℤ◌
    ◌-ℤ◌ of_user scan_rows get_user_transactions in_int64 has
program = tt

run_test : (run env author names calls tables).wallets ≡ (1, pos 50) ∷ (2, pos 65) ∷ []
unfolding program
run_test = refl

run-Keeps_example : Keeps tables (run env author names calls tables)
run-Keeps_example =
    run-Keeps env author names calls tables
      (record { covered = omega arith; positive = omega arith })

settled_once_example :
    let t = run env author names calls (settle_call releasing env up "e9" tables).1 in
    ((settle_call refunding env up "e9" t).0 ≢ ok tt)
    × ((settle_call refunding env up "e9" t).1 ≡ t)
unfolding program
settled_once_example =
    settled_once env author names releasing refunding up up "e9" 9 calls tables refl (refl, tt) refl

transfer_moves_example :
    let (r, t) = transfer env up "ana" " bob" (pos 40) "tip" none none tables in
    (r ≡ ok tt)
    × Moved 1 2 (pos 40) (pos 100) (pos 5) tables.wallets t.wallets
    × (t.escrows ≡ tables.escrows)
unfolding program
transfer_moves_example =
    transfer_moves env up "ana" " bob" 1 2 (pos 40) (pos 100) (pos 5) "tip" none none tables
      (refl, refl, refl, refl, refl) refl refl refl refl (omega arith) refl refl (omega arith)
      (omega arith) refl

release_needs_buyer_example :
    (x : Escrow) × (get_escrow env up "e9" tables ≡ ok x)
    × (names x.buyer_id ≡ "ana")
    × (x.status ≡ "held")
unfolding program
release_needs_buyer_example = release_needs_buyer names env up up "e9" "ana" tables refl
