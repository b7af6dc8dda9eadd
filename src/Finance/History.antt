-- ===== src/Finance/History.antt =====
-- What `GetUserTransactions` of the finance repository returns.
use merope.Prelude.{
  ℕ, suc, ◌≤◌, String, ◌≡◌, refl, ◌⊎◌, inl, inr, Bool, true, false, not, ◌||◌, List, [], ◌∷◌, arith,
  ◌==◌, length, take, drop, All, Bool-cases, length-take, All-drop, All-take, zero,
}
use merope.Prelude.Int.{ℤ, pos, pos_part}
use merope.Prelude.Outcome.{ok, err, ◌>>◌, fail_if, >>=-eq-ok, fail_if-eq-ok}
use merope.Finance.Store.{Store, Transaction}
use merope.Finance.Env.{statement_failed, Env, Faults, parse_finance_uuid}
use merope.Finance.Transfers.{transfer_body}
use merope.Finance.OnOk.{OnOk, OnOk-ok, OnOk-scan, OnOk-guard}
use merope.Finance.Settlement.{OnRow-any}
use merope.Finance.Reads.{
  in_int32, scan_int32, of_user, scan_rows, clamp_limit, get_user_transactions,
}

abbrev pub IsOf : ℕ → Transaction → Type 0
IsOf uid t = ((t.sender_wallet_id == uid) || (t.receiver_wallet_id == uid)) ≡ true

of_user-IsOf : (uid : ℕ) (ts : List Transaction) → All (IsOf uid) (of_user uid ts)
unfolding of_user
of_user-IsOf uid [] = tt
of_user-IsOf uid (t ∷ ts) =
    elim (Bool-cases ((t.sender_wallet_id == uid) || (t.receiver_wallet_id == uid))) [
      | inl own ↦ rw own (own, of_user-IsOf uid ts)
      | inr other ↦ rw other (of_user-IsOf uid ts)
    ]

scan_int32-eq : (a b : ℤ) → scan_int32 a ≡ ok b → b ≡ a
scan_int32-eq a b h = ground arith

-- The loop over the rows returns them as they are.
scan_rows-eq : (ts : List Transaction) {us : List Transaction} → scan_rows ts ≡ ok us → us ≡ ts
unfolding scan_rows
scan_rows-eq [] h = cc
scan_rows-eq (t ∷ ts) {us} h =
    let (a, fits, rest) = >>=-eq-ok (scan_int32 t.amount) _ h in
    let (vs, tail, e) = >>=-eq-ok (scan_rows ts) _ rest in
    cc (scan_int32-eq t.amount a fits, scan_rows-eq ts tail, e)

clamp_limit_bounds : (limit : ℤ) → (1 ≤ clamp_limit limit) × (clamp_limit limit ≤ 100)
unfolding clamp_limit
clamp_limit_bounds limit = ground arith

-- Whatever limit and offset are asked for, a page that comes back has at most 100 transactions, and
-- the user is the sender or the receiver of each.
pub page_bounds :
    (env : Env) (f : Faults) (user_id : String) (uid : ℕ) (limit offset : ℤ) (s : Store)
    {page : List Transaction}
    → parse_finance_uuid env user_id ≡ ok uid
    → get_user_transactions env f user_id limit offset s ≡ ok page
    → (length page ≤ 100) × All (IsOf uid) page
unfolding get_user_transactions
page_bounds env f user_id uid limit offset s {page} parsed h =
    let (_, queried) = fail_if-eq-ok _ _ _ (rw parsed at h) in
    let (_, scanned) = fail_if-eq-ok (not f.first) statement_failed _ queried in
    let own = of_user uid s.transactions in
    let rest = drop (pos_part offset) own in
    rw (scan_rows-eq (take (clamp_limit limit) rest) scanned) (
      omega (arith, clamp_limit_bounds limit, length-take (clamp_limit limit) rest),
      All-take (IsOf uid) (clamp_limit limit) rest
          (All-drop (IsOf uid) (pos_part offset) own (of_user-IsOf uid s.transactions)),
    )

overflowing :
    (t : Transaction) (ts : List Transaction) (n : ℕ)
    → in_int32 t.amount ≡ false
    → 1 ≤ n
    → scan_rows (take n (t ∷ ts)) ≡ err statement_failed
unfolding scan_rows
overflowing t ts zero h p = absurd (omega arith)
overflowing t ts (suc n) h p = rw h refl

-- The query fails, or the loop over its rows does.
refused :
    (down : Bool) (t : Transaction) (ts : List Transaction) (n : ℕ)
    → in_int32 t.amount ≡ false
    → 1 ≤ n
    → (fail_if down statement_failed >> scan_rows (take n (t ∷ ts))) ≡ err statement_failed
refused true t ts n h p = refl
refused false t ts n h p = overflowing t ts n h p

-- A transfer logs one row, before the others.
logged :
    (f : Faults) (sid rid : ℕ) (amount : ℤ) (kind reference : String) (s : Store)
    → OnOk
        (λ t.
          t.transactions
          ≡ record {
            sender_wallet_id = sid;
            receiver_wallet_id = rid;
            amount = amount;
            tx_type = kind;
            reference = reference;
          }
            ∷ s.transactions)
        (transfer_body f sid rid amount kind reference s)
unfolding transfer_body
logged f sid rid amount kind reference s = OnOk-scan _ _ _ f.first _ _ (OnRow-any _) λ ws _.
    OnOk-scan _ _ _ f.second _ _ (OnRow-any _)
      λ ws' _. OnOk-guard _ (not f.third) _ _ λ _. OnOk-ok _ _ refl

-- `Transfer` takes any `int64` amount, and the history reads amounts as `int32`: after a transfer of
-- an amount that does not fit, the first page of the sender and of the receiver is an error.
pub oversized_transfer_hides_history :
    (env : Env) (f g : Faults) (sid rid uid : ℕ) (amount : ℤ) (kind reference user_id : String)
    (limit : ℤ) (s : Store) {t : Store}
    → transfer_body f sid rid amount kind reference s ≡ ok t
    → in_int32 amount ≡ false
    → (uid ≡ sid) ⊎ (uid ≡ rid)
    → parse_finance_uuid env user_id ≡ ok uid
    → env.has_pool ≡ true
    → get_user_transactions env g user_id limit (pos 0) t ≡ err statement_failed
unfolding get_user_transactions of_user
oversized_transfer_hides_history env f g sid rid uid amount kind reference user_id limit s {t} sent
      big who parsed pool =
    let own : ((sid == uid) || (rid == uid)) ≡ true = ground arith in
    rw (parsed, pool, (logged f sid rid amount kind reference s).at t sent, own)
      (refused (not g.first) _ _ (clamp_limit limit) big (clamp_limit_bounds limit).0)
