-- ===== src/Finance/Settlement.antt =====
-- An escrow leaves the state `held` once: money is paid for it at most one time.
use merope.Prelude.{ℕ, String, refl, not, Option, List}
use merope.Prelude.Int.{ℤ}
use merope.Prelude.Outcome.{Result}
use merope.Finance.Store.{Store, Escrow, Reply, row, no_rows, failed}
use merope.Finance.Env.{Error, Env, Faults}
use merope.Finance.Transfers.{transfer_body, transfer}
use merope.Finance.Escrows.{
  EscrowRequest, create_body, create_escrow, release_body, refund_body, release_escrow,
  refund_escrow,
}
use merope.Finance.Money.{OnRow}
use merope.Finance.OnOk.{OnOk, OnOk-ok, OnOk-scan, OnOk-bind, OnOk-guard}
use merope.Finance.Settled.{IsSettled, insert-IsSettled, settle-IsSettled}
use merope.Finance.Calls.{Op, run, Respects, finish-Respects, run-Respects}

pub OnRow-any : {A : Type 0} (r : Reply A) → OnRow (λ a. Unit {0}) r
OnRow-any (row a) = tt
OnRow-any no_rows = tt
OnRow-any failed = tt

module _ (eid : ℕ) where
  abbrev Stays : Store → Store → Type 0
  Stays s t = IsSettled eid t.escrows

  abbrev Before : Store → Type 0
  Before s = IsSettled eid s.escrows

  transfer_body-Stays :
      (f : Faults) (sid rid : ℕ) (amount : ℤ) (kind reference : String) (s : Store)
      → Before s
      → OnOk (Stays s) (transfer_body f sid rid amount kind reference s)
  unfolding transfer_body
  transfer_body-Stays f sid rid amount kind reference s h =
      OnOk-scan _ (Stays s) _ f.first _ _ (OnRow-any _) λ ws _.
        OnOk-scan _ (Stays s) _ f.second _ _ (OnRow-any _)
          λ ws' _. OnOk-guard (Stays s) (not f.third) _ _ λ _. OnOk-ok (Stays s) _ h

  create_body-Stays :
      (f : Faults) (id : ℕ) (e : Escrow) (s : Store)
      → Before s
      → OnOk (Stays s) (create_body f id e s)
  unfolding create_body
  create_body-Stays f id e s h = OnOk-scan _ (Stays s) _ f.first _ _ (OnRow-any _) λ ws _.
      OnOk-scan _ (Stays s) _ f.second _ _ (insert-IsSettled eid id e s.escrows h)
        λ es k. OnOk-ok (Stays s) _ k

  release_body-Stays :
      (f : Faults) (key : ℕ) (reference : String) (s : Store)
      → Before s
      → OnOk (Stays s) (release_body f key reference s)
  unfolding release_body
  release_body-Stays f key reference s h =
      OnOk-scan _ (Stays s) _ f.first _ _ (settle-IsSettled eid "released" key s.escrows refl h)
        λ r k.
          OnOk-scan _ (Stays s) _ f.second _ _ (OnRow-any _)
            λ ws _. OnOk-guard (Stays s) (not f.third) _ _ λ _. OnOk-ok (Stays s) _ k

  refund_body-Stays :
      (f : Faults) (key : ℕ) (reference : String) (s : Store)
      → Before s
      → OnOk (Stays s) (refund_body f key reference s)
  unfolding refund_body
  refund_body-Stays f key reference s h =
      OnOk-scan _ (Stays s) _ f.first _ _ (settle-IsSettled eid "refunded" key s.escrows refl h)
        λ r k.
          OnOk-scan _ (Stays s) _ f.second _ _ (OnRow-any _)
            λ ws _. OnOk-guard (Stays s) (not f.third) _ _ λ _. OnOk-ok (Stays s) _ k

  ruleset step_rules =
      (transfer_body-Stays, create_body-Stays, release_body-Stays, refund_body-Stays)

  module _ (env : Env) (f : Faults) where
    abbrev Keeps : (Store → Result Error (Unit {0}) × Store) → Type 0
    Keeps = Respects Before Stays

    settled_transfer :
        (a b : String) (x : ℤ) (kind : String) (t i : Option String)
        → Keeps (transfer env f a b x kind t i)
    unfolding transfer
    settled_transfer a b x kind t i = record {
      at = λ s h.
          finish-Respects Before Stays (λ _ k. k) f s _ h
            (search (OnOk-guard (Stays s), OnOk-bind (Stays s), transfer_body-Stays f, h) depth 12);
    }

    settled_create : (id : ℕ) (r : EscrowRequest) → Keeps (create_escrow env f id r)
    unfolding create_escrow
    settled_create id r = record {
      at = λ s h.
          finish-Respects Before Stays (λ _ k. k) f s _ h
            (search (OnOk-guard (Stays s), OnOk-bind (Stays s), create_body-Stays f, h) depth 14);
    }

    settled_release : (e : String) → Keeps (release_escrow env f e)
    unfolding release_escrow
    settled_release e = record {
      at = λ s h.
          finish-Respects Before Stays (λ _ k. k) f s _ h
            (search (OnOk-guard (Stays s), OnOk-bind (Stays s), release_body-Stays f, h) depth 10);
    }

    settled_refund : (e : String) → Keeps (refund_escrow env f e)
    unfolding refund_escrow
    settled_refund e = record {
      at = λ s h.
          finish-Respects Before Stays (λ _ k. k) f s _ h
            (search (OnOk-guard (Stays s), OnOk-bind (Stays s), refund_body-Stays f, h) depth 10);
    }

  -- A run of the service keeps an escrow that is settled so.
  pub run-IsSettled :
      (env : Env) (author : String → Result Error (Option String)) (uuid_text : ℕ → String)
      (ops : List Op) (s : Store)
      → Before s
      → Before (run env author uuid_text ops s)
  run-IsSettled env author uuid_text =
      run-Respects Before Stays (λ _ k. k) env (settled_transfer env) (settled_create env)
        (settled_release env) (settled_refund env) author uuid_text (λ s t k. k) (λ s t u _ k. k)
