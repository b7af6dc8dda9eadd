-- ===== src/Finance/Conservation.antt =====
-- No call of the finance module creates or destroys money, whatever fails on the way.
use merope.Prelude.{ℕ, String, ◌≡◌, refl, ◌∙◌, false, Option, List, arith, tests}
use merope.Prelude.Int.{ℤ, pos, ◌≤ℤ◌, leb_ℤ}
use merope.Prelude.Outcome.{Result, ok}
use merope.Finance.Store.{Store}
use merope.Finance.Env.{Error, Env, Faults, to_db_amount}
use merope.Finance.Transfers.{transfer}
use merope.Finance.Escrows.{
  EscrowRequest, create_body, create_escrow, release_escrow, refund_escrow,
}
use merope.Finance.OnOk.{OnOk, OnOk-bind, OnOk-guard}
use merope.Finance.Bodies.{
  IsSound, Keeps, Keeps-refl, transfer_body-Keeps, create_body-Keeps, release_body-Keeps,
  refund_body-Keeps,
}
use merope.Finance.Calls.{Op, run, Respects, finish-Respects, run-Respects}

nonneg : (a : ℤ) → leb_ℤ a (pos 0) ≡ false → pos 0 ≤ℤ a
nonneg a h = omega (tests, h)

positive : (a : ℤ) → leb_ℤ a (pos 0) ≡ false → pos 1 ≤ℤ a
positive a h = omega (tests, h)

same : (s : Store) → IsSound s → Keeps s s
same s h = Keeps-refl h

module _ (env : Env) (f : Faults) where
  transfer-Keeps :
      (sender_id receiver_id : String) (amount : ℤ) (kind : String)
      (entity_type entity_id : Option String)
      → Respects IsSound Keeps
          (transfer env f sender_id receiver_id amount kind entity_type entity_id)
  unfolding transfer
  transfer-Keeps sender_id receiver_id amount kind entity_type entity_id = record {
    at = λ s h. finish-Respects IsSound Keeps same f s _ h (
        OnOk-guard (Keeps s) (leb_ℤ amount (pos 0)) _ _ λ p.
          search
            (OnOk-guard (Keeps s), OnOk-bind (Keeps s), transfer_body-Keeps f, nonneg amount p, h)
            depth 12);
  }

  to_db_amount-eq : (a b : ℤ) → to_db_amount a ≡ ok b → b ≡ a
  unfolding to_db_amount
  to_db_amount-eq a b e = ground arith

  -- The body that `create_escrow` runs once its checks have passed.
  reserve-Keeps :
      (id bid sid : ℕ) (a b : ℤ) (text : String) (s : Store)
      → leb_ℤ a (pos 0) ≡ false
      → to_db_amount a ≡ ok b
      → IsSound s
      → OnOk (Keeps s) (
          create_body f id
            (record {
              buyer_id = bid;
              seller_id = sid;
              amount = b;
              status = "held";
              description = text;
            })
            s)
  reserve-Keeps id bid sid a b text s p e h =
      create_body-Keeps f id _ s refl (rw (to_db_amount-eq a b e) (positive a p)) h

  create_escrow-Keeps :
      (id : ℕ) (r : EscrowRequest) → Respects IsSound Keeps (create_escrow env f id r)
  unfolding create_escrow
  create_escrow-Keeps id r = record {
    at = λ s h.
        finish-Respects IsSound Keeps same f s _ h
          (search (OnOk-guard (Keeps s), OnOk-bind (Keeps s), reserve-Keeps id, h) depth 14);
  }

  release_escrow-Keeps :
      (escrow_id : String) → Respects IsSound Keeps (release_escrow env f escrow_id)
  unfolding release_escrow
  release_escrow-Keeps escrow_id = record {
    at = λ s h.
        finish-Respects IsSound Keeps same f s _ h
          (search (OnOk-guard (Keeps s), OnOk-bind (Keeps s), release_body-Keeps f, h) depth 10);
  }

  refund_escrow-Keeps :
      (escrow_id : String) → Respects IsSound Keeps (refund_escrow env f escrow_id)
  unfolding refund_escrow
  refund_escrow-Keeps escrow_id = record {
    at = λ s h.
        finish-Respects IsSound Keeps same f s _ h
          (search (OnOk-guard (Keeps s), OnOk-bind (Keeps s), refund_body-Keeps f, h) depth 10);
  }

chain : (s t u : Store) → Keeps s t → Keeps t u → Keeps s u
chain s t u p q = record { sound = q.sound; conserved = q.conserved ∙ p.conserved }

-- After any calls of the service, with any faults on the way, no balance is negative, every escrow
-- has a positive amount, and the balances and the held escrows add up to what they did before, if
-- no balance was negative and every escrow had a positive amount at the start.
pub run-Keeps :
    (env : Env) (author : String → Result Error (Option String)) (uuid_text : ℕ → String)
    (ops : List Op) (s : Store)
    → IsSound s
    → Keeps s (run env author uuid_text ops s)
run-Keeps env author uuid_text =
    run-Respects IsSound Keeps same env (transfer-Keeps env) (create_escrow-Keeps env)
      (release_escrow-Keeps env) (refund_escrow-Keeps env) author uuid_text (λ s t k. k.sound) chain
