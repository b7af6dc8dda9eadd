-- ===== src/Finance/Bodies.antt =====
-- The transactions of the finance repository move money and neither create nor destroy it.
use merope.Prelude.{ℕ, String, ◌≡◌, refl, ◌∙◌, true, not, List, arith}
use merope.Prelude.Int.{ℤ, pos, ◌+ℤ◌, ◌≤ℤ◌, int_laws}
use merope.Prelude.Text.{str_eq}
use merope.Finance.Store.{Store, Escrow, Wallets, Escrows, Transaction, credit}
use merope.Finance.Env.{Faults}
use merope.Finance.Transfers.{transfer_body}
use merope.Finance.Escrows.{create_body, release_body, refund_body}
use merope.Finance.Money.{
  OnRow, balances, held, total, IsCovered, IsPositive, Credits, Settles, debit_law, credit_law,
  settle-OnRow, insert-OnRow,
}
use merope.Finance.OnOk.{OnOk, OnOk-ok, OnOk-scan, OnOk-guard}

-- No balance is negative, and every escrow has a positive amount.
pub record IsSound (s : Store) : Type 0 where
  pub covered : IsCovered s.wallets
  pub positive : IsPositive s.escrows

pub record Keeps (old new : Store) : Type 0 where
  pub sound : IsSound new
  pub conserved : total new ≡ total old

pub Keeps-refl : {s : Store} → IsSound s → Keeps s s
Keeps-refl h = record { sound = h; conserved = refl }

-- What goes out comes in.
moved : (x y z h a : ℤ) → y +ℤ a ≡ x → z ≡ y +ℤ a → z +ℤ h ≡ x +ℤ h
moved x y z h a out back = rw (back ∙ out) refl

held_back : (x y h h' a : ℤ) → y +ℤ a ≡ x → h' ≡ h +ℤ a → y +ℤ h' ≡ x +ℤ h
held_back x y h h' a out back = rw (← out, back) (omega int_laws)

paid_out : (x y h h' a : ℤ) → h ≡ h' +ℤ a → y ≡ x +ℤ a → y +ℤ h' ≡ x +ℤ h
paid_out x y h h' a freed paid = rw (freed, paid) (omega int_laws)

pub transfer_body-Keeps :
    (f : Faults) (sid rid : ℕ) (amount : ℤ) (kind reference : String) (s : Store)
    → pos 0 ≤ℤ amount
    → IsSound s
    → OnOk (Keeps s) (transfer_body f sid rid amount kind reference s)
unfolding transfer_body
transfer_body-Keeps f sid rid amount kind reference s p h =
    OnOk-scan _ (Keeps s) _ f.first _ _ (debit_law sid amount s.wallets h.covered) λ ws d.
      OnOk-scan _ (Keeps s) _ f.second _ _ (credit_law rid amount ws p d.1) λ ws' c.
        OnOk-guard (Keeps s) (not f.third) _ _ λ _. OnOk-ok (Keeps s) _ (record {
          sound = record { covered = c.1; positive = h.positive };
          conserved =
              moved (balances s.wallets) (balances ws) (balances ws') (held s.escrows) amount d.0
                c.0;
        })

pub create_body-Keeps :
    (f : Faults) (id : ℕ) (e : Escrow) (s : Store)
    → str_eq e.status "held" ≡ true
    → pos 1 ≤ℤ e.amount
    → IsSound s
    → OnOk (Keeps s) (create_body f id e s)
unfolding create_body
create_body-Keeps f id e s is_held p h =
    OnOk-scan _ (Keeps s) _ f.first _ _ (debit_law e.buyer_id e.amount s.wallets h.covered) λ ws d.
      OnOk-scan _ (Keeps s) _ f.second _ _ (insert-OnRow id e s.escrows p) λ es i.
        OnOk-ok (Keeps s) _ (record {
          sound = record { covered = d.1; positive = i.1 h.positive };
          conserved =
              held_back (balances s.wallets) (balances ws) (held s.escrows) (held es) e.amount d.0
                (i.0 ∙ rw is_held refl);
        })

settled-Keeps :
    (s : Store) (r : Escrow × Escrows) (ws : Wallets) (ts : List Transaction)
    → IsSound s
    → Settles s.escrows r
    → Credits r.0.amount s.wallets ws × IsCovered ws
    → Keeps s (record { wallets = ws; escrows = r.1; transactions = ts })
settled-Keeps s r ws ts h settles c = record {
  sound = record { covered = c.1; positive = (settles.positive h.positive).1 };
  conserved =
      paid_out (balances s.wallets) (balances ws) (held s.escrows) (held r.1) r.0.amount
        settles.freed c.0;
}

-- The credit that follows a settled escrow.
paid_law :
    (u : ℕ) (s : Store) (r : Escrow × Escrows)
    → IsSound s
    → Settles s.escrows r
    → OnRow (λ ws. Credits r.0.amount s.wallets ws × IsCovered ws) (credit u r.0.amount s.wallets)
paid_law u s r h settles =
    credit_law u r.0.amount s.wallets (omega (arith, (settles.positive h.positive).0)) h.covered

pub release_body-Keeps :
    (f : Faults) (eid : ℕ) (reference : String) (s : Store)
    → IsSound s
    → OnOk (Keeps s) (release_body f eid reference s)
unfolding release_body
release_body-Keeps f eid reference s h =
    OnOk-scan (Settles s.escrows) (Keeps s) _ f.first _ _
      (settle-OnRow "released" eid s.escrows refl)
      λ r settles.
        OnOk-scan _ (Keeps s) _ f.second _ _ (paid_law r.0.seller_id s r h settles) λ ws c.
          OnOk-guard (Keeps s) (not f.third) _ _
            λ _. OnOk-ok (Keeps s) _ (settled-Keeps s r ws _ h settles c)

pub refund_body-Keeps :
    (f : Faults) (eid : ℕ) (reference : String) (s : Store)
    → IsSound s
    → OnOk (Keeps s) (refund_body f eid reference s)
unfolding refund_body
refund_body-Keeps f eid reference s h =
    OnOk-scan (Settles s.escrows) (Keeps s) _ f.first _ _
      (settle-OnRow "refunded" eid s.escrows refl)
      λ r settles.
        OnOk-scan _ (Keeps s) _ f.second _ _ (paid_law r.0.buyer_id s r h settles) λ ws c.
          OnOk-guard (Keeps s) (not f.third) _ _
            λ _. OnOk-ok (Keeps s) _ (settled-Keeps s r ws _ h settles c)
