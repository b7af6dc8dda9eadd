-- ===== src/Finance/Effects.antt =====
-- What a finance transfer does to each wallet, and what it leaves alone.
use merope.Prelude.{
  ℕ, String, ◌≡◌, refl, sym, ◌≢◌, true, false, Option, [], ◌∷◌, arith, ◌==◌, Bool-cases, inl, inr,
}
use merope.Prelude.Int.{ℤ, pos, ◌+ℤ◌, ◌-ℤ◌, ◌≤ℤ◌, leb_ℤ}
use merope.Prelude.Text.{str_eq}
use merope.Prelude.Outcome.{ok}
use merope.Finance.Store.{Store, Wallets, row, debit, credit, find_wallet, in_int64}
use merope.Finance.Env.{Env, Faults, done, finish, transaction_reference, parse_finance_uuid}
use merope.Finance.Transfers.{transfer_body, transfer}

-- `ws'` is `ws` but for the balance of `u`, which is `b`.
pub record Changes (u : ℕ) (b : ℤ) (ws ws' : Wallets) : Type 0 where
  pub own : find_wallet u ws' ≡ row b
  pub others : (j : ℕ) → j ≢ u → find_wallet j ws' ≡ find_wallet j ws

pub debit-Changes :
    (u : ℕ) (a b : ℤ) (ws : Wallets)
    → find_wallet u ws ≡ row b
    → a ≤ℤ b
    → (ws' : Wallets) × (debit u a ws ≡ row ws') × Changes u (b -ℤ a) ws ws'
unfolding find_wallet debit
debit-Changes u a b [] e h = absurd (cc)
debit-Changes u a b ((id, c) ∷ ws) e h = elim (Bool-cases (id == u)) [
  | inl hit ↦ (
    (id, b -ℤ a) ∷ ws,
    ground arith,
    record { own = ground arith; others = λ j ne. ground arith },
  )
  | inr miss ↦
      let (ws', found, ch) = debit-Changes u a b ws (ground arith) h in
      (
        (id, c) ∷ ws',
        rw (miss, found) refl,
        record { own = rw miss ch.own; others = λ j ne. ground (arith, ch.others j ne) },
      )
]

pub credit-Changes :
    (u : ℕ) (a b : ℤ) (ws : Wallets)
    → find_wallet u ws ≡ row b
    → in_int64 (b +ℤ a) ≡ true
    → (ws' : Wallets) × (credit u a ws ≡ row ws') × Changes u (b +ℤ a) ws ws'
unfolding find_wallet credit
credit-Changes u a b [] e h = absurd (cc)
credit-Changes u a b ((id, c) ∷ ws) e h = elim (Bool-cases (id == u)) [
  | inl hit ↦ (
    (id, b +ℤ a) ∷ ws,
    paid hit (ground arith),
    record { own = ground arith; others = λ j ne. ground arith },
  )
  | inr miss ↦
      let (ws', found, ch) = credit-Changes u a b ws (ground arith) h in
      (
        (id, c) ∷ ws',
        rw (miss, found) refl,
        record { own = rw miss ch.own; others = λ j ne. ground (arith, ch.others j ne) },
      )
]
  where
    paid : (id == u) ≡ true → c ≡ b → credit u a ((id, c) ∷ ws) ≡ row ((id, b +ℤ a) ∷ ws)
    paid hit same = rw (same, hit, h) refl

abbrev pub AllUp : Faults → Type 0
AllUp f =
    (f.begin ≡ true) × (f.first ≡ true) × (f.second ≡ true) × (f.third ≡ true) × (f.commit ≡ done)

-- What a transfer that goes through has done to the wallets.
pub record Moved (sid rid : ℕ) (a b c : ℤ) (old new : Wallets) : Type 0 where
  pub paid : find_wallet sid new ≡ row (b -ℤ a)
  pub received : find_wallet rid new ≡ row (c +ℤ a)
  pub others : (j : ℕ) → j ≢ sid → j ≢ rid → find_wallet j new ≡ find_wallet j old

body_moves :
    (f : Faults) (sid rid : ℕ) (a b c : ℤ) (kind reference : String) (s : Store)
    → AllUp f
    → sid ≢ rid
    → find_wallet sid s.wallets ≡ row b
    → find_wallet rid s.wallets ≡ row c
    → a ≤ℤ b
    → in_int64 (c +ℤ a) ≡ true
    → (t : Store) × (transfer_body f sid rid a kind reference s ≡ ok t)
      × Moved sid rid a b c s.wallets t.wallets
      × (t.escrows ≡ s.escrows)
unfolding transfer_body
body_moves f sid rid a b c kind reference s up ne es er h fits =
    let (ws, debited, d) = debit-Changes sid a b s.wallets es h in
    let still : find_wallet rid ws ≡ row c = ground (arith, d.others rid (λ e. ne (sym e))) in
    let (ws', credited, k) = credit-Changes rid a c ws still fits in
    (
      record s {
        wallets = ws';
        transactions =
            record {
              sender_wallet_id = sid;
              receiver_wallet_id = rid;
              amount = a;
              tx_type = kind;
              reference = reference;
            }
            ∷ s.transactions;
      },
      rw (up.1, debited, up.2, credited, up.3) refl,
      record {
        paid = ground (arith, k.others sid ne, d.own);
        received = k.own;
        others = λ j js jr. ground (arith, k.others j jr, d.others j js);
      },
      refl,
    )

-- Between two different wallets, an amount of at least 1 that the sender holds moves from one to the other:
-- both balances change by it, no other wallet and no escrow changes, and the call succeeds, if the repository
-- has a pool, both identifiers parse and differ as texts, the beginning, each statement and the commit work,
-- and the balance of the receiver stays within 64 bits.
pub transfer_moves :
    (env : Env) (f : Faults) (sender_id receiver_id : String) (sid rid : ℕ) (a b c : ℤ)
    (kind : String) (entity_type entity_id : Option String) (s : Store)
    → AllUp f
    → env.has_pool ≡ true
    → str_eq sender_id receiver_id ≡ false
    → parse_finance_uuid env sender_id ≡ ok sid
    → parse_finance_uuid env receiver_id ≡ ok rid
    → sid ≢ rid
    → find_wallet sid s.wallets ≡ row b
    → find_wallet rid s.wallets ≡ row c
    → pos 1 ≤ℤ a
    → a ≤ℤ b
    → in_int64 (c +ℤ a) ≡ true
    → let (r, t) = transfer env f sender_id receiver_id a kind entity_type entity_id s in
      (r ≡ ok tt) × Moved sid rid a b c s.wallets t.wallets × (t.escrows ≡ s.escrows)
unfolding transfer finish
transfer_moves env f sender_id receiver_id sid rid a b c kind entity_type entity_id s up pool differ
      ps pr ne es er p h fits =
    let (t, done_, moved, kept) =
      body_moves f sid rid a b c kind (transaction_reference entity_type entity_id) s up ne es er h
        fits in
    let positive : leb_ℤ a (pos 0) ≡ false = ground arith in
    rw (positive, differ, ps, pr, done_, pool, up.0, up.4) (refl, moved, kept)
