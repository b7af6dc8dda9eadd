-- ===== src/Market/Billing.antt =====
-- What a buyer of backend/internal/modules/marketplace is charged.
use merope.Prelude.{
  ℕ, suc, ◌+◌, ◌*◌, ◌≤◌, ◌≡◌, ◌∙◌, inl, inr, refl, sym, ap, subst, arith, not, ◌&&◌, ◌||◌, some,
  List, [], ◌∷◌, String, ltb, ◌==◌, length, map, All,
}
use merope.Prelude.Int.{ℤ, pos, pos_part, leb_ℤ}
use merope.Prelude.Outcome.{ok_inj, Result, ok, err, fail_if-eq-ok, >>=-eq-ok, Result-cases}
use merope.Finance.Env.{Commit, done, lost, unclear}
use merope.Market.Tables.{OrderRow, Tables}
use merope.Market.Repository.{
  Env, Faults, Item, Order, Reserved, Error, max_int32, low_32, text_or, reserve_all, insert_items,
  settle_items, parse_uuid, order_body, create_order, end_order, none_left, get_product,
}
use merope.Market.Service.{price_items, pair_up, quote, purchase}
use merope.Market.Charges.{
  cost, order_cost, bill, IsPriced, Fits, reserve_all-Charged, insert_items-cost,
}

-- A bill below 2 ^ 31 is the cost of what was reserved, line by line.
settle_items-bill :
    (items : List Item) (reserved : List Reserved)
    → Fits items reserved
    → cost reserved ≤ max_int32
    → (bill (settle_items items reserved) ≡ cost reserved)
      × All IsPriced (settle_items items reserved)
unfolding settle_items
settle_items-bill [] [] h k = (refl, tt)
settle_items-bill [] (r ∷ rs) h k = elim h [ ]
settle_items-bill (item ∷ items) [] h k = elim h [ ]
settle_items-bill (item ∷ items) (r ∷ rs) h k =
    let rest = settle_items-bill items rs h.1 (omega (arith, k)) in
    let quantity : pos_part item.quantity ≡ r.quantity = ap pos_part h.0 in
    let whole : low_32 (r.price * r.quantity) ≡ r.price * r.quantity = omega (arith, k) in
    (omega (arith, rest.0, whole), (whole ∙ ap (λ (q : ℕ). r.price * q) (sym quantity), rest.1))

abbrev pub line_of : Item → String × ℤ
line_of item = (item.product_id, item.quantity)

settle_items-lines :
    (items : List Item) (reserved : List Reserved)
    → map line_of (settle_items items reserved) ≡ map line_of items
unfolding settle_items
settle_items-lines [] rs = refl
settle_items-lines (item ∷ items) [] = refl
settle_items-lines (item ∷ items) (r ∷ rs) = ap (◌∷◌ (line_of item)) (settle_items-lines items rs)

price_items-lines :
    (env : Env) (f : Faults) (seen : ℕ → Tables) (i : ℕ) (asked : List (String × ℤ)) (total : ℕ)
    {sum : ℕ} {items : List Item}
    → price_items env f seen i asked total ≡ ok (sum, items)
    → map line_of items ≡ asked
unfolding price_items
price_items-lines env f seen i [] total h = ground arith
price_items-lines env f seen i ((pid, q) ∷ rest) total {sum} {items} h0 =
    let (_, h1) = fail_if-eq-ok (leb_ℤ q (pos 0)) _ _ h0 in
    let (p, _, h2) = >>=-eq-ok (get_product env (f.reads i) pid (seen i)) _ h1 in
    let (_, h3) = fail_if-eq-ok (not p.is_active) _ _ h2 in
    let (_, h4) = fail_if-eq-ok (p.price == 0) _ _ h3 in
    let (_, h5) =
      fail_if-eq-ok (ltb 0 p.stock_quantity && ltb p.stock_quantity (pos_part q)) _ _ h4 in
    let (_, h6) = fail_if-eq-ok (ltb max_int32 (total + p.price * pos_part q)) _ _ h5 in
    let (out, later, h7) =
      >>=-eq-ok (price_items env f seen (suc i) rest (total + p.price * pos_part q)) _ h6 in
    let same = ok_inj _ (sum, items) h7 in
    sym (ap (λ (x : ℕ × List Item). map line_of x.1) same)
    ∙ ap (◌∷◌ (pid, q)) (price_items-lines env f seen (suc i) rest _ later)

-- What `end_order` answers after a commit.
abbrev answered : ℕ → Order → ℕ → List Reserved → Order
answered fresh o total reserved = record o {
  id = some fresh;
  currency = text_or "MRO" o.currency;
  total_amount = low_32 total;
  status = text_or "pending" o.status;
  items = settle_items o.items reserved;
}

end_order-eq-ok :
    (c : Commit) (fresh : ℕ) (o : Order) (t : Tables)
    (body : Result Error (ℕ × List Reserved × Tables)) {o' : Order} {t' : Tables}
    → end_order c fresh o t body ≡ (ok o', t')
    → (x : ℕ × List Reserved × Tables) × (body ≡ ok x)
      × (answered fresh o x.0 x.1 ≡ o')
      × (x.2 ≡ t')
unfolding end_order
end_order-eq-ok c fresh o t (err e) h = absurd (cc)
end_order-eq-ok lost fresh o t (ok x) h = absurd (cc)
end_order-eq-ok unclear fresh o t (ok x) h = absurd (cc)
end_order-eq-ok done fresh o t (ok x) h = (
  x,
  refl,
  ok_inj _ _ (ap (λ (y : Result Error Order × Tables). y.0) h),
  ap (λ (y : Result Error Order × Tables). y.1) h,
)

-- An order that was placed: what it answers, and what it adds to the tables.
pub record Billed (fresh : ℕ) (o : Order) (t t' : Tables) : Type 0 where
  pub amount : o.total_amount ≡ bill o.items
  pub lines : All IsPriced o.items
  pub fits : o.total_amount ≤ max_int32
  pub charged : order_cost fresh t'.order_items ≡ order_cost fresh t.order_items + o.total_amount
  pub recorded :
      (row : OrderRow) × (t'.orders ≡ row ∷ t.orders)
      × (row.id ≡ fresh)
      × (row.total_amount ≡ o.total_amount)

order_body-Billed :
    (env : Env) (f : Faults) (fresh buyer : ℕ) (o : Order) (t : Tables)
    (x : ℕ × List Reserved × Tables)
    → order_body env f fresh buyer o t ≡ ok x
    → Billed fresh (answered fresh o x.0 x.1) t x.2
unfolding order_body
order_body-Billed env f fresh buyer o t x h0 =
    let (out, reserving, h1) = >>=-eq-ok (reserve_all env f 0 o.items 0 t.products) _ h0 in
    let (_, h2) = fail_if-eq-ok (not f.inserts_order) _ _ h1 in
    let (rows, inserting, h3) = >>=-eq-ok (insert_items f 0 fresh out.1 t.order_items) _ h2 in
    let same = ok_inj _ x h3 in
    let c = reserve_all-Charged env f 0 o.items 0 t.products reserving in
    let small : out.0 ≤ max_int32 = c.below (omega arith) in
    let settled = settle_items-bill o.items out.1 c.fits (omega (arith, c.adds, small)) in
    let paid = insert_items-cost f 0 fresh out.1 t.order_items inserting in
    subst (λ (y : ℕ × List Reserved × Tables). Billed fresh (answered fresh o y.0 y.1) t y.2) same
      (record {
        amount = omega (arith, c.adds, small, settled.0);
        lines = settled.1;
        fits = omega (arith, small);
        charged = omega (arith, c.adds, small, paid);
        recorded = (_, refl, refl, refl);
      })

create_order-Billed :
    (env : Env) (f : Faults) (fresh : ℕ) (o : Order) (t : Tables) {o' : Order} {t' : Tables}
    → create_order env f fresh o t ≡ (ok o', t')
    → Billed fresh o' t t' × (map line_of o'.items ≡ map line_of o.items)
unfolding create_order
create_order-Billed env f fresh o t {o'} {t'} h =
    let (x, body, answer, tables) = end_order-eq-ok f.commit fresh o t _ h in
    let (_, h1) = fail_if-eq-ok (not env.has_pool) _ _ body in
    let (buyer, _, h2) = >>=-eq-ok (parse_uuid env o.buyer_id) _ h1 in
    let (_, h3) = fail_if-eq-ok (none_left o.items) _ _ h2 in
    let (_, h4) = fail_if-eq-ok (not f.begin) _ _ h3 in
    let billed = order_body-Billed env f fresh buyer o t x h4 in
    (
      subst (λ u. Billed fresh o' t u) tables
          (subst (λ (u : Order). Billed fresh u t x.2) answer billed),
      subst (λ (u : Order). map line_of u.items ≡ map line_of o.items) answer
          (settle_items-lines o.items x.1),
    )

quote-lines :
    (env : Env) (f : Faults) (seen : ℕ → Tables) (buyer : String) (pids : List String)
    (quantities : List ℤ) (address : String) {o : Order}
    → quote env f seen buyer pids quantities address ≡ ok o
    → map line_of o.items ≡ pair_up pids quantities
unfolding quote
quote-lines env f seen buyer pids quantities address {o} h =
    let bad = length pids == 0 || not (length pids == length quantities) in
    let (_, h1) = fail_if-eq-ok bad _ _ h in
    let (out, priced, h2) = >>=-eq-ok (price_items env f seen 0 (pair_up pids quantities) 0) _ h1 in
    subst (λ (u : Order). map line_of u.items ≡ pair_up pids quantities) (ok_inj _ o h2)
      (price_items-lines env f seen 0 (pair_up pids quantities) 0 priced)

-- A purchase that succeeds answers an order of the products and quantities that were asked for, in
-- their order, whatever changed since the products were read. Each subtotal is the price times the
-- quantity, the total is their sum and at most 2 ^ 31 - 1, the row of the order has that total, and the
-- rows of its items cost as much.
pub purchase-Billed :
    (env : Env) (f : Faults) (seen : ℕ → Tables) (fresh : ℕ) (buyer : String) (pids : List String)
    (quantities : List ℤ) (address : String) (t : Tables) {o : Order} {t' : Tables}
    → purchase env f seen fresh buyer pids quantities address t ≡ (ok o, t')
    → Billed fresh o t t' × (map line_of o.items ≡ pair_up pids quantities)
unfolding purchase
purchase-Billed env f seen fresh buyer pids quantities address t h =
    elim (Result-cases (quote env f seen buyer pids quantities address)) [
      | inl (e, refused) ↦ absurd (cc (rw (refused, purchase) at h))
      | inr (o, quoted) ↦
          let (billed, same) = create_order-Billed env f fresh o t (rw (quoted, purchase) at h) in
          (billed, same ∙ quote-lines env f seen buyer pids quantities address quoted)
    ]
