-- ===== src/Market/Stock.antt =====
-- The stock of a product of backend/internal/modules/marketplace and what was sold of it.
use merope.Prelude.{
  ℕ, suc, ◌+◌, ◌*◌, ◌≡◌, ◌⊎◌, inl, inr, refl, subst, arith, true, false, not, some, List, [], ◌∷◌,
  ◌==◌, Bool-cases, Option-cases, if◌then◌else◌,
}
use merope.Prelude.Int.{pos_part}
use merope.Prelude.Outcome.{ok_inj, ok, fail_if-eq-ok, >>=-eq-ok}
use merope.Market.Tables.{
  Product, ItemRow, Tables, find_product, take_stock, has_stock, reserve, has_item,
}
use merope.Market.Repository.{
  Env, Faults, Item, Order, Reserved, reserve_all, insert_items, order_body,
}
use merope.Market.Charges.{reserve_all-Round}

-- How many pieces of a product the rows of the orders' items hold.
abbrev pub sold : ℕ → List ItemRow → ℕ
sold key [] = 0
sold key (r ∷ rs) = (if r.product_id == key then r.quantity else 0) + sold key rs

abbrev pub reserved_of : ℕ → List Reserved → ℕ
reserved_of key [] = 0
reserved_of key (r ∷ rs) = (if r.product_id == key then r.quantity else 0) + reserved_of key rs

-- The stock of a product after some pieces of it were taken: none is left, or they were subtracted.
abbrev pub Taken : ℕ → ℕ → ℕ → Type 0
Taken before pieces after = (after ≡ 0) ⊎ (after + pieces ≡ before)

-- A product that stays in the table through a change of stock.
pub record Stays (key : ℕ) (pieces : ℕ) (p : Product) (products : List Product) : Type 0 where
  pub row : Product
  pub found : find_product key products ≡ some row
  pub taken : Taken p.stock_quantity pieces row.stock_quantity

Taken-trans : (a n b m c : ℕ) → Taken a n b → Taken b m c → Taken a (n + m) c
Taken-trans a n b m c h k = ground arith

kept_after :
    (a b c old new n : ℕ)
    → (a ≡ 0) ⊎ (a + old ≡ n)
    → Taken a b c
    → new ≡ old + b
    → (c ≡ 0) ⊎ (c + new ≡ n)
kept_after a b c old new n h k e = ground arith

take_stock-Taken :
    (quantity : ℕ) (p : Product)
    → has_stock quantity p ≡ true
    → Taken p.stock_quantity quantity (take_stock quantity p).stock_quantity
unfolding take_stock has_stock
take_stock-Taken quantity p h = ground arith

reserve-Stays :
    (key id quantity : ℕ) (products : List Product) (p : Product) {price : ℕ} {left : List Product}
    → find_product key products ≡ some p
    → reserve id quantity products ≡ some (price, left)
    → Stays key (if id == key then quantity else 0) p left
unfolding reserve find_product take_stock
reserve-Stays key id quantity [] p f r = absurd (cc)
reserve-Stays key id quantity (q ∷ qs) p {price} {left} f r = elim (Bool-cases (q.id == id)) [
  | inl mine ↦ elim (Bool-cases (has_stock quantity q)) [
    | inr short ↦ absurd (ground arith)
    | inl enough ↦
        let split : left ≡ take_stock quantity q ∷ qs = ground arith in
        rw split (elim (Bool-cases (q.id == key)) [
          | inl here ↦
              let e : q ≡ p = ground arith in
              let same : (id == key) ≡ true = ground arith in
              rw same (
                subst (λ (u : Product). Stays key quantity u (take_stock quantity q ∷ qs)) e
                  (record {
                    row = take_stock quantity q;
                    found = rw here refl;
                    taken = take_stock-Taken quantity q enough;
                  }))
          | inr there ↦
              let same : (id == key) ≡ false = ground arith in
              rw same (record { row = p; found = ground arith; taken = inr (omega arith) })
        ])
  ]
  | inr other ↦ elim (Option-cases (reserve id quantity qs)) [
    | inl gone ↦ absurd (ground arith)
    | inr ((price', qs'), later) ↦
        let split : left ≡ q ∷ qs' = ground arith in
        rw split (elim (Bool-cases (q.id == key)) [
          | inl here ↦
              let e : q ≡ p = ground arith in
              let same : (id == key) ≡ false = ground arith in
              rw same (
                subst (λ (u : Product). Stays key 0 u (q ∷ qs')) e
                  (record { row = q; found = rw here refl; taken = inr (omega arith) }))
          | inr there ↦
              let s = reserve-Stays key id quantity qs p (ground arith) later in
              record { row = s.row; found = rw there s.found; taken = s.taken }
        ])
  ]
]

insert_items-sold :
    (f : Faults) (i order key : ℕ) (reserved : List Reserved) (rows : List ItemRow)
    {rows' : List ItemRow}
    → insert_items f i order reserved rows ≡ ok rows'
    → sold key rows' ≡ sold key rows + reserved_of key reserved
unfolding insert_items
insert_items-sold f i order key [] rows h = ground arith
insert_items-sold f i order key (r ∷ rest) rows h =
    let (_, h1) = fail_if-eq-ok (not (f.inserts_item i)) _ _ h in
    let (_, h2) = fail_if-eq-ok (has_item order r.product_id rows) _ _ h1 in
    ground (arith, insert_items-sold f (suc i) order key rest _ h2)

reserve_all-Stays :
    (key : ℕ) (env : Env) (f : Faults) (i : ℕ) (items : List Item) (total : ℕ)
    (products : List Product) (p : Product) {sum : ℕ} {reserved : List Reserved}
    {final : List Product}
    → find_product key products ≡ some p
    → reserve_all env f i items total products ≡ ok (sum, reserved, final)
    → Stays key (reserved_of key reserved) p final
unfolding reserve_all
reserve_all-Stays key env f i [] total products p {sum} {reserved} {final} found h =
    let same = ok_inj (total, [], products) (sum, reserved, final) h in
    subst (λ (y : ℕ × List Reserved × List Product). Stays key (reserved_of key y.1) p y.2) same
      (record { row = p; found = found; taken = inr (omega arith) })
reserve_all-Stays key env f i (item ∷ rest) total products p {sum} {reserved} {final} found h =
    let r = reserve_all-Round env f i item rest total products h in
    let one = reserve-Stays key r.key (pos_part item.quantity) products p found r.took in
    let more =
      reserve_all-Stays key env f (suc i) rest (total + r.price * pos_part item.quantity) r.left
        one.row one.found r.later in
    rw r.shape (record {
      row = more.row;
      found = more.found;
      taken =
          Taken-trans p.stock_quantity _ one.row.stock_quantity (reserved_of key r.tail) _ one.taken
            more.taken;
    })

-- Of a product, stock and sales add up to `sum`, or none is in stock.
pub record StockKept (key sum : ℕ) (t : Tables) : Type 0 where
  pub row : Product
  pub found : find_product key t.products ≡ some row
  pub kept : (row.stock_quantity ≡ 0) ⊎ (row.stock_quantity + sold key t.order_items ≡ sum)

pub order_body-StockKept :
    (key n : ℕ) (env : Env) (f : Faults) (fresh buyer : ℕ) (o : Order) (t : Tables)
    (x : ℕ × List Reserved × Tables)
    → order_body env f fresh buyer o t ≡ ok x
    → StockKept key n t
    → StockKept key n x.2
unfolding order_body
order_body-StockKept key n env f fresh buyer o t x h0 k =
    let (out, reserving, h1) = >>=-eq-ok (reserve_all env f 0 o.items 0 t.products) _ h0 in
    let (_, h2) = fail_if-eq-ok (not f.inserts_order) _ _ h1 in
    let (rows, inserting, h3) = >>=-eq-ok (insert_items f 0 fresh out.1 t.order_items) _ h2 in
    let s = reserve_all-Stays key env f 0 o.items 0 t.products k.row k.found reserving in
    let booked = insert_items-sold f 0 fresh key out.1 t.order_items inserting in
    subst (λ (y : ℕ × List Reserved × Tables). StockKept key n y.2) (ok_inj _ x h3)
      (record { row = s.row; found = s.found; kept = kept_after _ _ _ _ _ n k.kept s.taken booked })
