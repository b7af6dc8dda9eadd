-- ===== src/Market/SoldOut.antt =====
-- The meaning of a stock of 0 in backend/internal/modules/marketplace.
use merope.Prelude.{
  ℕ, ◌+◌, ◌-◌, ◌*◌, ◌≤◌, ◌<◌, ◌≡◌, ◌≢◌, ◌∙◌, refl, ap, arith, true, false, ◌&&◌, inl, inr, some,
  List, [], ◌∷◌, String, ltb, ◌==◌, Bool-cases, if◌then◌else◌,
}
use merope.Prelude.Int.{pos, leb_ℤ}
use merope.Prelude.Text.{trim_space}
use merope.Prelude.Outcome.{ok}
use merope.Finance.Env.{done}
use merope.Market.Tables.{Product, Tables, find_product, take_stock, has_stock, reserve, has_item}
use merope.Market.Repository.{
  Env, Faults, Item, Order, Reserved, max_int32, low_32, reserve_all, insert_items, parse_uuid,
  order_body, settle_items, create_order, end_order, get_product,
}
use merope.Market.Service.{price_items, quote, purchase, new_order}

-- Nothing fails.
abbrev pub well : Faults
well = record {
  reads = λ _. true;
  begin = true;
  reserves = λ _. true;
  inserts_order = true;
  inserts_item = λ _. true;
  commit = done;
}

-- The product and the buyer that the texts of a request name, and what makes the product available.
pub record OnSale (env : Env) (buyer pid : String) (p : Product) (t : Tables) : Type 0 where
  pub connected : env.has_pool ≡ true
  pub buyer_id : ℕ
  pub buyer_parsed : env.scan_uuid (trim_space buyer) ≡ some buyer_id
  pub parsed : env.scan_uuid (trim_space pid) ≡ some p.id
  pub found : find_product p.id t.products ≡ some p
  pub active : p.is_active ≡ true
  pub priced : 0 < p.price

reserve_found :
    (quantity : ℕ) (p : Product) (products : List Product)
    → find_product p.id products ≡ some p
    → has_stock quantity p ≡ true
    → (left : List Product) × (reserve p.id quantity products ≡ some (p.price, left))
      × (find_product p.id left ≡ some (take_stock quantity p))
unfolding reserve find_product take_stock
reserve_found quantity p [] found enough = absurd (cc)
reserve_found quantity p (q ∷ qs) found enough = elim (Bool-cases (q.id == p.id)) [
  | inl here ↦
      let e : q ≡ p = ground arith in
      (take_stock quantity p ∷ qs, rw (here, e, enough) refl, ground arith)
  | inr there ↦
      let (left, took, after) = reserve_found quantity p qs (ground arith) enough in
      (q ∷ left, rw (there, took) refl, rw there after)
]

abbrev item_of : String → ℕ → Product → Item
item_of pid n p = record {
  product_id = pid;
  product_name = p.name;
  quantity = pos n;
  price_at_purchase = p.price;
  subtotal = low_32 (p.price * n);
}

quote_found :
    (env : Env) (n : ℕ) (buyer pid address : String) (p : Product) (t : Tables)
    → OnSale env buyer pid p t
    → 0 < n
    → has_stock n p ≡ true
    → p.price * n ≤ max_int32
    → quote env well (λ _. t) buyer (pid ∷ []) (pos n ∷ []) address
      ≡ ok (new_order buyer address (0 + p.price * n) (item_of pid n p ∷ []))
unfolding quote price_items get_product parse_uuid has_stock
quote_found env n buyer pid address p t s some_ enough small =
    let positive : leb_ℤ (pos n) (pos 0) ≡ false = ground arith in
    let worth : (p.price == 0) ≡ false = ground (arith, s.priced) in
    let there : (ltb 0 p.stock_quantity && ltb p.stock_quantity n) ≡ false = ground arith in
    let room : ltb max_int32 (0 + p.price * n) ≡ false = ground arith in
    rw (positive, s.parsed, s.found, s.active, worth, there, room) refl

-- The tables after an order of one product.
abbrev ordered : ℕ → ℕ → ℕ → String → Product → List Product → Tables → Tables
ordered fresh n buyer_id address p left t = record t {
  products = left;
  orders =
      record {
        id = fresh;
        buyer_id = buyer_id;
        total_amount = low_32 (0 + p.price * n);
        status = "pending";
        currency = "MRO";
        shipping_address = address;
      }
      ∷ t.orders;
  order_items =
      record { order_id = fresh; product_id = p.id; quantity = n; price_at_purchase = p.price }
      ∷ t.order_items;
}

abbrev lines_of : ℕ → Product → List Reserved
lines_of n p = record { product_id = p.id; quantity = n; price = p.price } ∷ []

body_found :
    (env : Env) (fresh n : ℕ) (buyer pid address : String) (p : Product) (t : Tables)
    → OnSale env buyer pid p t
    → has_item fresh p.id t.order_items ≡ false
    → 0 < n
    → has_stock n p ≡ true
    → p.price * n ≤ max_int32
    → (buyer_id : ℕ) (total : ℕ)
    → (left : List Product) × (order_body env well fresh buyer_id
          (new_order buyer address total (item_of pid n p ∷ []))
          t
        ≡ ok (0 + p.price * n, lines_of n p, ordered fresh n buyer_id address p left t))
      × (find_product p.id left ≡ some (take_stock n p))
unfolding order_body reserve_all insert_items parse_uuid
body_found env fresh n buyer pid address p t s new some_ enough small buyer_id total =
    let (left, took, after) = reserve_found n p t.products s.found enough in
    let positive : leb_ℤ (pos n) (pos 0) ≡ false = ground arith in
    let worth : (p.price == 0) ≡ false = ground (arith, s.priced) in
    let room : ltb max_int32 (0 + p.price * n) ≡ false = ground arith in
    (left, rw (s.parsed, positive, took, worth, room, new) refl, after)

-- A purchase of one product when nothing fails.
sale :
    (env : Env) (fresh n : ℕ) (buyer pid address : String) (p : Product) (t : Tables)
    → OnSale env buyer pid p t
    → has_item fresh p.id t.order_items ≡ false
    → 0 < n
    → has_stock n p ≡ true
    → p.price * n ≤ max_int32
    → (o : Order) × (t' : Tables) × (purchase env well
          (λ _. t)
          fresh
          buyer
          (pid ∷ [])
          (pos n ∷ [])
          address
          t
        ≡ (ok o, t'))
      × (find_product p.id t'.products ≡ some (take_stock n p))
      × (t'.order_items
          ≡ record {
            order_id = fresh;
            product_id = p.id;
            quantity = n;
            price_at_purchase = p.price;
          }
            ∷ t.order_items)
unfolding purchase create_order end_order
sale env fresh n buyer pid address p t s new some_ enough small =
    let quoted = quote_found env n buyer pid address p t s some_ enough small in
    let (left, placed, after) =
      body_found env fresh n buyer pid address p t s new some_ enough small s.buyer_id
        (0 + p.price * n) in
    (
      record (new_order buyer address (0 + p.price * n) (item_of pid n p ∷ [])) {
        id = some fresh;
        currency = "MRO";
        items = settle_items (item_of pid n p ∷ []) (lines_of n p);
      },
      ordered fresh n s.buyer_id address p left t,
      rw (quoted, purchase) (rw (s.connected, s.buyer_parsed, placed, create_order) refl),
      after,
      refl,
    )

-- When nothing fails: a purchase of all pieces of a product that are in stock succeeds, and so does a
-- second one of the same product, of any quantity that `int32` can bill, though nothing is left.
pub sold_out_sells_on :
    (env : Env) (fresh fresh' n m : ℕ) (buyer pid address : String) (p : Product) (t : Tables)
    → OnSale env buyer pid p t
    → p.stock_quantity ≡ n
    → 0 < n
    → 0 < m
    → p.price * n ≤ max_int32
    → p.price * m ≤ max_int32
    → has_item fresh p.id t.order_items ≡ false
    → has_item fresh' p.id t.order_items ≡ false
    → fresh ≢ fresh'
    → (o o' : Order) × (t' t'' : Tables) × (purchase env well
          (λ _. t)
          fresh
          buyer
          (pid ∷ [])
          (pos n ∷ [])
          address
          t
        ≡ (ok o, t'))
      × (find_product p.id t'.products ≡ some (record p { stock_quantity = 0 }))
      × (purchase env well (λ _. t') fresh' buyer (pid ∷ []) (pos m ∷ []) address t' ≡ (ok o', t''))
unfolding take_stock has_stock has_item
sold_out_sells_on env fresh fresh' n m buyer pid address p t s all some_ more small small' new new'
      apart =
    let empty : Product = record p { stock_quantity = 0 } in
    let enough : has_stock n p ≡ true = ground (arith, s.active) in
    let rest : (if p.stock_quantity == 0 then 0 else p.stock_quantity - n) ≡ 0 = ground arith in
    let gone : take_stock n p ≡ empty = ap (λ (q : ℕ). record p { stock_quantity = q }) rest in
    let (o, t', bought, left, rows) =
      sale env fresh n buyer pid address p t s new some_ enough small in
    let still : find_product p.id t'.products ≡ some empty = left ∙ ap some gone in
    let again : OnSale env buyer pid empty t' = record {
      connected = s.connected;
      buyer_id = s.buyer_id;
      buyer_parsed = s.buyer_parsed;
      parsed = s.parsed;
      found = still;
      active = s.active;
      priced = s.priced;
    } in
    let free : has_item fresh' p.id t'.order_items ≡ false =
      rw rows (ground (arith, new', apart)) in
    let (o', t'', bought', _, _) =
      sale env fresh' m buyer pid address empty t' again free more (ground (arith, s.active))
        small' in
    (o, o', t', t'', bought, still, bought')
