-- ===== src/Market/Calls.antt =====
-- Lists of calls of backend/internal/modules/marketplace that change its tables.
use merope.Prelude.{
  ℕ, ◌≡◌, inl, inr, refl, ap, ◌∙◌, arith, Bool, true, false, not, some, List, [], ◌∷◌, String, ◌==◌,
  ==_iff, Bool-cases,
}
use merope.Prelude.Int.{ℤ}
use merope.Prelude.Outcome.{Result, ok, err, fail_if-eq-ok, >>=-eq-ok, Result-cases}
use merope.Finance.Env.{Commit, done, lost, unclear}
use merope.Market.Tables.{Product, Tables, find_product}
use merope.Market.Repository.{
  Env, Faults, Order, Reserved, Error, create_order, end_order, parse_uuid, none_left,
}
use merope.Market.Listings.{NewProduct, create_product, add_to_wishlist, insert_fails, product_row}
use merope.Market.Service.{check_product, post_product, manage_wishlist, purchase, quote}
use merope.Market.Stock.{StockKept, order_body-StockKept}

pub data Op : Type 0 where
  posts : Bool → ℕ → NewProduct → Op
  buys : Faults → (ℕ → Tables) → ℕ → String → List String → List ℤ → String → Op
  wishes_for : Bool → String → String → Bool → Op

-- The tables after a call.
unfoldable pub step : Env → Op → Tables → Tables
step env (posts reaches fresh p) t = (post_product env reaches fresh p t).1
step env (buys f seen fresh buyer pids quantities address) t =
    (purchase env f seen fresh buyer pids quantities address t).1
step env (wishes_for reaches user product add) t =
    (manage_wishlist env reaches user product add t).1

unfoldable pub run : Env → List Op → Tables → Tables
unfolding step
run env [] t = t
run env (op ∷ ops) t = run env ops (step env op t)

add_to_wishlist_rest :
    (env : Env) (reaches : Bool) (user product : String) (t : Tables)
    → ((add_to_wishlist env reaches user product t).1.products ≡ t.products)
      × ((add_to_wishlist env reaches user product t).1.order_items ≡ t.order_items)
unfolding add_to_wishlist
add_to_wishlist_rest env reaches user product t = ground arith

module _ (key n : ℕ) (env : Env) where
  new_id :
      (fresh : ℕ) (reaches : Bool) (p : NewProduct) (t : Tables) {row : Product}
      → insert_fails reaches fresh p t ≡ false
      → find_product key t.products ≡ some row
      → (fresh == key) ≡ false
  unfolding insert_fails
  new_id fresh reaches p t {row} works found = elim (Bool-cases (fresh == key)) [
    | inr other ↦ other
    | inl same ↦
        let e = (==_iff fresh key).0 same in
        let taken : find_product fresh t.products ≡ some row = rw e found in
        absurd (ground (arith, taken))
  ]

  end_order-StockKept :
      (c : Commit) (fresh : ℕ) (o : Order) (t : Tables)
      (body : Result Error (ℕ × List Reserved × Tables))
      → ((x : ℕ × List Reserved × Tables) → body ≡ ok x → StockKept key n x.2)
      → StockKept key n t
      → StockKept key n (end_order c fresh o t body).1
  unfolding end_order
  end_order-StockKept c fresh o t (err e) keep k = k
  end_order-StockKept done fresh o t (ok x) keep k = keep x refl
  end_order-StockKept lost fresh o t (ok x) keep k = k
  end_order-StockKept unclear fresh o t (ok x) keep k = keep x refl

  create_order-StockKept :
      (f : Faults) (fresh : ℕ) (o : Order) (t : Tables)
      → StockKept key n t
      → StockKept key n (create_order env f fresh o t).1
  unfolding create_order
  create_order-StockKept f fresh o t k =
      end_order-StockKept f.commit fresh o t _
        (λ x body.
          let (_, h1) = fail_if-eq-ok (not env.has_pool) _ _ body in
          let (buyer, _, h2) = >>=-eq-ok (parse_uuid env o.buyer_id) _ h1 in
          let (_, h3) = fail_if-eq-ok (none_left o.items) _ _ h2 in
          let (_, h4) = fail_if-eq-ok (not f.begin) _ _ h3 in
          order_body-StockKept key n env f fresh buyer o t x h4 k)
        k

  create_product-StockKept :
      (reaches : Bool) (fresh : ℕ) (p : NewProduct) (t : Tables)
      → StockKept key n t
      → StockKept key n (create_product env reaches fresh p t).1
  unfolding create_product find_product product_row
  create_product-StockKept reaches fresh p t k = elim (Result-cases (parse_uuid env p.seller_id)) [
    | inl (e, bad) ↦ rw (bad, create_product) k
    | inr (seller, good) ↦ elim (Bool-cases (insert_fails reaches fresh p t)) [
      | inl fails ↦ rw (good, create_product) (rw fails k)
      | inr works ↦
          rw (good, create_product)
            (rw works (record {
              row = k.row;
              found = rw (new_id fresh reaches p t works k.found) k.found;
              kept = k.kept;
            }))
    ]
  ]

  step-StockKept : (op : Op) (t : Tables) → StockKept key n t → StockKept key n (step env op t)
  unfolding step post_product purchase manage_wishlist add_to_wishlist
  step-StockKept (posts reaches fresh p) t k = elim (Result-cases (check_product p)) [
    | inl (e, bad) ↦ rw (bad, step, post_product) k
    | inr (_, good) ↦ rw (good, step, post_product) (create_product-StockKept reaches fresh p t k)
  ]
  step-StockKept (buys f seen fresh buyer pids quantities address) t k =
      elim (Result-cases (quote env f seen buyer pids quantities address)) [
        | inl (e, refused) ↦ rw (refused, step, purchase) k
        | inr (o, quoted) ↦ rw (quoted, step, purchase) (create_order-StockKept f fresh o t k)
      ]
  step-StockKept (wishes_for reaches user product true) t k =
      let rest = add_to_wishlist_rest env reaches user product t in
      record {
        row = k.row;
        found = ap (find_product key) rest.0 ∙ k.found;
        kept = rw rest.1 k.kept;
      }
  step-StockKept (wishes_for reaches user product false) t k = k

  -- Whatever is posted, bought and wished for, and whatever fails on the way: as long as some pieces of
  -- a product are left, its stock and the pieces in the rows of order items add up to what they did
  -- before.
  pub run-StockKept :
      (ops : List Op) (t : Tables) → StockKept key n t → StockKept key n (run env ops t)
  unfolding run
  run-StockKept [] t k = k
  run-StockKept (op ∷ ops) t k = run-StockKept ops (step env op t) (step-StockKept op t k)
