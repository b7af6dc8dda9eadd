-- ===== src/Market/Tests.antt =====
-- A shop with one product, of which two are left.
use merope.Prelude.{ℕ, ◌≡◌, refl, inr, arith, true, false, some, List, [], ◌∷◌, map, if◌then◌else◌}
use merope.Prelude.Int.{pos}
use merope.Prelude.Text.{str_eq, trim_space}
use merope.Prelude.Outcome.{ok}
use merope.Market.Tables.{Product, Tables, find_product, reserve, has_item}
use merope.Market.Repository.{Env, Order}
use merope.Market.Service.{purchase, pair_up}
use merope.Market.Billing.{Billed, line_of, purchase-Billed}
use merope.Market.Stock.{StockKept}
use merope.Market.Calls.{Op, buys, run, run-StockKept}
use merope.Market.SoldOut.{well, OnSale, sold_out_sells_on}

abbrev env : Env
env = record { has_pool = true; scan_uuid = λ s. if str_eq s "ada" then some 1 else some 7 }

abbrev lamp : Product
lamp = record {
  id = 7;
  seller_id = 3;
  name = "lamp";
  price = 40;
  currency = "MRO";
  category = "general";
  stock_quantity = 2;
  is_active = true;
}

abbrev shop : Tables
shop = record { products = lamp ∷ []; orders = []; order_items = []; wishlists = [] }

abbrev placed : Order
unfolding purchase
placed = record {
  id = some 100;
  buyer_id = "ada";
  total_amount = 80;
  currency = "MRO";
  status = "pending";
  shipping_address = "here";
  items =
      record {
        product_id = "lamp";
        product_name = "lamp";
        quantity = pos 2;
        price_at_purchase = 40;
        subtotal = 80;
      }
      ∷ [];
}

abbrev after : Tables
after = record shop {
  products = record lamp { stock_quantity = 0 } ∷ [];
  orders =
      record {
        id = 100;
        buyer_id = 1;
        total_amount = 80;
        status = "pending";
        currency = "MRO";
        shipping_address = "here";
      }
      ∷ [];
  order_items =
      record { order_id = 100; product_id = 7; quantity = 2; price_at_purchase = 40 } ∷ [];
}

bought :
    purchase env well (λ _. shop) 100 "ada" ("lamp" ∷ []) (pos 2 ∷ []) "here" shop
    ≡ (ok placed, after)
unfolding purchase find_product reserve
bought = refl

purchase-Billed_example :
    Billed 100 placed shop after × (map line_of placed.items ≡ pair_up ("lamp" ∷ []) (pos 2 ∷ []))
purchase-Billed_example =
    purchase-Billed env well (λ _. shop) 100 "ada" ("lamp" ∷ []) (pos 2 ∷ []) "here" shop bought

abbrev calls : List Op
calls = buys well (λ _. shop) 100 "ada" ("lamp" ∷ []) (pos 1 ∷ []) "here" ∷ []

lamp-StockKept : StockKept 7 2 shop
unfolding find_product
lamp-StockKept = record { row = lamp; found = refl; kept = inr refl }

run-StockKept_example : StockKept 7 2 (run env calls shop)
run-StockKept_example = run-StockKept 7 2 env calls shop lamp-StockKept

lamp-OnSale : OnSale env "ada" "lamp" lamp shop
unfolding find_product trim_space
lamp-OnSale = record {
  connected = refl;
  buyer_id = 1;
  buyer_parsed = refl;
  parsed = refl;
  found = refl;
  active = refl;
  priced = omega arith;
}

fresh_items : (k : ℕ) → has_item k 7 shop.order_items ≡ false
unfolding has_item
fresh_items k = refl

sold_out_sells_on_example :
    (o o' : Order) × (t' t'' : Tables) × (purchase env well
        (λ _. shop)
        100
        "ada"
        ("lamp" ∷ [])
        (pos 2 ∷ [])
        "here"
        shop
      ≡ (ok o, t'))
    × (find_product 7 t'.products ≡ some (record lamp { stock_quantity = 0 }))
    × (purchase env well (λ _. t') 101 "ada" ("lamp" ∷ []) (pos 500 ∷ []) "here" t' ≡ (ok o', t''))
sold_out_sells_on_example =
    sold_out_sells_on env 100 101 2 500 "ada" "lamp" "here" lamp shop lamp-OnSale refl (omega arith)
      (omega arith) (omega arith) (omega arith) (fresh_items 100) (fresh_items 101) (omega arith)
