-- ===== src/Market/Service.antt =====
-- backend/internal/modules/marketplace/service/marketplace_service.go: what buyers and sellers call. The
-- tables that a purchase reads a product from may differ from read to read, and from those that the
-- order finds.
use merope.Prelude.{
  ℕ, suc, ◌+◌, ◌*◌, Bool, true, false, not, ◌&&◌, ◌||◌, none, List, [], ◌∷◌, String, ltb, ◌==◌,
  length,
}
use merope.Prelude.Int.{ℤ, pos, pos_part, ltb_ℤ, leb_ℤ}
use merope.Prelude.Text.{is_empty, trim_space}
use merope.Prelude.Outcome.{Result, ok, err, ◌>>=◌, ◌>>◌, fail_if}
use merope.Market.Tables.{Tables}
use merope.Market.Repository.{
  Env, Faults, Item, Order, Error, name_required, product_required, price_not_positive,
  negative_stock, use_finance, amount_not_positive, no_products, quantity_not_positive, unavailable,
  invalid_price, insufficient_stock, too_large, no_removal, max_int32, low_32, get_product,
  create_order,
}
use merope.Market.Listings.{NewProduct, create_product, add_to_wishlist}

-- What the service checks of a product before the repository stores it.
abbrev pub check_product : NewProduct → Result Error (Unit {0})
check_product p = do
  fail_if (is_empty p.seller_id) product_required
  fail_if (leb_ℤ p.price (pos 0)) price_not_positive
  fail_if (ltb_ℤ p.stock_quantity (pos 0)) negative_stock
  fail_if (is_empty (trim_space p.name)) name_required
  ok tt

-- `PostProduct`, of a product that is not nil
unfoldable pub post_product : Env → Bool → ℕ → NewProduct → Tables → Result Error ℕ × Tables
unfolding create_product
post_product env reaches fresh p t = elim (check_product p) [
  | err e ↦ (err e, t)
  | ok _ ↦ create_product env reaches fresh p t
]

-- `ExecutePulsePay`; `RecordTransaction` of the repository refuses every transfer.
unfoldable pub execute_pulse_pay : ℤ → Result Error (Unit {0})
execute_pulse_pay amount = do fail_if (leb_ℤ amount (pos 0)) amount_not_positive; err use_finance

-- `ManageWishlist`
unfoldable pub manage_wishlist :
    Env → Bool → String → String → Bool → Tables → Result Error (Unit {0}) × Tables
unfolding add_to_wishlist
manage_wishlist env reaches user product true t = add_to_wishlist env reaches user product t
manage_wishlist env reaches user product false t = (err no_removal, t)

-- The loop of `Purchase` over the products and their quantities, from the `i`th on.
unfoldable pub price_items :
    Env → Faults → (ℕ → Tables) → ℕ → List (String × ℤ) → ℕ → Result Error (ℕ × List Item)
unfolding get_product
price_items env f seen i [] total = ok (total, [])
price_items env f seen i ((pid, quantity) ∷ rest) total = do
  fail_if (leb_ℤ quantity (pos 0)) quantity_not_positive
  p ← get_product env (f.reads i) pid (seen i)
  fail_if (not p.is_active) unavailable
  fail_if (p.price == 0) invalid_price
  fail_if (ltb 0 p.stock_quantity && ltb p.stock_quantity (pos_part quantity)) insufficient_stock
  let line = p.price * pos_part quantity
  fail_if (ltb max_int32 (total + line)) too_large
  (sum, items) ← price_items env f seen (suc i) rest (total + line)
  ok (
    sum,
    record {
      product_id = pid;
      product_name = p.name;
      quantity = quantity;
      price_at_purchase = p.price;
      subtotal = low_32 line;
    }
        ∷ items,
  )

abbrev pub pair_up : List String → List ℤ → List (String × ℤ)
pair_up (pid ∷ pids) (q ∷ qs) = (pid, q) ∷ pair_up pids qs
pair_up _ _ = []

abbrev pub new_order : String → String → ℕ → List Item → Order
new_order buyer address total items = record {
  id = none;
  buyer_id = buyer;
  total_amount = low_32 total;
  currency = "";
  status = "pending";
  shipping_address = address;
  items = items;
}

-- `Purchase` up to its call of the repository
unfoldable pub quote :
    Env → Faults → (ℕ → Tables) → String → List String → List ℤ → String → Result Error Order
unfolding price_items
quote env f seen buyer pids quantities address = do
  fail_if (length pids == 0 || not (length pids == length quantities)) no_products
  (total, items) ← price_items env f seen 0 (pair_up pids quantities) 0
  ok (new_order buyer address total items)

-- `Purchase`
unfoldable pub purchase :
    Env
    → Faults
    → (ℕ → Tables)
    → ℕ
    → String
    → List String
    → List ℤ
    → String
    → Tables
    → Result Error Order × Tables
unfolding quote create_order
purchase env f seen fresh buyer pids quantities address t =
    elim (quote env f seen buyer pids quantities address) [
      | err e ↦ (err e, t)
      | ok o ↦ create_order env f fresh o t
    ]
