-- ===== src/Market/Repository.antt =====
-- backend/internal/modules/marketplace/infra/postgres_repository.go: products, orders and wish lists. Any
-- statement may fail; the identifier that the database gives a new row is a parameter of the call.
use merope.Prelude.{
  ℕ, suc, ◌+◌, ◌-◌, ◌*◌, ◌%◌, ◌^◌, Bool, true, false, not, Option, none, some, List, [], ◌∷◌,
  String, ltb, ◌==◌, if◌then◌else◌,
}
use merope.Prelude.Int.{ℤ, pos, pos_part, leb_ℤ}
use merope.Prelude.Text.{is_empty, trim_space}
use merope.Prelude.Outcome.{Result, ok, err, ◌>>=◌, ◌>>◌, fail_if}
use merope.Finance.Env.{Commit, done, lost, unclear}
use merope.Market.Tables.{Product, ItemRow, Tables, find_product, reserve, has_item}

pub data Error : Type 0 where
  product_required price_not_positive negative_stock name_required : Error
  amount_not_positive use_finance no_removal : Error
  no_products quantity_not_positive unavailable invalid_price insufficient_stock too_large : Error
  pool_required invalid_uuid empty_order begin_failed statement_failed no_rows duplicate_item :
      Error
  commit_failed : Error

-- Which statements reach the server, and how the commit ends.
pub record Faults : Type 0 where
  pub reads : ℕ → Bool
  pub begin : Bool
  pub reserves : ℕ → Bool
  pub inserts_order : Bool
  pub inserts_item : ℕ → Bool
  pub commit : Commit

-- The handle: `pool != nil`, and `pgtype.UUID.Scan`, whose error is `none`.
pub record Env : Type 0 where
  pub has_pool : Bool
  pub scan_uuid : String → Option ℕ

pub record Item : Type 0 where
  pub product_id : String
  pub product_name : String
  pub quantity : ℤ
  pub price_at_purchase : ℕ
  pub subtotal : ℕ

pub record Order : Type 0 where
  pub id : Option ℕ
  pub buyer_id : String
  pub total_amount : ℕ
  pub currency : String
  pub status : String
  pub shipping_address : String
  pub items : List Item

abbrev pub max_int32 : ℕ
max_int32 = 2 ^ 31 - 1

-- The low 32 bits of a number that is not negative; an `int32` below 2 ^ 31 is the number itself.
abbrev pub low_32 : ℕ → ℕ
low_32 n = n % 2 ^ 32

abbrev pub from_option : {A : Type 0} → Error → Option A → Result Error A
from_option e none = err e
from_option e (some a) = ok a

unfoldable pub parse_uuid : Env → String → Result Error ℕ
unfolding trim_space
parse_uuid env value = from_option invalid_uuid (env.scan_uuid (trim_space value))

-- `value = strings.TrimSpace(value)`, and `other` in place of an empty text
abbrev pub text_or : String → String → String
text_or other value = if is_empty (trim_space value) then other else trim_space value

-- `GetProduct`
unfoldable pub get_product : Env → Bool → String → Tables → Result Error Product
unfolding parse_uuid
get_product env reaches id t = do
  key ← parse_uuid env id
  fail_if (not reaches) statement_failed
  from_option no_rows (find_product key t.products)

-- A `reservedItem`.
pub record Reserved : Type 0 where
  pub product_id : ℕ
  pub quantity : ℕ
  pub price : ℕ

-- The loop over `o.Items`, from the `i`th on; an `int64` total of prices and quantities that are `int32`.
unfoldable pub reserve_all :
    Env
    → Faults
    → ℕ
    → List Item
    → ℕ
    → List Product
    → Result Error (ℕ × List Reserved × List Product)
reserve_all env f i [] total products = ok (total, [], products)
reserve_all env f i (item ∷ rest) total products = do
  key ← parse_uuid env item.product_id
  fail_if (leb_ℤ item.quantity (pos 0)) quantity_not_positive
  let quantity = pos_part item.quantity
  fail_if (not (f.reserves i)) statement_failed
  (price, left) ← from_option no_rows (reserve key quantity products)
  fail_if (price == 0) invalid_price
  fail_if (ltb max_int32 (total + price * quantity)) too_large
  (sum, reserved, final) ← reserve_all env f (suc i) rest (total + price * quantity) left
  ok (sum, record { product_id = key; quantity = quantity; price = price } ∷ reserved, final)

-- The loop over `reserved`.
unfoldable pub insert_items :
    Faults → ℕ → ℕ → List Reserved → List ItemRow → Result Error (List ItemRow)
unfolding has_item
insert_items f i order [] rows = ok rows
insert_items f i order (r ∷ rest) rows = do
  fail_if (not (f.inserts_item i)) statement_failed
  fail_if (has_item order r.product_id rows) duplicate_item
  insert_items f (suc i) order rest (
      record {
        order_id = order;
        product_id = r.product_id;
        quantity = r.quantity;
        price_at_purchase = r.price;
      }
      ∷ rows)

-- The loop over `o.Items` after the commit.
unfoldable pub settle_items : List Item → List Reserved → List Item
settle_items [] reserved = []
settle_items (item ∷ items) [] = item ∷ items
settle_items (item ∷ items) (r ∷ reserved) =
    record item { price_at_purchase = r.price; subtotal = low_32 (r.price * r.quantity) }
    ∷ settle_items items reserved

-- `CreateOrder` between `Begin` and `Commit`.
unfoldable pub order_body :
    Env → Faults → ℕ → ℕ → Order → Tables → Result Error (ℕ × List Reserved × Tables)
unfolding reserve_all insert_items
order_body env f fresh buyer o t = do
  (total, reserved, products) ← reserve_all env f 0 o.items 0 t.products
  fail_if (not f.inserts_order) statement_failed
  rows ← insert_items f 0 fresh reserved t.order_items
  ok (
    total,
    reserved,
    record t {
      products = products;
      orders =
          record {
            id = fresh;
            buyer_id = buyer;
            total_amount = low_32 total;
            status = text_or "pending" o.status;
            currency = text_or "MRO" o.currency;
            shipping_address = o.shipping_address;
          }
          ∷ t.orders;
      order_items = rows;
    },
  )

-- `tx.Commit(ctx)`, and the deferred `tx.Rollback(ctx)`; `unclear` is an error after a commit.
unfoldable pub end_order :
    Commit
    → ℕ
    → Order
    → Tables
    → Result Error (ℕ × List Reserved × Tables)
    → Result Error Order × Tables
unfolding settle_items
end_order c fresh o t (err e) = (err e, t)
end_order lost fresh o t (ok (total, reserved, t')) = (err commit_failed, t)
end_order unclear fresh o t (ok (total, reserved, t')) = (err commit_failed, t')
end_order done fresh o t (ok (total, reserved, t')) = (
  ok (record o {
    id = some fresh;
    currency = text_or "MRO" o.currency;
    total_amount = low_32 total;
    status = text_or "pending" o.status;
    items = settle_items o.items reserved;
  }),
  t',
)

abbrev pub none_left : List Item → Bool
none_left [] = true
none_left (_ ∷ _) = false

-- `CreateOrder`
unfoldable pub create_order : Env → Faults → ℕ → Order → Tables → Result Error Order × Tables
unfolding parse_uuid order_body end_order
create_order env f fresh o t = end_order f.commit fresh o t (do
  fail_if (not env.has_pool) pool_required
  buyer ← parse_uuid env o.buyer_id
  fail_if (none_left o.items) empty_order
  fail_if (not f.begin) begin_failed
  order_body env f fresh buyer o t)
