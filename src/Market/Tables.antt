-- ===== src/Market/Tables.antt =====
-- The tables of backend/internal/modules/marketplace, with the columns that its functions read. Prices and
-- stock have a CHECK that they are not negative (backend/db/migrations/20260917_marketplace_contract.sql).
use merope.Prelude.{
  ℕ, ◌-◌, Bool, false, ◌&&◌, ◌||◌, Option, none, some, List, [], ◌∷◌, String, leb, ◌==◌,
  if◌then◌else◌,
}

pub record Product : Type 0 where
  pub id : ℕ
  pub seller_id : ℕ
  pub name : String
  pub price : ℕ
  pub currency : String
  pub category : String
  pub stock_quantity : ℕ
  pub is_active : Bool

pub record OrderRow : Type 0 where
  pub id : ℕ
  pub buyer_id : ℕ
  pub total_amount : ℕ
  pub status : String
  pub currency : String
  pub shipping_address : String

pub record ItemRow : Type 0 where
  pub order_id : ℕ
  pub product_id : ℕ
  pub quantity : ℕ
  pub price_at_purchase : ℕ

pub record Tables : Type 0 where
  pub products : List Product
  pub orders : List OrderRow
  pub order_items : List ItemRow
  pub wishlists : List (ℕ × ℕ)  -- user, product; the newest first

-- `WHERE id = $1` on products
unfoldable pub find_product : ℕ → List Product → Option Product
find_product id [] = none
find_product id (p ∷ ps) = if p.id == id then some p else find_product id ps

-- A row of `UPDATE products SET stock_quantity = CASE ...`
unfoldable pub take_stock : ℕ → Product → Product
take_stock quantity p = record p {
  stock_quantity = if p.stock_quantity == 0 then 0 else p.stock_quantity - quantity;
}

-- `... WHERE id = $1 AND is_active = TRUE AND (stock_quantity = 0 OR stock_quantity >= $2)`
unfoldable pub has_stock : ℕ → Product → Bool
has_stock quantity p = p.is_active && (p.stock_quantity == 0 || leb quantity p.stock_quantity)

-- The whole statement; its RETURNING gives the price.
unfoldable pub reserve : ℕ → ℕ → List Product → Option (ℕ × List Product)
unfolding take_stock has_stock
reserve id quantity [] = none
reserve id quantity (p ∷ ps) =
    let rest : Option (ℕ × List Product) = elim (reserve id quantity ps) [
      | none ↦ none
      | some (price, qs) ↦ some (price, p ∷ qs)
    ] in
    if p.id == id
    then (if has_stock quantity p then some (p.price, take_stock quantity p ∷ ps) else none)
    else rest

-- Whether the primary key (order_id, product_id) of order_items is taken.
unfoldable pub has_item : ℕ → ℕ → List ItemRow → Bool
has_item order product [] = false
has_item order product (r ∷ rs) =
    (r.order_id == order && r.product_id == product) || has_item order product rs
