-- ===== src/Market/Listings.antt =====
-- `CreateProduct` and the wish lists of
-- backend/internal/modules/marketplace/infra/postgres_repository.go. The description and the rating are left
-- out; `is_featured` is always false.
use merope.Prelude.{
  ℕ, Bool, true, false, not, ◌&&◌, ◌||◌, Option, none, some, List, [], ◌∷◌, String, ◌==◌,
  if◌then◌else◌,
}
use merope.Prelude.Int.{ℤ, pos, pos_part, ltb_ℤ}
use merope.Prelude.Text.{trim_space}
use merope.Prelude.Outcome.{Result, ok, err, ◌>>=◌, ◌>>◌, fail_if}
use merope.Market.Tables.{Product, Tables, find_product}
use merope.Market.Repository.{Env, Error, statement_failed, parse_uuid, text_or}

-- What a seller sends.
pub record NewProduct : Type 0 where
  pub seller_id : String
  pub name : String
  pub price : ℤ
  pub currency : String
  pub category : String
  pub stock_quantity : ℤ

abbrev pub is_some : {A : Type 0} → Option A → Bool
is_some none = false
is_some (some _) = true

-- Whether the INSERT fails: the connection, the primary key, or a CHECK on price or stock.
unfoldable pub insert_fails : Bool → ℕ → NewProduct → Tables → Bool
unfolding find_product
insert_fails reaches fresh p t =
    not reaches
    || is_some (find_product fresh t.products)
    || ltb_ℤ p.price (pos 0)
    || ltb_ℤ p.stock_quantity (pos 0)

-- The row that `CreateProduct` inserts.
unfoldable pub product_row : ℕ → ℕ → NewProduct → Product
unfolding trim_space
product_row fresh seller p = record {
  id = fresh;
  seller_id = seller;
  name = trim_space p.name;
  price = pos_part p.price;
  currency = text_or "MRO" p.currency;
  category = text_or "general" p.category;
  stock_quantity = pos_part p.stock_quantity;
  is_active = true;
}

-- `CreateProduct`
unfoldable pub create_product : Env → Bool → ℕ → NewProduct → Tables → Result Error ℕ × Tables
unfolding parse_uuid insert_fails product_row
create_product env reaches fresh p t = elim (parse_uuid env p.seller_id) [
  | err e ↦ (err e, t)
  | ok seller ↦
      if insert_fails reaches fresh p t
      then (err statement_failed, t)
      else (ok fresh, record t { products = product_row fresh seller p ∷ t.products })
]

abbrev pub wishes : ℕ → ℕ → List (ℕ × ℕ) → Bool
wishes user product [] = false
wishes user product ((u, p) ∷ rest) = (u == user && p == product) || wishes user product rest

-- `AddToWishlist`; `ON CONFLICT DO NOTHING`
unfoldable pub add_to_wishlist :
    Env → Bool → String → String → Tables → Result Error (Unit {0}) × Tables
unfolding parse_uuid
add_to_wishlist env reaches user_id product_id t =
    let ids : Result Error (ℕ × ℕ) = do
      u ← parse_uuid env user_id
      p ← parse_uuid env product_id
      ok (u, p)
    in elim ids [
      | err e ↦ (err e, t)
      | ok (u, p) ↦ if not reaches then (err statement_failed, t) else (
        ok tt,
        record t {
          wishlists = if wishes u p t.wishlists then t.wishlists else (u, p) ∷ t.wishlists;
        },
      )
    ]

-- `JOIN products p ON p.id = w.product_id WHERE w.user_id = $1 AND p.is_active = TRUE`
unfoldable pub wished : ℕ → List Product → List (ℕ × ℕ) → List Product
unfolding find_product
wished user products [] = []
wished user products ((u, key) ∷ rest) =
    let below = wished user products rest in
    if u == user
    then elim (find_product key products) [
      | none ↦ below
      | some p ↦ if p.is_active then p ∷ below else below
    ]
    else below

-- `GetWishlist`, the newest wish first
unfoldable pub get_wishlist : Env → Bool → String → Tables → Result Error (List Product)
unfolding parse_uuid wished
get_wishlist env reaches user_id t = do
  u ← parse_uuid env user_id
  fail_if (not reaches) statement_failed
  ok (wished u t.products t.wishlists)
