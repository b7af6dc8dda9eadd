-- ===== src/Market/Charges.antt =====
-- What an order of backend/internal/modules/marketplace costs.
use merope.Prelude.{
  ℕ, suc, ◌+◌, ◌*◌, ◌≤◌, ◌≡◌, ◌∙◌, sym, ap, arith, false, not, Option, none, some, List, [], ◌∷◌,
  ltb, ◌==◌, not_ltb→le, if◌then◌else◌,
}
use merope.Prelude.Int.{ℤ, pos, pos_part, leb_ℤ}
use merope.Prelude.Outcome.{ok_inj, ok, fail_if-eq-ok, >>=-eq-ok}
use merope.Market.Tables.{Product, ItemRow, reserve, has_item}
use merope.Market.Repository.{
  Env, Faults, Item, Reserved, Error, max_int32, reserve_all, insert_items, parse_uuid, from_option,
}

abbrev pub cost : List Reserved → ℕ
cost [] = 0
cost (r ∷ rs) = r.price * r.quantity + cost rs

-- What the items of an order cost by its rows.
abbrev pub order_cost : ℕ → List ItemRow → ℕ
order_cost order [] = 0
order_cost order (r ∷ rs) =
    (if r.order_id == order then r.price_at_purchase * r.quantity else 0) + order_cost order rs

abbrev pub bill : List Item → ℕ
bill [] = 0
bill (item ∷ items) = item.subtotal + bill items

abbrev pub IsPriced : Item → Type 0
IsPriced item = item.subtotal ≡ item.price_at_purchase * pos_part item.quantity

-- Each reserved line is of the quantity that its item asks for.
abbrev pub Fits : List Item → List Reserved → Type 0
Fits [] [] = Unit {0}
Fits (item ∷ items) (r ∷ rs) = (item.quantity ≡ pos r.quantity) × Fits items rs
Fits _ _ = ⊥

pub record Charged (items : List Item) (total sum : ℕ) (reserved : List Reserved) : Type 0 where
  pub adds : sum ≡ total + cost reserved
  pub below : total ≤ max_int32 → sum ≤ max_int32
  pub fits : Fits items reserved

-- What a round of the loop over the items has done when the loop succeeds.
pub record Round (env : Env) (f : Faults) (i : ℕ) (item : Item) (rest : List Item) (total : ℕ)
    (products : List Product) (sum : ℕ) (reserved : List Reserved) (final : List Product)
    : Type 0 where
  pub key : ℕ
  pub price : ℕ
  pub left : List Product
  pub tail : List Reserved
  pub parsed : parse_uuid env item.product_id ≡ ok key
  pub positive : leb_ℤ item.quantity (pos 0) ≡ false
  pub took : reserve key (pos_part item.quantity) products ≡ some (price, left)
  pub room : ltb max_int32 (total + price * pos_part item.quantity) ≡ false
  pub later :
      reserve_all env f (suc i) rest (total + price * pos_part item.quantity) left
      ≡ ok (sum, tail, final)
  pub shape :
      reserved
      ≡ record { product_id = key; quantity = pos_part item.quantity; price = price } ∷ tail

from_option-eq-ok :
    {A : Type 0} (e : Error) (o : Option A) {a : A} → from_option e o ≡ ok a → o ≡ some a
from_option-eq-ok e none h = absurd (cc)
from_option-eq-ok e (some a) h = cc

pub reserve_all-Round :
    (env : Env) (f : Faults) (i : ℕ) (item : Item) (rest : List Item) (total : ℕ)
    (products : List Product) {sum : ℕ} {reserved : List Reserved} {final : List Product}
    → reserve_all env f i (item ∷ rest) total products ≡ ok (sum, reserved, final)
    → Round env f i item rest total products sum reserved final
unfolding reserve_all
reserve_all-Round env f i item rest total products {sum} {reserved} {final} h0 =
    let (key, parsed, h1) = >>=-eq-ok (parse_uuid env item.product_id) _ h0 in
    let (positive, h2) = fail_if-eq-ok (leb_ℤ item.quantity (pos 0)) _ _ h1 in
    let (_, h3) = fail_if-eq-ok (not (f.reserves i)) _ _ h2 in
    let (it, took, h4) =
      >>=-eq-ok (from_option _ (reserve key (pos_part item.quantity) products)) _ h3 in
    let (_, h5) = fail_if-eq-ok (it.0 == 0) _ _ h4 in
    let (room, h6) = fail_if-eq-ok (ltb max_int32 (total + it.0 * pos_part item.quantity)) _ _ h5 in
    let (out, later, h7) =
      >>=-eq-ok (reserve_all env f (suc i) rest (total + it.0 * pos_part item.quantity) it.1) _
        h6 in
    let mine : Reserved = record {
      product_id = key;
      quantity = pos_part item.quantity;
      price = it.0;
    } in
    let same = ok_inj (out.0, mine ∷ out.1, out.2) (sum, reserved, final) h7 in
    record {
      key = key;
      price = it.0;
      left = it.1;
      tail = out.1;
      parsed = parsed;
      positive = positive;
      took = from_option-eq-ok _ _ took;
      room = room;
      later = later ∙ ap (λ (x : ℕ × List Reserved × List Product). ok (x.0, out.1, x.2)) same;
      shape = sym (ap (λ (x : ℕ × List Reserved × List Product). x.1) same);
    }

pos_of_positive : (z : ℤ) → leb_ℤ z (pos 0) ≡ false → z ≡ pos (pos_part z)
pos_of_positive z h = ground arith

pub reserve_all-Charged :
    (env : Env) (f : Faults) (i : ℕ) (items : List Item) (total : ℕ) (products : List Product)
    {sum : ℕ} {reserved : List Reserved} {final : List Product}
    → reserve_all env f i items total products ≡ ok (sum, reserved, final)
    → Charged items total sum reserved
unfolding reserve_all
reserve_all-Charged env f i [] total products h = ground arith
reserve_all-Charged env f i (item ∷ rest) total products {sum} {reserved} h =
    let r = reserve_all-Round env f i item rest total products h in
    let c =
      reserve_all-Charged env f (suc i) rest (total + r.price * pos_part item.quantity) r.left
        r.later in
    rw r.shape (record {
      adds = omega (arith, c.adds);
      below = λ _. c.below (omega (arith, not_ltb→le _ _ r.room));
      fits = (pos_of_positive item.quantity r.positive, c.fits);
    })

pub insert_items-cost :
    (f : Faults) (i order : ℕ) (reserved : List Reserved) (rows : List ItemRow)
    {rows' : List ItemRow}
    → insert_items f i order reserved rows ≡ ok rows'
    → order_cost order rows' ≡ order_cost order rows + cost reserved
unfolding insert_items
insert_items-cost f i order [] rows h = ground arith
insert_items-cost f i order (r ∷ rest) rows h =
    let (_, h1) = fail_if-eq-ok (not (f.inserts_item i)) _ _ h in
    let (_, h2) = fail_if-eq-ok (has_item order r.product_id rows) _ _ h1 in
    ground (arith, insert_items-cost f (suc i) order rest _ h2)
