-- ===== src/Canteen/Stock.antt =====
-- src/modules/canteen/canteen-stock.ts
use mothercare_backend.Prelude.{
  ℕ, ◌+◌, ◌*◌, ◌/◌, ◌%◌, Option, some, List, [], ◌∷◌, ◌==◌, if◌then◌else◌,
}
use mothercare_backend.Prelude.Int.{ℤ, pos, negsuc, ◌+ℤ◌}

-- What the functions throw, with status 400.
pub data StockError : Type 0 where
  bad_boxes bad_units insufficient_stock : StockError

-- Full boxes and loose units.
pub record Stock : Type 0 where
  pub stock_boxes : ℕ
  pub stock_units : ℕ

pub data Stocked : Type 0 where
  stock : Stock → Stocked
  throws : StockError → Stocked

-- `unitsPerBoxOf`: a column that is null or not positive counts as 1.
abbrev pub units_per_box_of : Option ℤ → ℕ
units_per_box_of (some (pos (ℕ.suc n))) = ℕ.suc n
units_per_box_of _ = 1

-- `totalStockUnits`
abbrev pub total_stock_units : ℕ → ℕ → Option ℤ → ℕ
total_stock_units boxes units per_box = boxes * units_per_box_of per_box + units

-- `{ stockBoxes: Math.floor(total / upb), stockUnits: total % upb }`
abbrev pub boxed : ℕ → Option ℤ → Stock
boxed total per_box = record {
  stock_boxes = total / units_per_box_of per_box;
  stock_units = total % units_per_box_of per_box;
}

-- A number of a request: an integer, or `none` for any other.
-- `normalizeStock`
unfoldable pub normalize_stock : Option ℤ → Option ℤ → Option ℤ → Stocked
normalize_stock (some (pos boxes)) (some (pos units)) per_box =
    stock (boxed (total_stock_units boxes units per_box) per_box)
normalize_stock (some (pos boxes)) units per_box = throws bad_units
normalize_stock boxes units per_box = throws bad_boxes

-- The last lines of `applyStockDelta`.
abbrev pub settle : ℤ → Option ℤ → Stocked
settle (pos next) per_box = stock (boxed next per_box)
settle (negsuc n) per_box = throws insufficient_stock

-- `applyStockDelta`, on the columns of a row
unfoldable pub apply_stock_delta : Stock → ℤ → Option ℤ → Stocked
apply_stock_delta s delta per_box =
    settle (pos (total_stock_units s.stock_boxes s.stock_units per_box) +ℤ delta) per_box

pub record SaleItem : Type 0 where
  pub product_id : ℕ
  pub quantity : ℕ

-- `map.set(id, (map.get(id) ?? 0) + quantity)`: a new key goes to the end of the map.
unfoldable pub add_item : SaleItem → List SaleItem → List SaleItem
add_item i [] = i ∷ []
add_item i (q ∷ qs) =
    let rest = add_item i qs in
    if q.product_id == i.product_id
    then record { product_id = q.product_id; quantity = q.quantity + i.quantity } ∷ qs
    else q ∷ rest

abbrev pub add_items : List SaleItem → List SaleItem → List SaleItem
add_items [] sums = sums
add_items (i ∷ is) sums = add_items is (add_item i sums)

-- `aggregateSaleItemQuantities`
unfoldable pub aggregate_sale_item_quantities : List SaleItem → List SaleItem
unfolding add_item
aggregate_sale_item_quantities items = add_items items []
