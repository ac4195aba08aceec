-- ===== src/Canteen/Tests.antt =====
-- A product in boxes of twelve, and a sale that names one product twice.
use mothercare_backend.Prelude.{◌<◌, min, Option, some, List, [], ◌∷◌, ◌≡◌, refl}
use mothercare_backend.Prelude.Int.{ℤ, pos, negsuc, ◌+ℤ◌}
use mothercare_backend.Canteen.Stock.{
  Stock, stock, apply_stock_delta, SaleItem, aggregate_sale_item_quantities,
}
use mothercare_backend.Canteen.Conserved.{delta_conserves}
use mothercare_backend.Canteen.Lines.{quantity_of, lines_of, aggregate_keeps}

abbrev dozen : Option ℤ
dozen = some (pos 12)

abbrev shelf : Stock
shelf = record { stock_boxes = 2; stock_units = 3 }

-- The shelf after five units are sold.
abbrev sold : Stock
sold = record { stock_boxes = 1; stock_units = 10 }

abbrev sale : List SaleItem
sale =
    record { product_id = 4; quantity = 2 }
    ∷ record { product_id = 6; quantity = 1 }
    ∷ record { product_id = 4; quantity = 3 }
    ∷ []

selling : apply_stock_delta shelf (negsuc 4) dozen ≡ stock sold
unfolding apply_stock_delta ◌+ℤ◌
selling = refl

delta_conserves_example : (pos 22 ≡ pos 27 +ℤ negsuc 4) × (10 < 12)
delta_conserves_example = delta_conserves shelf sold (negsuc 4) dozen selling

aggregate_keeps_example :
    (quantity_of 4 (aggregate_sale_item_quantities sale) ≡ quantity_of 4 sale)
    × (lines_of 4 (aggregate_sale_item_quantities sale) ≡ min 1 (lines_of 4 sale))
aggregate_keeps_example = aggregate_keeps 4 sale
