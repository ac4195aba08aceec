-- ===== src/Canteen/Lines.antt =====
-- The quantities of a sale, summed up per product.
use mothercare_backend.Prelude.{
  ℕ, ◌+◌, ◌≤◌, min, List, [], ◌∷◌, ◌≡◌, refl, arith, ◌==◌, if◌then◌else◌, sum_by,
}
use mothercare_backend.Canteen.Stock.{SaleItem, add_item, add_items, aggregate_sale_item_quantities}

-- What the lines sell of a product, and on how many lines.
abbrev pub quantity_of : ℕ → List SaleItem → ℕ
quantity_of p is = sum_by (λ (i : SaleItem). if i.product_id == p then i.quantity else 0) is

abbrev pub lines_of : ℕ → List SaleItem → ℕ
lines_of p is = sum_by (λ (i : SaleItem). if i.product_id == p then 1 else 0) is

quantity_of-add :
    (p : ℕ) (i : SaleItem) (qs : List SaleItem)
    → quantity_of p (add_item i qs) ≡ quantity_of p (i ∷ qs)
unfolding add_item
quantity_of-add p i [] = refl
quantity_of-add p i (q ∷ qs) = ground (arith, quantity_of-add p i qs)

lines_of-add :
    (p : ℕ) (i : SaleItem) (qs : List SaleItem)
    → lines_of p qs ≤ 1
    → lines_of p (add_item i qs) ≡ min 1 (lines_of p (i ∷ qs))
unfolding add_item
lines_of-add p i [] h = ground arith
lines_of-add p i (q ∷ qs) h = ground (arith, lines_of-add p i qs (omega (arith, h)))

quantity_of-all :
    (p : ℕ) (is sums : List SaleItem)
    → quantity_of p (add_items is sums) ≡ quantity_of p is + quantity_of p sums
quantity_of-all p [] sums = omega arith
quantity_of-all p (i ∷ is) sums =
    omega (arith, quantity_of-all p is (add_item i sums), quantity_of-add p i sums)

lines_of-all :
    (p : ℕ) (is sums : List SaleItem)
    → lines_of p sums ≤ 1
    → lines_of p (add_items is sums) ≡ min 1 (lines_of p is + lines_of p sums)
lines_of-all p [] sums h = omega arith
lines_of-all p (i ∷ is) sums h =
    let step = lines_of-add p i sums h in
    omega (arith, lines_of-all p is (add_item i sums) (omega (arith, step)), step)

-- The summed up lines sell of each product what the lines of the sale did, and name a product on
-- one line if the sale did at all, and else on none.
pub aggregate_keeps :
    (p : ℕ) (items : List SaleItem)
    → (quantity_of p (aggregate_sale_item_quantities items) ≡ quantity_of p items)
      × (lines_of p (aggregate_sale_item_quantities items) ≡ min 1 (lines_of p items))
unfolding aggregate_sale_item_quantities
aggregate_keeps p items = (
  omega (arith, quantity_of-all p items []),
  omega (arith, lines_of-all p items [] (omega arith)),
)
