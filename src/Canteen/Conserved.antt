-- ===== src/Canteen/Conserved.antt =====
-- What a change of stock keeps.
use native.Mathlib.Nat.{mod-lt, div-add-mod}
use mothercare_backend.Prelude.{
  ℕ, ◌≤◌, ◌<◌, Option, none, some, ◌≡◌, refl, ap, subst, ◌∙◌, ◌↔◌, arith,
}
use mothercare_backend.Prelude.Int.{ℤ, pos, negsuc, ◌+ℤ◌, int_laws}
use mothercare_backend.Canteen.Stock.{
  insufficient_stock, Stock, Stocked, stock, throws, units_per_box_of, total_stock_units, boxed,
  settle, apply_stock_delta, normalize_stock,
}

abbrev pub total_of : Stock → Option ℤ → ℕ
total_of s per_box = total_stock_units s.stock_boxes s.stock_units per_box

units_per_box_pos : (per_box : Option ℤ) → 1 ≤ units_per_box_of per_box
units_per_box_pos none = omega arith
units_per_box_pos (some (pos ℕ.zero)) = omega arith
units_per_box_pos (some (pos (ℕ.suc n))) = omega arith
units_per_box_pos (some (negsuc n)) = omega arith

boxed-total :
    (total : ℕ) (per_box : Option ℤ)
    → total_stock_units (boxed total per_box).stock_boxes (boxed total per_box).stock_units per_box
      ≡ total
boxed-total total per_box = omega (arith, div-add-mod total (units_per_box_of per_box))

boxed_loose :
    (total : ℕ) (per_box : Option ℤ) → (boxed total per_box).stock_units < units_per_box_of per_box
boxed_loose total per_box = mod-lt total (units_per_box_pos per_box)

-- The stock of a result, or the one given.
abbrev stock_or : Stock → Stocked → Stock
stock_or default (stock s) = s
stock_or default (throws e) = default

settle-stock :
    (next : ℤ) (per_box : Option ℤ) (s : Stock)
    → settle next per_box ≡ stock s
    → (pos (total_of s per_box) ≡ next) × (s.stock_units < units_per_box_of per_box)
settle-stock (pos n) per_box s h =
    subst (λ t. (pos (total_of t per_box) ≡ pos n) × (t.stock_units < units_per_box_of per_box))
      (ap (stock_or s) h) (ap pos (boxed-total n per_box), boxed_loose n per_box)
settle-stock (negsuc n) per_box s h = absurd (cc h)

sum_assoc : (a b c : ℤ) → (a +ℤ b) +ℤ c ≡ a +ℤ (b +ℤ c)
sum_assoc a b c = grind int_laws

-- A change of stock that succeeds changes the total by exactly its amount and leaves less than a
-- box of loose units.
pub delta_conserves :
    (s s' : Stock) (delta : ℤ) (per_box : Option ℤ)
    → apply_stock_delta s delta per_box ≡ stock s'
    → (pos (total_of s' per_box) ≡ pos (total_of s per_box) +ℤ delta)
      × (s'.stock_units < units_per_box_of per_box)
unfolding apply_stock_delta
delta_conserves s s' delta per_box h = settle-stock _ per_box s' h

-- Two changes of stock, of which the first succeeds, come to the change by their sum: to the same
-- stock, or to the same refusal.
pub delta_then_delta :
    (s s' : Stock) (first second : ℤ) (per_box : Option ℤ)
    → apply_stock_delta s first per_box ≡ stock s'
    → apply_stock_delta s' second per_box ≡ apply_stock_delta s (first +ℤ second) per_box
unfolding apply_stock_delta
delta_then_delta s s' first second per_box h =
    ap (λ next. settle next per_box)
      (ap (λ n. n +ℤ second) (delta_conserves s s' first per_box h).0
        ∙ sum_assoc (pos (total_of s per_box)) first second)

-- A change of stock is refused exactly when it would leave a negative total.
pub delta_refused_iff :
    (s : Stock) (delta : ℤ) (per_box : Option ℤ)
    → (apply_stock_delta s delta per_box ≡ throws insufficient_stock)
      ↔ ((n : ℕ) × (pos (total_of s per_box) +ℤ delta ≡ negsuc n))
unfolding apply_stock_delta
delta_refused_iff s delta per_box = refused (pos (total_of s per_box) +ℤ delta)
  where
    refused :
        (next : ℤ)
        → (settle next per_box ≡ throws insufficient_stock) ↔ ((n : ℕ) × (next ≡ negsuc n))
    refused (pos m) = (λ h. absurd (cc h), λ (n, h). absurd (cc h))
    refused (negsuc m) = (λ h. (m, refl), λ h. refl)

-- Normalizing a stock of whole numbers keeps its total and leaves less than a box of loose units,
-- and normalizing the result changes nothing.
pub normalize_keeps :
    (boxes units : ℕ) (per_box : Option ℤ)
    → (s : Stock) × (normalize_stock (some (pos boxes)) (some (pos units)) per_box ≡ stock s)
      × (total_of s per_box ≡ total_stock_units boxes units per_box)
      × (s.stock_units < units_per_box_of per_box)
      × (normalize_stock (some (pos s.stock_boxes)) (some (pos s.stock_units)) per_box ≡ stock s)
unfolding normalize_stock
normalize_keeps boxes units per_box =
    let total = total_stock_units boxes units per_box in
    let kept = boxed-total total per_box in
    (
      boxed total per_box,
      refl,
      kept,
      boxed_loose total per_box,
      ap (λ n. stock (boxed n per_box)) kept,
    )
