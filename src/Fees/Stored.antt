-- ===== src/Fees/Stored.antt =====
-- What an accepted selection has stored: its payments before those that were there, and no header.
use mothercare_backend.Prelude.{
  ℕ, ◌+◌, ◌≡◌, refl, sym, ap, subst, ◌∙◌, Option, none, some, ◌&&◌, List, [], ◌∷◌, ◌++◌, ltb, leb,
  length, sum_by,
}
use mothercare_backend.Prelude.Outcome.{ok, or_throw, guarded, both_ok, ok-same}
use mothercare_backend.Fees.Rows.{Fee, get_fee_total_due}
use mothercare_backend.Fees.Db.{Receipt, Payment, FeeDb}
use mothercare_backend.Fees.Receipts.{not_theirs, exceeds_due}
use mothercare_backend.Fees.Heads.{
  HeadInput, ExtraInput, check_heads, check_extras, normalize_allocate_heads_input, positive_heads,
  positive_extras,
}
use mothercare_backend.Fees.Waterfall.{Call, payment_for}
use mothercare_backend.Fees.Allocate.{
  PrevMonth, Alloc, find_fee, pay_month, pay_previous_one, pay_previous, pay_current,
  pay_current_if, allocate_selected, execute_student_alloc_in_tx, sort_prev, selected_fees,
  all_fee_ids,
}
use mothercare_backend.Fees.Selected.{allocate_selected-run}

-- The payments `ps`, made one after the other, on top of `qs`.
abbrev pub newest_first : List Payment → List Payment → List Payment
newest_first [] qs = qs
newest_first (p ∷ ps) qs = newest_first ps (p ∷ qs)

newest_first-last :
    (ps : List Payment) (p : Payment) (qs : List Payment)
    → newest_first (ps ++ p ∷ []) qs ≡ p ∷ newest_first ps qs
newest_first-last [] p qs = refl
newest_first-last (q ∷ ps) p qs = newest_first-last ps p (q ∷ qs)

-- From `base` on, the payments that were made are stored, and no header was.
abbrev pub Stored : FeeDb → Alloc → Type 0
Stored base s =
    (s.db.payments ≡ newest_first s.made base.payments)
    × (s.db.family_payments ≡ base.family_payments)

Stored-same : (base : FeeDb) {s t : Alloc} → s ≡ t → Stored base s → Stored base t
Stored-same base same h = subst (Stored base) same h

module _ (base : FeeDb) (c : Call) (receipt : ℕ → Receipt)
    (remember : ℕ → ℕ → List Fee → List Fee) where
  pay_month-Stored :
      (f : Fee) (amount : ℕ) (s : Alloc)
      → Stored base s
      → Stored base (pay_month c receipt remember f amount s)
  pay_month-Stored f amount s h =
      let p = payment_for c f amount (receipt (length s.made + 1)) s.db in
      (ap (λ ps. p ∷ ps) h.0 ∙ sym (newest_first-last s.made p base.payments), h.1)

  pay_previous_one-Stored :
      (p : PrevMonth) (s s' : Alloc)
      → pay_previous_one c receipt remember p s ≡ ok s'
      → Stored base s
      → Stored base s'
  unfolding pay_previous_one
  pay_previous_one-Stored p s s' h stored =
      let (f, _, h1) = both_ok (or_throw (find_fee p.student_fee_id s.seen) not_theirs) _ h in
      let (_, h2) =
        guarded (ltb 0 p.amount_paise && leb (f.paid_amount + p.amount_paise) (get_fee_total_due f))
          exceeds_due _ h1 in
      Stored-same base (ok-same h2) (pay_month-Stored f p.amount_paise s stored)

  pay_previous-Stored :
      (ps : List PrevMonth) (s s' : Alloc)
      → pay_previous c receipt remember ps s ≡ ok s'
      → Stored base s
      → Stored base s'
  unfolding pay_previous
  pay_previous-Stored [] s s' h stored = Stored-same base (ok-same h) stored
  pay_previous-Stored (p ∷ ps) s s' h stored =
      let (next, first, rest) =
        both_ok (pay_previous_one c receipt remember p s) (pay_previous c receipt remember ps) h in
      pay_previous-Stored ps next s' rest (pay_previous_one-Stored p s next first stored)

  pay_current-Stored :
      (fee_id : ℕ) (heads : List HeadInput) (extras : List ExtraInput) (s s' : Alloc)
      → pay_current c receipt remember fee_id heads extras s ≡ ok s'
      → Stored base s
      → Stored base s'
  unfolding pay_current
  pay_current-Stored fee_id heads extras s s' h stored =
      let (f, _, h1) = both_ok (or_throw (find_fee fee_id s.seen) not_theirs) _ h in
      let (on_heads, _, h2) = both_ok (check_heads f s.db.allocations heads) _ h1 in
      let (on_extras, _, h3) = both_ok (check_extras f s.db.allocations extras) _ h2 in
      Stored-same base (ok-same h3)
        (pay_month-Stored f (sum_by (λ a. a.amount) (on_heads ++ on_extras)) s stored)

  pay_current_if-Stored :
      (current : Option ℕ) (heads : List HeadInput) (extras : List ExtraInput) (s s' : Alloc)
      → pay_current_if c receipt remember current heads extras s ≡ ok s'
      → Stored base s
      → Stored base s'
  pay_current_if-Stored none heads extras s s' h stored = Stored-same base (ok-same h) stored
  pay_current_if-Stored (some fee_id) [] [] s s' h stored = Stored-same base (ok-same h) stored
  pay_current_if-Stored (some fee_id) (x ∷ hs) extras s s' h stored =
      pay_current-Stored fee_id (x ∷ hs) extras s s' h stored
  pay_current_if-Stored (some fee_id) [] (x ∷ xs) s s' h stored =
      pay_current-Stored fee_id [] (x ∷ xs) s s' h stored

pub allocate_selected-Stored :
    (c : Call) (receipt : ℕ → Receipt) (remember : ℕ → ℕ → List Fee → List Fee)
    (prev : List PrevMonth) (current : Option ℕ) (heads : List HeadInput) (extras : List ExtraInput)
    (db : FeeDb) (s' : Alloc)
    → allocate_selected c receipt remember prev current heads extras db ≡ ok s'
    → Stored db s'
allocate_selected-Stored c receipt remember prev current heads extras db s' h =
    let (s, before, after) =
      allocate_selected-run c receipt remember prev current heads extras db s' h in
    let fresh = selected_fees c.student_id (all_fee_ids prev current) db in
    pay_current_if-Stored db c receipt remember current heads extras s s' after (
      pay_previous-Stored db c receipt remember (sort_prev fresh prev)
        (record { seen = fresh; made = []; db = db }) s before (refl, refl))

pub execute_student_alloc-headers :
    (c : Call) (receipt : Receipt) (prev : List PrevMonth) (current : Option ℕ)
    (heads : List HeadInput) (extras : List ExtraInput) (db : FeeDb) (ps : List Payment)
    (db' : FeeDb)
    → execute_student_alloc_in_tx c receipt prev current heads extras db ≡ ok (ps, db')
    → db'.family_payments ≡ db.family_payments
unfolding execute_student_alloc_in_tx
execute_student_alloc-headers c receipt prev current heads extras db ps db' h =
    let hs = positive_heads (normalize_allocate_heads_input heads) in
    let xs = positive_extras extras in
    let (done, selected, answer) =
      both_ok (allocate_selected c (λ n. receipt) _ prev current hs xs db) _ h in
    ap (λ a. a.1.family_payments) (sym (ok-same answer))
    ∙ (allocate_selected-Stored c (λ n. receipt) _ prev current hs xs db done selected).1
