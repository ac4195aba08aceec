-- ===== src/Fees/Selected.antt =====
-- An accepted `POST /payments/allocate` records exactly the amount that was paid.
use mothercare_backend.Prelude.{
  ℕ, ◌+◌, ◌≡◌, refl, sym, ap, ◌∙◌, Option, none, some, true, ◌&&◌, ◌||◌, List, [], ◌∷◌, ◌++◌, ◌==◌,
  ltb, leb, length, sum_by, sum_by-append, arith,
}
use mothercare_backend.Prelude.Outcome.{ok, or_throw, guarded, both_ok, ok-same}
use mothercare_backend.Fees.Rows.{Fee, get_fee_total_due}
use mothercare_backend.Fees.Db.{Receipt, FeeDb}
use mothercare_backend.Fees.Receipts.{not_theirs, exceeds_due, head_missing}
use mothercare_backend.Fees.Breakdown.{merge_fee_head_breakdown}
use mothercare_backend.Fees.Heads.{
  HeadInput, ExtraInput, AllocInput, find_head, find_extra, already_on, held_by_extra, check_head,
  check_extra, check_heads, check_extras,
}
use mothercare_backend.Fees.Waterfall.{Call, payment_for}
use mothercare_backend.Fees.Allocate.{
  PrevMonth, Alloc, find_fee, insert_prev, sort_prev, pay_month, pay_previous_one, pay_previous,
  pay_current, pay_current_if, is_nil, all_fee_ids, selected_fees, allocate_selected, is_given,
}
use mothercare_backend.Fees.Poured.{amount_of}

insert_prev-sum :
    (seen : List Fee) (p : PrevMonth) (ps : List PrevMonth)
    → sum_by (λ q. q.amount_paise) (insert_prev seen p ps)
      ≡ p.amount_paise + sum_by (λ q. q.amount_paise) ps
unfolding insert_prev
insert_prev-sum seen p [] = refl
insert_prev-sum seen p (q ∷ qs) = ground (arith, insert_prev-sum seen p qs)

pub sort_prev-sum :
    (seen : List Fee) (ps : List PrevMonth)
    → sum_by (λ q. q.amount_paise) (sort_prev seen ps) ≡ sum_by (λ q. q.amount_paise) ps
unfolding sort_prev
sort_prev-sum seen [] = refl
sort_prev-sum seen (p ∷ ps) =
    omega (arith, insert_prev-sum seen p (sort_prev seen ps), sort_prev-sum seen ps)

module _ (c : Call) (receipt : ℕ → Receipt) (remember : ℕ → ℕ → List Fee → List Fee) where
  pay_month-amount :
      (f : Fee) (amount : ℕ) (s : Alloc)
      → amount_of (pay_month c receipt remember f amount s).made ≡ amount_of s.made + amount
  pay_month-amount f amount s = omega (
    arith,
    sum_by-append (λ p. p.amount) s.made
        (payment_for c f amount (receipt (length s.made + 1)) s.db ∷ []),
  )

  pay_previous_one-amount :
      (p : PrevMonth) (s s' : Alloc)
      → pay_previous_one c receipt remember p s ≡ ok s'
      → amount_of s'.made ≡ amount_of s.made + p.amount_paise
  unfolding pay_previous_one
  pay_previous_one-amount p s s' h =
      let (f, _, h1) = both_ok (or_throw (find_fee p.student_fee_id s.seen) not_theirs) _ h in
      let (_, h2) =
        guarded (ltb 0 p.amount_paise && leb (f.paid_amount + p.amount_paise) (get_fee_total_due f))
          exceeds_due _ h1 in
      ap (λ t. amount_of t.made) (sym (ok-same h2)) ∙ pay_month-amount f p.amount_paise s

  pub pay_previous-amount :
      (ps : List PrevMonth) (s s' : Alloc)
      → pay_previous c receipt remember ps s ≡ ok s'
      → amount_of s'.made ≡ amount_of s.made + sum_by (λ p. p.amount_paise) ps
  unfolding pay_previous
  pay_previous-amount [] s s' h = omega (arith, ap (λ t. amount_of t.made) (ok-same h))
  pay_previous-amount (p ∷ ps) s s' h =
      let (next, first, rest) =
        both_ok (pay_previous_one c receipt remember p s) (pay_previous c receipt remember ps) h in
      omega (arith, pay_previous-amount ps next s' rest, pay_previous_one-amount p s next first)

check_head-amount :
    (f : Fee) (prior : _) (h : HeadInput) (a : AllocInput)
    → check_head f prior h ≡ ok a
    → a.amount ≡ h.amount_paise
unfolding check_head
check_head-amount f prior h a e =
    let (b, _, e1) =
      both_ok (or_throw (find_head h (merge_fee_head_breakdown f.fee_head_breakdown)) head_missing)
        _ e in
    let (_, e2) =
      guarded
        (ltb 0 h.amount_paise
          && leb (already_on f.id b.fee_head_id prior + h.amount_paise) b.amount)
        exceeds_due _ e1 in
    ap (λ x. x.amount) (sym (ok-same e2))

check_extra-amount :
    (f : Fee) (prior : _) (x : ExtraInput) (a : AllocInput)
    → check_extra f prior x ≡ ok a
    → a.amount ≡ x.amount_paise
unfolding check_extra
check_extra-amount f prior x a e =
    let (item, _, e1) =
      both_ok (or_throw (find_extra x.fee_extra_item_id f.extra_items) head_missing) _ e in
    let (_, e2) =
      guarded
        (ltb 0 x.amount_paise
          && leb (sum_by (held_by_extra f.id x.fee_extra_item_id) prior + x.amount_paise)
              item.amount)
        exceeds_due _ e1 in
    ap (λ y. y.amount) (sym (ok-same e2))

check_heads-amount :
    (f : Fee) (prior : _) (hs : List HeadInput) (inputs : List AllocInput)
    → check_heads f prior hs ≡ ok inputs
    → sum_by (λ a. a.amount) inputs ≡ sum_by (λ h. h.amount_paise) hs
unfolding check_heads
check_heads-amount f prior [] inputs e = ap (sum_by (λ a. a.amount)) (sym (ok-same e))
check_heads-amount f prior (h ∷ hs) inputs e =
    let (a, first, e1) = both_ok (check_head f prior h) _ e in
    let (rest, others, e2) = both_ok (check_heads f prior hs) _ e1 in
    ap (sum_by (λ x. x.amount)) (sym (ok-same e2))
    ∙ omega (arith, check_head-amount f prior h a first, check_heads-amount f prior hs rest others)

check_extras-amount :
    (f : Fee) (prior : _) (xs : List ExtraInput) (inputs : List AllocInput)
    → check_extras f prior xs ≡ ok inputs
    → sum_by (λ a. a.amount) inputs ≡ sum_by (λ x. x.amount_paise) xs
unfolding check_extras
check_extras-amount f prior [] inputs e = ap (sum_by (λ a. a.amount)) (sym (ok-same e))
check_extras-amount f prior (x ∷ xs) inputs e =
    let (a, first, e1) = both_ok (check_extra f prior x) _ e in
    let (rest, others, e2) = both_ok (check_extras f prior xs) _ e1 in
    ap (sum_by (λ y. y.amount)) (sym (ok-same e2))
    ∙ omega
        (arith, check_extra-amount f prior x a first, check_extras-amount f prior xs rest others)

module _ (c : Call) (receipt : ℕ → Receipt) (remember : ℕ → ℕ → List Fee → List Fee) where
  pay_current-amount :
      (fee_id : ℕ) (heads : List HeadInput) (extras : List ExtraInput) (s s' : Alloc)
      → pay_current c receipt remember fee_id heads extras s ≡ ok s'
      → amount_of s'.made
        ≡ amount_of s.made
          + sum_by (λ h. h.amount_paise) heads
          + sum_by (λ x. x.amount_paise) extras
  unfolding pay_current
  pay_current-amount fee_id heads extras s s' h =
      let (f, _, h1) = both_ok (or_throw (find_fee fee_id s.seen) not_theirs) _ h in
      let (on_heads, checked, h2) = both_ok (check_heads f s.db.allocations heads) _ h1 in
      let (on_extras, checked', h3) = both_ok (check_extras f s.db.allocations extras) _ h2 in
      ap (λ t. amount_of t.made) (sym (ok-same h3))
      ∙ omega (
        arith,
        pay_month-amount c receipt remember f (sum_by (λ a. a.amount) (on_heads ++ on_extras)) s,
        sum_by-append (λ a. a.amount) on_heads on_extras,
        check_heads-amount f s.db.allocations heads on_heads checked,
        check_extras-amount f s.db.allocations extras on_extras checked',
      )

  -- The selection of the current month is dropped only when there is none.
  pub pay_current_if-amount :
      (current : Option ℕ) (heads : List HeadInput) (extras : List ExtraInput) (s s' : Alloc)
      → (is_nil heads && is_nil extras) || is_given current ≡ true
      → pay_current_if c receipt remember current heads extras s ≡ ok s'
      → amount_of s'.made
        ≡ amount_of s.made
          + sum_by (λ h. h.amount_paise) heads
          + sum_by (λ x. x.amount_paise) extras
  pay_current_if-amount none [] [] s s' given h =
      omega (arith, ap (λ t. amount_of t.made) (ok-same h))
  pay_current_if-amount none (h' ∷ hs) extras s s' given h = absurd (cc (given))
  pay_current_if-amount none [] (x ∷ xs) s s' given h = absurd (cc (given))
  pay_current_if-amount (some fee_id) [] [] s s' given h =
      omega (arith, ap (λ t. amount_of t.made) (ok-same h))
  pay_current_if-amount (some fee_id) (h' ∷ hs) extras s s' given h =
      pay_current-amount fee_id (h' ∷ hs) extras s s' h
  pay_current_if-amount (some fee_id) [] (x ∷ xs) s s' given h =
      pay_current-amount fee_id [] (x ∷ xs) s s' h

  -- The two parts of an accepted selection.
  pub allocate_selected-run :
      (prev : List PrevMonth) (current : Option ℕ) (heads : List HeadInput)
      (extras : List ExtraInput) (db : FeeDb) (s' : Alloc)
      → allocate_selected c receipt remember prev current heads extras db ≡ ok s'
      → (s : Alloc) × (pay_previous c receipt remember
            (sort_prev (selected_fees c.student_id (all_fee_ids prev current) db) prev)
            (record {
              seen = selected_fees c.student_id (all_fee_ids prev current) db;
              made = [];
              db = db;
            })
          ≡ ok s)
        × (pay_current_if c receipt remember current heads extras s ≡ ok s')
  unfolding allocate_selected
  allocate_selected-run prev current heads extras db s' h =
      let ids = all_fee_ids prev current in
      let (_, h1) =
        guarded (length (selected_fees c.student_id ids db) == length ids) not_theirs _ h in
      both_ok
        (pay_previous c receipt remember (sort_prev (selected_fees c.student_id ids db) prev)
          (record { seen = selected_fees c.student_id ids db; made = []; db = db }))
        _ h1
