-- ===== src/Fees/Twice.antt =====
-- What `POST /payments/allocate` makes of a month that is named twice.
use mothercare_backend.Prelude.{
  All, ℕ, ◌+◌, ◌<◌, ◌≡◌, refl, sym, ap, subst, ◌∙◌, inl, inr, Option, none, some, true, ◌&&◌, List,
  [], ◌∷◌, ◌==◌, ==_iff, ltb, leb, length, arith, Bool-cases, some-same,
}
use mothercare_backend.Prelude.Outcome.{ok, or_throw, guarded, both_ok, ok-same, or_throw-some}
use mothercare_backend.Fees.Rows.{Fee, get_fee_total_due}
use mothercare_backend.Fees.Db.{live_total, Receipt, Payment, FeeDb, allocate_route}
use mothercare_backend.Fees.Receipts.{not_theirs, exceeds_due, receipt_taken}
use mothercare_backend.Fees.Waterfall.{
  Call, payment_for, part_receipt, all_unused, create_operation,
}
use mothercare_backend.Fees.Replay.{recorded}
use mothercare_backend.Fees.Allocate.{
  insert_prev, not_after, when_of, pay_current_if, PrevMonth, Alloc, find_fee, leave_seen,
  pay_month, pay_previous_one, pay_previous, has_id, sort_prev, selected_fees, all_fee_ids,
  allocate_selected, AllocRequest, cur_heads, cur_extras, allocate_tx, allocate,
}
use mothercare_backend.Fees.Books.{Balanced, posted, pay_fee-found}
use mothercare_backend.Fees.Oldest.{create_operation-db}
use mothercare_backend.Fees.Poured.{Current}
use mothercare_backend.Fees.Fresh.{select-All}
use mothercare_backend.Fees.Tracked.{find_fee-All}
use mothercare_backend.Fees.Exact.{allocate-run}
use mothercare_backend.Fees.Selected.{allocate_selected-run}

module _ (c : Call) (receipt : ℕ → Receipt) (f : Fee) (p q : PrevMonth) (s s' : Alloc) where
  -- A previous month that is accepted is paid on the fee as read.
  paid_one :
      (m : PrevMonth) (t t' : Alloc)
      → find_fee m.student_fee_id t.seen ≡ some f
      → pay_previous_one c receipt leave_seen m t ≡ ok t'
      → (0 < m.amount_paise) × (t' ≡ pay_month c receipt leave_seen f m.amount_paise t)
  unfolding pay_previous_one
  paid_one m t t' found h =
      let (g, found', h1) = both_ok (or_throw (find_fee m.student_fee_id t.seen) not_theirs) _ h in
      let g_is_f : g ≡ f =
        some-same
          (sym (or_throw-some (find_fee m.student_fee_id t.seen) not_theirs found') ∙ found) in
      let (fits, h2) =
        guarded (ltb 0 m.amount_paise && leb (g.paid_amount + m.amount_paise) (get_fee_total_due g))
          exceeds_due _ h1 in
      (
        ground (arith, fits),
        sym (ok-same h2) ∙ ap (λ k. pay_month c receipt leave_seen k m.amount_paise t) g_is_f,
      )

  abbrev after_first : Alloc
  after_first = pay_month c receipt leave_seen f p.amount_paise s

  abbrev after_both : Alloc
  after_both = pay_month c receipt leave_seen f q.amount_paise after_first

  -- The row then has the second payment only.
  lost_payment :
      s.db.fees f.id ≡ some f
      → Balanced s.db
      → (g : Fee) × (after_both.db.fees f.id ≡ some g)
        × (live_total f.id after_both.db.payments ≡ g.paid_amount + p.amount_paise)
  lost_payment row b =
      let r1 = receipt (length s.made + 1) in
      let r2 = receipt (length after_first.made + 1) in
      let (row1, found1, _) = pay_fee-found c f p.amount_paise r1 s.db f row in
      let (row2, found2, column) = pay_fee-found c f q.amount_paise r2 after_first.db row1 found1 in
      let first_sum =
        posted f p.amount_paise (payment_for c f p.amount_paise r1 s.db) s.db.payments refl refl
          refl (b.rows f.id f row).1 in
      let both_sum =
        posted (record f { paid_amount = f.paid_amount + p.amount_paise }) q.amount_paise
          (payment_for c f q.amount_paise r2 after_first.db) after_first.db.payments refl refl refl
          first_sum in
      (row2, found2, omega (arith, column, both_sum))

  both_accepted :
      find_fee p.student_fee_id s.seen ≡ some f
      → q.student_fee_id ≡ p.student_fee_id
      → s.db.fees f.id ≡ some f
      → Balanced s.db
      → pay_previous c receipt leave_seen (p ∷ q ∷ []) s ≡ ok s'
      → (0 < p.amount_paise)
        × ((g : Fee) × (s'.db.fees f.id ≡ some g)
            × (live_total f.id s'.db.payments ≡ g.paid_amount + p.amount_paise))
  unfolding pay_previous pay_previous_one
  both_accepted found same row b h =
      let (next, first, rest) = both_ok (pay_previous_one c receipt leave_seen p s) _ h in
      let (positive, made_first) = paid_one p s next found first in
      let found' : find_fee q.student_fee_id next.seen ≡ some f =
        ap (λ t. find_fee q.student_fee_id t.seen) made_first
        ∙ ap (λ i. find_fee i s.seen) same
        ∙ found in
      let (last, second, stop) = both_ok (pay_previous_one c receipt leave_seen q next) _ rest in
      let (_, made_second) = paid_one q next last found' second in
      let whole : s' ≡ after_both =
        sym (ok-same stop)
        ∙ made_second
        ∙ ap (pay_month c receipt leave_seen f q.amount_paise) made_first in
      (
        positive,
        subst
            (λ t.
              (g : Fee) × (t.db.fees f.id ≡ some g)
              × (live_total f.id t.db.payments ≡ g.paid_amount + p.amount_paise))
            (sym whole) (lost_payment row b),
      )

not_after_self : (a : ℕ × ℕ) → not_after a a ≡ true
not_after_self (x, y) = ground arith

-- The sort is stable: two months of one fee keep their order.
sort_prev-twice :
    (seen : List Fee) (p q : PrevMonth)
    → q.student_fee_id ≡ p.student_fee_id
    → sort_prev seen (p ∷ q ∷ []) ≡ p ∷ q ∷ []
unfolding sort_prev insert_prev
sort_prev-twice seen p q same =
    let level : not_after (when_of (find_fee p.student_fee_id seen))
          (when_of (find_fee q.student_fee_id seen))
        ≡ true =
      ap (λ i. not_after (when_of (find_fee p.student_fee_id seen)) (when_of (find_fee i seen)))
        same
      ∙ not_after_self (when_of (find_fee p.student_fee_id seen)) in
    rw level refl

find_fee-id : (id : ℕ) (fs : List Fee) (f : Fee) → find_fee id fs ≡ some f → f.id ≡ id
unfolding find_fee
find_fee-id id [] f h = absurd (cc (h))
find_fee-id id (g ∷ gs) f h = elim (Bool-cases (g.id == id)) [
  | inl hit ↦
      let same : g ≡ f = ground (arith, h, hit) in
      ap (λ k. k.id) (sym same) ∙ (==_iff g.id id).0 hit
  | inr miss ↦ find_fee-id id gs f (ground (arith, h, miss))
]

selected_fees-Current :
    (student_id : ℕ) (ids : List ℕ) (db : FeeDb)
    → Balanced db
    → All (Current db) (selected_fees student_id ids db)
unfolding selected_fees
selected_fees-Current student_id ids db b =
    select-All (λ f. (f.student_id == student_id) && has_id f.id ids) db.fees (Current db)
      db.fee_ids (λ i f row kept. ap db.fees (b.rows i f row).0 ∙ row)

module _ (c : Call) (req : AllocRequest) (key : Option ℕ) (db : FeeDb) (ps : List Payment)
    (db' : FeeDb) (p q : PrevMonth) where
  -- What the tables hold after two payments of one fee: the column lacks the first.
  abbrev pub LacksFirst : FeeDb → Type 0
  LacksFirst d =
      (0 < p.amount_paise)
      × ((g : Fee) × (d.fees p.student_fee_id ≡ some g)
          × (live_total p.student_fee_id d.payments ≡ g.paid_amount + p.amount_paise))

  pub allocate_tx-twice :
      allocate_tx c req key db ≡ ok (ps, db')
      → req.previous_months ≡ p ∷ q ∷ []
      → q.student_fee_id ≡ p.student_fee_id
      → req.current_fee ≡ none
      → Balanced db
      → LacksFirst db'
  unfolding allocate_tx pay_previous pay_previous_one
  allocate_tx-twice h months same no_current b =
      let (done, selected, h1) =
        both_ok
          (allocate_selected c (part_receipt c) leave_seen req.previous_months req.current_fee
            (cur_heads req) (cur_extras req) db)
          _ h in
      let (_, h2) = guarded (all_unused done.made db.payments) receipt_taken _ h1 in
      let (after_op, created, answer) =
        both_ok
          (create_operation key
            (record {
              route = allocate_route;
              student_id = c.student_id;
              total_amount = req.amount_paid_paise;
              payments = done.made;
            })
            done.db)
          _ h2 in
      let (_, kept_payments) = create_operation-db key _ done.db after_op created in
      let (s, before, after) =
        allocate_selected-run c (part_receipt c) leave_seen req.previous_months req.current_fee
          (cur_heads req) (cur_extras req) db done selected in
      let ids = all_fee_ids req.previous_months req.current_fee in
      let fresh = selected_fees c.student_id ids db in
      let start : Alloc = record { seen = fresh; made = []; db = db } in
      let in_order : pay_previous c (part_receipt c) leave_seen (p ∷ q ∷ []) start ≡ ok s =
        ap (λ ms. pay_previous c (part_receipt c) leave_seen ms start)
          (sym (ap (sort_prev fresh) months ∙ sort_prev-twice fresh p q same))
        ∙ before in
      let stays : s ≡ done = ok-same (
        subst
          (λ cur.
            pay_current_if c (part_receipt c) leave_seen cur (cur_heads req) (cur_extras req) s
            ≡ ok done)
          no_current after) in
      let (next, first, _) =
        both_ok (pay_previous_one c (part_receipt c) leave_seen p start) _ in_order in
      let (f, found, _) = both_ok (or_throw (find_fee p.student_fee_id fresh) not_theirs) _ first in
      let found_f = or_throw-some (find_fee p.student_fee_id fresh) not_theirs found in
      let current : Current db f =
        find_fee-All (Current db) p.student_fee_id fresh f found_f
          (selected_fees-Current c.student_id ids db b) in
      let (positive, lacks) =
        both_accepted c (part_receipt c) f p q start s found_f same current b in_order in
      subst LacksFirst (ap (λ a. a.1) (ok-same answer)) (
        subst LacksFirst (sym kept_payments) (
          subst (λ t. LacksFirst t.db) stays
            (
              positive,
              subst
                  (λ i.
                    (g : Fee) × (s.db.fees i ≡ some g)
                    × (live_total i s.db.payments ≡ g.paid_amount + p.amount_paise))
                  (find_fee-id p.student_fee_id fresh f found_f) lacks,
            )))

-- `POST /payments/allocate` loses a payment when its previous months name one fee twice: if such a
-- request that selects nothing else is accepted, and every attempt found balanced books, the payments
-- of that fee that are not reverted add up to its paid amount and the first of the two amounts, which is
-- not 0, so that the books are not balanced.
pub month_named_twice :
    (before later : FeeDb) (tables : ℕ → FeeDb) (req : AllocRequest) (ps : List Payment)
    (receipt : Receipt) (db' : FeeDb) (p q : PrevMonth)
    → allocate before tables later req ≡ ok (recorded ps receipt db')
    → req.previous_months ≡ p ∷ q ∷ []
    → q.student_fee_id ≡ p.student_fee_id
    → req.current_fee ≡ none
    → ((k : ℕ) → Balanced (tables k))
    → ((g : Fee) × (db'.fees p.student_fee_id ≡ some g)
        × (live_total p.student_fee_id db'.payments ≡ g.paid_amount + p.amount_paise))
      × (0 < p.amount_paise)
      × (¬ Balanced db')
month_named_twice before later tables req ps receipt db' p q h months same no_current balanced =
    let (key, k, c, _, _, _, done) = allocate-run before later tables req ps receipt db' h in
    let (positive, (g, row, lacks)) =
      allocate_tx-twice c req key (tables k) ps db' p q done months same no_current (balanced k) in
    (
      (g, row, lacks),
      positive,
      λ b. absurd (
          let counted = (b.rows p.student_fee_id g row).1 in
          omega (arith, lacks, positive, counted, (b.rows p.student_fee_id g row).0)),
    )
