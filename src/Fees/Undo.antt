-- ===== src/Fees/Undo.antt =====
-- A payment and its revert: both keep the books balanced, and the second undoes the first.
use mothercare_backend.Prelude.{
  ℕ, ◌+◌, ◌≡◌, ◌≢◌, some-same, refl, sym, ap, subst, ◌∙◌, some, true, false, not, ◌∷◌, arith,
}
use mothercare_backend.Prelude.Outcome.{err, ok, or_throw, guarded, both_ok, ok-same, or_throw-some}
use mothercare_backend.Fees.Rows.{Fee, extra_sum, get_fee_total_due, paid_status, revert_status}
use mothercare_backend.Fees.Db.{
  Receipt, Payment, FeeDb, with_payment, paid_date, update_row, update_fee, new_payment,
  add_payment, live_amount, live_total,
}
use mothercare_backend.Fees.Receipts.{fee_not_found, receipt_taken, key_taken, already_reverted}
use mothercare_backend.Fees.Waterfall.{number_unused}
use mothercare_backend.Fees.Pay.{PayRequest, key_unused, pay_tx}
use mothercare_backend.Fees.Revert.{
  find_payment, mark_reverted, void_allocations, is_reverted, recount, revert_tx,
}
use mothercare_backend.Fees.Books.{
  Balanced, live-other, repost-Balanced, update_fee-same, update_fee-other,
}
use mothercare_backend.Fees.Marked.{
  mark_one-this, mark_reverted-Numbered, mark_reverted-older, uncounted_reverted,
  mark_reverted-other, find_payment-marked,
}

module _ (req : PayRequest) (seen : Fee) (receipt : Receipt) (db : FeeDb) where
  abbrev pub payment_of : Payment
  payment_of =
      new_payment db req.student_fee_id seen.student_id req.amount receipt req.idempotency_key
        req.now

  -- What the payment writes on the row.
  abbrev pub paid_up : Fee → Fee → Fee
  paid_up fresh = with_payment req.now (live_total req.student_fee_id (payment_of ∷ db.payments)) (
      paid_status (live_total req.student_fee_id (payment_of ∷ db.payments))
        (fresh.net_amount + extra_sum seen))

  pub pay_tx-run :
      (p : Payment) (db' : FeeDb)
      → pay_tx req seen receipt db ≡ ok (p, db')
      → (fresh : Fee) × (db.fees req.student_fee_id ≡ some fresh)
        × (p ≡ payment_of)
        × (db' ≡ update_fee req.student_fee_id (paid_up fresh) (add_payment payment_of db))
  unfolding pay_tx
  pay_tx-run p db' h =
      let (fresh, found, h1) = both_ok (or_throw (db.fees req.student_fee_id) fee_not_found) _ h in
      let (_, h2) = guarded (number_unused receipt db.payments) receipt_taken _ h1 in
      let (_, h3) = guarded (key_unused req.idempotency_key db.payments) key_taken _ h2 in
      let same = ok-same h3 in
      (
        fresh,
        or_throw-some (db.fees req.student_fee_id) fee_not_found found,
        sym (ap (λ a. a.0) same),
        sym (ap (λ a. a.1) same),
      )

  pub pay_tx-Balanced :
      (p : Payment) (db' : FeeDb)
      → pay_tx req seen receipt db ≡ ok (p, db')
      → Balanced db
      → Balanced db'
  pay_tx-Balanced p db' h b =
      let (fresh, found, _, same) = pay_tx-run p db' h in
      subst Balanced (sym same) (
        repost-Balanced db (payment_of ∷ db.payments) (db.next_id + 1) req.student_fee_id
          (paid_up fresh) b (omega arith, b.numbered)
          (λ i other. live-other payment_of i db.payments other)
          (λ f row. ((b.rows req.student_fee_id f row).0, refl)))

module _ (p : Payment) (db db' : FeeDb) where
  revert_tx-run :
      revert_tx p db ≡ ok db'
      → (is_reverted (find_payment p.id db.payments) ≡ false)
        × (db'
            ≡ update_fee p.student_fee_id
                (recount (live_total p.student_fee_id (mark_reverted p.id db.payments)))
                (record db {
                  payments = mark_reverted p.id db.payments;
                  allocations = void_allocations p.id db.allocations;
                }))
  unfolding revert_tx
  revert_tx-run h =
      let (live, done) =
        guarded (not (is_reverted (find_payment p.id db.payments))) already_reverted _ h in
      (ground (arith, live), sym (ok-same done))

  -- A revert keeps the books balanced, of a payment that is in them.
  pub revert_tx-Balanced :
      revert_tx p db ≡ ok db'
      → (q : Payment) → find_payment p.id db.payments ≡ some q
      → q.student_fee_id ≡ p.student_fee_id
      → Balanced db
      → Balanced db'
  revert_tx-Balanced h q found same_fee b =
      let (_, same) = revert_tx-run h in
      subst Balanced (sym same) (
        repost-Balanced (record db { allocations = void_allocations p.id db.allocations })
          (mark_reverted p.id db.payments) db.next_id p.student_fee_id
          (recount (live_total p.student_fee_id (mark_reverted p.id db.payments)))
          (record { rows = b.rows; numbered = b.numbered; distinct = b.distinct })
          (mark_reverted-Numbered p.id db.next_id db.payments b.numbered)
          (λ i other.
            mark_reverted-other p.id q i db.payments db.next_id b.numbered found
              (λ at_i. other (sym same_fee ∙ at_i)))
          (λ f row. ((b.rows p.student_fee_id f row).0, refl)))

  -- A payment is reverted once: a second revert of it throws and changes nothing.
  pub revert_tx-twice :
      (q : Payment)
      → find_payment p.id db.payments ≡ some q
      → revert_tx p db ≡ ok db'
      → revert_tx p db' ≡ err already_reverted
  unfolding revert_tx
  revert_tx-twice q found h =
      let (_, same) = revert_tx-run h in
      let marked : is_reverted (find_payment p.id db'.payments) ≡ true =
        ap (λ d. is_reverted (find_payment p.id d.payments)) same
        ∙ ap is_reverted (find_payment-marked p.id db.payments q found) in
      rw (marked, revert_tx) refl

module _ (req : PayRequest) (seen : Fee) (receipt : Receipt) (db : FeeDb) (fresh : Fee) where
  abbrev made : Payment
  made = payment_of req seen receipt db

  -- The tables after the payment, and after its revert.
  abbrev after_pay : FeeDb
  after_pay =
      update_fee req.student_fee_id (paid_up req seen receipt db fresh) (add_payment made db)

  abbrev voided : FeeDb
  voided = record after_pay {
    payments = mark_reverted made.id after_pay.payments;
    allocations = void_allocations made.id after_pay.allocations;
  }

  abbrev recounted : Fee → Fee
  recounted = recount (live_total req.student_fee_id (mark_reverted made.id after_pay.payments))

  abbrev after_revert : FeeDb
  after_revert = update_fee req.student_fee_id recounted voided

  revert-made : revert_tx made after_pay ≡ ok after_revert
  unfolding revert_tx find_payment
  revert-made = ground arith

  marked-total :
      Balanced db → (i : ℕ) → live_total i after_revert.payments ≡ live_total i db.payments
  unfolding mark_reverted
  marked-total b i =
      ap (λ r. live_amount i r + live_total i (mark_reverted made.id db.payments))
        (mark_one-this made)
      ∙ omega (
        arith,
        uncounted_reverted i made,
        ap (live_total i)
            (mark_reverted-older made.id db.next_id db.payments b.numbered (omega arith)),
      )

  -- The fee is as before, but for the date that a payment in full has left.
  abbrev dated : Fee → Fee
  dated f = record f {
    paid_at =
        paid_date req.now
          (paid_status (live_total req.student_fee_id (made ∷ db.payments))
            (fresh.net_amount + extra_sum seen))
          f.paid_at;
  }

  restored_here :
      (f : Fee)
      → Balanced db
      → db.fees req.student_fee_id ≡ some f
      → f.status ≡ revert_status f.paid_amount (get_fee_total_due f)
      → after_revert.fees req.student_fee_id ≡ some (dated f)
  restored_here f b row status =
      update_fee-same req.student_fee_id recounted voided
      ∙ ap (update_row recounted) (
          update_fee-same req.student_fee_id (paid_up req seen receipt db fresh)
            (add_payment made db)
          ∙ ap (update_row (paid_up req seen receipt db fresh)) row)
      ∙ ap (λ n. some (recount n (dated f)))
          (marked-total b req.student_fee_id ∙ sym (b.rows req.student_fee_id f row).1)
      ∙ ap (λ st. some (record (dated f) { status = st })) (sym status)

  untouched : (j : ℕ) → req.student_fee_id ≢ j → after_revert.fees j ≡ db.fees j
  untouched j other =
      update_fee-other req.student_fee_id j recounted voided other
      ∙ update_fee-other req.student_fee_id j (paid_up req seen receipt db fresh)
          (add_payment made db) other

-- What is left of a payment after its revert: the fee is as before but for `paidAt`, where a payment that
-- made it PAID has left its date, all other fees are as before, and so are the sums of the payments.
pub record Undone (req : PayRequest) (seen : Fee) (db : FeeDb) (f : Fee) (db2 : FeeDb)
    : Type 0 where
  pub fee :
      db2.fees req.student_fee_id
      ≡ some (record f {
        paid_at =
            paid_date req.now
              (paid_status (f.paid_amount + req.amount) (f.net_amount + extra_sum seen))
              f.paid_at;
      })
  pub others : (j : ℕ) → req.student_fee_id ≢ j → db2.fees j ≡ db.fees j
  pub sums : (i : ℕ) → live_total i db2.payments ≡ live_total i db.payments

-- In balanced books, the revert of a payment that has just been made succeeds, and every fee is again
-- as it was before the payment, provided that the paid fee had the status of its amounts; only the date
-- `paidAt` stays as the payment left it: the payment's time if the payment made the fee PAID, and
-- otherwise the date from before.
pub revert_undoes_pay :
    (req : PayRequest) (seen : Fee) (receipt : Receipt) (db : FeeDb) (p : Payment) (db1 : FeeDb)
    (f : Fee)
    → pay_tx req seen receipt db ≡ ok (p, db1)
    → Balanced db
    → db.fees req.student_fee_id ≡ some f
    → f.status ≡ revert_status f.paid_amount (get_fee_total_due f)
    → (db2 : FeeDb) × (revert_tx p db1 ≡ ok db2) × Undone req seen db f db2
unfolding revert_tx
revert_undoes_pay req seen receipt db p db1 f h b row status =
    let (fresh, found, same_p, same_db) = pay_tx-run req seen receipt db p db1 h in
    let fresh_is_f : fresh ≡ f = some-same (sym found ∙ row) in
    let after = after_revert req seen receipt db fresh in
    let paid_amount : live_total req.student_fee_id (payment_of req seen receipt db ∷ db.payments)
        ≡ f.paid_amount + req.amount =
      let held = (b.rows req.student_fee_id f row).1 in ground (arith, held) in
    (
      after,
      ap (λ d. revert_tx p d) same_db
          ∙ ap (λ r. revert_tx r (after_pay req seen receipt db fresh)) same_p
          ∙ revert-made req seen receipt db fresh,
      record {
        fee =
            restored_here req seen receipt db fresh f b row status
            ∙ ap
                (λ n. some (record f {
                  paid_at =
                      paid_date req.now (paid_status n (fresh.net_amount + extra_sum seen))
                        f.paid_at;
                }))
                paid_amount
            ∙ ap
                (λ (g : Fee). some (record f {
                  paid_at =
                      paid_date req.now
                        (paid_status (f.paid_amount + req.amount) (g.net_amount + extra_sum seen))
                        f.paid_at;
                }))
                fresh_is_f;
        others = untouched req seen receipt db fresh;
        sums = marked-total req seen receipt db fresh b;
      },
    )
