-- ===== src/Fees/Oldest.antt =====
-- What `POST /payments/waterfall` does to the fees of a student.
use mothercare_backend.Prelude.{
  ℕ, ◌-◌, ◌≤◌, ◌<◌, min, ◌≡◌, ◌≢◌, Option-cases, some-same, refl, sym, ap, subst, ◌∙◌, inl, inr,
  Option, none, some, true, not, List, [], ◌∷◌, ◌++◌, ◌==◌, ltb, length, sum_by, if◌then◌else◌,
  arith, All, All-at,
}
use mothercare_backend.Prelude.Outcome.{ok, guarded, both_ok, ok-same}
use mothercare_backend.Fees.Rows.{
  overpaid, paid_status, Fee, get_fee_total_due, fee_remaining_paise,
}
use mothercare_backend.Fees.Db.{Payment, waterfall_route, Operation, FeeDb}
use mothercare_backend.Fees.Receipts.{nothing_open, already_paid, receipt_taken}
use mothercare_backend.Fees.Waterfall.{
  Call, Pour, owed_by, fresh_fees, pour, all_unused, create_operation, waterfall_tx,
}
use mothercare_backend.Fees.Books.{Balanced}
use mothercare_backend.Fees.Poured.{
  Current, Apart, Separate, amount_of, settled, pour-rem, pour-amount, pour-other, pour-row,
  pour-Balanced,
}
use mothercare_backend.Fees.Fresh.{
  Ordered, sort_fees-Ordered, fresh_fees-Open, fresh_fees-Separate, fresh_fees-Current,
}

abbrev pub start : ℕ → FeeDb → Pour
start amount db = record { rem = amount; allocs = []; db = db }

-- The operation that a keyed request leaves.
abbrev pub operation_of : Call → ℕ → List Payment → Operation
operation_of c amount ps = record {
  route = waterfall_route;
  student_id = c.student_id;
  total_amount = amount;
  payments = ps;
}

module _ (c : Call) (amount : ℕ) (key : Option ℕ) (db : FeeDb) where
  abbrev done : Pour
  done = pour c (fresh_fees c.student_id db) (start amount db)

  -- An accepted transaction is a run of the loop whose operation is stored.
  pub waterfall_tx-run :
      (ps : List Payment) (db' : FeeDb)
      → waterfall_tx c amount key db ≡ ok (ps, db')
      → (ps ≡ done.allocs)
        × (create_operation key (operation_of c amount done.allocs) done.db ≡ ok db')
        × (sum_by (λ f. f.paid_amount) (fresh_fees c.student_id db)
            < sum_by get_fee_total_due (fresh_fees c.student_id db))
  unfolding waterfall_tx
  waterfall_tx-run ps db' h =
      let fresh = fresh_fees c.student_id db in
      let (some_open, h1) = guarded (not (length fresh == 0)) nothing_open _ h in
      let (owing, h2) =
        guarded (ltb (sum_by (λ f. f.paid_amount) fresh) (sum_by get_fee_total_due fresh))
          already_paid _ h1 in
      let (free, h3) = guarded (all_unused done.allocs db.payments) receipt_taken _ h2 in
      let (stored, created, answer) =
        both_ok (create_operation key (operation_of c amount done.allocs) done.db)
          (λ last. ok (done.allocs, last)) h3 in
      let same = ok-same answer in
      (ap (λ a. a.0) (sym same), created ∙ ap ok (ap (λ a. a.1) same), ground (arith, owing))

create_operation-new :
    (key : ℕ) (op : Operation) (db : FeeDb)
    → db.operations key ≡ none
    → create_operation (some key) op db
      ≡ ok (record db { operations = λ j. if j == key then some op else db.operations j })
create_operation-new key op db new = rw (new, create_operation) refl

pub create_operation-taken :
    (key : ℕ) (op old : Operation) (db db' : FeeDb)
    → db.operations key ≡ some old
    → create_operation (some key) op db ≢ ok db'
create_operation-taken key op old db db' taken = rw (taken, create_operation) (λ h. absurd (cc (h)))

-- Only the operations change.
pub create_operation-db :
    (key : Option ℕ) (op : Operation) (db db' : FeeDb)
    → create_operation key op db ≡ ok db'
    → (ops : ℕ → Option Operation) × (db' ≡ record db { operations = ops })
create_operation-db none op db db' h = (db.operations, sym (ok-same h))
create_operation-db (some key) op db db' h = elim (Option-cases (db.operations key)) [
  | inl new ↦ (
    λ j. if j == key then some op else db.operations j,
    sym (ok-same (sym (create_operation-new key op db new) ∙ h)),
  )
  | inr (old, taken) ↦ absurd (create_operation-taken key op old db db' taken h)
]

create_operation-Balanced :
    (key : Option ℕ) (op : Operation) (db db' : FeeDb)
    → create_operation key op db ≡ ok db'
    → Balanced db
    → Balanced db'
create_operation-Balanced key op db db' h b =
    let (ops, same) = create_operation-db key op db db' h in
    subst Balanced (sym same)
      (record { rows = b.rows; numbered = b.numbered; distinct = b.distinct })

create_operation-fees :
    (key : Option ℕ) (op : Operation) (db db' : FeeDb) (j : ℕ)
    → create_operation key op db ≡ ok db'
    → db'.fees j ≡ db.fees j
create_operation-fees key op db db' j h =
    let (ops, same) = create_operation-db key op db db' h in ap (λ d. d.fees j) same

settled-within :
    (now share : ℕ) (f : Fee)
    → f.paid_amount ≤ get_fee_total_due f
    → share ≤ fee_remaining_paise f
    → (settled now share f).paid_amount ≤ get_fee_total_due (settled now share f)
settled-within now share f within small = ground arith

settled-status :
    (now share : ℕ) (f : Fee) (student_id : ℕ)
    → f.paid_amount ≤ get_fee_total_due f
    → share ≤ fee_remaining_paise f
    → owed_by student_id f ≡ true
    → (settled now share f).status ≢ overpaid
unfolding paid_status
settled-status now share f student_id within small open_fee = ground arith

module _ (c : Call) (amount : ℕ) (key : Option ℕ) (db : FeeDb) (ps : List Payment)
    (db' : FeeDb) where
  -- An accepted payment keeps the books balanced.
  pub waterfall_tx-Balanced :
      waterfall_tx c amount key db ≡ ok (ps, db') → Balanced db → Balanced db'
  waterfall_tx-Balanced h b =
      let (_, stored, _) = waterfall_tx-run c amount key db ps db' h in
      create_operation-Balanced key _ _ db' stored (
        pour-Balanced c (fresh_fees c.student_id db) (start amount db)
          (fresh_fees-Separate c.student_id db b) (fresh_fees-Current c.student_id db b) b)

  -- In balanced books, an accepted payment of a student gives each open fee, oldest first by year and
  -- month, the smaller of what remains due on it and what the older ones leave of the amount.
  pub waterfall_pays_oldest_first :
      waterfall_tx c amount key db ≡ ok (ps, db')
      → Balanced db
      → Ordered (fresh_fees c.student_id db)
        × ((before : List Fee) (f : Fee) (after : List Fee)
            → fresh_fees c.student_id db ≡ before ++ f ∷ after
            → db'.fees f.id
              ≡ some (
                  settled c.now
                    (min (amount - sum_by fee_remaining_paise before) (fee_remaining_paise f))
                    f))
  waterfall_pays_oldest_first h b = (
    sort_fees-Ordered _,
    λ before f after split.
        let (_, stored, _) = waterfall_tx-run c amount key db ps db' h in
        create_operation-fees key _ _ db' f.id stored
        ∙ ap (λ fs. (pour c fs (start amount db)).db.fees f.id) split
        ∙ pour-row c before f after (start amount db)
            (subst Separate split (fresh_fees-Separate c.student_id db b))
            (subst (All (Current db)) split (fresh_fees-Current c.student_id db b)),
  )

  -- The payments of an accepted request add up to its amount, or to all that remained due on the open
  -- fees if that is less: the excess is not recorded.
  pub waterfall_records :
      waterfall_tx c amount key db ≡ ok (ps, db')
      → amount_of ps ≡ min amount (sum_by fee_remaining_paise (fresh_fees c.student_id db))
  waterfall_records h =
      let (same, _, _) = waterfall_tx-run c amount key db ps db' h in
      ap amount_of same
      ∙ omega (
        arith,
        pour-rem c (fresh_fees c.student_id db) (start amount db),
        pour-amount c (fresh_fees c.student_id db) (start amount db),
      )

  -- A fee that is not an open fee of the student is left as it was.
  pub waterfall_keeps_others :
      (j : ℕ)
      → waterfall_tx c amount key db ≡ ok (ps, db')
      → Apart j (fresh_fees c.student_id db)
      → db'.fees j ≡ db.fees j
  waterfall_keeps_others j h apart =
      let (_, stored, _) = waterfall_tx-run c amount key db ps db' h in
      create_operation-fees key _ _ db' j stored
      ∙ pour-other c (fresh_fees c.student_id db) (start amount db) j apart

  -- A payment of a student never makes an open fee overpaid: one that was paid at most what is due on
  -- it stays so, in balanced books, and is not marked as overpaid.
  pub waterfall_never_overpays :
      (before : List Fee) (f : Fee) (after : List Fee) (g : Fee)
      → waterfall_tx c amount key db ≡ ok (ps, db')
      → Balanced db
      → fresh_fees c.student_id db ≡ before ++ f ∷ after
      → f.paid_amount ≤ get_fee_total_due f
      → db'.fees f.id ≡ some g
      → (g.paid_amount ≤ get_fee_total_due g) × (g.status ≢ overpaid)
  waterfall_never_overpays before f after g h b split within row =
      let share = min (amount - sum_by fee_remaining_paise before) (fee_remaining_paise f) in
      let same : some (settled c.now share f) ≡ some g =
        sym ((waterfall_pays_oldest_first h b).1 before f after split) ∙ row in
      subst (λ k. (k.paid_amount ≤ get_fee_total_due k) × (k.status ≢ overpaid)) (some-same same)
        (
          settled-within c.now share f within (omega arith),
          settled-status c.now share f c.student_id within (omega arith) (
              All-at (λ k. owed_by c.student_id k ≡ true) before f after
                (subst (All (λ k. owed_by c.student_id k ≡ true)) split
                  (fresh_fees-Open c.student_id db))),
        )
