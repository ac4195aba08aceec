-- ===== src/Fees/Books.antt =====
-- The books balance: the column `paidAmount` of every fee is the sum of its payments that are not
-- reverted. Every handler of src/modules/admin/routes/fee.routes.ts relies on it.
use mothercare_backend.Prelude.{
  ℕ, ◌+◌, ◌<◌, ◌≡◌, ◌≢◌, refl, sym, ap, subst, ◌∙◌, Option, none, some, false, List, [], ◌∷◌, inl,
  inr, ℕ-cases, arith, All,
}
use mothercare_backend.Fees.Rows.{Fee, get_fee_total_due, paid_status}
use mothercare_backend.Fees.Db.{
  Receipt, Payment, FeeDb, with_payment, update_row, update_fee, add_payment, live_total,
}
use mothercare_backend.Fees.Waterfall.{Call, pay_fee, payment_for, credit}

-- Payments are numbered from the newest, so no two have one id.
abbrev pub Numbered : ℕ → List Payment → Type 0
Numbered next [] = Unit
Numbered next (p ∷ ps) = (p.id < next) × Numbered p.id ps

-- No row of the list is the id.
abbrev pub Absent : ℕ → List ℕ → Type 0
Absent i is = All (λ j. i ≢ j) is

abbrev pub Distinct : List ℕ → Type 0
Distinct [] = Unit
Distinct (i ∷ is) = Absent i is × Distinct is

abbrev pub RowSound : List Payment → ℕ → Fee → Type 0
RowSound ps i f = (f.id ≡ i) × (f.paid_amount ≡ live_total i ps)

pub record Balanced (db : FeeDb) : Type 0 where
  pub rows : (i : ℕ) (f : Fee) → db.fees i ≡ some f → RowSound db.payments i f
  pub numbered : Numbered db.next_id db.payments
  pub distinct : Distinct db.fee_ids

-- A fee that is not the payment's keeps its sum.
pub live-other :
    (p : Payment) (i : ℕ) (ps : List Payment)
    → p.student_fee_id ≢ i
    → live_total i (p ∷ ps) ≡ live_total i ps
live-other p i ps h = ground arith

-- An update that leaves the id and writes the amount of the last payment.
pub update_row-inv :
    (change : Fee → Fee) (o : Option Fee) (g : Fee)
    → update_row change o ≡ some g
    → (f : Fee) × (o ≡ some f) × (g ≡ change f)
update_row-inv change none g h = absurd (cc (h))
update_row-inv change (some f) g h = (f, refl, cc (h))

pub update_fee-same :
    (id : ℕ) (change : Fee → Fee) (db : FeeDb)
    → (update_fee id change db).fees id ≡ update_row change (db.fees id)
update_fee-same id change db = ground arith

pub update_fee-other :
    (id j : ℕ) (change : Fee → Fee) (db : FeeDb)
    → id ≢ j
    → (update_fee id change db).fees j ≡ db.fees j
update_fee-other id j change db h = ground arith

pub update_fee-row :
    (id : ℕ) (change : Fee → Fee) (db : FeeDb) {f : Fee}
    → db.fees id ≡ some f
    → (update_fee id change db).fees id ≡ some (change f)
update_fee-row id change db row = ground arith

-- A handler that replaces the payments and brings the row of one fee up to date with them.
pub repost-Balanced :
    (db : FeeDb) (ps : List Payment) (next id : ℕ) (change : Fee → Fee)
    → Balanced db
    → Numbered next ps
    → ((i : ℕ) → id ≢ i → live_total i ps ≡ live_total i db.payments)
    → ((f : Fee) → db.fees id ≡ some f → RowSound ps id (change f))
    → Balanced (update_fee id change (record db { payments = ps; next_id = next }))
repost-Balanced db ps next id change b numbered others here = record {
  rows = λ i g h. elim (ℕ-cases id i) [
    | inl same ↦
        let at_id : update_row change (db.fees id) ≡ some g =
          sym (update_fee-same id change (record db { payments = ps; next_id = next }))
          ∙ subst
              (λ j.
                (update_fee id change (record db { payments = ps; next_id = next })).fees j
                ≡ some g)
              (sym same) h in
        let (f, found, changed) = update_row-inv change (db.fees id) g at_id in
        subst (λ j. RowSound ps j g) same (subst (RowSound ps id) (sym changed) (here f found))
    | inr other ↦
        let old : db.fees i ≡ some g =
          sym (update_fee-other id i change (record db { payments = ps; next_id = next }) other)
          ∙ h in
        ((b.rows i g old).0, (b.rows i g old).1 ∙ sym (others i other))
  ];
  numbered = numbered;
  distinct = b.distinct;
}

pub posted :
    (f : Fee) (amount : ℕ) (p : Payment) (ps : List Payment)
    → p.student_fee_id ≡ f.id
    → p.reverted ≡ false
    → p.amount ≡ amount
    → f.paid_amount ≡ live_total f.id ps
    → f.paid_amount + amount ≡ live_total f.id (p ∷ ps)
posted f amount p ps its live amt h = ground arith

-- The row of a fee still has the paid amount with which the fee was read.
abbrev pub Tracks : FeeDb → Fee → Type 0
Tracks db f = (g : Fee) × (db.fees f.id ≡ some g) × (g.paid_amount ≡ f.paid_amount)

-- A payment of a fee whose paid amount is that of the table.
pub pay_fee-tracked :
    (c : Call) (f : Fee) (amount : ℕ) (receipt : Receipt) (db : FeeDb)
    → Balanced db
    → Tracks db f
    → Balanced (pay_fee c f amount receipt db)
pay_fee-tracked c f amount receipt db b (row, found, same_paid) =
    repost-Balanced db (payment_for c f amount receipt db ∷ db.payments) (db.next_id + 1) f.id
      (with_payment c.now (f.paid_amount + amount)
        (paid_status (f.paid_amount + amount) (get_fee_total_due f)))
      b (omega arith, b.numbered)
      (λ i other. live-other (payment_for c f amount receipt db) i db.payments other)
      (λ g at_g. (
        (b.rows f.id g at_g).0,
        posted f amount (payment_for c f amount receipt db) db.payments refl refl refl
            (sym same_paid ∙ (b.rows f.id row found).1),
      ))

-- A payment of the fee as it stands in the table.
pub pay_fee-Balanced :
    (c : Call) (f : Fee) (amount : ℕ) (receipt : Receipt) (db : FeeDb)
    → Balanced db
    → db.fees f.id ≡ some f
    → Balanced (pay_fee c f amount receipt db)
pay_fee-Balanced c f amount receipt db b row =
    pay_fee-tracked c f amount receipt db b (f, row, refl)

pub pay_fee-other :
    (c : Call) (f : Fee) (amount : ℕ) (receipt : Receipt) (db : FeeDb) (j : ℕ)
    → f.id ≢ j
    → (pay_fee c f amount receipt db).fees j ≡ db.fees j
pay_fee-other c f amount receipt db j other = ground arith

pub pay_fee-row :
    (c : Call) (f : Fee) (amount : ℕ) (receipt : Receipt) (db : FeeDb)
    → db.fees f.id ≡ some f
    → (pay_fee c f amount receipt db).fees f.id ≡ some (credit c.now amount f)
pay_fee-row c f amount receipt db row =
    update_fee-same f.id
      (with_payment c.now (f.paid_amount + amount)
        (paid_status (f.paid_amount + amount) (get_fee_total_due f)))
      (add_payment (payment_for c f amount receipt db) db)
    ∙ ap
        (update_row (
          with_payment c.now (f.paid_amount + amount)
            (paid_status (f.paid_amount + amount) (get_fee_total_due f))))
        row

-- The row of a fee after a payment carries what the handler computed from the fee as it was read.
pub pay_fee-found :
    (c : Call) (f : Fee) (amount : ℕ) (receipt : Receipt) (db : FeeDb) (row : Fee)
    → db.fees f.id ≡ some row
    → (g : Fee) × ((pay_fee c f amount receipt db).fees f.id ≡ some g)
      × (g.paid_amount ≡ f.paid_amount + amount)
pay_fee-found c f amount receipt db row found = (
  with_payment c.now (f.paid_amount + amount)
      (paid_status (f.paid_amount + amount) (get_fee_total_due f)) row,
  update_fee-same f.id
        (with_payment c.now (f.paid_amount + amount)
          (paid_status (f.paid_amount + amount) (get_fee_total_due f)))
        (add_payment (payment_for c f amount receipt db) db)
      ∙ ap
          (update_row (
            with_payment c.now (f.paid_amount + amount)
              (paid_status (f.paid_amount + amount) (get_fee_total_due f))))
          found,
  refl,
)
