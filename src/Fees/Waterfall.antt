-- ===== src/Fees/Waterfall.antt =====
-- `POST /payments/waterfall`: a payment is poured over the open fees of a student, oldest first.
use mothercare_backend.Prelude.{
  ℕ, ◌+◌, ◌-◌, min, Option, none, some, Bool, true, false, not, ◌&&◌, ◌||◌, List, [], ◌∷◌, ◌++◌,
  ◌==◌, ltb, leb, length, sum_by, if◌then◌else◌,
}
use mothercare_backend.Prelude.Outcome.{Outcome, err, ok, ◌>>=◌, ◌>>◌, guard}
use mothercare_backend.Fees.Rows.{FeeStatus, unpaid, partial, Fee, get_fee_total_due, paid_status}
use mothercare_backend.Fees.Receipts.{
  FeeError, nothing_open, already_paid, receipt_taken, key_taken,
}
use mothercare_backend.Fees.Db.{
  Receipt, Payment, waterfall_route, Operation, FeeDb, with_payment, update_fee, new_payment,
  add_payment, select, same_receipt,
}

-- `status IN ('UNPAID', 'PARTIAL')`
abbrev pub is_open : FeeStatus → Bool
is_open unpaid = true
is_open partial = true
is_open _ = false

-- The rows that the transaction locks and then reads again.
abbrev pub owed_by : ℕ → Fee → Bool
owed_by student_id f = (f.student_id == student_id) && is_open f.status

-- `orderBy: [{ year: 'asc' }, { month: 'asc' }]`
abbrev pub older : Fee → Fee → Bool
older f g = ltb f.year g.year || ((f.year == g.year) && leb f.month g.month)

unfoldable pub insert_fee : Fee → List Fee → List Fee
insert_fee f [] = f ∷ []
insert_fee f (g ∷ gs) = let rest = insert_fee f gs in if older f g then f ∷ g ∷ gs else g ∷ rest

unfoldable pub sort_fees : List Fee → List Fee
unfolding insert_fee
sort_fees [] = []
sort_fees (f ∷ fs) = insert_fee f (sort_fees fs)

abbrev pub fresh_fees : ℕ → FeeDb → List Fee
fresh_fees student_id db = sort_fees (select (owed_by student_id) db.fees db.fee_ids)

-- The variables of the loop: `rem`, `allocs`, and the tables.
pub record Pour : Type 0 where
  pub rem : ℕ
  pub allocs : List Payment
  pub db : FeeDb

-- `payAmount`
abbrev pub pay_amount : ℕ → Fee → ℕ
pay_amount rem f = min rem (get_fee_total_due f - f.paid_amount)

-- The row that `studentFee.update` leaves.
abbrev pub credit : ℕ → ℕ → Fee → Fee
credit now amount f =
    with_payment now (f.paid_amount + amount)
      (paid_status (f.paid_amount + amount) (get_fee_total_due f)) f

-- What a request fixes: its student, its clock, and the series and the base of its receipt numbers.
pub record Call : Type 0 where
  pub student_id : ℕ
  pub now : ℕ
  pub series : ℕ
  pub base : ℕ

-- `${receiptBase}-${part}`
abbrev pub part_receipt : Call → ℕ → Receipt
part_receipt c part = record { series = c.series; seq = c.base; part = some part }

-- The row of `payment.create`.
abbrev pub payment_for : Call → Fee → ℕ → Receipt → FeeDb → Payment
payment_for c f amount receipt db = new_payment db f.id c.student_id amount receipt none c.now

-- `payment.create` and `studentFee.update` for a fee as the loop has read it.
abbrev pub pay_fee : Call → Fee → ℕ → Receipt → FeeDb → FeeDb
pay_fee c f amount receipt db =
    update_fee f.id
      (with_payment c.now (f.paid_amount + amount)
        (paid_status (f.paid_amount + amount) (get_fee_total_due f)))
      (add_payment (payment_for c f amount receipt db) db)

-- The step for a fee with something due, while something is left.
abbrev pub pour_into : Call → Fee → Pour → Pour
pour_into c f s = record {
  rem = s.rem - pay_amount s.rem f;
  allocs =
      s.allocs
      ++ payment_for c f (pay_amount s.rem f) (part_receipt c (length s.allocs + 1)) s.db ∷ [];
  db = pay_fee c f (pay_amount s.rem f) (part_receipt c (length s.allocs + 1)) s.db;
}

-- One turn of the loop: `break` on nothing left, `continue` on a fee with nothing due.
unfoldable pub pour_fee : Call → Fee → Pour → Pour
unfolding paid_status
pour_fee c f s =
    if s.rem == 0 then s else if leb (get_fee_total_due f) f.paid_amount then s else pour_into c f s

unfoldable pub pour : Call → List Fee → Pour → Pour
unfolding pour_fee
pour c [] s = s
pour c (f ∷ fs) s = pour c fs (pour_fee c f s)

-- `paymentOperation.create`: the idempotency key is unique.
abbrev pub create_operation : Option ℕ → Operation → FeeDb → Outcome FeeError FeeDb
create_operation none op db = ok db
create_operation (some key) op db = elim (db.operations key) [
  | some old ↦ err key_taken
  | none ↦ ok (record db { operations = λ j. if j == key then some op else db.operations j })
]

-- No payment has the receipt number: the column is unique.
unfoldable pub number_unused : Receipt → List Payment → Bool
number_unused r [] = true
number_unused r (p ∷ ps) = not (same_receipt r p.receipt_number) && number_unused r ps

abbrev pub all_unused : List Payment → List Payment → Bool
all_unused [] ps = true
all_unused (q ∷ qs) ps = number_unused q.receipt_number ps && all_unused qs ps

-- The transaction; one that throws leaves the tables as they were. The total remaining is not positive when the fees are paid at least what is due.
unfoldable pub waterfall_tx : Call → ℕ → Option ℕ → FeeDb → Outcome FeeError (List Payment × FeeDb)
unfolding pour sort_fees
waterfall_tx c amount key db = do
  let fresh = fresh_fees c.student_id db
  guard (not (length fresh == 0)) nothing_open
  guard (ltb (sum_by (λ f. f.paid_amount) fresh) (sum_by get_fee_total_due fresh)) already_paid
  let done = pour c fresh (record { rem = amount; allocs = []; db = db })
  guard (all_unused done.allocs db.payments) receipt_taken
  db' ←
      create_operation key
        (record {
          route = waterfall_route;
          student_id = c.student_id;
          total_amount = amount;
          payments = done.allocs;
        })
        done.db
  ok (done.allocs, db')
