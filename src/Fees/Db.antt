-- ===== src/Fees/Db.antt =====
-- The tables that src/modules/admin/routes/fee.routes.ts reads and writes. Ids and idempotency keys are
-- only compared, so they are numbers.
use mothercare_backend.Prelude.{
  ℕ, ◌+◌, String, Option, none, some, Bool, true, false, not, ◌&&◌, List, [], ◌∷◌, ◌==◌, sum_by,
  if◌then◌else◌,
}
use mothercare_backend.Fees.Rows.{FeeStatus, paid, Fee}

-- `${prefix}-${yymm}-${seq}`, with the `-${part}` of a payment that covers several fees; `series` is
-- the prefix with the month.
pub record Receipt : Type 0 where
  pub series : ℕ
  pub seq : ℕ
  pub part : Option ℕ

abbrev pub same_part : Option ℕ → Option ℕ → Bool
same_part none none = true
same_part (some a) (some b) = a == b
same_part _ _ = false

abbrev pub same_receipt : Receipt → Receipt → Bool
same_receipt r q = (r.series == q.series) && (r.seq == q.seq) && same_part r.part q.part

-- `model Payment`; `reverted` is `revertedAt != null`.
pub record Payment : Type 0 where
  pub id : ℕ
  pub student_fee_id : ℕ
  pub student_id : ℕ
  pub amount : ℕ
  pub receipt_number : Receipt
  pub idempotency_key : Option ℕ
  pub created_at : ℕ
  pub reverted : Bool

-- `model PaymentHeadAllocation`
pub record HeadAllocation : Type 0 where
  pub payment_id : ℕ
  pub student_fee_id : ℕ
  pub fee_head_id : Option String
  pub fee_extra_item_id : Option ℕ
  pub amount : ℕ
  pub reverted : Bool

pub data Route : Type 0 where
  waterfall_route allocate_route family_route : Route

-- `model PaymentOperation`
pub record Operation : Type 0 where
  pub route : Route
  pub student_id : ℕ
  pub total_amount : ℕ
  pub payments : List Payment

-- `model Family`, with its students.
pub record Family : Type 0 where
  pub is_active : Bool
  pub student_ids : List ℕ

-- `model FamilyPayment`, with the payments that carry its id.
pub record FamilyPayment : Type 0 where
  pub family_id : ℕ
  pub receipt_number : Receipt
  pub total_amount : ℕ
  pub idempotency_key : Option ℕ
  pub payments : List Payment

-- `students` and `years` give the branch of a student's academic year and of a year; `fee_ids` lists the rows of the table of
-- fees, `payments` has the newest first, and `next_id` is an id that no payment has yet.
pub record FeeDb : Type 0 where
  pub students : ℕ → Option ℕ
  pub years : ℕ → Option ℕ
  pub families : ℕ → Option Family
  pub family_payments : List FamilyPayment
  pub fees : ℕ → Option Fee
  pub fee_ids : List ℕ
  pub payments : List Payment
  pub allocations : List HeadAllocation
  pub operations : ℕ → Option Operation
  pub next_id : ℕ

-- `update({ where: { id }, data: { paidAmount, status } })`, on the row
abbrev pub with_paid : ℕ → FeeStatus → Fee → Fee
with_paid paid_amount status f = record f { paid_amount = paid_amount; status = status }

-- `paidAt: status === 'PAID' ? new Date() : undefined`: `undefined` leaves the date that is there.
abbrev pub paid_date : ℕ → FeeStatus → Option ℕ → Option ℕ
paid_date now paid old = some now
paid_date now _ old = old

-- The update of a payment, which sets `paidAt` too.
abbrev pub with_payment : ℕ → ℕ → FeeStatus → Fee → Fee
with_payment now paid_amount status f = record f {
  paid_amount = paid_amount;
  status = status;
  paid_at = paid_date now status f.paid_at;
}

abbrev pub update_row : (Fee → Fee) → Option Fee → Option Fee
update_row change none = none
update_row change (some f) = some (change f)

-- `studentFee.update`
abbrev pub update_fee : ℕ → (Fee → Fee) → FeeDb → FeeDb
update_fee id change db = record db {
  fees = λ j. if j == id then update_row change (db.fees j) else db.fees j;
}

-- `payment.create`
abbrev pub new_payment : FeeDb → ℕ → ℕ → ℕ → Receipt → Option ℕ → ℕ → Payment
new_payment db fee_id student_id amount receipt_number key now = record {
  id = db.next_id;
  student_fee_id = fee_id;
  student_id = student_id;
  amount = amount;
  receipt_number = receipt_number;
  idempotency_key = key;
  created_at = now;
  reverted = false;
}

abbrev pub add_payment : Payment → FeeDb → FeeDb
add_payment p db = record db { payments = p ∷ db.payments; next_id = db.next_id + 1 }

-- The amount that one payment counts for a fee.
abbrev pub live_amount : ℕ → Payment → ℕ
live_amount fee_id p = if (p.student_fee_id == fee_id) && not p.reverted then p.amount else 0

-- `payment.aggregate({ where: { studentFeeId, revertedAt: null }, _sum: { amount: true } })`
abbrev pub live_total : ℕ → List Payment → ℕ
live_total fee_id ps = sum_by (live_amount fee_id) ps

-- `findMany` on the fees, by a test of the row
abbrev pub select : (Fee → Bool) → (ℕ → Option Fee) → List ℕ → List Fee
select keep fees [] = []
select keep fees (i ∷ is) =
    let rest = select keep fees is in
    elim (fees i) [ none ↦ rest | some f ↦ if keep f then f ∷ rest else rest ]
