-- ===== src/Fees/FamilyPay.antt =====
-- `POST /family-payments`: chosen amounts on fees of the students of a family.
pub mod Members
use mothercare_backend.Prelude.{
  ℕ, ◌+◌, Option, none, some, Bool, true, false, not, ◌&&◌, ◌||◌, List, [], ◌∷◌, ◌++◌, ◌==◌, ltb,
  leb, length, sum_by, if◌then◌else◌, take,
}
use mothercare_backend.Prelude.Outcome.{Outcome, err, ok, ◌>>=◌, ◌>>◌, guard, or_throw}
use mothercare_backend.Fees.Rows.{Fee, get_fee_total_due, compute_fee_status}
use mothercare_backend.Fees.Db.{
  Receipt, Payment, Family, FamilyPayment, FeeDb, with_payment, update_fee, new_payment,
  add_payment, live_total, select,
}
use mothercare_backend.Fees.Receipts.{
  FeeError, bad_request, branch_denied, receipt_taken, key_taken, nothing_selected, no_year,
  wrong_year, family_not_found, not_in_family, not_theirs, not_the_owner, already_paid,
  generate_receipt_number,
}
use mothercare_backend.Fees.Waterfall.{Call, part_receipt, number_unused}
use mothercare_backend.Fees.Replay.{RawKey, assert_valid_idempotency_key, target_branch_mismatch}
use mothercare_backend.Fees.Allocate.{find_fee, has_id, is_nil}
use mothercare_backend.Fees.Family.{
  family_number_free, family_key_free, find_family_payment, FamilyReply, same_family_payment,
  family_paid, converge_family, numbers_in,
}

-- An element of `payments`; an absent amount is 0.
pub record PayItem : Type 0 where
  pub student_fee_id : ℕ
  pub student_id : Option ℕ
  pub amount : ℕ

-- `academic_year` is what `resolveAcademicYearId` answers.
pub record FamilyPayRequest : Type 0 where
  pub family_id : ℕ
  pub payments : List PayItem
  pub academic_year : Option ℕ
  pub idempotency_key : RawKey
  pub branch_id : Option ℕ
  pub now : ℕ
  pub series : ℕ

abbrev pub item_ids : List PayItem → List ℕ
item_ids [] = []
item_ids (p ∷ ps) = p.student_fee_id ∷ item_ids ps

-- `findMany({ where: { id: { in: feeIds }, academicYearId } })`
unfoldable pub fees_of_year : ℕ → List ℕ → FeeDb → List Fee
fees_of_year year ids db =
    select (λ f. (f.academic_year_id == year) && has_id f.id ids) db.fees db.fee_ids

-- `p.studentId || fee.studentId`
abbrev pub payer : Option ℕ → Fee → ℕ
payer none f = f.student_id
payer (some student_id) f = student_id

abbrev pub owns : Option ℕ → Fee → Bool
owns none f = true
owns (some student_id) f = student_id == f.student_id

-- The checks of one element against the students of the family.
unfoldable pub check_member : List ℕ → List Fee → PayItem → Outcome FeeError (Unit {0})
unfolding find_fee
check_member members seen p = do
  f ← or_throw (find_fee p.student_fee_id seen) not_in_family
  guard (has_id (payer p.student_id f) members) not_in_family
  guard (has_id f.student_id members) not_theirs
  guard (owns p.student_id f) not_the_owner
  ok tt

unfoldable pub check_members : List ℕ → List Fee → List PayItem → Outcome FeeError (Unit {0})
unfolding check_member
check_members members seen [] = ok tt
check_members members seen (p ∷ ps) = do
  one ← check_member members seen p
  check_members members seen ps

-- `batchPayments` and the tables.
pub record PayBatch : Type 0 where
  pub batch : List Payment
  pub db : FeeDb

-- The row of `payment.create`.
abbrev pub item_payment : Call → Fee → PayItem → PayBatch → Payment
item_payment c f p b =
    new_payment b.db f.id (payer p.student_id f) p.amount (part_receipt c (length b.batch + 1)) none
      c.now

-- What the update writes on the row: the sum of its live payments, and the status for it.
abbrev pub item_change : Call → Fee → PayItem → PayBatch → Fee → Fee
item_change c f p b = with_payment c.now (live_total f.id (item_payment c f p b ∷ b.db.payments)) (
    compute_fee_status (live_total f.id (item_payment c f p b ∷ b.db.payments))
      (get_fee_total_due f))

abbrev pub after_item : Call → Fee → PayItem → PayBatch → PayBatch
after_item c f p b = record {
  batch = b.batch ++ item_payment c f p b ∷ [];
  db = update_fee f.id (item_change c f p b) (add_payment (item_payment c f p b) b.db);
}

-- A payment of a fee that is not yet paid in full.
unfoldable pub pay_item : Call → Fee → PayItem → PayBatch → Outcome FeeError PayBatch
unfolding compute_fee_status number_unused
pay_item c f p b = do
  guard (ltb f.paid_amount (get_fee_total_due f)) already_paid
  guard (number_unused (part_receipt c (length b.batch + 1)) b.db.payments) receipt_taken
  ok (after_item c f p b)

-- One turn of the loop: `continue` on an unknown fee or no amount.
unfoldable pub pay_item_if : Call → List Fee → PayItem → PayBatch → Outcome FeeError PayBatch
unfolding pay_item find_fee
pay_item_if c seen p b = elim (find_fee p.student_fee_id seen) [
  | none ↦ ok b
  | some f ↦ if p.amount == 0 then ok b else pay_item c f p b
]

unfoldable pub pay_items : Call → List Fee → List PayItem → PayBatch → Outcome FeeError PayBatch
unfolding pay_item_if
pay_items c seen [] b = ok b
pay_items c seen (p ∷ ps) b = do next ← pay_item_if c seen p b; pay_items c seen ps next

-- The transaction.
unfoldable pub family_pay_tx :
    Call → FamilyPayRequest → ℕ → Option ℕ → FeeDb → Outcome FeeError (FamilyPayment × FeeDb)
unfolding pay_items check_members fees_of_year family_number_free family_key_free
family_pay_tx c req year key db = do
  let ids = item_ids req.payments
  let fresh = fees_of_year year ids db
  guard (length fresh == length ids) wrong_year
  family ← or_throw (db.families req.family_id) family_not_found
  checked ← check_members family.student_ids fresh req.payments
  done ← pay_items c fresh req.payments (record { batch = []; db = db })
  guard (not (is_nil done.batch)) nothing_selected
  let number : Receipt = record { series = c.series; seq = c.base; part = none }
  guard (family_number_free number db.family_payments) receipt_taken
  guard (family_key_free key db.family_payments) key_taken
  let header : FamilyPayment = record {
    family_id = req.family_id;
    receipt_number = number;
    total_amount = sum_by (λ p. p.amount) done.batch;
    idempotency_key = key;
    payments = done.batch;
  }
  ok (header, record done.db { family_payments = header ∷ done.db.family_payments })

-- The `catch`.
abbrev pub close_family_pay :
    FamilyPayRequest
    → Option ℕ
    → FeeDb
    → Outcome FeeError ((FamilyPayment × FeeDb) × Receipt)
    → Outcome FeeError FamilyReply
close_family_pay req key later (ok ((header, db), number)) = ok (family_paid header number db)
close_family_pay req key later (err thrown) =
    converge_family (find_family_payment req.family_id key later.family_payments) (err thrown)

-- The handler, with the tables that its steps find.
unfoldable pub family_pay :
    FeeDb → (ℕ → FeeDb) → FeeDb → FamilyPayRequest → Outcome FeeError FamilyReply
unfolding family_pay_tx assert_valid_idempotency_key find_family_payment
family_pay before tables later req = do
  key ← assert_valid_idempotency_key req.idempotency_key
  converge_family (find_family_payment req.family_id key before.family_payments) (do
    guard (not (is_nil req.payments)) bad_request
    year ← or_throw req.academic_year no_year
    guard (not (target_branch_mismatch req.branch_id (before.years year))) branch_denied
    close_family_pay req key later (
        generate_receipt_number req.series
          (λ k. take 500 (numbers_in req.series (tables k).family_payments))
          (λ k number.
            family_pay_tx
              (record { student_id = 0; now = req.now; series = req.series; base = number.seq }) req
              year key (tables k))))
