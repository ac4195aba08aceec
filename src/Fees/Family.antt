-- ===== src/Fees/Family.antt =====
-- `POST /family-payments/allocate`: one payment of a family over chosen months of its students.
pub mod Inputs
pub mod Headers
pub mod Together
pub mod Header
use mothercare_backend.Prelude.{
  ℕ, ◌+◌, Option, none, some, Bool, true, false, not, ◌&&◌, ◌||◌, List, [], ◌∷◌, ◌++◌, ◌==◌, ltb,
  leb, length, sum_by, if◌then◌else◌, take,
}
use mothercare_backend.Prelude.Outcome.{Outcome, err, ok, ◌>>=◌, ◌>>◌, guard, or_throw}
use mothercare_backend.Fees.Db.{Receipt, same_receipt, Payment, Family, FamilyPayment, FeeDb}
use mothercare_backend.Fees.Receipts.{
  FeeError, bad_request, branch_denied, receipt_taken, key_taken, nothing_selected, total_mismatch,
  no_year, family_not_found, not_in_family, generate_receipt_number,
}
use mothercare_backend.Fees.Heads.{
  HeadInput, ExtraInput, normalize_allocate_heads_input, positive_heads, positive_extras,
}
use mothercare_backend.Fees.Waterfall.{Call, part_receipt, number_unused}
use mothercare_backend.Fees.Replay.{
  RawKey, assert_valid_idempotency_key, target_branch_mismatch, is_key_taken,
}
use mothercare_backend.Fees.Allocate.{PrevMonth, has_id, is_nil, execute_student_alloc_in_tx}

-- An element of `students`.
pub record StudentShare : Type 0 where
  pub student_id : ℕ
  pub amount_paid_paise : ℕ
  pub previous_months : List PrevMonth
  pub current_fee : Option ℕ
  pub heads : List HeadInput
  pub extras : List ExtraInput

-- `academic_year` is what `resolveAcademicYearId` answers.
pub record FamilyRequest : Type 0 where
  pub family_id : ℕ
  pub academic_year : Option ℕ
  pub amount_paid_paise : ℕ
  pub students : List StudentShare
  pub idempotency_key : RawKey
  pub branch_id : Option ℕ
  pub now : ℕ
  pub series : ℕ

abbrev pub share_heads : StudentShare → List HeadInput
share_heads s = positive_heads (normalize_allocate_heads_input s.heads)

abbrev pub share_extras : StudentShare → List ExtraInput
share_extras s = positive_extras s.extras

-- `selectedTotal`
abbrev pub share_total : StudentShare → ℕ
share_total s =
    sum_by (λ p. p.amount_paise) s.previous_months
    + sum_by (λ h. h.amount_paise) (share_heads s)
    + sum_by (λ e. e.amount_paise) (share_extras s)

-- The loop that checks the members and their totals.
unfoldable pub check_shares : List ℕ → List StudentShare → Outcome FeeError (Unit {0})
unfolding normalize_allocate_heads_input
check_shares members [] = ok tt
check_shares members (s ∷ ss) = do
  guard (has_id s.student_id members) not_in_family
  guard (share_total s == s.amount_paid_paise) total_mismatch
  check_shares members ss

-- The variables of the transaction: `seq`, `batchPayments`, and the tables.
pub record Batch : Type 0 where
  pub seq : ℕ
  pub batch : List Payment
  pub db : FeeDb

-- The call of one student in the request.
abbrev pub call_for : Call → ℕ → Call
call_for c student_id = record c { student_id = student_id }

-- `seq++`, one call of `executeStudentAllocInTx`, and `batchPayments.push(...created)`. The call makes
-- one payment, whose number must be new.
unfoldable pub pay_share :
    Call
    → ℕ
    → List PrevMonth
    → Option ℕ
    → List HeadInput
    → List ExtraInput
    → Batch
    → Outcome FeeError Batch
unfolding execute_student_alloc_in_tx number_unused
pay_share c student_id prev current heads extras b = do
  made ←
      execute_student_alloc_in_tx (call_for c student_id) (part_receipt c (b.seq + 1)) prev current
        heads extras b.db
  guard (number_unused (part_receipt c (b.seq + 1)) b.db.payments) receipt_taken
  ok (record { seq = b.seq + 1; batch = b.batch ++ made.0; db = made.1 })

-- `for (const p of prevList)`
unfoldable pub pay_shares_of : Call → ℕ → List PrevMonth → Batch → Outcome FeeError Batch
unfolding pay_share
pay_shares_of c student_id [] b = ok b
pay_shares_of c student_id (p ∷ ps) b = do
  next ← pay_share c student_id (p ∷ []) none [] [] b
  pay_shares_of c student_id ps next

-- `if (curStudentFeeId && (curHeads.length > 0 || curExtras.length > 0))`
abbrev pub pay_share_current : Call → StudentShare → Option ℕ → Batch → Outcome FeeError Batch
pay_share_current c s none b = ok b
pay_share_current c s (some fee_id) b =
    if is_nil (share_heads s) && is_nil (share_extras s)
    then ok b
    else pay_share c s.student_id [] (some fee_id) (share_heads s) (share_extras s) b

-- `for (const s of studentList)`
unfoldable pub pay_students : Call → List StudentShare → Batch → Outcome FeeError Batch
unfolding pay_shares_of pay_share normalize_allocate_heads_input
pay_students c [] b = ok b
pay_students c (s ∷ ss) b = do
  paid_prev ← pay_shares_of c s.student_id s.previous_months b
  next ← pay_share_current c s s.current_fee paid_prev
  pay_students c ss next

-- The two unique columns of `family_payments`.
abbrev pub same_key : Option ℕ → Option ℕ → Bool
same_key (some a) (some b) = a == b
same_key _ _ = false

unfoldable pub family_number_free : Receipt → List FamilyPayment → Bool
family_number_free r [] = true
family_number_free r (p ∷ ps) = not (same_receipt r p.receipt_number) && family_number_free r ps

unfoldable pub family_key_free : Option ℕ → List FamilyPayment → Bool
family_key_free key [] = true
family_key_free key (p ∷ ps) = not (same_key p.idempotency_key key) && family_key_free key ps

-- The transaction.
unfoldable pub family_tx :
    Call → FamilyRequest → Option ℕ → FeeDb → Outcome FeeError (FamilyPayment × FeeDb)
unfolding pay_students family_number_free family_key_free
family_tx c req key db = do
  let number : Receipt = record { series = c.series; seq = c.base; part = none }
  guard (family_number_free number db.family_payments) receipt_taken
  guard (family_key_free key db.family_payments) key_taken
  done ← pay_students c req.students (record { seq = 0; batch = []; db = db })
  guard (not (is_nil done.batch)) nothing_selected
  let header : FamilyPayment = record {
    family_id = req.family_id;
    receipt_number = number;
    total_amount = req.amount_paid_paise;
    idempotency_key = key;
    payments = done.batch;
  }
  ok (header, record done.db { family_payments = header ∷ done.db.family_payments })

-- `findFamilyPaymentReplay`
unfoldable pub find_family_payment : ℕ → Option ℕ → List FamilyPayment → Option FamilyPayment
find_family_payment family_id key [] = none
find_family_payment family_id key (p ∷ ps) =
    let rest = find_family_payment family_id key ps in
    if same_key p.idempotency_key key && (p.family_id == family_id) then some p else rest

pub data FamilyReply : Type 0 where
  same_family_payment : FamilyPayment → FamilyReply
  family_paid : FamilyPayment → Receipt → FeeDb → FamilyReply

abbrev pub converge_family :
    Option FamilyPayment → Outcome FeeError FamilyReply → Outcome FeeError FamilyReply
converge_family (some p) rest = ok (same_family_payment p)
converge_family none rest = rest

-- The `catch`: every error of a request with a key looks for the winner first.
abbrev pub close_family :
    FamilyRequest
    → Option ℕ
    → FeeDb
    → Outcome FeeError ((FamilyPayment × FeeDb) × Receipt)
    → Outcome FeeError FamilyReply
close_family req key later (ok ((header, db), number)) = ok (family_paid header number db)
close_family req key later (err thrown) =
    converge_family (find_family_payment req.family_id key later.family_payments) (err thrown)

abbrev pub numbers_in : ℕ → List FamilyPayment → List Receipt
numbers_in series [] = []
numbers_in series (p ∷ ps) =
    let rest = numbers_in series ps in
    if p.receipt_number.series == series then p.receipt_number ∷ rest else rest

abbrev pub active_family : Option Family → Option Family
active_family none = none
active_family (some f) = if f.is_active then some f else none

-- The handler, with the tables that its steps find.
unfoldable pub family_allocate :
    FeeDb → (ℕ → FeeDb) → FeeDb → FamilyRequest → Outcome FeeError FamilyReply
unfolding family_tx check_shares assert_valid_idempotency_key find_family_payment
family_allocate before tables later req = do
  key ← assert_valid_idempotency_key req.idempotency_key
  guard (ltb 0 req.amount_paid_paise) bad_request
  guard (not (is_nil req.students)) bad_request
  year ← or_throw req.academic_year no_year
  guard (not (target_branch_mismatch req.branch_id (before.years year))) branch_denied
  family ← or_throw (active_family (before.families req.family_id)) family_not_found
  checked ← check_shares family.student_ids req.students
  guard (sum_by (λ s. s.amount_paid_paise) req.students == req.amount_paid_paise) total_mismatch
  converge_family (find_family_payment req.family_id key before.family_payments) (
      close_family req key later (
        generate_receipt_number req.series
          (λ k. take 500 (numbers_in req.series (tables k).family_payments))
          (λ k number.
            family_tx
              (record { student_id = 0; now = req.now; series = req.series; base = number.seq }) req
              key (tables k))))
