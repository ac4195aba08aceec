-- ===== src/Fees/Rows.antt =====
-- The rows of student fees and payments (prisma/schema.prisma) and the helpers at the top of
-- src/modules/admin/routes/fee.routes.ts. Amounts are in paise.
use mothercare_backend.Prelude.{
  ℕ, ◌+◌, ◌-◌, String, Option, List, [], ◌∷◌, ◌==◌, ltb, leb, sum_by, if◌then◌else◌,
}

-- `FeeStatus`, and the `NO_FEE` of the student lists.
pub data FeeStatus : Type 0 where
  no_fee unpaid partial paid overpaid waived : FeeStatus

-- `FeeHeadBreakdownRow`; an absent or empty `feeHeadId` is `none`.
pub record HeadRow : Type 0 where
  pub fee_head_id : Option String
  pub name : String
  pub amount : ℕ
  pub category : String

-- `model FeeExtraItem`
pub record ExtraItem : Type 0 where
  pub id : ℕ
  pub amount : ℕ

-- `model StudentFee`, the columns that payments read or write, with its extra items.
pub record Fee : Type 0 where
  pub id : ℕ
  pub student_id : ℕ
  pub academic_year_id : ℕ
  pub branch_id : ℕ
  pub year : ℕ
  pub month : ℕ
  pub total_amount : ℕ
  pub net_amount : ℕ
  pub paid_amount : ℕ
  pub status : FeeStatus
  pub paid_at : Option ℕ
  pub fee_head_breakdown : List HeadRow
  pub extra_items : List ExtraItem

-- `fee.extraItems.reduce((s, e) => s + e.amount, 0)`
abbrev pub extra_sum : Fee → ℕ
extra_sum f = sum_by (λ e. e.amount) f.extra_items

-- `getFeeTotalDue`
abbrev pub get_fee_total_due : Fee → ℕ
get_fee_total_due f = f.net_amount + extra_sum f

-- `computeFeeStatus`
unfoldable pub compute_fee_status : ℕ → ℕ → FeeStatus
compute_fee_status paid_amount total_due =
    if leb total_due paid_amount
    then if ltb total_due paid_amount then overpaid else paid
    else if ltb 0 paid_amount
    then partial
    else unpaid

-- The status that a payment writes: PARTIAL below the total due.
unfoldable pub paid_status : ℕ → ℕ → FeeStatus
paid_status paid_amount total_due =
    if leb total_due paid_amount
    then if ltb total_due paid_amount then overpaid else paid
    else partial

-- The status that a revert writes.
unfoldable pub revert_status : ℕ → ℕ → FeeStatus
revert_status paid_amount total_due =
    if ltb 0 paid_amount
    then if ltb total_due paid_amount
      then overpaid
      else if leb total_due paid_amount
      then paid
      else partial
    else unpaid

-- `computeStudentStatusFromFees`
unfoldable pub compute_student_status_from_fees : List Fee → FeeStatus
compute_student_status_from_fees [] = no_fee
compute_student_status_from_fees (f ∷ fs) =
    let total_due = sum_by get_fee_total_due (f ∷ fs) in
    if total_due == 0
    then no_fee
    else compute_fee_status (sum_by (λ g. g.paid_amount) (f ∷ fs)) total_due

-- `feeRemainingPaise`
abbrev pub fee_remaining_paise : Fee → ℕ
fee_remaining_paise f = get_fee_total_due f - f.paid_amount

pub record Summary : Type 0 where
  pub total_due_paise : ℕ
  pub unpaid_count : ℕ

-- One turn of the loop of `summarizeStudentFees`.
abbrev pub summarize_fee : Summary → Fee → Summary
summarize_fee s f =
    if ltb 0 (fee_remaining_paise f)
    then record {
      total_due_paise = s.total_due_paise + fee_remaining_paise f;
      unpaid_count = s.unpaid_count + 1;
    }
    else s

abbrev pub summarize_from : Summary → List Fee → Summary
summarize_from s [] = s
summarize_from s (f ∷ fs) = summarize_from (summarize_fee s f) fs

-- `summarizeStudentFees`
unfoldable pub summarize_student_fees : List Fee → Summary
summarize_student_fees fs = summarize_from (record { total_due_paise = 0; unpaid_count = 0 }) fs
