-- ===== src/Fees/Statuses.antt =====
-- The three ways in which src/modules/admin/routes/fee.routes.ts computes the status of a fee, and the
-- summary of a student's fees.
use mothercare_backend.Prelude.{
  ℕ, ◌+◌, ◌<◌, ◌≡◌, ◌↔◌, List, [], ◌∷◌, ltb, sum_by, if◌then◌else◌, arith,
}
use mothercare_backend.Fees.Rows.{
  Fee, fee_remaining_paise, compute_fee_status, paid_status, revert_status, Summary, summarize_fee,
  summarize_from, summarize_student_fees,
}

-- A revert and a payment write the status that `computeFeeStatus` gives for the new amounts: a payment
-- whenever something is paid; a revert exactly when something is paid or due, as with nothing of
-- either the one says unpaid and the other paid.
pub statuses_agree :
    (paid_amount total_due : ℕ)
    → (0 < paid_amount
        → paid_status paid_amount total_due ≡ compute_fee_status paid_amount total_due)
      × ((revert_status paid_amount total_due ≡ compute_fee_status paid_amount total_due)
          ↔ (0 < paid_amount + total_due))
unfolding compute_fee_status paid_status revert_status
statuses_agree paid_amount total_due = (ground arith, (λ h. ground arith, λ h. ground arith))

-- The fees on which something remains due.
abbrev pub owing_count : List Fee → ℕ
owing_count fs = sum_by (λ f. if ltb 0 (fee_remaining_paise f) then 1 else 0) fs

summarize_from-sums :
    (s : Summary) (fs : List Fee)
    → ((summarize_from s fs).total_due_paise ≡ s.total_due_paise + sum_by fee_remaining_paise fs)
      × ((summarize_from s fs).unpaid_count ≡ s.unpaid_count + owing_count fs)
summarize_from-sums s [] = (omega arith, omega arith)
summarize_from-sums s (f ∷ fs) =
    let rest = summarize_from-sums (summarize_fee s f) fs in
    (ground (arith, rest.0), ground (arith, rest.1))

-- The summary of a student's fees is what remains due on all of them, and on how many it does.
pub summary_sums :
    (fs : List Fee)
    → ((summarize_student_fees fs).total_due_paise ≡ sum_by fee_remaining_paise fs)
      × ((summarize_student_fees fs).unpaid_count ≡ owing_count fs)
unfolding summarize_student_fees
summary_sums fs =
    let sums = summarize_from-sums (record { total_due_paise = 0; unpaid_count = 0 }) fs in
    (omega (arith, sums.0), omega (arith, sums.1))
