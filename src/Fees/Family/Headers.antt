-- ===== src/Fees/Family/Headers.antt =====
-- The payments of a family's students insert no header of their own.
use mothercare_backend.Prelude.{
  ℕ, ◌+◌, ◌≡◌, sym, ap, ◌∙◌, Option, none, some, Bool, true, false, ◌&&◌, List, [], ◌∷◌,
  if◌then◌else◌,
}
use mothercare_backend.Prelude.Outcome.{ok, guarded, both_ok, ok-same}
use mothercare_backend.Fees.Receipts.{receipt_taken}
use mothercare_backend.Fees.Heads.{HeadInput, ExtraInput}
use mothercare_backend.Fees.Waterfall.{Call, part_receipt, number_unused}
use mothercare_backend.Fees.Allocate.{PrevMonth, is_nil, execute_student_alloc_in_tx}
use mothercare_backend.Fees.Stored.{execute_student_alloc-headers}
use mothercare_backend.Fees.Family.{
  StudentShare, share_heads, share_extras, Batch, call_for, pay_share, pay_shares_of,
  pay_share_current, pay_students,
}

abbrev Same : Batch → Batch → Type 0
Same b b' = b'.db.family_payments ≡ b.db.family_payments

module _ (c : Call) where
  pay_share-Same :
      (student_id : ℕ) (prev : List PrevMonth) (current : Option ℕ) (heads : List HeadInput)
      (extras : List ExtraInput) (b b' : Batch)
      → pay_share c student_id prev current heads extras b ≡ ok b'
      → Same b b'
  unfolding pay_share
  pay_share-Same student_id prev current heads extras b b' h =
      let number = part_receipt c (b.seq + 1) in
      let (made, executed, h1) =
        both_ok
          (execute_student_alloc_in_tx (call_for c student_id) number prev current heads extras
            b.db)
          _ h in
      let (_, h2) = guarded (number_unused number b.db.payments) receipt_taken _ h1 in
      ap (λ t. t.db.family_payments) (sym (ok-same h2))
      ∙ execute_student_alloc-headers (call_for c student_id) number prev current heads extras b.db
          made.0 made.1 executed

  pay_shares_of-Same :
      (student_id : ℕ) (ps : List PrevMonth) (b b' : Batch)
      → pay_shares_of c student_id ps b ≡ ok b'
      → Same b b'
  unfolding pay_shares_of
  pay_shares_of-Same student_id [] b b' h = ap (λ t. t.db.family_payments) (sym (ok-same h))
  pay_shares_of-Same student_id (p ∷ ps) b b' h =
      let (next, first, rest) = both_ok (pay_share c student_id (p ∷ []) none [] [] b) _ h in
      pay_shares_of-Same student_id ps next b' rest
      ∙ pay_share-Same student_id (p ∷ []) none [] [] b next first

  share_if-Same :
      (nothing : Bool) (s : StudentShare) (fee_id : ℕ) (b b' : Batch)
      → (if nothing
          then ok b
          else pay_share c s.student_id [] (some fee_id) (share_heads s) (share_extras s) b)
        ≡ ok b'
      → Same b b'
  share_if-Same true s fee_id b b' h = ap (λ t. t.db.family_payments) (sym (ok-same h))
  share_if-Same false s fee_id b b' h =
      pay_share-Same s.student_id [] (some fee_id) (share_heads s) (share_extras s) b b' h

  pay_share_current-Same :
      (s : StudentShare) (current : Option ℕ) (b b' : Batch)
      → pay_share_current c s current b ≡ ok b'
      → Same b b'
  pay_share_current-Same s none b b' h = ap (λ t. t.db.family_payments) (sym (ok-same h))
  pay_share_current-Same s (some fee_id) b b' h =
      share_if-Same (is_nil (share_heads s) && is_nil (share_extras s)) s fee_id b b' h

  pub pay_students-Same :
      (ss : List StudentShare) (b b' : Batch)
      → pay_students c ss b ≡ ok b'
      → b'.db.family_payments ≡ b.db.family_payments
  unfolding pay_students
  pay_students-Same [] b b' h = ap (λ t. t.db.family_payments) (sym (ok-same h))
  pay_students-Same (s ∷ ss) b b' h =
      let (mid, first, h1) = both_ok (pay_shares_of c s.student_id s.previous_months b) _ h in
      let (next, second, rest) = both_ok (pay_share_current c s s.current_fee mid) _ h1 in
      pay_students-Same ss next b' rest
      ∙ pay_share_current-Same s s.current_fee mid next second
      ∙ pay_shares_of-Same s.student_id s.previous_months b mid first
