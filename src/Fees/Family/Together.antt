-- ===== src/Fees/Family/Together.antt =====
-- What an accepted payment of a family has recorded, and what it keeps.
use mothercare_backend.Prelude.{
  ℕ, ◌+◌, ◌≡◌, refl, sym, ap, subst, ◌∙◌, inl, inr, Option, none, some, Bool, true, false, ◌&&◌,
  ◌||◌, List, [], ◌∷◌, sum_by, sum_by-append, if◌then◌else◌, arith, Bool-cases,
}
use mothercare_backend.Prelude.Outcome.{ok, guarded, both_ok, ok-same}
use mothercare_backend.Fees.Db.{Receipt, Payment, FeeDb}
use mothercare_backend.Fees.Receipts.{receipt_taken}
use mothercare_backend.Fees.Heads.{
  HeadInput, ExtraInput, merge_inputs, normalize_allocate_heads_input, positive_heads,
  positive_extras,
}
use mothercare_backend.Fees.Waterfall.{Call, part_receipt, number_unused}
use mothercare_backend.Fees.Allocate.{
  PrevMonth, note_paid, is_nil, is_given, sort_prev, selected_fees, all_fee_ids, allocate_selected,
  execute_student_alloc_in_tx,
}
use mothercare_backend.Fees.Books.{Balanced}
use mothercare_backend.Fees.Poured.{amount_of}
use mothercare_backend.Fees.Selected.{
  allocate_selected-run, pay_previous-amount, pay_current_if-amount, sort_prev-sum,
}
use mothercare_backend.Fees.Tracked.{execute_student_alloc-Balanced}
use mothercare_backend.Fees.Family.{
  StudentShare, share_heads, share_extras, Batch, call_for, pay_share, pay_shares_of,
  pay_share_current, pay_students,
}
use mothercare_backend.Fees.Family.Inputs.{head_sum, positive_extras-sum, normalized_twice}

abbrev pub extra_amounts : List ExtraInput → ℕ
extra_amounts xs = sum_by (λ x. x.amount_paise) xs

-- One call of `executeStudentAllocInTx` pays what it is asked to.
execute_student_alloc-amount :
    (c : Call) (receipt : Receipt) (prev : List PrevMonth) (current : Option ℕ)
    (heads : List HeadInput) (extras : List ExtraInput) (db : FeeDb) (ps : List Payment)
    (db' : FeeDb)
    → (is_nil (positive_heads (normalize_allocate_heads_input heads))
          && is_nil (positive_extras extras))
        || is_given current
      ≡ true
    → execute_student_alloc_in_tx c receipt prev current heads extras db ≡ ok (ps, db')
    → amount_of ps
      ≡ sum_by (λ p. p.amount_paise) prev
        + head_sum (positive_heads (normalize_allocate_heads_input heads))
        + extra_amounts extras
unfolding execute_student_alloc_in_tx
execute_student_alloc-amount c receipt prev current heads extras db ps db' given h =
    let hs = positive_heads (normalize_allocate_heads_input heads) in
    let xs = positive_extras extras in
    let fresh = selected_fees c.student_id (all_fee_ids prev current) db in
    let (done, selected, answer) =
      both_ok (allocate_selected c (λ n. receipt) note_paid prev current hs xs db) _ h in
    let (s, before, after) =
      allocate_selected-run c (λ n. receipt) note_paid prev current hs xs db done selected in
    ap (λ a. amount_of a.0) (sym (ok-same answer))
    ∙ omega (
      arith,
      pay_previous-amount c (λ n. receipt) note_paid (sort_prev fresh prev)
          (record { seen = fresh; made = []; db = db }) s before,
      sort_prev-sum fresh prev,
      pay_current_if-amount c (λ n. receipt) note_paid current hs xs s done given after,
      positive_extras-sum extras,
    )

-- What a student pays on the current month: nothing without its fee.
abbrev pub current_amount : StudentShare → Option ℕ → ℕ
current_amount s none = 0
current_amount s (some fee_id) = head_sum (share_heads s) + extra_amounts (share_extras s)

none_selected :
    (hs : List HeadInput) (xs : List ExtraInput)
    → is_nil hs && is_nil xs ≡ true
    → head_sum hs + extra_amounts xs ≡ 0
none_selected [] [] h = refl
none_selected (x ∷ hs) xs h = absurd (cc (h))
none_selected [] (x ∷ xs) h = absurd (cc (h))

given_month : (b : Bool) (fee_id : ℕ) → b || is_given (some fee_id) ≡ true
given_month true fee_id = refl
given_month false fee_id = refl

-- What the students of a request pay together.
abbrev pub paid_together : List StudentShare → ℕ
paid_together ss =
    sum_by (λ s. sum_by (λ p. p.amount_paise) s.previous_months + current_amount s s.current_fee) ss

module _ (c : Call) where
  pay_share-amount :
      (student_id : ℕ) (prev : List PrevMonth) (current : Option ℕ) (heads : List HeadInput)
      (extras : List ExtraInput) (b b' : Batch)
      → (is_nil (positive_heads (normalize_allocate_heads_input heads))
            && is_nil (positive_extras extras))
          || is_given current
        ≡ true
      → pay_share c student_id prev current heads extras b ≡ ok b'
      → (amount_of b'.batch
          ≡ amount_of b.batch
            + (sum_by (λ p. p.amount_paise) prev
                + head_sum (positive_heads (normalize_allocate_heads_input heads))
                + extra_amounts extras))
        × (Balanced b.db → Balanced b'.db)
  unfolding pay_share
  pay_share-amount student_id prev current heads extras b b' given h =
      let number = part_receipt c (b.seq + 1) in
      let (made, executed, h1) =
        both_ok
          (execute_student_alloc_in_tx (call_for c student_id) number prev current heads extras
            b.db)
          _ h in
      let (_, h2) = guarded (number_unused number b.db.payments) receipt_taken _ h1 in
      (
        ap (λ t. amount_of t.batch) (sym (ok-same h2))
            ∙ omega (
              arith,
              sum_by-append (λ p. p.amount) b.batch made.0,
              execute_student_alloc-amount (call_for c student_id) number prev current heads extras
                  b.db made.0 made.1 given executed,
            ),
        λ balanced.
            subst (λ t. Balanced t.db) (ok-same h2)
              (execute_student_alloc-Balanced (call_for c student_id) number prev current heads
                extras b.db made.0 made.1 executed balanced),
      )

  pay_shares_of-amount :
      (student_id : ℕ) (ps : List PrevMonth) (b b' : Batch)
      → pay_shares_of c student_id ps b ≡ ok b'
      → (amount_of b'.batch ≡ amount_of b.batch + sum_by (λ p. p.amount_paise) ps)
        × (Balanced b.db → Balanced b'.db)
  unfolding pay_shares_of normalize_allocate_heads_input merge_inputs
  pay_shares_of-amount student_id [] b b' h = (
    omega (arith, ap (λ t. amount_of t.batch) (ok-same h)),
    subst (λ t. Balanced t.db) (ok-same h),
  )
  pay_shares_of-amount student_id (p ∷ ps) b b' h =
      let (next, first, rest) = both_ok (pay_share c student_id (p ∷ []) none [] [] b) _ h in
      let one = pay_share-amount student_id (p ∷ []) none [] [] b next refl first in
      let others = pay_shares_of-amount student_id ps next b' rest in
      (omega (arith, one.0, others.0), λ balanced. others.1 (one.1 balanced))

  pay_share_current-amount :
      (s : StudentShare) (current : Option ℕ) (b b' : Batch)
      → pay_share_current c s current b ≡ ok b'
      → (amount_of b'.batch ≡ amount_of b.batch + current_amount s current)
        × (Balanced b.db → Balanced b'.db)
  pay_share_current-amount s none b b' h = (
    omega (arith, ap (λ t. amount_of t.batch) (ok-same h)),
    subst (λ t. Balanced t.db) (ok-same h),
  )
  pay_share_current-amount s (some fee_id) b b' h =
      elim (Bool-cases (is_nil (share_heads s) && is_nil (share_extras s))) [
        | inl empty ↦
            let stays =
              subst
                (λ t.
                  (if t
                    then ok b
                    else pay_share c s.student_id [] (some fee_id) (share_heads s) (share_extras s)
                        b)
                  ≡ ok b')
                empty h in
            (
              omega (
                arith,
                ap (λ t. amount_of t.batch) (ok-same stays),
                none_selected (share_heads s) (share_extras s) empty,
              ),
              subst (λ t. Balanced t.db) (ok-same stays),
            )
        | inr chosen ↦
            let pays =
              subst
                (λ t.
                  (if t
                    then ok b
                    else pay_share c s.student_id [] (some fee_id) (share_heads s) (share_extras s)
                        b)
                  ≡ ok b')
                chosen h in
            let one =
              pay_share-amount s.student_id [] (some fee_id) (share_heads s) (share_extras s) b b'
                (given_month _ fee_id) pays in
            (omega (arith, one.0, normalized_twice s), one.1)
      ]

  pub pay_students-amount :
      (ss : List StudentShare) (b b' : Batch)
      → pay_students c ss b ≡ ok b'
      → (amount_of b'.batch ≡ amount_of b.batch + paid_together ss)
        × (Balanced b.db → Balanced b'.db)
  unfolding pay_students
  pay_students-amount [] b b' h = (
    omega (arith, ap (λ t. amount_of t.batch) (ok-same h)),
    subst (λ t. Balanced t.db) (ok-same h),
  )
  pay_students-amount (s ∷ ss) b b' h =
      let (mid, first, h1) = both_ok (pay_shares_of c s.student_id s.previous_months b) _ h in
      let (next, second, rest) = both_ok (pay_share_current c s s.current_fee mid) _ h1 in
      let one = pay_shares_of-amount s.student_id s.previous_months b mid first in
      let two = pay_share_current-amount s s.current_fee mid next second in
      let others = pay_students-amount ss next b' rest in
      (omega (arith, one.0, two.0, others.0), λ balanced. others.1 (two.1 (one.1 balanced)))
