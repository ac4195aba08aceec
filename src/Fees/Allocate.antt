-- ===== src/Fees/Allocate.antt =====
-- `POST /payments/allocate` and `executeStudentAllocInTx`: a payment over chosen months, heads and
-- extra items.
use mothercare_backend.Prelude.{
  ℕ, ◌+◌, Option, none, some, Bool, true, false, not, ◌&&◌, ◌||◌, List, [], ◌∷◌, ◌++◌, ◌==◌, ltb,
  leb, length, sum_by, if◌then◌else◌,
}
use mothercare_backend.Prelude.Outcome.{Outcome, ok, ◌>>=◌, ◌>>◌, guard, or_throw}
use mothercare_backend.Fees.Rows.{Fee, get_fee_total_due}
use mothercare_backend.Fees.Db.{Receipt, Payment, allocate_route, FeeDb, select}
use mothercare_backend.Fees.Receipts.{
  FeeError, not_theirs, exceeds_due, bad_request, branch_denied, receipt_taken, nothing_selected,
  total_mismatch, candidates, generate_receipt_number,
}
use mothercare_backend.Fees.Heads.{
  HeadInput, ExtraInput, normalize_allocate_heads_input, positive_heads, positive_extras,
  check_heads, check_extras, allocation_rows,
}
use mothercare_backend.Fees.Waterfall.{
  Call, part_receipt, payment_for, pay_fee, create_operation, all_unused, number_unused,
}
use mothercare_backend.Fees.Replay.{
  RawKey, assert_valid_idempotency_key, find_operation_replay, target_branch_mismatch, Reply,
  converge, recover, finish_request,
}

-- An element of `previousMonths`.
pub record PrevMonth : Type 0 where
  pub student_fee_id : ℕ
  pub amount_paise : ℕ

-- What the two functions keep while they run: the fees as read, the payments made, and the tables.
pub record Alloc : Type 0 where
  pub seen : List Fee
  pub made : List Payment
  pub db : FeeDb

-- `feeById.get`
unfoldable pub find_fee : ℕ → List Fee → Option Fee
find_fee id [] = none
find_fee id (f ∷ fs) = let rest = find_fee id fs in if f.id == id then some f else rest

-- `fa?.year || 0`, `fa?.month || 0`
abbrev pub when_of : Option Fee → ℕ × ℕ
when_of none = (0, 0)
when_of (some f) = (f.year, f.month)

abbrev pub not_after : ℕ × ℕ → ℕ × ℕ → Bool
not_after a b = ltb a.0 b.0 || ((a.0 == b.0) && leb a.1 b.1)

-- `[...prevList].sort(...)`, which is stable.
unfoldable pub insert_prev : List Fee → PrevMonth → List PrevMonth → List PrevMonth
unfolding find_fee
insert_prev seen p [] = p ∷ []
insert_prev seen p (q ∷ qs) =
    let rest = insert_prev seen p qs in
    if not_after (when_of (find_fee p.student_fee_id seen))
      (when_of (find_fee q.student_fee_id seen))
    then p ∷ q ∷ qs
    else q ∷ rest

unfoldable pub sort_prev : List Fee → List PrevMonth → List PrevMonth
unfolding insert_prev
sort_prev seen [] = []
sort_prev seen (p ∷ ps) = insert_prev seen p (sort_prev seen ps)

abbrev pub note_one : ℕ → ℕ → Fee → Fee
note_one id amount f = if f.id == id then record f { paid_amount = f.paid_amount + amount } else f

-- `fee.paidAmount = newPaid`, on the fees as read.
abbrev pub note_paid : ℕ → ℕ → List Fee → List Fee
note_paid id amount [] = []
note_paid id amount (f ∷ fs) = note_one id amount f ∷ note_paid id amount fs

-- `POST /payments/allocate` leaves them as they were read.
abbrev pub leave_seen : ℕ → ℕ → List Fee → List Fee
leave_seen id amount fs = fs

-- The receipt number of a payment, by how many the request has made.
module _ (c : Call) (receipt : ℕ → Receipt) (remember : ℕ → ℕ → List Fee → List Fee) where
  -- The writes for one fee.
  abbrev pub pay_month : Fee → ℕ → Alloc → Alloc
  pay_month f amount s = record {
    seen = remember f.id amount s.seen;
    made = s.made ++ payment_for c f amount (receipt (length s.made + 1)) s.db ∷ [];
    db = pay_fee c f amount (receipt (length s.made + 1)) s.db;
  }

  -- One previous month.
  unfoldable pub pay_previous_one : PrevMonth → Alloc → Outcome FeeError Alloc
  unfolding find_fee
  pay_previous_one p s = do
    f ← or_throw (find_fee p.student_fee_id s.seen) not_theirs
    guard (ltb 0 p.amount_paise && leb (f.paid_amount + p.amount_paise) (get_fee_total_due f))
        exceeds_due
    ok (pay_month f p.amount_paise s)

  unfoldable pub pay_previous : List PrevMonth → Alloc → Outcome FeeError Alloc
  unfolding pay_previous_one
  pay_previous [] s = ok s
  pay_previous (p ∷ ps) s = do next ← pay_previous_one p s; pay_previous ps next

  -- The current month: one payment, with an allocation for each head and extra item.
  unfoldable pub pay_current : ℕ → List HeadInput → List ExtraInput → Alloc → Outcome FeeError Alloc
  unfolding check_heads check_extras find_fee
  pay_current fee_id heads extras s = do
    f ← or_throw (find_fee fee_id s.seen) not_theirs
    on_heads ← check_heads f s.db.allocations heads
    on_extras ← check_extras f s.db.allocations extras
    let inputs = on_heads ++ on_extras
    let next = pay_month f (sum_by (λ a. a.amount) inputs) s
    ok (record next {
      db = record next.db {
        allocations = allocation_rows s.db.next_id f.id inputs ++ s.db.allocations;
      };
    })

abbrev pub has_id : ℕ → List ℕ → Bool
has_id i [] = false
has_id i (j ∷ js) = (i == j) || has_id i js

-- `new Set(...)`
abbrev distinct_ids : List ℕ → List ℕ
distinct_ids [] = []
distinct_ids (i ∷ is) = let rest = distinct_ids is in if has_id i is then rest else i ∷ rest

abbrev prev_ids : List PrevMonth → List ℕ
prev_ids [] = []
prev_ids (p ∷ ps) = p.student_fee_id ∷ prev_ids ps

abbrev optional_id : Option ℕ → List ℕ
optional_id none = []
optional_id (some i) = i ∷ []

-- `allFeeIds`
unfoldable pub all_fee_ids : List PrevMonth → Option ℕ → List ℕ
all_fee_ids prev current = distinct_ids (prev_ids prev ++ optional_id current)

-- `findMany({ where: { id: { in: allFeeIds }, studentId } })`
unfoldable pub selected_fees : ℕ → List ℕ → FeeDb → List Fee
selected_fees student_id ids db =
    select (λ f. (f.student_id == student_id) && has_id f.id ids) db.fees db.fee_ids

abbrev pub is_nil {ℓ} : {A : Type ℓ} → List A → Bool
is_nil [] = true
is_nil (x ∷ xs) = false

-- `if (curStudentFeeId && (curHeads.length > 0 || curExtras.length > 0))`
abbrev pub pay_current_if :
    Call
    → (ℕ → Receipt)
    → (ℕ → ℕ → List Fee → List Fee)
    → Option ℕ
    → List HeadInput
    → List ExtraInput
    → Alloc
    → Outcome FeeError Alloc
pay_current_if c receipt remember none heads extras s = ok s
pay_current_if c receipt remember (some fee_id) heads extras s =
    if is_nil heads && is_nil extras
    then ok s
    else pay_current c receipt remember fee_id heads extras s

-- The part that the two functions share: the fees are read and must all be the student's, then the
-- previous months are paid from the oldest, then the current month.
unfoldable pub allocate_selected :
    Call
    → (ℕ → Receipt)
    → (ℕ → ℕ → List Fee → List Fee)
    → List PrevMonth
    → Option ℕ
    → List HeadInput
    → List ExtraInput
    → FeeDb
    → Outcome FeeError Alloc
unfolding all_fee_ids selected_fees pay_previous pay_current sort_prev
allocate_selected c receipt remember prev current heads extras db = do
  let ids = all_fee_ids prev current
  let fresh = selected_fees c.student_id ids db
  guard (length fresh == length ids) not_theirs
  paid_prev ←
      pay_previous c receipt remember (sort_prev fresh prev)
        (record { seen = fresh; made = []; db = db })
  pay_current_if c receipt remember current heads extras paid_prev

-- `executeStudentAllocInTx`: all payments carry the receipt number of the call, and the fees as read
-- follow what is paid on them.
unfoldable pub execute_student_alloc_in_tx :
    Call
    → Receipt
    → List PrevMonth
    → Option ℕ
    → List HeadInput
    → List ExtraInput
    → FeeDb
    → Outcome FeeError (List Payment × FeeDb)
unfolding allocate_selected normalize_allocate_heads_input
execute_student_alloc_in_tx c receipt prev current heads extras db = do
  done ←
      allocate_selected c (λ n. receipt) note_paid prev current
        (positive_heads (normalize_allocate_heads_input heads)) (positive_extras extras) db
  ok (done.made, done.db)

pub record AllocRequest : Type 0 where
  pub student_id : ℕ
  pub amount_paid_paise : ℕ
  pub previous_months : List PrevMonth
  pub current_fee : Option ℕ
  pub heads : List HeadInput
  pub extras : List ExtraInput
  pub idempotency_key : RawKey
  pub branch_id : Option ℕ
  pub now : ℕ
  pub series : ℕ

-- `curHeads`
abbrev pub cur_heads : AllocRequest → List HeadInput
cur_heads req = positive_heads (normalize_allocate_heads_input req.heads)

-- `curExtras`
abbrev pub cur_extras : AllocRequest → List ExtraInput
cur_extras req = positive_extras req.extras

-- `selectedTotal`
abbrev pub selected_total : AllocRequest → ℕ
selected_total req =
    sum_by (λ p. p.amount_paise) req.previous_months
    + sum_by (λ h. h.amount_paise) (cur_heads req)
    + sum_by (λ e. e.amount_paise) (cur_extras req)

abbrev pub is_given : Option ℕ → Bool
is_given none = false
is_given (some i) = true

-- The transaction of `POST /payments/allocate`: the payments are numbered in turn.
unfoldable pub allocate_tx :
    Call → AllocRequest → Option ℕ → FeeDb → Outcome FeeError (List Payment × FeeDb)
unfolding allocate_selected normalize_allocate_heads_input number_unused
allocate_tx c req key db = do
  done ←
      allocate_selected c (part_receipt c) leave_seen req.previous_months req.current_fee
        (cur_heads req) (cur_extras req) db
  guard (all_unused done.made db.payments) receipt_taken
  db' ←
      create_operation key
        (record {
          route = allocate_route;
          student_id = c.student_id;
          total_amount = req.amount_paid_paise;
          payments = done.made;
        })
        done.db
  ok (done.made, db')

-- The handler, with the tables that its steps find.
unfoldable pub allocate : FeeDb → (ℕ → FeeDb) → FeeDb → AllocRequest → Outcome FeeError Reply
unfolding allocate_tx assert_valid_idempotency_key recover normalize_allocate_heads_input
allocate before tables later req = do
  key ← assert_valid_idempotency_key req.idempotency_key
  guard (ltb 0 req.amount_paid_paise) bad_request
  guard (not (target_branch_mismatch req.branch_id (before.students req.student_id))) branch_denied
  replay ← find_operation_replay allocate_route req.student_id key before
  converge replay (do
    guard (not (is_nil req.previous_months && is_nil (cur_heads req) && is_nil (cur_extras req)))
        nothing_selected
    guard ((is_nil (cur_heads req) && is_nil (cur_extras req)) || is_given req.current_fee)
        bad_request
    guard (selected_total req == req.amount_paid_paise) total_mismatch
    finish_request (recover allocate_route req.student_id key later) (
        generate_receipt_number req.series (λ k. candidates req.series (tables k).payments)
          (λ k receipt.
            allocate_tx
              (record {
                student_id = req.student_id;
                now = req.now;
                series = req.series;
                base = receipt.seq;
              })
              req key (tables k))))
