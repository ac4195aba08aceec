-- ===== src/Fees/Tests.antt =====
-- A student with two open months, and a month of another student that is paid.
use mothercare_backend.Prelude.{
  ℕ, ◌+◌, ◌-◌, ◌≤◌, ◌<◌, min, ◌≡◌, ◌≢◌, refl, ◌↔◌, inl, Option, none, some, true, false, List, [],
  ◌∷◌, ◌++◌, sum_by, arith, All, ◌&◌, String, some-same, subst,
}
use mothercare_backend.Prelude.Outcome.{Outcome, err, ok}
use mothercare_backend.Fees.Rows.{
  FeeStatus, unpaid, partial, paid, overpaid, HeadRow, Fee, get_fee_total_due, fee_remaining_paise,
  revert_status, paid_status,
}
use mothercare_backend.Fees.Db.{Receipt, Payment, Operation, FeeDb, live_total}
use mothercare_backend.Fees.Receipts.{FeeError, system_busy, next_receipt, generate_receipt_number}
use mothercare_backend.Fees.Waterfall.{Call, fresh_fees, waterfall_tx, sort_fees}
use mothercare_backend.Fees.Waterfall.{insert_fee, number_unused}
use mothercare_backend.Fees.Books.{Balanced, RowSound}
use mothercare_backend.Fees.Poured.{settled, amount_of}
use mothercare_backend.Fees.Fresh.{Ordered}
use mothercare_backend.Fees.Oldest.{
  waterfall_pays_oldest_first, waterfall_records, waterfall_never_overpays,
}
use mothercare_backend.Fees.Oldest.{operation_of}
use mothercare_backend.Fees.Replay.{text, absent, PourRequest, replayed, recorded, waterfall}
use mothercare_backend.Fees.Once.{same_key_converges}
use mothercare_backend.Fees.Pay.{PayRequest, pay_tx}
use mothercare_backend.Fees.Revert.{find_payment, revert_tx}
use mothercare_backend.Fees.Undo.{payment_of as paying_of, revert_undoes_pay}
use mothercare_backend.Fees.Statuses.{statuses_agree}
use mothercare_backend.Fees.Rows.{compute_fee_status}
use mothercare_backend.Fees.Receipts.{receipt_taken, max_attempts, candidates, generate_from}
use mothercare_backend.Fees.Numbering.{
  Answers, tried, generate_receipt_number_iff, generate-never_busy, next_receipt_new,
}
use mothercare_backend.Fees.Breakdown.{merge_heads, merge_fee_head_breakdown}
use mothercare_backend.Fees.Merged.{
  amount_at, entries_at, named_amount, named_total, merge_keeps_amounts,
}
use mothercare_backend.Fees.Allocate.{AllocRequest, allocate}
use mothercare_backend.Fees.Db.{FamilyPayment}
use mothercare_backend.Fees.Family.{FamilyRequest, family_paid, family_allocate}
use mothercare_backend.Fees.Family.Header.{unplaced, family_header_total}
use mothercare_backend.Fees.Exact.{allocate_records_amount}
use mothercare_backend.Fees.Twice.{month_named_twice}
use mothercare_backend.Fees.Stored.{newest_first}
use mothercare_backend.Fees.Undo.{Undone}
use mothercare_backend.Fees.Db.{Family}
use mothercare_backend.Fees.Allocate.{has_id}
use mothercare_backend.Fees.FamilyPay.{FamilyPayRequest, family_pay_tx}
use mothercare_backend.Fees.FamilyPay.Members.{family_pay_moves_members}
use mothercare_backend.Fees.Traffic.{idle, then_runs, pours, Run-Balanced}

abbrev fee_of : ℕ → ℕ → ℕ → ℕ → ℕ → FeeStatus → Fee
fee_of id student_id month net paid_amount status = record {
  id = id;
  student_id = student_id;
  academic_year_id = 1;
  branch_id = 1;
  year = 2026;
  month = month;
  total_amount = net;
  net_amount = net;
  paid_amount = paid_amount;
  status = status;
  paid_at = none;
  fee_head_breakdown =
      record { fee_head_id = some "tuition"; name = "Tuition"; amount = net; category = "TUITION" }
      ∷ [];
  extra_items = [];
}

abbrev march : Fee
march = fee_of 1 7 3 500 0 unpaid

abbrev february : Fee
february = fee_of 2 7 2 400 100 partial

abbrev other_month : Fee
other_month = fee_of 3 8 2 300 300 paid

abbrev payment_of : ℕ → ℕ → ℕ → ℕ → Payment
payment_of id fee_id student_id amount = record {
  id = id;
  student_fee_id = fee_id;
  student_id = student_id;
  amount = amount;
  receipt_number = record { series = 26; seq = id + 1; part = none };
  idempotency_key = none;
  created_at = 0;
  reverted = false;
}

abbrev fee_table : ℕ → Option Fee
fee_table (ℕ.suc ℕ.zero) = some march
fee_table (ℕ.suc (ℕ.suc ℕ.zero)) = some february
fee_table (ℕ.suc (ℕ.suc (ℕ.suc ℕ.zero))) = some other_month
fee_table _ = none

abbrev school : FeeDb
school = record {
  students = λ i. some 1;
  years = λ i. some 1;
  families = λ i. some (record { is_active = true; student_ids = 7 ∷ 8 ∷ [] });
  family_payments = [];
  fees = fee_table;
  fee_ids = 1 ∷ 2 ∷ 3 ∷ [];
  payments = payment_of 1 3 8 300 ∷ payment_of 0 2 7 100 ∷ [];
  allocations = [];
  operations = λ k. none;
  next_id = 2;
}

fee_table-RowSound : (i : ℕ) (f : Fee) → fee_table i ≡ some f → RowSound school.payments i f
fee_table-RowSound ℕ.zero f h = absurd (cc (h))
fee_table-RowSound (ℕ.suc ℕ.zero) f h =
    subst (RowSound school.payments 1) (some-same h) (refl, refl)
fee_table-RowSound (ℕ.suc (ℕ.suc ℕ.zero)) f h =
    subst (RowSound school.payments 2) (some-same h) (refl, refl)
fee_table-RowSound (ℕ.suc (ℕ.suc (ℕ.suc ℕ.zero))) f h =
    subst (RowSound school.payments 3) (some-same h) (refl, refl)
fee_table-RowSound (ℕ.suc (ℕ.suc (ℕ.suc (ℕ.suc n)))) f h = absurd (cc (h))

school-Balanced : Balanced school
school-Balanced = record {
  rows = fee_table-RowSound;
  numbered = omega arith & omega arith & tt;
  distinct =
      ((λ h. absurd (omega (arith, h))) & (λ h. absurd (omega (arith, h))) & tt)
      & ((λ h. absurd (omega (arith, h))) & tt)
      & tt
      & tt;
}

abbrev today : Call
today = record { student_id = 7; now = 1000; series = 26; base = 3 }

abbrev poured_db : FeeDb
poured_db = elim (waterfall_tx today 350 (some 9) school) [ ok (ps, db) ↦ db | err e ↦ school ]

abbrev poured_payments : List Payment
poured_payments = elim (waterfall_tx today 350 (some 9) school) [ ok (ps, db) ↦ ps | err e ↦ [] ]

pouring : waterfall_tx today 350 (some 9) school ≡ ok (poured_payments, poured_db)
unfolding waterfall_tx number_unused
pouring = refl

oldest_first : fresh_fees 7 school ≡ february ∷ march ∷ []
unfolding sort_fees insert_fee
oldest_first = refl

waterfall_pays_oldest_first_example :
    Ordered (fresh_fees 7 school)
    × ((before : List Fee) (f : Fee) (after : List Fee)
        → fresh_fees 7 school ≡ before ++ f ∷ after
        → poured_db.fees f.id
          ≡ some (
              settled 1000
                (min (350 - sum_by fee_remaining_paise before) (fee_remaining_paise f))
                f))
waterfall_pays_oldest_first_example =
    waterfall_pays_oldest_first today 350 (some 9) school poured_payments poured_db pouring
      school-Balanced

waterfall_records_example :
    amount_of poured_payments ≡ min 350 (sum_by fee_remaining_paise (fresh_fees 7 school))
waterfall_records_example =
    waterfall_records today 350 (some 9) school poured_payments poured_db pouring

abbrev march_after : Fee
march_after = record march { paid_amount = 50; status = partial }

march_row : poured_db.fees 1 ≡ some march_after
unfolding waterfall_tx number_unused paid_status
march_row = refl

waterfall_never_overpays_example : (50 ≤ get_fee_total_due march_after) × (partial ≢ overpaid)
waterfall_never_overpays_example =
    waterfall_never_overpays today 350 (some 9) school poured_payments poured_db (february ∷ [])
      march [] march_after pouring school-Balanced oldest_first (omega arith) march_row

Run-Balanced_example : Balanced poured_db
Run-Balanced_example =
    Run-Balanced school poured_db
      (then_runs school poured_db idle (pours today 350 (some 9) poured_payments poured_db pouring))
      school-Balanced

abbrev pour_request : PourRequest
pour_request = record {
  student_id = 7;
  amount = 350;
  idempotency_key = text false 36 9;
  branch_id = some 1;
  now = 2000;
  series = 26;
}

abbrev poured_operation : Operation
poured_operation = operation_of today 350 poured_payments

stored : poured_db.operations 9 ≡ some poured_operation
unfolding waterfall_tx number_unused
stored = refl

same_key_converges_example :
    waterfall school (λ k. poured_db) poured_db pour_request ≡ ok (replayed poured_operation)
same_key_converges_example =
    same_key_converges school poured_db (λ k. poured_db) pour_request 36 9 poured_operation refl
      (omega arith) (omega arith) refl (inl refl) (λ k. stored) stored (refl, refl)

abbrev whole_march : PayRequest
whole_march = record {
  student_fee_id = 1;
  amount = 500;
  has_method = true;
  idempotency_key = some 4;
  branch_id = none;
  now = 1000;
  series = 26;
}

abbrev number_three : Receipt
number_three = record { series = 26; seq = 3; part = none }

abbrev march_payment : Payment
march_payment = paying_of whole_march march number_three school

abbrev paid_db : FeeDb
paid_db = elim (pay_tx whole_march march number_three school) [ ok (p, db) ↦ db | err e ↦ school ]

paying : pay_tx whole_march march number_three school ≡ ok (march_payment, paid_db)
unfolding pay_tx number_unused
paying = refl

unpaid_zero : unpaid ≡ revert_status 0 (get_fee_total_due march)
unfolding revert_status
unpaid_zero = refl

revert_undoes_pay_example :
    (db2 : FeeDb) × (revert_tx march_payment paid_db ≡ ok db2)
    × Undone whole_march march school march db2
revert_undoes_pay_example =
    revert_undoes_pay whole_march march number_three school march_payment paid_db march paying
      school-Balanced refl unpaid_zero

abbrev reverted_db : FeeDb
reverted_db = elim (revert_tx march_payment paid_db) [ ok db ↦ db | err e ↦ school ]

reverting : revert_tx march_payment paid_db ≡ ok reverted_db
unfolding revert_tx find_payment pay_tx number_unused
reverting = refl

held : find_payment march_payment.id paid_db.payments ≡ some march_payment
unfolding find_payment pay_tx number_unused
held = refl

statuses_agree_example :
    (0 < 50 → paid_status 50 500 ≡ compute_fee_status 50 500)
    × ((revert_status 50 500 ≡ compute_fee_status 50 500) ↔ (0 < 50 + 500))
statuses_agree_example = statuses_agree 50 500

-- The first attempt loses its number to another request.
abbrev second_try : ℕ → Receipt → Outcome FeeError ℕ
second_try ℕ.zero r = err receipt_taken
second_try (ℕ.suc k) r = ok r.seq

abbrev seen_numbers : ℕ → List Receipt
seen_numbers ℕ.zero = number_three ∷ []
seen_numbers (ℕ.suc k) = record { series = 26; seq = 4; part = some 2 } ∷ number_three ∷ []

generate_receipt_number_iff_example :
    (generate_receipt_number 26 seen_numbers second_try
      ≡ ok (5, record { series = 26; seq = 5; part = none }))
    ↔ Answers 26 seen_numbers second_try 0 max_attempts
        (5, record { series = 26; seq = 5; part = none })
generate_receipt_number_iff_example =
    generate_receipt_number_iff 26 seen_numbers second_try
      (5, record { series = 26; seq = 5; part = none })

second_number :
    generate_receipt_number 26 seen_numbers second_try
    ≡ ok (5, record { series = 26; seq = 5; part = none })
unfolding generate_from next_receipt
second_number = refl

second_try-honest : (k : ℕ) → tried 26 seen_numbers second_try k ≢ err system_busy
second_try-honest ℕ.zero h = absurd (cc (h))
second_try-honest (ℕ.suc k) h = absurd (cc (h))

generate-never_busy_example : generate_receipt_number 26 seen_numbers second_try ≢ err system_busy
generate-never_busy_example = generate-never_busy 26 seen_numbers second_try second_try-honest

next_receipt_new_example :
    ((next_receipt 26 (seen_numbers 1)).seq ≤ 10000)
    × (All (λ r. r.seq ≤ 9999) (seen_numbers 1)
        → All (λ r. r.seq < (next_receipt 26 (seen_numbers 1)).seq) (seen_numbers 1))
next_receipt_new_example = next_receipt_new 26 (seen_numbers 1)

-- A stored breakdown in which one head stands twice, and a row without a name.
abbrev stored_heads : List HeadRow
stored_heads =
    record { fee_head_id = some "t"; name = " Tuition "; amount = 300; category = "TUITION" }
    ∷ record { fee_head_id = none; name = "  "; amount = 40; category = "" }
    ∷ record { fee_head_id = some "t"; name = "Tuition"; amount = 200; category = "TUITION" }
    ∷ []

merged_heads :
    merge_fee_head_breakdown stored_heads
    ≡ record { fee_head_id = some "t"; name = "Tuition"; amount = 500; category = "TUITION" } ∷ []
unfolding merge_fee_head_breakdown
merged_heads = refl

merge_keeps_amounts_example :
    ((k : String)
      → (amount_at k (merge_heads stored_heads []) ≡ named_amount k stored_heads)
        × (entries_at k (merge_heads stored_heads []) ≤ 1))
    × (sum_by (λ r. r.amount) (merge_fee_head_breakdown stored_heads) ≡ named_total stored_heads)
merge_keeps_amounts_example = merge_keeps_amounts stored_heads

abbrev selection : AllocRequest
selection = record {
  student_id = 7;
  amount_paid_paise = 500;
  previous_months = record { student_fee_id = 2; amount_paise = 300 } ∷ [];
  current_fee = some 1;
  heads = record { fee_head_id = some "tuition"; head_name = ""; amount_paise = 200 } ∷ [];
  extras = [];
  idempotency_key = absent;
  branch_id = none;
  now = 1000;
  series = 26;
}

abbrev allocated : List Payment
allocated = elim (allocate school (λ k. school) school selection) [
  | ok (recorded ps r db) ↦ ps
  | _ ↦ []
]

abbrev allocated_db : FeeDb
allocated_db = elim (allocate school (λ k. school) school selection) [
  | ok (recorded ps r db) ↦ db
  | _ ↦ school
]

allocating :
    allocate school (λ k. school) school selection
    ≡ ok (recorded allocated (record { series = 26; seq = 3; part = none }) allocated_db)
unfolding allocate generate_from next_receipt candidates
allocating = refl

allocate_records_amount_example :
    (amount_of allocated ≡ 500)
    × ((k : ℕ) × (k < 10) × (allocated_db.payments ≡ newest_first allocated school.payments))
allocate_records_amount_example =
    allocate_records_amount school school (λ k. school) selection allocated
      (record { series = 26; seq = 3; part = none }) allocated_db allocating

-- The same fee twice, for 300 and 100 paise.
abbrev march_twice : AllocRequest
march_twice = record {
  student_id = 7;
  amount_paid_paise = 400;
  previous_months =
      record { student_fee_id = 1; amount_paise = 300 }
      ∷ record { student_fee_id = 1; amount_paise = 100 }
      ∷ [];
  current_fee = none;
  heads = [];
  extras = [];
  idempotency_key = absent;
  branch_id = none;
  now = 1000;
  series = 26;
}

abbrev twice_paid : List Payment
twice_paid = elim (allocate school (λ k. school) school march_twice) [
  | ok (recorded ps r db) ↦ ps
  | _ ↦ []
]

abbrev twice_db : FeeDb
twice_db = elim (allocate school (λ k. school) school march_twice) [
  | ok (recorded ps r db) ↦ db
  | _ ↦ school
]

accepting :
    allocate school (λ k. school) school march_twice
    ≡ ok (recorded twice_paid (record { series = 26; seq = 3; part = none }) twice_db)
unfolding allocate generate_from next_receipt candidates
accepting = refl

month_named_twice_example :
    ((g : Fee) × (twice_db.fees 1 ≡ some g)
      × (live_total 1 twice_db.payments ≡ g.paid_amount + 300))
    × (0 < 300)
    × (¬ Balanced twice_db)
month_named_twice_example =
    month_named_twice school school (λ k. school) march_twice twice_paid
      (record { series = 26; seq = 3; part = none }) twice_db
      (record { student_fee_id = 1; amount_paise = 300 })
      (record { student_fee_id = 1; amount_paise = 100 }) accepting refl refl refl
      (λ k. school-Balanced)

-- A student selects a previous month, and a head without the fee of the current month.
abbrev family_request : FamilyRequest
family_request = record {
  family_id = 5;
  academic_year = some 1;
  amount_paid_paise = 500;
  students =
      record {
        student_id = 7;
        amount_paid_paise = 500;
        previous_months = record { student_fee_id = 2; amount_paise = 300 } ∷ [];
        current_fee = none;
        heads = record { fee_head_id = some "tuition"; head_name = ""; amount_paise = 200 } ∷ [];
        extras = [];
      }
      ∷ [];
  idempotency_key = absent;
  branch_id = none;
  now = 1000;
  series = 40;
}

abbrev family_header : FamilyPayment
family_header = record {
  family_id = 5;
  receipt_number = record { series = 40; seq = 1; part = none };
  total_amount = 500;
  idempotency_key = none;
  payments =
      record {
        id = 2;
        student_fee_id = 2;
        student_id = 7;
        amount = 300;
        receipt_number = record { series = 40; seq = 1; part = some 1 };
        idempotency_key = none;
        created_at = 1000;
        reverted = false;
      }
      ∷ [];
}

abbrev family_db : FeeDb
family_db = elim (family_allocate school (λ k. school) school family_request) [
  | ok (family_paid header number db) ↦ db
  | _ ↦ school
]

paying_together :
    family_allocate school (λ k. school) school family_request
    ≡ ok (family_paid family_header (record { series = 40; seq = 1; part = none }) family_db)
unfolding family_allocate generate_from next_receipt
paying_together = refl

family_header_total_example :
    (family_header.total_amount ≡ family_request.amount_paid_paise)
    × (amount_of family_header.payments + unplaced family_request.students
        ≡ family_header.total_amount)
    × (((k : ℕ) → Balanced school) → Balanced family_db)
    × ((k : ℕ) × (k < 10) × (family_db.family_payments ≡ family_header ∷ school.family_payments))
family_header_total_example =
    family_header_total school school (λ k. school) family_request family_header
      (record { series = 40; seq = 1; part = none }) family_db paying_together

abbrev brothers_request : FamilyPayRequest
brothers_request = record {
  family_id = 5;
  payments =
      record { student_fee_id = 2; student_id = none; amount = 300 }
      ∷ record { student_fee_id = 1; student_id = some 7; amount = 600 }
      ∷ [];
  academic_year = some 1;
  idempotency_key = absent;
  branch_id = none;
  now = 1000;
  series = 40;
}

abbrev brothers_call : Call
brothers_call = record { student_id = 0; now = 1000; series = 40; base = 1 }

abbrev brothers_header : FamilyPayment
brothers_header = elim (family_pay_tx brothers_call brothers_request 1 none school) [
  | ok (header, db) ↦ header
  | err e ↦ family_header
]

abbrev brothers_db : FeeDb
brothers_db = elim (family_pay_tx brothers_call brothers_request 1 none school) [
  | ok (header, db) ↦ db
  | err e ↦ school
]

brothers_paying :
    family_pay_tx brothers_call brothers_request 1 none school ≡ ok (brothers_header, brothers_db)
unfolding family_pay_tx
brothers_paying = refl

family_pay_moves_members_example :
    (brothers_db.family_payments ≡ brothers_header ∷ school.family_payments)
    × (brothers_header.total_amount ≡ amount_of brothers_header.payments)
    × Balanced brothers_db
    × ((family : Family) (j : ℕ) (g : Fee)
        → school.families 5 ≡ some family
        → school.fees j ≡ some g
        → has_id g.student_id family.student_ids ≡ false
        → brothers_db.fees j ≡ school.fees j)
family_pay_moves_members_example =
    family_pay_moves_members brothers_call brothers_request 1 none school brothers_header
      brothers_db brothers_paying school-Balanced
