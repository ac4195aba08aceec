-- ===== src/Fees/Traffic.antt =====
-- Any sequence of the transactions that pay fees and revert payments.
use mothercare_backend.Prelude.{ℕ, ◌≡◌, Option, some, List}
use mothercare_backend.Prelude.Outcome.{ok}
use mothercare_backend.Fees.Rows.{Fee}
use mothercare_backend.Fees.Db.{Receipt, Payment, FeeDb}
use mothercare_backend.Fees.Heads.{HeadInput, ExtraInput}
use mothercare_backend.Fees.Allocate.{PrevMonth, execute_student_alloc_in_tx}
use mothercare_backend.Fees.Waterfall.{Call, waterfall_tx}
use mothercare_backend.Fees.Pay.{PayRequest, pay_tx}
use mothercare_backend.Fees.Revert.{find_payment, revert_tx}
use mothercare_backend.Fees.Books.{Balanced}
use mothercare_backend.Fees.Oldest.{waterfall_tx-Balanced}
use mothercare_backend.Fees.Undo.{pay_tx-Balanced, revert_tx-Balanced}
use mothercare_backend.Fees.Tracked.{execute_student_alloc-Balanced}

pub data Transaction (db : FeeDb) : FeeDb → Type 0 where
  -- `POST /payments/waterfall`
  pours :
      (c : Call) (amount : ℕ) (key : Option ℕ) (ps : List Payment) (db' : FeeDb)
      → waterfall_tx c amount key db ≡ ok (ps, db')
      → Transaction db db'
  -- `POST /payments`, with the fee as it was read before.
  pays :
      (req : PayRequest) (seen : Fee) (receipt : Receipt) (p : Payment) (db' : FeeDb)
      → pay_tx req seen receipt db ≡ ok (p, db')
      → Transaction db db'
  -- One call of `executeStudentAllocInTx` by the handler for families.
  allocates :
      (c : Call) (receipt : Receipt) (prev : List PrevMonth) (current : Option ℕ)
      (heads : List HeadInput) (extras : List ExtraInput) (ps : List Payment) (db' : FeeDb)
      → execute_student_alloc_in_tx c receipt prev current heads extras db ≡ ok (ps, db')
      → Transaction db db'
  -- `POST /payments/:id/revert`, with the payment as it was read before: its row is still of that fee.
  reverts :
      (p q : Payment) (db' : FeeDb)
      → find_payment p.id db.payments ≡ some q
      → q.student_fee_id ≡ p.student_fee_id
      → revert_tx p db ≡ ok db'
      → Transaction db db'

pub data Run (db : FeeDb) : FeeDb → Type 0 where
  idle : Run db db
  then_runs : (mid db' : FeeDb) → Run db mid → Transaction mid db' → Run db db'

Transaction-keeps : (db db' : FeeDb) → Transaction db db' → Balanced db → Balanced db'
Transaction-keeps db _ (pours c amount key ps db' h) b =
    waterfall_tx-Balanced c amount key db ps db' h b
Transaction-keeps db _ (pays req seen receipt p db' h) b =
    pay_tx-Balanced req seen receipt db p db' h b
Transaction-keeps db _ (allocates c receipt prev current heads extras ps db' h) b =
    execute_student_alloc-Balanced c receipt prev current heads extras db ps db' h b
Transaction-keeps db _ (reverts p q db' found same h) b =
    revert_tx-Balanced p db db' h q found same b

-- After any sequence of waterfalls, single payments, allocations for families and reverts that were
-- accepted, from balanced books, the paid amount of every fee is the sum of its payments that are not
-- reverted, and no two payments have one id.
pub Run-Balanced : (db db' : FeeDb) → Run db db' → Balanced db → Balanced db'
Run-Balanced db _ idle b = b
Run-Balanced db _ (then_runs mid db' before last) b =
    Transaction-keeps mid db' last (Run-Balanced db mid before b)
