-- ===== src/Fees/Pay.antt =====
-- `POST /payments`: one payment of one fee.
use mothercare_backend.Prelude.{
  ℕ, ◌+◌, ◌-◌, Option, none, some, Bool, true, false, not, ◌&&◌, List, [], ◌∷◌, ◌==◌, ltb,
  if◌then◌else◌,
}
use mothercare_backend.Prelude.Outcome.{Outcome, err, ok, ◌>>=◌, ◌>>◌, guard, or_throw}
use mothercare_backend.Fees.Rows.{Fee, extra_sum, paid_status}
use mothercare_backend.Fees.Db.{
  Receipt, Payment, FeeDb, with_payment, update_fee, new_payment, add_payment, live_total,
}
use mothercare_backend.Fees.Receipts.{
  FeeError, bad_request, branch_denied, fee_not_found, receipt_taken, key_taken, candidates,
  generate_receipt_number,
}
use mothercare_backend.Fees.Waterfall.{number_unused}
use mothercare_backend.Fees.Replay.{target_branch_mismatch, is_key_taken}

pub record PayRequest : Type 0 where
  pub student_fee_id : ℕ
  pub amount : ℕ
  pub has_method : Bool
  pub idempotency_key : Option ℕ
  pub branch_id : Option ℕ
  pub now : ℕ
  pub series : ℕ

abbrev pub has_key : Option ℕ → Payment → Bool
has_key none p = false
has_key (some key) p = elim p.idempotency_key [ none ↦ false | some k ↦ k == key ]

-- `findFirst({ where: { idempotencyKey, studentFeeId, revertedAt: null }, orderBy: { createdAt: 'desc' } })`
unfoldable pub find_keyed : Option ℕ → ℕ → List Payment → Option Payment
find_keyed key fee_id [] = none
find_keyed key fee_id (p ∷ ps) =
    let rest = find_keyed key fee_id ps in
    if has_key key p && (p.student_fee_id == fee_id) && not p.reverted then some p else rest

-- The unique column: a payment without a key collides with none.
abbrev pub key_unused : Option ℕ → List Payment → Bool
key_unused key [] = true
key_unused key (p ∷ ps) = not (has_key key p) && key_unused key ps

abbrev pub five_minutes : ℕ
five_minutes = 300000

-- The existing payment, if it is at most five minutes old.
abbrev pub recent : ℕ → Option Payment → Option Payment
recent now none = none
recent now (some p) = if ltb (now - p.created_at) five_minutes then some p else none

pub data PayReply : Type 0 where
  same_payment : Payment → PayReply
  paid_now : Payment → Receipt → FeeDb → PayReply

-- The transaction. The extra items were summed before it; the row is locked and read again.
unfoldable pub pay_tx : PayRequest → Fee → Receipt → FeeDb → Outcome FeeError (Payment × FeeDb)
unfolding number_unused paid_status
pay_tx req seen receipt db = do
  fresh ← or_throw (db.fees req.student_fee_id) fee_not_found
  let p =
      new_payment db req.student_fee_id seen.student_id req.amount receipt req.idempotency_key
        req.now
  guard (number_unused receipt db.payments) receipt_taken
  guard (key_unused req.idempotency_key db.payments) key_taken
  let paid_amount = live_total req.student_fee_id (p ∷ db.payments)
  ok (
    p,
    update_fee req.student_fee_id
        (with_payment req.now paid_amount
          (paid_status paid_amount (fresh.net_amount + extra_sum seen)))
        (add_payment p db),
  )

abbrev pub same_or : Option Payment → Outcome FeeError PayReply → Outcome FeeError PayReply
same_or (some p) rest = ok (same_payment p)
same_or none rest = rest

abbrev pub close_payment :
    FeeDb → PayRequest → Outcome FeeError ((Payment × FeeDb) × Receipt) → Outcome FeeError PayReply
close_payment later req (ok ((p, db), receipt)) = ok (paid_now p receipt db)
close_payment later req (err thrown) =
    if is_key_taken thrown
    then same_or (find_keyed req.idempotency_key req.student_fee_id later.payments) (err thrown)
    else err thrown

-- The handler, with the tables of its first lookups, of its attempts, and of its last lookup.
unfoldable pub pay : FeeDb → (ℕ → FeeDb) → FeeDb → PayRequest → Outcome FeeError PayReply
unfolding find_keyed
pay before tables later req = do
  guard (ltb 0 req.amount && req.has_method) bad_request
  same_or (recent req.now (find_keyed req.idempotency_key req.student_fee_id before.payments)) (do
    seen ← or_throw (before.fees req.student_fee_id) fee_not_found
    guard (not (target_branch_mismatch req.branch_id (some seen.branch_id))) branch_denied
    close_payment later req (
        generate_receipt_number req.series (λ k. candidates req.series (tables k).payments)
          (λ k receipt. pay_tx req seen receipt (tables k))))
