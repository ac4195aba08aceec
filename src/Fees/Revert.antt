-- ===== src/Fees/Revert.antt =====
-- `POST /payments/:id/revert`: a payment is marked as reverted and its fee brought up to date.
use mothercare_backend.Prelude.{
  ℕ, Option, none, some, Bool, true, false, not, List, [], ◌∷◌, ◌==◌, if◌then◌else◌,
}
use mothercare_backend.Prelude.Outcome.{Outcome, ok, ◌>>=◌, ◌>>◌, guard, or_throw}
use mothercare_backend.Fees.Rows.{Fee, get_fee_total_due, revert_status}
use mothercare_backend.Fees.Db.{Payment, HeadAllocation, FeeDb, with_paid, update_fee, live_total}
use mothercare_backend.Fees.Receipts.{
  FeeError, bad_request, branch_denied, payment_not_found, already_reverted,
}
use mothercare_backend.Fees.Replay.{target_branch_mismatch}

pub record RevertRequest : Type 0 where
  pub payment_id : ℕ
  pub has_reason : Bool
  pub branch_id : Option ℕ

-- `payment.findUnique`
unfoldable pub find_payment : ℕ → List Payment → Option Payment
find_payment id [] = none
find_payment id (p ∷ ps) = let rest = find_payment id ps in if p.id == id then some p else rest

-- `payment.update({ where: { id }, data: { revertedAt: now } })`
abbrev pub mark_one : ℕ → Payment → Payment
mark_one id p = if p.id == id then record p { reverted = true } else p

unfoldable pub mark_reverted : ℕ → List Payment → List Payment
mark_reverted id [] = []
mark_reverted id (p ∷ ps) = mark_one id p ∷ mark_reverted id ps

-- `paymentHeadAllocation.updateMany({ where: { paymentId, revertedAt: null }, data: { revertedAt: now } })`
abbrev pub void_allocations : ℕ → List HeadAllocation → List HeadAllocation
void_allocations id [] = []
void_allocations id (a ∷ rows) =
    (if a.payment_id == id then record a { reverted = true } else a) ∷ void_allocations id rows

-- `fresh?.revertedAt`
abbrev pub is_reverted : Option Payment → Bool
is_reverted none = false
is_reverted (some p) = p.reverted

-- The row after the revert: what is still paid, against what is due now.
abbrev pub recount : ℕ → Fee → Fee
recount paid_amount f = with_paid paid_amount (revert_status paid_amount (get_fee_total_due f)) f

-- The transaction, for a payment as it was read before.
unfoldable pub revert_tx : Payment → FeeDb → Outcome FeeError FeeDb
unfolding find_payment mark_reverted revert_status
revert_tx p db = do
  guard (not (is_reverted (find_payment p.id db.payments))) already_reverted
  let payments = mark_reverted p.id db.payments
  ok (
      update_fee p.student_fee_id (recount (live_total p.student_fee_id payments))
        (record db { payments = payments; allocations = void_allocations p.id db.allocations }))

abbrev pub branch_of : Option Fee → Option ℕ
branch_of none = none
branch_of (some f) = some f.branch_id

-- The handler: `before` are the tables of its first lookups, `db` those that its transaction finds.
unfoldable pub revert : FeeDb → FeeDb → RevertRequest → Outcome FeeError FeeDb
unfolding revert_tx
revert before db req = do
  guard req.has_reason bad_request
  p ← or_throw (find_payment req.payment_id before.payments) payment_not_found
  guard (not p.reverted) already_reverted
  guard (not (target_branch_mismatch req.branch_id (branch_of (before.fees p.student_fee_id))))
      branch_denied
  revert_tx p db
