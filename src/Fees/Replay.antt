-- ===== src/Fees/Replay.antt =====
-- `POST /payments/waterfall` as a whole: the replay of a key, the guards, the numbered transaction and
-- what the handler makes of its errors.
use mothercare_backend.Prelude.{
  ℕ, Option, none, some, Bool, true, false, not, ◌&&◌, ◌||◌, List, ◌==◌, ltb, if◌then◌else◌,
}
use mothercare_backend.Prelude.Outcome.{Outcome, err, ok, ◌>>=◌, ◌>>◌, guard}
use mothercare_backend.Fees.Db.{
  Receipt, Payment, Route, waterfall_route, allocate_route, family_route, Operation, FeeDb,
}
use mothercare_backend.Fees.Receipts.{
  FeeError, bad_key, bad_request, key_of_another, branch_denied, key_taken, candidates,
  generate_receipt_number,
}
use mothercare_backend.Fees.Waterfall.{waterfall_tx}

-- The `idempotencyKey` of a body: a string by whether `trim` leaves nothing, its length and its identity.
pub data RawKey : Type 0 where
  absent not_text : RawKey
  text : Bool → ℕ → ℕ → RawKey

-- `assertValidIdempotencyKey`, with the key that the handlers then test for.
unfoldable pub assert_valid_idempotency_key : RawKey → Outcome FeeError (Option ℕ)
assert_valid_idempotency_key absent = ok none
assert_valid_idempotency_key not_text = err bad_key
assert_valid_idempotency_key (text blank len key) =
    if blank || ltb 128 len then err bad_key else ok (some key)

abbrev pub same_route : Route → Route → Bool
same_route waterfall_route waterfall_route = true
same_route allocate_route allocate_route = true
same_route family_route family_route = true
same_route _ _ = false

-- `op.route !== route || op.studentId !== studentId`
abbrev pub check_scope : Route → ℕ → Option Operation → Outcome FeeError (Option Operation)
check_scope route student_id none = ok none
check_scope route student_id (some op) =
    if same_route op.route route && (op.student_id == student_id)
    then ok (some op)
    else err key_of_another

-- `findOperationReplay`, for a request that has a key
abbrev pub find_operation_replay :
    Route → ℕ → Option ℕ → FeeDb → Outcome FeeError (Option Operation)
find_operation_replay route student_id none db = ok none
find_operation_replay route student_id (some key) db =
    check_scope route student_id (db.operations key)

-- `targetBranchMismatch`
abbrev pub target_branch_mismatch : Option ℕ → Option ℕ → Bool
target_branch_mismatch (some explicit) (some target) = not (explicit == target)
target_branch_mismatch _ _ = false

pub record PourRequest : Type 0 where
  pub student_id : ℕ
  pub amount : ℕ
  pub idempotency_key : RawKey
  pub branch_id : Option ℕ
  pub now : ℕ
  pub series : ℕ

-- A replay answers with the stored result; otherwise the payments and the tables after them.
pub data Reply : Type 0 where
  replayed : Operation → Reply
  recorded : List Payment → Receipt → FeeDb → Reply

-- `findOperationReplay(...).catch(() => null)`
abbrev pub or_nothing : Outcome FeeError (Option Operation) → Option Operation
or_nothing (err thrown) = none
or_nothing (ok found) = found

abbrev pub is_key_taken : FeeError → Bool
is_key_taken key_taken = true
is_key_taken _ = false

-- `if (replay) return replay`, or else what follows.
abbrev pub converge : Option Operation → Outcome FeeError Reply → Outcome FeeError Reply
converge (some op) rest = ok (replayed op)
converge none rest = rest

-- The `catch` of the handlers: a request with a key converges onto the operation of the winner.
unfoldable pub recover : Route → ℕ → Option ℕ → FeeDb → FeeError → Outcome FeeError Reply
recover route student_id key later thrown =
    let found = find_operation_replay route student_id key later in
    let last = converge (or_nothing found) (err thrown) in
    if is_key_taken thrown then found >>= (λ op. converge op last) else last

abbrev pub finish_request :
    (FeeError → Outcome FeeError Reply)
    → Outcome FeeError ((List Payment × FeeDb) × Receipt)
    → Outcome FeeError Reply
finish_request recovery (ok ((payments, db), receipt)) = ok (recorded payments receipt db)
finish_request recovery (err thrown) = recovery thrown

-- The transaction of one attempt.
abbrev pub attempt :
    (ℕ → FeeDb) → PourRequest → Option ℕ → ℕ → Receipt → Outcome FeeError (List Payment × FeeDb)
attempt tables req key k receipt =
    waterfall_tx
      (record {
        student_id = req.student_id;
        now = req.now;
        series = req.series;
        base = receipt.seq;
      })
      req.amount key (tables k)

-- The handler. Other requests run between its steps: `before` are the tables when it starts, `tables k`
-- those that its attempt `k` finds, `later` those of its last lookup.
unfoldable pub waterfall : FeeDb → (ℕ → FeeDb) → FeeDb → PourRequest → Outcome FeeError Reply
unfolding assert_valid_idempotency_key recover
waterfall before tables later req = do
  key ← assert_valid_idempotency_key req.idempotency_key
  replay ← find_operation_replay waterfall_route req.student_id key before
  converge replay (do
    guard (ltb 0 req.amount) bad_request
    guard (not (target_branch_mismatch req.branch_id (before.students req.student_id)))
        branch_denied
    finish_request (recover waterfall_route req.student_id key later) (
        generate_receipt_number req.series (λ k. candidates req.series (tables k).payments)
          (attempt tables req key)))
