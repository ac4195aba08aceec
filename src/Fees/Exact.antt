-- ===== src/Fees/Exact.antt =====
-- What an accepted `POST /payments/allocate` has recorded.
use mothercare_backend.Prelude.{
  ℕ, ◌<◌, ◌≡◌, ◌≢◌, refl, sym, ap, subst, ◌∙◌, inl, inr, Option, none, some, true, not, ◌&&◌, ◌||◌,
  List, [], ◌==◌, ==_iff, ltb, if◌then◌else◌, arith, Bool-cases,
}
use mothercare_backend.Prelude.Outcome.{Outcome, err, ok, ◌>>=◌, guarded, both_ok, ok-same}
use mothercare_backend.Fees.Db.{Receipt, Payment, FeeDb, allocate_route, Operation}
use mothercare_backend.Fees.Receipts.{
  FeeError, bad_request, branch_denied, receipt_taken, nothing_selected, total_mismatch,
  next_receipt, candidates,
}
use mothercare_backend.Fees.Waterfall.{Call, part_receipt, all_unused, create_operation}
use mothercare_backend.Fees.Replay.{
  assert_valid_idempotency_key, find_operation_replay, target_branch_mismatch, Reply, recorded,
  converge, recover, finish_request, or_nothing, is_key_taken,
}
use mothercare_backend.Fees.Numbering.{generate_receipt_number_iff}
use mothercare_backend.Fees.Allocate.{
  leave_seen, is_nil, is_given, sort_prev, selected_fees, all_fee_ids, allocate_selected,
  AllocRequest, cur_heads, cur_extras, selected_total, allocate_tx, allocate,
}
use mothercare_backend.Fees.Oldest.{create_operation-db}
use mothercare_backend.Fees.Stored.{newest_first, allocate_selected-Stored}
use mothercare_backend.Fees.Poured.{amount_of}
use mothercare_backend.Fees.Selected.{
  allocate_selected-run, pay_previous-amount, pay_current_if-amount, sort_prev-sum,
}

module _ (c : Call) (req : AllocRequest) (key : Option ℕ) (db : FeeDb) (ps : List Payment)
    (db' : FeeDb) where
  allocate_tx-amount :
      (is_nil (cur_heads req) && is_nil (cur_extras req)) || is_given req.current_fee ≡ true
      → allocate_tx c req key db ≡ ok (ps, db')
      → (amount_of ps ≡ selected_total req) × (db'.payments ≡ newest_first ps db.payments)
  unfolding allocate_tx
  allocate_tx-amount given h =
      let (done, selected, h1) =
        both_ok
          (allocate_selected c (part_receipt c) leave_seen req.previous_months req.current_fee
            (cur_heads req) (cur_extras req) db)
          _ h in
      let (_, h2) = guarded (all_unused done.made db.payments) receipt_taken _ h1 in
      let (after_op, created, answer) =
        both_ok
          (create_operation key
            (record {
              route = allocate_route;
              student_id = c.student_id;
              total_amount = req.amount_paid_paise;
              payments = done.made;
            })
            done.db)
          _ h2 in
      let (s, before, after) =
        allocate_selected-run c (part_receipt c) leave_seen req.previous_months req.current_fee
          (cur_heads req) (cur_extras req) db done selected in
      let fresh = selected_fees c.student_id (all_fee_ids req.previous_months req.current_fee) db in
      let (_, kept_payments) = create_operation-db key _ done.db after_op created in
      (
        ap (λ a. amount_of a.0) (sym (ok-same answer))
            ∙ omega (
              arith,
              pay_previous-amount c (part_receipt c) leave_seen
                  (sort_prev fresh req.previous_months)
                  (record { seen = fresh; made = []; db = db }) s before,
              sort_prev-sum fresh req.previous_months,
              pay_current_if-amount c (part_receipt c) leave_seen req.current_fee (cur_heads req)
                  (cur_extras req) s done given after,
            ),
        ap (λ a. a.1.payments) (sym (ok-same answer))
            ∙ ap (λ d. d.payments) kept_payments
            ∙ (allocate_selected-Stored c (part_receipt c) leave_seen req.previous_months
                req.current_fee (cur_heads req) (cur_extras req) db done selected).0
            ∙ ap (λ a. newest_first a.0 db.payments) (ok-same answer),
      )

-- The answer is no new record.
abbrev Unrecorded : Outcome FeeError Reply → Type 0
Unrecorded answer =
    (ps : List Payment) (receipt : Receipt) (db : FeeDb) → answer ≢ ok (recorded ps receipt db)

converge-Unrecorded :
    (found : Option Operation) (last : Outcome FeeError Reply)
    → Unrecorded last
    → Unrecorded (converge found last)
converge-Unrecorded none last h ps receipt db e = h ps receipt db e
converge-Unrecorded (some op) last h ps receipt db e = absurd (cc (e))

lookup-Unrecorded :
    (found : Outcome FeeError (Option Operation)) (last : Outcome FeeError Reply)
    → Unrecorded last
    → Unrecorded (found >>= (λ op. converge op last))
lookup-Unrecorded (err thrown) last h ps receipt db e = absurd (cc (e))
lookup-Unrecorded (ok found) last h ps receipt db e =
    converge-Unrecorded found last h ps receipt db e

-- The `catch` records nothing.
recover-Unrecorded :
    (student_id : ℕ) (key : Option ℕ) (later : FeeDb) (thrown : FeeError)
    → Unrecorded (recover allocate_route student_id key later thrown)
unfolding recover
recover-Unrecorded student_id key later thrown ps receipt db e =
    let found = find_operation_replay allocate_route student_id key later in
    let last = converge (or_nothing found) (err thrown) in
    let last-Unrecorded : Unrecorded last =
      converge-Unrecorded (or_nothing found) (err thrown) (λ _ _ _ e'. absurd (cc (e'))) in
    elim (Bool-cases (is_key_taken thrown)) [
      | inl conflict ↦ lookup-Unrecorded found last last-Unrecorded ps receipt db (
          subst
            (λ b.
              (if b then found >>= (λ op. converge op last) else last)
              ≡ ok (recorded ps receipt db))
            conflict e)
      | inr other ↦ last-Unrecorded ps receipt db (
          subst
            (λ b.
              (if b then found >>= (λ op. converge op last) else last)
              ≡ ok (recorded ps receipt db))
            other e)
    ]

recorded-same :
    {ps qs : List Payment} {r q : Receipt} {d e : FeeDb}
    → recorded ps r d ≡ recorded qs q e
    → (ps ≡ qs) × (d ≡ e)
recorded-same h = (cc (h), cc (h))

finish-recorded :
    (recovery : FeeError → Outcome FeeError Reply)
    (numbered : Outcome FeeError ((List Payment × FeeDb) × Receipt)) (ps : List Payment)
    (receipt : Receipt) (db : FeeDb)
    → ((thrown : FeeError) → Unrecorded (recovery thrown))
    → finish_request recovery numbered ≡ ok (recorded ps receipt db)
    → (answer : (List Payment × FeeDb) × Receipt) × (numbered ≡ ok answer)
      × (answer.0.0 ≡ ps)
      × (answer.0.1 ≡ db)
finish-recorded recovery (ok ((ps', db'), receipt')) ps receipt db quiet h =
    let same = recorded-same (ok-same h) in (((ps', db'), receipt'), refl, same.0, same.1)
finish-recorded recovery (err thrown) ps receipt db quiet h = absurd (quiet thrown ps receipt db h)

converge-records :
    (replay : Option Operation) (rest : Outcome FeeError Reply) (ps : List Payment)
    (receipt : Receipt) (db : FeeDb)
    → converge replay rest ≡ ok (recorded ps receipt db)
    → rest ≡ ok (recorded ps receipt db)
converge-records none rest ps receipt db h = h
converge-records (some op) rest ps receipt db h = absurd (cc (h))

-- An accepted request that is no replay ran its transaction at one of the ten attempts.
pub allocate-run :
    (before later : FeeDb) (tables : ℕ → FeeDb) (req : AllocRequest) (ps : List Payment)
    (receipt : Receipt) (db' : FeeDb)
    → allocate before tables later req ≡ ok (recorded ps receipt db')
    → (key : Option ℕ) × (k : ℕ) × (c : Call) × (k < 10)
      × ((is_nil (cur_heads req) && is_nil (cur_extras req)) || is_given req.current_fee ≡ true)
      × (selected_total req ≡ req.amount_paid_paise)
      × (allocate_tx c req key (tables k) ≡ ok (ps, db'))
unfolding allocate
allocate-run before later tables req ps receipt db' h =
    let (key, _, h1) = both_ok (assert_valid_idempotency_key req.idempotency_key) _ h in
    let (_, h2) = guarded (ltb 0 req.amount_paid_paise) bad_request _ h1 in
    let (_, h3) =
      guarded (not (target_branch_mismatch req.branch_id (before.students req.student_id)))
        branch_denied _ h2 in
    let (replay, _, h4) =
      both_ok (find_operation_replay allocate_route req.student_id key before) _ h3 in
    let h5 = converge-records replay _ ps receipt db' h4 in
    let (_, h6) =
      guarded
        (not (is_nil req.previous_months && is_nil (cur_heads req) && is_nil (cur_extras req)))
        nothing_selected _ h5 in
    let (given, h7) =
      guarded ((is_nil (cur_heads req) && is_nil (cur_extras req)) || is_given req.current_fee)
        bad_request _ h6 in
    let (total, h8) = guarded (selected_total req == req.amount_paid_paise) total_mismatch _ h7 in
    let (answer, numbered, same, same_db) =
      finish-recorded (recover allocate_route req.student_id key later) _ ps receipt db'
        (recover-Unrecorded req.student_id key later) h8 in
    let (k, _, below, _, done, _) =
      (generate_receipt_number_iff req.series _ _ answer).0 numbered in
    (
      key,
      k,
      record {
        student_id = req.student_id;
        now = req.now;
        series = req.series;
        base = (next_receipt req.series (candidates req.series (tables k).payments)).seq;
      },
      omega (arith, below),
      given,
      (==_iff (selected_total req) req.amount_paid_paise).0 total,
      done ∙ ap (λ x. ok (x, answer.0.1)) same ∙ ap (λ d. ok (ps, d)) same_db,
    )

-- A request of `POST /payments/allocate` that is not a replay and is accepted stores payments of
-- exactly the amount that was paid, over the previous months, heads and extra items together: the
-- stored payments are those of the answer, in front of those that one of its ten attempts found.
pub allocate_records_amount :
    (before later : FeeDb) (tables : ℕ → FeeDb) (req : AllocRequest) (ps : List Payment)
    (receipt : Receipt) (db' : FeeDb)
    → allocate before tables later req ≡ ok (recorded ps receipt db')
    → (amount_of ps ≡ req.amount_paid_paise)
      × ((k : ℕ) × (k < 10) × (db'.payments ≡ newest_first ps (tables k).payments))
allocate_records_amount before later tables req ps receipt db' h =
    let (key, k, c, below, given, total, done) =
      allocate-run before later tables req ps receipt db' h in
    let (amount, stored) = allocate_tx-amount c req key (tables k) ps db' given done in
    (amount ∙ total, (k, below, stored))
