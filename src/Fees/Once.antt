-- ===== src/Fees/Once.antt =====
-- What an idempotency key is worth to `POST /payments/waterfall`.
use mothercare_backend.Prelude.{
  ℕ, ◌≤◌, ◌<◌, ◌≡◌, ◌≢◌, refl, ap, ◌∙◌, ◌⊎◌, inl, inr, none, some, false, List, arith, Bool-cases,
}
use mothercare_backend.Prelude.Outcome.{Outcome, err, ok, Outcome-cases}
use mothercare_backend.Fees.Db.{Receipt, Payment, waterfall_route, Operation, FeeDb}
use mothercare_backend.Fees.Receipts.{FeeError, candidates, generate_receipt_number}
use mothercare_backend.Fees.Waterfall.{Call, fresh_fees, pour, waterfall_tx}
use mothercare_backend.Fees.Replay.{
  RawKey, assert_valid_idempotency_key, find_operation_replay, target_branch_mismatch, PourRequest,
  replayed, recover, finish_request, attempt, waterfall, is_key_taken,
}
use mothercare_backend.Fees.Numbering.{generate_receipt_number_iff}
use mothercare_backend.Fees.Poured.{pour-operations}
use mothercare_backend.Fees.Oldest.{start, waterfall_tx-run, operation_of, create_operation-taken}

-- A key that an operation has pays nothing more.
pub taken_key_never_pays :
    (c : Call) (amount key : ℕ) (db : FeeDb) (old : Operation) (ps : List Payment) (db' : FeeDb)
    → db.operations key ≡ some old
    → waterfall_tx c amount (some key) db ≢ ok (ps, db')
taken_key_never_pays c amount key db old ps db' taken h =
    let (_, stored, _) = waterfall_tx-run c amount (some key) db ps db' h in
    create_operation-taken key
      (operation_of c amount (pour c (fresh_fees c.student_id db) (start amount db)).allocs) old
      (pour c (fresh_fees c.student_id db) (start amount db)).db db'
      (ap (λ ops. ops key) (pour-operations c (fresh_fees c.student_id db) (start amount db))
        ∙ taken)
      stored

-- The operation belongs to a waterfall of the student.
abbrev pub IsOwn : ℕ → Operation → Type 0
IsOwn student_id op = (op.route ≡ waterfall_route) × (op.student_id ≡ student_id)

own_replay :
    (student_id key : ℕ) (op : Operation) (db : FeeDb)
    → db.operations key ≡ some op
    → IsOwn student_id op
    → find_operation_replay waterfall_route student_id (some key) db ≡ ok (some op)
own_replay student_id key op db found own =
    rw (found, find_operation_replay) (rw (own.0) (ground (arith, own.1)))

recover-own :
    (student_id key : ℕ) (op : Operation) (later : FeeDb) (thrown : FeeError)
    → later.operations key ≡ some op
    → IsOwn student_id op
    → recover waterfall_route student_id (some key) later thrown ≡ ok (replayed op)
unfolding recover
recover-own student_id key op later thrown found own = elim (Bool-cases (is_key_taken thrown)) [
  | inl conflict ↦ rw (own_replay student_id key op later found own, recover, conflict) refl
  | inr other ↦ rw (own_replay student_id key op later found own, recover, other) refl
]

module _ (before later : FeeDb) (tables : ℕ → FeeDb) (req : PourRequest) (len key : ℕ)
    (op : Operation) where
  abbrev numbered : Outcome FeeError ((List Payment × FeeDb) × Receipt)
  numbered =
      generate_receipt_number req.series (λ k. candidates req.series (tables k).payments)
        (attempt tables req (some key))

  numbered-fails :
      ((k : ℕ) → (tables k).operations key ≡ some op)
      → (thrown : FeeError) × (numbered ≡ err thrown)
  numbered-fails taken = elim (Outcome-cases numbered) [
    | inl failed ↦ failed
    | inr (answer, made) ↦
        let (k, _, _, _, done, _) =
          (generate_receipt_number_iff req.series (λ k. candidates req.series (tables k).payments)
              (attempt tables req (some key)) answer).0
            made in
        absurd
          (taken_key_never_pays _ req.amount key (tables k) op answer.0.0 answer.0.1 (taken k) done)
  ]

  key_accepted :
      len ≤ 128 → assert_valid_idempotency_key (RawKey.text false len key) ≡ ok (some key)
  unfolding assert_valid_idempotency_key
  key_accepted short = ground arith

  numbered-recovers :
      ((k : ℕ) → (tables k).operations key ≡ some op)
      → later.operations key ≡ some op
      → IsOwn req.student_id op
      → finish_request (recover waterfall_route req.student_id (some key) later) numbered
        ≡ ok (replayed op)
  numbered-recovers taken found own =
      let (thrown, failed) = numbered-fails taken in
      ap (finish_request (recover waterfall_route req.student_id (some key) later)) failed
      ∙ recover-own req.student_id key op later thrown found own

  no_replay :
      before.operations key ≡ none
      → find_operation_replay waterfall_route req.student_id (some key) before ≡ ok none
  no_replay new = rw (new, find_operation_replay) refl

  -- Once a waterfall of a student has stored its operation under a key, a well-formed request of the
  -- same student with that key records nothing more, whatever tables its attempts find: it answers
  -- with that operation, also when the operation appears only after the request has started.
  pub same_key_converges :
      req.idempotency_key ≡ RawKey.text false len key
      → len ≤ 128
      → 0 < req.amount
      → target_branch_mismatch req.branch_id (before.students req.student_id) ≡ false
      → (before.operations key ≡ none) ⊎ (before.operations key ≡ some op)
      → ((k : ℕ) → (tables k).operations key ≡ some op)
      → later.operations key ≡ some op
      → IsOwn req.student_id op
      → waterfall before tables later req ≡ ok (replayed op)
  unfolding waterfall
  same_key_converges given short positive branch early taken found own =
      let key_ok = key_accepted short in
      elim early [
        | inr seen ↦ rw (given, key_ok, own_replay req.student_id key op before seen own) refl
        | inl new ↦
            rw (given, key_ok, no_replay new, branch)
              (ground (arith, positive, numbered-recovers taken found own))
      ]
