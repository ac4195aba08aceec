-- ===== src/Fees/Family/Header.antt =====
-- The header of a family's payment against the payments under it.
use mothercare_backend.Prelude.{
  ℕ, ◌+◌, ◌<◌, ◌≡◌, refl, sym, ap, subst, ◌∙◌, Option, none, some, not, List, [], ◌∷◌, ◌==◌, ==_iff,
  ltb, take, sum_by, arith, ◌≢◌,
}
use mothercare_backend.Prelude.Outcome.{Outcome, err, ok, or_throw, guarded, both_ok, ok-same}
use mothercare_backend.Fees.Db.{Receipt, FamilyPayment, FeeDb}
use mothercare_backend.Fees.Receipts.{
  FeeError, bad_request, branch_denied, receipt_taken, key_taken, nothing_selected, not_in_family,
  total_mismatch, no_year, family_not_found, next_receipt,
}
use mothercare_backend.Fees.Waterfall.{Call}
use mothercare_backend.Fees.Replay.{assert_valid_idempotency_key, target_branch_mismatch}
use mothercare_backend.Fees.Numbering.{generate_receipt_number_iff}
use mothercare_backend.Fees.Allocate.{has_id, is_nil}
use mothercare_backend.Fees.Books.{Balanced}
use mothercare_backend.Fees.Poured.{amount_of}
use mothercare_backend.Fees.Family.{
  StudentShare, FamilyRequest, share_heads, share_extras, share_total, check_shares, pay_students,
  family_number_free, family_key_free, family_tx, find_family_payment, FamilyReply, family_paid,
  converge_family, close_family, numbers_in, active_family, family_allocate,
}
use mothercare_backend.Fees.Family.Headers.{pay_students-Same}
use mothercare_backend.Fees.Family.Inputs.{head_sum}
use mothercare_backend.Fees.Family.Together.{
  extra_amounts, current_amount, paid_together, pay_students-amount,
}

-- What a student selects on a current month that the request does not name.
abbrev pub unplaced_amount : StudentShare → Option ℕ → ℕ
unplaced_amount s none = head_sum (share_heads s) + extra_amounts (share_extras s)
unplaced_amount s (some fee_id) = 0

abbrev pub unplaced : List StudentShare → ℕ
unplaced ss = sum_by (λ s. unplaced_amount s s.current_fee) ss

share_total-split :
    (s : StudentShare) (current : Option ℕ)
    → share_total s
      ≡ sum_by (λ p. p.amount_paise) s.previous_months
        + current_amount s current
        + unplaced_amount s current
share_total-split s none = omega arith
share_total-split s (some fee_id) = omega arith

check_shares-sum :
    (members : List ℕ) (ss : List StudentShare) (checked : Unit {0})
    → check_shares members ss ≡ ok checked
    → paid_together ss + unplaced ss ≡ sum_by (λ s. s.amount_paid_paise) ss
unfolding check_shares
check_shares-sum members [] checked h = refl
check_shares-sum members (s ∷ ss) checked h =
    let (_, h1) = guarded (has_id s.student_id members) not_in_family _ h in
    let (total, rest) = guarded (share_total s == s.amount_paid_paise) total_mismatch _ h1 in
    omega (
      arith,
      share_total-split s s.current_fee,
      (==_iff (share_total s) s.amount_paid_paise).0 total,
      check_shares-sum members ss checked rest,
    )

family_tx-amount :
    (c : Call) (req : FamilyRequest) (key : Option ℕ) (db : FeeDb) (header : FamilyPayment)
    (db' : FeeDb)
    → family_tx c req key db ≡ ok (header, db')
    → (amount_of header.payments ≡ paid_together req.students)
      × (header.total_amount ≡ req.amount_paid_paise)
      × (Balanced db → Balanced db')
      × (db'.family_payments ≡ header ∷ db.family_payments)
unfolding family_tx
family_tx-amount c req key db header db' h =
    let number : Receipt = record { series = c.series; seq = c.base; part = none } in
    let (_, h1) = guarded (family_number_free number db.family_payments) receipt_taken _ h in
    let (_, h2) = guarded (family_key_free key db.family_payments) key_taken _ h1 in
    let (done, paid_all, h3) =
      both_ok (pay_students c req.students (record { seq = 0; batch = []; db = db })) _ h2 in
    let (_, h4) = guarded (not (is_nil done.batch)) nothing_selected _ h3 in
    let paid_by =
      pay_students-amount c req.students (record { seq = 0; batch = []; db = db }) done paid_all in
    let same = ok-same h4 in
    (
      ap (λ a. amount_of a.0.payments) (sym same) ∙ paid_by.0 ∙ omega arith,
      ap (λ a. a.0.total_amount) (sym same),
      λ balanced.
          let b = paid_by.1 balanced in
          subst (λ a. Balanced a.1) same
            (record { rows = b.rows; numbered = b.numbered; distinct = b.distinct }),
      ap (λ a. a.1.family_payments) (sym same)
          ∙ ap (λ a. a.0 ∷ done.db.family_payments) same
          ∙ ap (λ ps. header ∷ ps)
              (pay_students-Same c req.students (record { seq = 0; batch = []; db = db }) done
                paid_all),
    )

abbrev Unpaid : Outcome FeeError FamilyReply → Type 0
Unpaid answer = (p : FamilyPayment) (r : Receipt) (db : FeeDb) → answer ≢ ok (family_paid p r db)

converge_family-paid :
    (found : Option FamilyPayment) (rest : Outcome FeeError FamilyReply) (p : FamilyPayment)
    (r : Receipt) (db : FeeDb)
    → converge_family found rest ≡ ok (family_paid p r db)
    → rest ≡ ok (family_paid p r db)
converge_family-paid none rest p r db h = h
converge_family-paid (some q) rest p r db h = absurd (cc (h))

family_paid-same :
    {p q : FamilyPayment} {r s : Receipt} {d e : FeeDb}
    → family_paid p r d ≡ family_paid q s e
    → (p ≡ q) × (d ≡ e)
family_paid-same h = (cc (h), cc (h))

close_family-paid :
    (req : FamilyRequest) (key : Option ℕ) (later : FeeDb)
    (numbered : Outcome FeeError ((FamilyPayment × FeeDb) × Receipt)) (p : FamilyPayment)
    (r : Receipt) (db : FeeDb)
    → close_family req key later numbered ≡ ok (family_paid p r db)
    → (answer : (FamilyPayment × FeeDb) × Receipt) × (numbered ≡ ok answer)
      × (answer.0.0 ≡ p)
      × (answer.0.1 ≡ db)
close_family-paid req key later (ok ((q, d), s)) p r db h =
    let same = family_paid-same (ok-same h) in (((q, d), s), refl, same.0, same.1)
close_family-paid req key later (err thrown) p r db h = absurd (
    cc (
      converge_family-paid (find_family_payment req.family_id key later.family_payments)
        (err thrown) p r db h))

-- An accepted payment of a family stores one header, in front of those that one of its ten attempts
-- found. The header has the amount that was paid, and the books stay balanced if every attempt finds
-- them so; the payments under the header fall short of it by exactly the heads and extra items that
-- students select without naming the fee of the current month.
pub family_header_total :
    (before later : FeeDb) (tables : ℕ → FeeDb) (req : FamilyRequest) (header : FamilyPayment)
    (number : Receipt) (db' : FeeDb)
    → family_allocate before tables later req ≡ ok (family_paid header number db')
    → (header.total_amount ≡ req.amount_paid_paise)
      × (amount_of header.payments + unplaced req.students ≡ header.total_amount)
      × (((k : ℕ) → Balanced (tables k)) → Balanced db')
      × ((k : ℕ) × (k < 10) × (db'.family_payments ≡ header ∷ (tables k).family_payments))
unfolding family_allocate
family_header_total before later tables req header number db' h =
    let (key, _, h1) = both_ok (assert_valid_idempotency_key req.idempotency_key) _ h in
    let (_, h2) = guarded (ltb 0 req.amount_paid_paise) bad_request _ h1 in
    let (_, h3) = guarded (not (is_nil req.students)) bad_request _ h2 in
    let (year, _, h4) = both_ok (or_throw req.academic_year no_year) _ h3 in
    let (_, h5) =
      guarded (not (target_branch_mismatch req.branch_id (before.years year))) branch_denied _ h4 in
    let (family, _, h6) =
      both_ok (or_throw (active_family (before.families req.family_id)) family_not_found) _ h5 in
    let (checked, shares, h7) = both_ok (check_shares family.student_ids req.students) _ h6 in
    let (total, h8) =
      guarded (sum_by (λ s. s.amount_paid_paise) req.students == req.amount_paid_paise)
        total_mismatch _ h7 in
    let h9 =
      converge_family-paid (find_family_payment req.family_id key before.family_payments) _ header
        number db' h8 in
    let (answer, numbered, same_header, same_db) =
      close_family-paid req key later _ header number db' h9 in
    let (k, _, below, _, done, _) =
      (generate_receipt_number_iff req.series _ _ answer).0 numbered in
    let tried_number : ℕ → Receipt =
      λ j. next_receipt req.series (take 500 (numbers_in req.series (tables j).family_payments)) in
    let (paid_amount, header_amount, keeps, stored) =
      family_tx-amount
        (record { student_id = 0; now = req.now; series = req.series; base = (tried_number k).seq })
        req key (tables k) answer.0.0 answer.0.1 done in
    (
      ap (λ p. p.total_amount) (sym same_header) ∙ header_amount,
      omega (
        arith,
        ap (λ p. amount_of p.payments) same_header,
        ap (λ p. p.total_amount) same_header,
        paid_amount,
        header_amount,
        check_shares-sum family.student_ids req.students checked shares,
        (==_iff (sum_by (λ s. s.amount_paid_paise) req.students) req.amount_paid_paise).0 total,
      ),
      λ all_balanced. subst Balanced same_db (keeps (all_balanced k)),
      (
        k,
        omega (arith, below),
        ap (λ d. d.family_payments) (sym same_db)
            ∙ stored
            ∙ ap (λ p. p ∷ (tables k).family_payments) same_header,
      ),
    )
