-- ===== src/Fees/Tracked.antt =====
-- `executeStudentAllocInTx` keeps the books balanced: the fees as it read them follow its payments.
use mothercare_backend.Prelude.{
  ℕ, ◌+◌, ◌≡◌, ◌≢◌, refl, sym, ap, subst, ◌∙◌, inl, inr, ℕ-cases, some-same, Option, none, some,
  ◌&&◌, List, [], ◌∷◌, ◌++◌, ◌==◌, ltb, leb, length, sum_by, if◌then◌else◌, arith, All, ◌&◌,
  Bool-cases,
}
use mothercare_backend.Prelude.Outcome.{ok, or_throw, guarded, both_ok, ok-same, or_throw-some}
use mothercare_backend.Fees.Rows.{Fee, get_fee_total_due}
use mothercare_backend.Fees.Db.{Receipt, Payment, FeeDb}
use mothercare_backend.Fees.Receipts.{not_theirs, exceeds_due}
use mothercare_backend.Fees.Waterfall.{Call, pay_fee}
use mothercare_backend.Fees.Heads.{
  HeadInput, ExtraInput, check_heads, check_extras, normalize_allocate_heads_input, positive_heads,
  positive_extras,
}
use mothercare_backend.Fees.Allocate.{
  PrevMonth, Alloc, find_fee, note_one, note_paid, pay_month, pay_previous_one, pay_previous,
  pay_current, pay_current_if, allocate_selected, execute_student_alloc_in_tx, all_fee_ids,
  selected_fees, sort_prev, has_id,
}
use mothercare_backend.Fees.Books.{Balanced, Tracks, pay_fee-tracked, pay_fee-found, pay_fee-other}
use mothercare_backend.Fees.Fresh.{select-All}
use mothercare_backend.Fees.Selected.{allocate_selected-run}

pub find_fee-All :
    (P : Fee → Type 0) (id : ℕ) (fs : List Fee) (f : Fee) → find_fee id fs ≡ some f → All P fs → P f
unfolding find_fee
find_fee-All P id [] f h all = absurd (cc (h))
find_fee-All P id (g ∷ gs) f h all = elim (Bool-cases (g.id == id)) [
  | inl here ↦
      let same : some g ≡ some f =
        subst (λ b. (if b then some g else find_fee id gs) ≡ some f) here h in
      subst P (some-same same) all.0
  | inr there ↦
      find_fee-All P id gs f (subst (λ b. (if b then some g else find_fee id gs) ≡ some f) there h)
        all.1
]

note_one-this :
    (id amount : ℕ) (g : Fee)
    → g.id ≡ id
    → note_one id amount g ≡ record g { paid_amount = g.paid_amount + amount }
note_one-this id amount g same = ground arith

note_one-other : (id amount : ℕ) (g : Fee) → g.id ≢ id → note_one id amount g ≡ g
note_one-other id amount g other = ground arith

-- Two fees that track one row have one paid amount.
same_row :
    (db : FeeDb) (f g : Fee)
    → g.id ≡ f.id
    → Tracks db f
    → Tracks db g
    → f.paid_amount ≡ g.paid_amount
same_row db f g same (row, found, row_eq) (row', found', row_eq') =
    sym row_eq
    ∙ ap (λ r. r.paid_amount) (some-same (sym found ∙ ap db.fees (sym same) ∙ found'))
    ∙ row_eq'

note_paid-All :
    (c : Call) (f : Fee) (amount : ℕ) (receipt : Receipt) (db : FeeDb) (fs : List Fee)
    → Tracks db f
    → All (Tracks db) fs
    → All (Tracks (pay_fee c f amount receipt db)) (note_paid f.id amount fs)
note_paid-All c f amount receipt db [] tracks all = tt
note_paid-All c f amount receipt db (g ∷ gs) tracks all =
    elim (ℕ-cases g.id f.id) [
      | inl same ↦
          let (row, found, paid_row) = pay_fee-found c f amount receipt db tracks.0 tracks.1 in
          subst (Tracks (pay_fee c f amount receipt db)) (sym (note_one-this f.id amount g same)) (
            row,
            ap (pay_fee c f amount receipt db).fees same ∙ found,
            paid_row ∙ ap (λ n. n + amount) (same_row db f g same tracks all.0),
          )
      | inr other ↦
          let (row, found, paid_row) = all.0 in
          subst (Tracks (pay_fee c f amount receipt db)) (sym (note_one-other f.id amount g other))
            (
              row,
              pay_fee-other c f amount receipt db g.id (λ same. other (sym same)) ∙ found,
              paid_row,
            )
    ]
    & note_paid-All c f amount receipt db gs tracks all.1

-- What holds while the function runs.
record Sound (s : Alloc) : Type 0 where
  balanced : Balanced s.db
  tracked : All (Tracks s.db) s.seen

module _ (c : Call) (receipt : ℕ → Receipt) where
  pay_month-Sound :
      (f : Fee) (amount : ℕ) (s : Alloc)
      → Tracks s.db f
      → Sound s
      → Sound (pay_month c receipt note_paid f amount s)
  pay_month-Sound f amount s tracks sound = record {
    balanced = pay_fee-tracked c f amount (receipt (length s.made + 1)) s.db sound.balanced tracks;
    tracked =
        note_paid-All c f amount (receipt (length s.made + 1)) s.db s.seen tracks sound.tracked;
  }

  pay_previous-Sound :
      (ps : List PrevMonth) (s s' : Alloc)
      → pay_previous c receipt note_paid ps s ≡ ok s'
      → Sound s
      → Sound s'
  unfolding pay_previous pay_previous_one
  pay_previous-Sound [] s s' h sound = subst Sound (ok-same h) sound
  pay_previous-Sound (p ∷ ps) s s' h sound =
      let (next, first, rest) =
        both_ok (pay_previous_one c receipt note_paid p s) (pay_previous c receipt note_paid ps)
          h in
      let (f, found, h1) =
        both_ok (or_throw (find_fee p.student_fee_id s.seen) not_theirs) _ first in
      let (_, h2) =
        guarded (ltb 0 p.amount_paise && leb (f.paid_amount + p.amount_paise) (get_fee_total_due f))
          exceeds_due _ h1 in
      pay_previous-Sound ps next s' rest (
        subst Sound (ok-same h2) (
          pay_month-Sound f p.amount_paise s
            (find_fee-All (Tracks s.db) p.student_fee_id s.seen f
              (or_throw-some (find_fee p.student_fee_id s.seen) not_theirs found) sound.tracked)
            sound))

  pay_current-Balanced :
      (fee_id : ℕ) (heads : List HeadInput) (extras : List ExtraInput) (s s' : Alloc)
      → pay_current c receipt note_paid fee_id heads extras s ≡ ok s'
      → Sound s
      → Balanced s'.db
  unfolding pay_current
  pay_current-Balanced fee_id heads extras s s' h sound =
      let (f, found, h1) = both_ok (or_throw (find_fee fee_id s.seen) not_theirs) _ h in
      let (on_heads, checked, h2) = both_ok (check_heads f s.db.allocations heads) _ h1 in
      let (on_extras, checked', h3) = both_ok (check_extras f s.db.allocations extras) _ h2 in
      let tracks =
        find_fee-All (Tracks s.db) fee_id s.seen f
          (or_throw-some (find_fee fee_id s.seen) not_theirs found) sound.tracked in
      let b =
        pay_fee-tracked c f (sum_by (λ a. a.amount) (on_heads ++ on_extras))
          (receipt (length s.made + 1)) s.db sound.balanced tracks in
      subst (λ t. Balanced t.db) (ok-same h3)
        (record { rows = b.rows; numbered = b.numbered; distinct = b.distinct })

  pay_current_if-Balanced :
      (current : Option ℕ) (heads : List HeadInput) (extras : List ExtraInput) (s s' : Alloc)
      → pay_current_if c receipt note_paid current heads extras s ≡ ok s'
      → Sound s
      → Balanced s'.db
  pay_current_if-Balanced none heads extras s s' h sound =
      subst (λ t. Balanced t.db) (ok-same h) sound.balanced
  pay_current_if-Balanced (some fee_id) [] [] s s' h sound =
      subst (λ t. Balanced t.db) (ok-same h) sound.balanced
  pay_current_if-Balanced (some fee_id) (h' ∷ hs) extras s s' h sound =
      pay_current-Balanced fee_id (h' ∷ hs) extras s s' h sound
  pay_current_if-Balanced (some fee_id) [] (x ∷ xs) s s' h sound =
      pay_current-Balanced fee_id [] (x ∷ xs) s s' h sound

selected_fees-Tracks :
    (student_id : ℕ) (is : List ℕ) (db : FeeDb)
    → Balanced db
    → All (Tracks db) (selected_fees student_id is db)
unfolding selected_fees
selected_fees-Tracks student_id is db b =
    select-All (λ f. (f.student_id == student_id) && has_id f.id is) db.fees (Tracks db) db.fee_ids
      (λ i f row kept. (f, ap db.fees (b.rows i f row).0 ∙ row, refl))

-- In balanced books, an allocation for a student that is accepted leaves balanced books, also when it
-- names one month twice.
pub execute_student_alloc-Balanced :
    (c : Call) (receipt : Receipt) (prev : List PrevMonth) (current : Option ℕ)
    (heads : List HeadInput) (extras : List ExtraInput) (db : FeeDb) (ps : List Payment)
    (db' : FeeDb)
    → execute_student_alloc_in_tx c receipt prev current heads extras db ≡ ok (ps, db')
    → Balanced db
    → Balanced db'
unfolding execute_student_alloc_in_tx allocate_selected
execute_student_alloc-Balanced c receipt prev current heads extras db ps db' h b =
    let hs = positive_heads (normalize_allocate_heads_input heads) in
    let xs = positive_extras extras in
    let fresh = selected_fees c.student_id (all_fee_ids prev current) db in
    let (done, selected, answer) =
      both_ok (allocate_selected c (λ n. receipt) note_paid prev current hs xs db) _ h in
    let (s, before, after) =
      allocate_selected-run c (λ n. receipt) note_paid prev current hs xs db done selected in
    let sound =
      pay_previous-Sound c (λ n. receipt) (sort_prev fresh prev)
        (record { seen = fresh; made = []; db = db }) s before
        (record {
          balanced = b;
          tracked = selected_fees-Tracks c.student_id (all_fee_ids prev current) db b;
        }) in
    subst Balanced (ap (λ a. a.1) (ok-same answer))
      (pay_current_if-Balanced c (λ n. receipt) current hs xs s done after sound)
