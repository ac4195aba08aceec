-- ===== src/Fees/FamilyPay/Members.antt =====
-- A payment of a family moves no money of other students.
use mothercare_backend.Prelude.{
  ℕ, ◌+◌, ◌≡◌, ◌≢◌, refl, sym, ap, subst, ◌∙◌, inl, inr, some-same, Option, none, some, true, false,
  not, ◌&&◌, List, [], ◌∷◌, ◌==◌, ltb, length, if◌then◌else◌, arith, All, ◌&◌, Bool-cases,
  Option-cases,
}
use mothercare_backend.Prelude.Outcome.{ok, or_throw, guarded, both_ok, ok-same, or_throw-some}
use mothercare_backend.Fees.Rows.{Fee, get_fee_total_due}
use mothercare_backend.Fees.Db.{Receipt, Family, FamilyPayment, FeeDb, add_payment}
use mothercare_backend.Fees.Receipts.{
  receipt_taken, key_taken, nothing_selected, wrong_year, family_not_found, not_in_family,
  not_theirs, already_paid,
}
use mothercare_backend.Fees.Waterfall.{Call, part_receipt, number_unused}
use mothercare_backend.Fees.Allocate.{find_fee, has_id, is_nil}
use mothercare_backend.Fees.Books.{Balanced, live-other, repost-Balanced, update_fee-other}
use mothercare_backend.Fees.Poured.{Current, amount_of}
use mothercare_backend.Fees.Fresh.{select-All}
use mothercare_backend.Fees.Tracked.{find_fee-All}
use mothercare_backend.Fees.Family.{family_number_free, family_key_free}
use mothercare_backend.Fees.FamilyPay.{
  PayItem, FamilyPayRequest, item_ids, fees_of_year, payer, check_member, check_members, PayBatch,
  item_payment, item_change, after_item, pay_item, pay_item_if, pay_items, family_pay_tx,
}

-- A fee as read whose row is the table's and whose student is in the family.
abbrev OfMember : FeeDb → List ℕ → Fee → Type 0
OfMember db members f = Current db f × (has_id f.student_id members ≡ true)

-- Every element names a fee of a member.
abbrev Checked : FeeDb → List ℕ → List Fee → List PayItem → Type 0
Checked db members seen ps =
    All (λ p. (f : Fee) → find_fee p.student_fee_id seen ≡ some f → OfMember db members f) ps

check_member-OfMember :
    (db : FeeDb) (members : List ℕ) (seen : List Fee) (p : PayItem) (checked : Unit {0})
    → All (Current db) seen
    → check_member members seen p ≡ ok checked
    → (f : Fee) → find_fee p.student_fee_id seen ≡ some f
    → OfMember db members f
unfolding check_member
check_member-OfMember db members seen p checked current h f found =
    let (g, found', h1) = both_ok (or_throw (find_fee p.student_fee_id seen) not_in_family) _ h in
    let (_, h2) = guarded (has_id (payer p.student_id g) members) not_in_family _ h1 in
    let (member, h3) = guarded (has_id g.student_id members) not_theirs _ h2 in
    let same : g ≡ f =
      some-same
        (sym (or_throw-some (find_fee p.student_fee_id seen) not_in_family found') ∙ found) in
    (
      find_fee-All (Current db) p.student_fee_id seen f found current,
      subst (λ k. has_id k.student_id members ≡ true) same member,
    )

check_members-Checked :
    (db : FeeDb) (members : List ℕ) (seen : List Fee) (ps : List PayItem) (checked : Unit {0})
    → All (Current db) seen
    → check_members members seen ps ≡ ok checked
    → Checked db members seen ps
unfolding check_members
check_members-Checked db members seen [] checked current h = tt
check_members-Checked db members seen (p ∷ ps) checked current h =
    let (one, first, rest) = both_ok (check_member members seen p) _ h in
    check_member-OfMember db members seen p one current first
    & check_members-Checked db members seen ps checked current rest

-- The elements that are paid name no fee of the id.
abbrev Elsewhere : ℕ → List Fee → List PayItem → Type 0
Elsewhere j seen ps = All (λ p. (f : Fee) → find_fee p.student_fee_id seen ≡ some f → f.id ≢ j) ps

-- What a turn keeps: the books, and the rows of all other fees.
abbrev Kept : Type 0 → ℕ → PayBatch → PayBatch → Type 0
Kept away j b b' = (Balanced b.db → Balanced b'.db) × (away → b'.db.fees j ≡ b.db.fees j)

after_item-Balanced :
    (c : Call) (f : Fee) (p : PayItem) (b : PayBatch)
    → Balanced b.db
    → Balanced (after_item c f p b).db
after_item-Balanced c f p b balanced =
    repost-Balanced b.db (item_payment c f p b ∷ b.db.payments) (b.db.next_id + 1) f.id
      (item_change c f p b) balanced (omega arith, balanced.numbered)
      (λ i other. live-other (item_payment c f p b) i b.db.payments other)
      (λ g row. ((balanced.rows f.id g row).0, refl))

pay_item_if-none :
    (c : Call) (seen : List Fee) (p : PayItem) (b : PayBatch)
    → find_fee p.student_fee_id seen ≡ none
    → pay_item_if c seen p b ≡ ok b
unfolding pay_item_if
pay_item_if-none c seen p b missing = rw (missing, pay_item_if) refl

pay_item_if-some :
    (c : Call) (seen : List Fee) (p : PayItem) (b : PayBatch) (f : Fee)
    → find_fee p.student_fee_id seen ≡ some f
    → pay_item_if c seen p b ≡ (if p.amount == 0 then ok b else pay_item c f p b)
unfolding pay_item_if
pay_item_if-some c seen p b f found = rw (found, pay_item_if) refl

stays-Kept : (away : Type 0) (j : ℕ) (b b' : PayBatch) → b ≡ b' → Kept away j b b'
stays-Kept away j b b' same =
    (subst (λ t. Balanced t.db) same, λ _. ap (λ t. t.db.fees j) (sym same))

pay_item-Kept :
    (c : Call) (f : Fee) (p : PayItem) (b b' : PayBatch) (j : ℕ)
    → pay_item c f p b ≡ ok b'
    → Kept (f.id ≢ j) j b b'
unfolding pay_item
pay_item-Kept c f p b b' j h =
    let (_, h1) = guarded (ltb f.paid_amount (get_fee_total_due f)) already_paid _ h in
    let (_, h2) =
      guarded (number_unused (part_receipt c (length b.batch + 1)) b.db.payments) receipt_taken _
        h1 in
    let same = ok-same h2 in
    (
      λ balanced. subst (λ t. Balanced t.db) same (after_item-Balanced c f p b balanced),
      λ elsewhere.
          ap (λ t. t.db.fees j) (sym same)
          ∙ update_fee-other f.id j (item_change c f p b) (add_payment (item_payment c f p b) b.db)
              elsewhere,
    )

pay_item_if-Kept :
    (c : Call) (seen : List Fee) (p : PayItem) (b b' : PayBatch) (j : ℕ)
    → pay_item_if c seen p b ≡ ok b'
    → Kept ((f : Fee) → find_fee p.student_fee_id seen ≡ some f → f.id ≢ j) j b b'
pay_item_if-Kept c seen p b b' j h = elim (Option-cases (find_fee p.student_fee_id seen)) [
  | inl missing ↦ stays-Kept _ j b b' (ok-same (sym (pay_item_if-none c seen p b missing) ∙ h))
  | inr (f, found) ↦
      let turn = sym (pay_item_if-some c seen p b f found) ∙ h in
      elim (Bool-cases (p.amount == 0)) [
        | inl nothing ↦
            stays-Kept _ j b b'
              (ok-same (subst (λ t. (if t then ok b else pay_item c f p b) ≡ ok b') nothing turn))
        | inr something ↦
            let paid_it =
              pay_item-Kept c f p b b' j
                (subst (λ t. (if t then ok b else pay_item c f p b) ≡ ok b') something turn) in
            (paid_it.0, λ elsewhere. paid_it.1 (elsewhere f found))
      ]
]

pay_items-Kept :
    (c : Call) (seen : List Fee) (ps : List PayItem) (b b' : PayBatch) (j : ℕ)
    → pay_items c seen ps b ≡ ok b'
    → Kept (Elsewhere j seen ps) j b b'
unfolding pay_items
pay_items-Kept c seen [] b b' j h = stays-Kept _ j b b' (ok-same h)
pay_items-Kept c seen (p ∷ ps) b b' j h =
    let (next, first, rest) = both_ok (pay_item_if c seen p b) _ h in
    let one = pay_item_if-Kept c seen p b next j first in
    let others = pay_items-Kept c seen ps next b' j rest in
    (λ balanced. others.0 (one.0 balanced), λ elsewhere. others.1 elsewhere.1 ∙ one.1 elsewhere.0)

-- The payments insert no header.
pay_item-headers :
    (c : Call) (f : Fee) (p : PayItem) (b b' : PayBatch)
    → pay_item c f p b ≡ ok b'
    → b'.db.family_payments ≡ b.db.family_payments
unfolding pay_item
pay_item-headers c f p b b' h =
    let (_, h1) = guarded (ltb f.paid_amount (get_fee_total_due f)) already_paid _ h in
    let (_, h2) =
      guarded (number_unused (part_receipt c (length b.batch + 1)) b.db.payments) receipt_taken _
        h1 in
    ap (λ t. t.db.family_payments) (sym (ok-same h2))

pay_item_if-headers :
    (c : Call) (seen : List Fee) (p : PayItem) (b b' : PayBatch)
    → pay_item_if c seen p b ≡ ok b'
    → b'.db.family_payments ≡ b.db.family_payments
pay_item_if-headers c seen p b b' h = elim (Option-cases (find_fee p.student_fee_id seen)) [
  | inl missing ↦
      ap (λ t. t.db.family_payments) (sym (ok-same (sym (pay_item_if-none c seen p b missing) ∙ h)))
  | inr (f, found) ↦
      let turn = sym (pay_item_if-some c seen p b f found) ∙ h in
      elim (Bool-cases (p.amount == 0)) [
        | inl nothing ↦
            ap (λ t. t.db.family_payments)
              (sym (
                ok-same (subst (λ t. (if t then ok b else pay_item c f p b) ≡ ok b') nothing turn)))
        | inr something ↦
            pay_item-headers c f p b b'
              (subst (λ t. (if t then ok b else pay_item c f p b) ≡ ok b') something turn)
      ]
]

pay_items-headers :
    (c : Call) (seen : List Fee) (ps : List PayItem) (b b' : PayBatch)
    → pay_items c seen ps b ≡ ok b'
    → b'.db.family_payments ≡ b.db.family_payments
unfolding pay_items
pay_items-headers c seen [] b b' h = ap (λ t. t.db.family_payments) (sym (ok-same h))
pay_items-headers c seen (p ∷ ps) b b' h =
    let (next, first, rest) = both_ok (pay_item_if c seen p b) _ h in
    pay_items-headers c seen ps next b' rest ∙ pay_item_if-headers c seen p b next first

-- The row of a student outside the family is none of those that are paid.
outsider-Elsewhere :
    (db : FeeDb) (members : List ℕ) (seen : List Fee) (ps : List PayItem) (j : ℕ) (g : Fee)
    → db.fees j ≡ some g
    → has_id g.student_id members ≡ false
    → Checked db members seen ps
    → Elsewhere j seen ps
outsider-Elsewhere db members seen [] j g row outside checked = tt
outsider-Elsewhere db members seen (p ∷ ps) j g row outside checked =
    (λ f found same.
      let (at_f, member) = checked.0 f found in
      let f_is_g : f ≡ g = some-same (sym at_f ∙ ap db.fees same ∙ row) in
      absurd (cc (member, outside, ap (λ k. has_id k.student_id members) f_is_g)))
    & outsider-Elsewhere db members seen ps j g row outside checked.1

fees_of_year-Current :
    (year : ℕ) (is : List ℕ) (db : FeeDb) → Balanced db → All (Current db) (fees_of_year year is db)
unfolding fees_of_year
fees_of_year-Current year is db b =
    select-All (λ f. (f.academic_year_id == year) && has_id f.id is) db.fees (Current db) db.fee_ids
      (λ i f row kept. ap db.fees (b.rows i f row).0 ∙ row)

-- In balanced books, an accepted payment of a family keeps them balanced, stores one header in front of
-- those that were there, with the sum of its payments, and leaves every fee of a student outside the
-- family as it was.
pub family_pay_moves_members :
    (c : Call) (req : FamilyPayRequest) (year : ℕ) (key : Option ℕ) (db : FeeDb)
    (header : FamilyPayment) (db' : FeeDb)
    → family_pay_tx c req year key db ≡ ok (header, db')
    → Balanced db
    → (db'.family_payments ≡ header ∷ db.family_payments)
      × (header.total_amount ≡ amount_of header.payments)
      × Balanced db'
      × ((family : Family) (j : ℕ) (g : Fee)
          → db.families req.family_id ≡ some family
          → db.fees j ≡ some g
          → has_id g.student_id family.student_ids ≡ false
          → db'.fees j ≡ db.fees j)
unfolding family_pay_tx
family_pay_moves_members c req year key db header db' h b =
    let ids = item_ids req.payments in
    let start : PayBatch = record { batch = []; db = db } in
    let fresh = fees_of_year year ids db in
    let (_, h1) = guarded (length fresh == length ids) wrong_year _ h in
    let (family, found, h2) =
      both_ok (or_throw (db.families req.family_id) family_not_found) _ h1 in
    let (checked, members, h3) =
      both_ok (check_members family.student_ids fresh req.payments) _ h2 in
    let (done, paid_all, h4) =
      both_ok (pay_items c fresh req.payments (record { batch = []; db = db })) _ h3 in
    let (_, h5) = guarded (not (is_nil done.batch)) nothing_selected _ h4 in
    let number : Receipt = record { series = c.series; seq = c.base; part = none } in
    let (_, h6) = guarded (family_number_free number db.family_payments) receipt_taken _ h5 in
    let (_, h7) = guarded (family_key_free key db.family_payments) key_taken _ h6 in
    let same = ok-same h7 in
    let all_members =
      check_members-Checked db family.student_ids fresh req.payments checked
        (fees_of_year-Current year ids db b) members in
    (
      ap (λ a. a.1.family_payments) (sym same)
          ∙ ap (λ a. a.0 ∷ done.db.family_payments) same
          ∙ ap (λ ps. header ∷ ps) (pay_items-headers c fresh req.payments start done paid_all),
      ap (λ a. a.0.total_amount) (sym same) ∙ ap (λ a. amount_of a.0.payments) same,
      subst (λ a. Balanced a.1) same
          (let kept = (pay_items-Kept c fresh req.payments start done 0 paid_all).0 b in
            record { rows = kept.rows; numbered = kept.numbered; distinct = kept.distinct }),
      λ family' j g found' row outside.
          let one_family : family ≡ family' =
            some-same
              (sym (or_throw-some (db.families req.family_id) family_not_found found) ∙ found') in
          ap (λ a. a.1.fees j) (sym same)
          ∙ (pay_items-Kept c fresh req.payments start done j paid_all).1 (
              outsider-Elsewhere db family.student_ids fresh req.payments j g row
                (subst (λ k. has_id g.student_id k.student_ids ≡ false) (sym one_family) outside)
                all_members),
    )
