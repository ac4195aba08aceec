-- ===== src/Fees/Fresh.antt =====
-- The rows that `POST /payments/waterfall` reads: those of the student that are open, each once, oldest
-- first.
use mothercare_backend.Prelude.{
  ℕ, ◌≡◌, ◌≢◌, refl, sym, ap, subst, ◌∙◌, ◌⊎◌, inl, inr, Option, some, Bool, true, List, [], ◌∷◌,
  arith, All, ◌&◌, Bool-cases,
}
use mothercare_backend.Fees.Rows.{Fee}
use mothercare_backend.Fees.Db.{FeeDb, select}
use mothercare_backend.Fees.Waterfall.{older, owed_by, insert_fee, sort_fees, fresh_fees}
use mothercare_backend.Fees.Books.{Absent, Distinct, Balanced}
use mothercare_backend.Fees.Poured.{Current, Apart, Separate}

-- Every fee is at most as recent as those that follow it.
abbrev pub Ordered : List Fee → Type 0
Ordered [] = Unit
Ordered (f ∷ fs) = All (λ g. older f g ≡ true) fs × Ordered fs

insert_fee-cases :
    (f g : Fee) (gs : List Fee)
    → ((insert_fee f (g ∷ gs) ≡ f ∷ g ∷ gs) × (older f g ≡ true))
      ⊎ ((insert_fee f (g ∷ gs) ≡ g ∷ insert_fee f gs) × (older g f ≡ true))
unfolding insert_fee
insert_fee-cases f g gs = elim (Bool-cases (older f g)) [
  | inl before ↦ inl (rw before refl, before)
  | inr after ↦ inr (rw after refl, ground arith)
]

older_trans : (f g h : Fee) → older f g ≡ true → older g h ≡ true → older f h ≡ true
older_trans f g h p q = ground arith

module _ (P : Fee → Type 0) where
  insert_fee-All : (f : Fee) (gs : List Fee) → P f → All P gs → All P (insert_fee f gs)
  unfolding insert_fee
  insert_fee-All f [] here rest = here & tt
  insert_fee-All f (g ∷ gs) here rest = elim (insert_fee-cases f g gs) [
    | inl (before, _) ↦ subst (All P) (sym before) (here & rest)
    | inr (after, _) ↦ subst (All P) (sym after) (rest.0 & insert_fee-All f gs here rest.1)
  ]

  sort_fees-All : (fs : List Fee) → All P fs → All P (sort_fees fs)
  unfolding sort_fees
  sort_fees-All [] all = tt
  sort_fees-All (f ∷ fs) all = insert_fee-All f (sort_fees fs) all.0 (sort_fees-All fs all.1)

insert_fee-Separate :
    (f : Fee) (gs : List Fee) → Apart f.id gs → Separate gs → Separate (insert_fee f gs)
unfolding insert_fee
insert_fee-Separate f [] apart all = tt & tt
insert_fee-Separate f (g ∷ gs) apart all = elim (insert_fee-cases f g gs) [
  | inl (before, _) ↦ subst Separate (sym before) (apart & all)
  | inr (after, _) ↦ subst Separate (sym after) (
      insert_fee-All (λ h. g.id ≢ h.id) f gs (λ same. apart.0 (sym same)) all.0
      & insert_fee-Separate f gs apart.1 all.1)
]

sort_fees-Separate : (fs : List Fee) → Separate fs → Separate (sort_fees fs)
unfolding sort_fees
sort_fees-Separate [] all = tt
sort_fees-Separate (f ∷ fs) all =
    insert_fee-Separate f (sort_fees fs) (sort_fees-All (λ g. f.id ≢ g.id) fs all.0)
      (sort_fees-Separate fs all.1)

older-All :
    (f g : Fee) (gs : List Fee)
    → older f g ≡ true
    → All (λ h. older g h ≡ true) gs
    → All (λ h. older f h ≡ true) gs
older-All f g [] p all = tt
older-All f g (h ∷ hs) p all = older_trans f g h p all.0 & older-All f g hs p all.1

insert_fee-Ordered : (f : Fee) (gs : List Fee) → Ordered gs → Ordered (insert_fee f gs)
unfolding insert_fee
insert_fee-Ordered f [] all = tt & tt
insert_fee-Ordered f (g ∷ gs) all = elim (insert_fee-cases f g gs) [
  | inl (before, p) ↦ subst Ordered (sym before) ((p & older-All f g gs p all.0) & all)
  | inr (after, p) ↦
      subst Ordered (sym after)
        (insert_fee-All (λ h. older g h ≡ true) f gs p all.0 & insert_fee-Ordered f gs all.1)
]

pub sort_fees-Ordered : (fs : List Fee) → Ordered (sort_fees fs)
unfolding sort_fees
sort_fees-Ordered [] = tt
sort_fees-Ordered (f ∷ fs) = insert_fee-Ordered f (sort_fees fs) (sort_fees-Ordered fs)

module _ (keep : Fee → Bool) (fees : ℕ → Option Fee) where
  select-cases :
      (i : ℕ) (is : List ℕ)
      → (select keep fees (i ∷ is) ≡ select keep fees is)
        ⊎ ((f : Fee) × (fees i ≡ some f)
            × (keep f ≡ true)
            × (select keep fees (i ∷ is) ≡ f ∷ select keep fees is))
  select-cases i is = ground arith

  module _ (P : Fee → Type 0) where
    -- What holds of every row that passes the test holds of those selected.
    pub select-All :
        (is : List ℕ)
        → ((i : ℕ) (f : Fee) → fees i ≡ some f → keep f ≡ true → P f)
        → All P (select keep fees is)
    select-All [] each = tt
    select-All (i ∷ is) each = elim (select-cases i is) [
      | inl skips ↦ subst (All P) (sym skips) (select-All is each)
      | inr (f, found, kept, takes) ↦
          subst (All P) (sym takes) (each i f found kept & select-All is each)
    ]

  module _ (keyed : (i : ℕ) (f : Fee) → fees i ≡ some f → f.id ≡ i) where
    select-Apart : (i : ℕ) (is : List ℕ) → Absent i is → Apart i (select keep fees is)
    select-Apart i [] absent = tt
    select-Apart i (j ∷ js) absent = elim (select-cases j js) [
      | inl skips ↦ subst (Apart i) (sym skips) (select-Apart i js absent.1)
      | inr (f, found, kept, takes) ↦
          subst (Apart i) (sym takes)
            ((λ same. absent.0 (same ∙ keyed j f found)) & select-Apart i js absent.1)
    ]

    select-Separate : (is : List ℕ) → Distinct is → Separate (select keep fees is)
    select-Separate [] distinct = tt
    select-Separate (i ∷ is) distinct = elim (select-cases i is) [
      | inl skips ↦ subst Separate (sym skips) (select-Separate is distinct.1)
      | inr (f, found, kept, takes) ↦ subst Separate (sym takes) (
          subst (λ j. Apart j (select keep fees is)) (sym (keyed i f found))
            (select-Apart i is distinct.0)
          & select-Separate is distinct.1)
    ]

module _ (student_id : ℕ) (db : FeeDb) (b : Balanced db) where
  pub fresh_fees-Separate : Separate (fresh_fees student_id db)
  fresh_fees-Separate = sort_fees-Separate (select (owed_by student_id) db.fees db.fee_ids) (
      select-Separate (owed_by student_id) db.fees (λ i f row. (b.rows i f row).0) db.fee_ids
        b.distinct)

  pub fresh_fees-Current : All (Current db) (fresh_fees student_id db)
  fresh_fees-Current = sort_fees-All (Current db) (select (owed_by student_id) db.fees db.fee_ids) (
      select-All (owed_by student_id) db.fees (Current db) db.fee_ids
        (λ i f row kept. ap db.fees (b.rows i f row).0 ∙ row))

pub fresh_fees-Open :
    (student_id : ℕ) (db : FeeDb)
    → All (λ f. owed_by student_id f ≡ true) (fresh_fees student_id db)
fresh_fees-Open student_id db =
    sort_fees-All (λ f. owed_by student_id f ≡ true)
      (select (owed_by student_id) db.fees db.fee_ids)
      (select-All (owed_by student_id) db.fees (λ f. owed_by student_id f ≡ true) db.fee_ids
        (λ i f row kept. kept))
