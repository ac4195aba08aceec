-- ===== src/Fees/Poured.antt =====
-- The loop of `POST /payments/waterfall`, turn by turn and as a whole.
use mothercare_backend.Prelude.{
  ℕ, ◌+◌, ◌-◌, ◌<◌, ◌≡◌, ◌≢◌, refl, sym, ap, subst, ◌∙◌, ◌⊎◌, inl, inr, some, List, [], ◌∷◌, ◌++◌,
  ◌==◌, length, sum_by, sum_by-append, if◌then◌else◌, arith, All, ◌&◌,
}
use mothercare_backend.Fees.Rows.{Fee, fee_remaining_paise}
use mothercare_backend.Fees.Db.{Payment, FeeDb}
use mothercare_backend.Fees.Waterfall.{
  Call, Pour, pay_amount, pour_into, pour_fee, pour, credit, part_receipt, payment_for,
}
use mothercare_backend.Fees.Books.{Balanced, pay_fee-Balanced, pay_fee-other, pay_fee-row}

-- The snapshot of a fee is the row of the table.
abbrev pub Current : FeeDb → Fee → Type 0
Current db f = db.fees f.id ≡ some f

-- No fee of the list has the id.
abbrev pub Apart : ℕ → List Fee → Type 0
Apart i fs = All (λ g. i ≢ g.id) fs

abbrev pub Separate : List Fee → Type 0
Separate [] = Unit
Separate (f ∷ fs) = Apart f.id fs × Separate fs

abbrev pub amount_of : List Payment → ℕ
amount_of ps = sum_by (λ p. p.amount) ps

-- A fee after its share: untouched when the share is nothing.
abbrev pub settled : ℕ → ℕ → Fee → Fee
settled now amount f = if amount == 0 then f else credit now amount f

settled-none : (now amount : ℕ) (f : Fee) → amount ≡ 0 → settled now amount f ≡ f
settled-none now amount f nothing = ground arith

settled-some : (now amount : ℕ) (f : Fee) → 0 < amount → settled now amount f ≡ credit now amount f
settled-some now amount f positive = ground arith

-- A turn either leaves everything or pays a positive amount.
pour_fee-cases :
    (c : Call) (f : Fee) (s : Pour)
    → ((pour_fee c f s ≡ s) × (pay_amount s.rem f ≡ 0))
      ⊎ ((pour_fee c f s ≡ pour_into c f s) × (0 < pay_amount s.rem f))
unfolding pour_fee
pour_fee-cases c f s = ground arith

pub pour_fee-rem :
    (c : Call) (f : Fee) (s : Pour) → (pour_fee c f s).rem ≡ s.rem - fee_remaining_paise f
pour_fee-rem c f s = elim (pour_fee-cases c f s) [
  | inl (stays, nothing) ↦ ap (λ t. t.rem) stays ∙ omega (arith, nothing)
  | inr (pays, positive) ↦ ap (λ t. t.rem) pays ∙ omega arith
]

pub pour_fee-amount :
    (c : Call) (f : Fee) (s : Pour)
    → (pour_fee c f s).rem + amount_of (pour_fee c f s).allocs ≡ s.rem + amount_of s.allocs
pour_fee-amount c f s = elim (pour_fee-cases c f s) [
  | inl (stays, nothing) ↦ ap (λ t. t.rem + amount_of t.allocs) stays
  | inr (pays, positive) ↦
      ap (λ t. t.rem + amount_of t.allocs) pays
      ∙ omega (
        arith,
        sum_by-append (λ p. p.amount) s.allocs
            (payment_for c f (pay_amount s.rem f) (part_receipt c (length s.allocs + 1)) s.db ∷ []),
      )
]

pub pour_fee-other :
    (c : Call) (f : Fee) (s : Pour) (j : ℕ) → f.id ≢ j → (pour_fee c f s).db.fees j ≡ s.db.fees j
pour_fee-other c f s j other = elim (pour_fee-cases c f s) [
  | inl (stays, nothing) ↦ ap (λ t. t.db.fees j) stays
  | inr (pays, positive) ↦
      ap (λ t. t.db.fees j) pays
      ∙ pay_fee-other c f (pay_amount s.rem f) (part_receipt c (length s.allocs + 1)) s.db j other
]

pub pour_fee-row :
    (c : Call) (f : Fee) (s : Pour)
    → Current s.db f
    → (pour_fee c f s).db.fees f.id ≡ some (settled c.now (pay_amount s.rem f) f)
pour_fee-row c f s row = elim (pour_fee-cases c f s) [
  | inl (stays, nothing) ↦
      ap (λ t. t.db.fees f.id) stays
      ∙ row
      ∙ ap some (sym (settled-none c.now (pay_amount s.rem f) f nothing))
  | inr (pays, positive) ↦
      ap (λ t. t.db.fees f.id) pays
      ∙ pay_fee-row c f (pay_amount s.rem f) (part_receipt c (length s.allocs + 1)) s.db row
      ∙ ap some (sym (settled-some c.now (pay_amount s.rem f) f positive))
]

pub pour_fee-Balanced :
    (c : Call) (f : Fee) (s : Pour) → Current s.db f → Balanced s.db → Balanced (pour_fee c f s).db
pour_fee-Balanced c f s row b = elim (pour_fee-cases c f s) [
  | inl (stays, nothing) ↦ subst (λ t. Balanced t.db) (sym stays) b
  | inr (pays, positive) ↦
      subst (λ t. Balanced t.db) (sym pays) (pay_fee-Balanced c f _ _ s.db b row)
]

-- A turn keeps the snapshots of the fees that follow.
pour_fee-rest :
    (c : Call) (f : Fee) (fs : List Fee) (s : Pour)
    → Apart f.id fs
    → All (Current s.db) fs
    → All (Current (pour_fee c f s).db) fs
pour_fee-rest c f [] s absent current = tt
pour_fee-rest c f (g ∷ gs) s absent current =
    pour_fee-other c f s g.id absent.0 ∙ current.0 & pour_fee-rest c f gs s absent.1 current.1

pub pour-rem :
    (c : Call) (fs : List Fee) (s : Pour)
    → (pour c fs s).rem ≡ s.rem - sum_by fee_remaining_paise fs
unfolding pour
pour-rem c [] s = omega arith
pour-rem c (f ∷ fs) s = omega (arith, pour_fee-rem c f s, pour-rem c fs (pour_fee c f s))

pub pour-amount :
    (c : Call) (fs : List Fee) (s : Pour)
    → (pour c fs s).rem + amount_of (pour c fs s).allocs ≡ s.rem + amount_of s.allocs
unfolding pour
pour-amount c [] s = refl
pour-amount c (f ∷ fs) s = pour-amount c fs (pour_fee c f s) ∙ pour_fee-amount c f s

pub pour-other :
    (c : Call) (fs : List Fee) (s : Pour) (j : ℕ)
    → Apart j fs
    → (pour c fs s).db.fees j ≡ s.db.fees j
unfolding pour
pour-other c [] s j absent = refl
pour-other c (f ∷ fs) s j absent =
    pour-other c fs (pour_fee c f s) j absent.1
    ∙ pour_fee-other c f s j (λ same. absent.0 (sym same))

pub pour-Balanced :
    (c : Call) (fs : List Fee) (s : Pour)
    → Separate fs
    → All (Current s.db) fs
    → Balanced s.db
    → Balanced (pour c fs s).db
unfolding pour
pour-Balanced c [] s distinct current b = b
pour-Balanced c (f ∷ fs) s distinct current b =
    pour-Balanced c fs (pour_fee c f s) distinct.1 (pour_fee-rest c f fs s distinct.0 current.1)
      (pour_fee-Balanced c f s current.0 b)

-- The share of a fee is what the older fees leave, up to what remains due.
pub pour-row :
    (c : Call) (before : List Fee) (f : Fee) (after : List Fee) (s : Pour)
    → Separate (before ++ f ∷ after)
    → All (Current s.db) (before ++ f ∷ after)
    → (pour c (before ++ f ∷ after) s).db.fees f.id
      ≡ some (settled c.now (pay_amount (s.rem - sum_by fee_remaining_paise before) f) f)
unfolding pour
pour-row c [] f after s distinct current =
    pour-other c after (pour_fee c f s) f.id distinct.0
    ∙ pour_fee-row c f s current.0
    ∙ ap (λ n. some (settled c.now (pay_amount n f) f)) (omega arith)
pour-row c (g ∷ before) f after s distinct current =
    pour-row c before f after (pour_fee c g s) distinct.1
      (pour_fee-rest c g (before ++ f ∷ after) s distinct.0 current.1)
    ∙ ap (λ n. some (settled c.now (pay_amount n f) f)) (omega (arith, pour_fee-rem c g s))

pour_fee-operations :
    (c : Call) (f : Fee) (s : Pour) → (pour_fee c f s).db.operations ≡ s.db.operations
pour_fee-operations c f s = elim (pour_fee-cases c f s) [
  | inl (stays, _) ↦ ap (λ t. t.db.operations) stays
  | inr (pays, _) ↦ ap (λ t. t.db.operations) pays
]

pub pour-operations :
    (c : Call) (fs : List Fee) (s : Pour) → (pour c fs s).db.operations ≡ s.db.operations
unfolding pour
pour-operations c [] s = refl
pour-operations c (f ∷ fs) s = pour-operations c fs (pour_fee c f s) ∙ pour_fee-operations c f s
