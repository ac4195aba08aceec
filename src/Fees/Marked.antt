-- ===== src/Fees/Marked.antt =====
-- The payments after `payment.update` has marked one of them as reverted.
use mothercare_backend.Prelude.{
  ℕ, ◌+◌, ◌≤◌, ◌<◌, ◌≡◌, ◌≢◌, refl, sym, ap, subst, ◌∙◌, ◌⊎◌, inl, inr, some-same, some, true, List,
  [], ◌∷◌, arith,
}
use mothercare_backend.Fees.Db.{Payment, live_amount, live_total}
use mothercare_backend.Fees.Revert.{find_payment, mark_one, mark_reverted}
use mothercare_backend.Fees.Books.{Numbered}

pub mark_one-id : (id : ℕ) (p : Payment) → (mark_one id p).id ≡ p.id
mark_one-id id p = ground arith

pub mark_one-same : (id : ℕ) (p : Payment) → p.id ≢ id → mark_one id p ≡ p
mark_one-same id p other = ground arith

abbrev pub as_reverted : Payment → Payment
as_reverted p = record p { reverted = true }

pub mark_one-this : (p : Payment) → mark_one p.id p ≡ as_reverted p
mark_one-this p = ground arith

pub mark_reverted-Numbered :
    (id next : ℕ) (ps : List Payment) → Numbered next ps → Numbered next (mark_reverted id ps)
unfolding mark_reverted
mark_reverted-Numbered id next [] numbered = tt
mark_reverted-Numbered id next (p ∷ ps) numbered = (
  subst (λ n. n < next) (sym (mark_one-id id p)) numbered.0,
  subst (λ n. Numbered n (mark_reverted id ps)) (sym (mark_one-id id p))
      (mark_reverted-Numbered id p.id ps numbered.1),
)

-- No older payment has the id of a newer one.
pub mark_reverted-older :
    (id next : ℕ) (ps : List Payment) → Numbered next ps → next ≤ id → mark_reverted id ps ≡ ps
unfolding mark_reverted
mark_reverted-older id next [] numbered older = refl
mark_reverted-older id next (p ∷ ps) numbered older =
    ap (λ q. q ∷ mark_reverted id ps)
      (mark_one-same id p (λ same. absurd (omega (arith, numbered.0, same, older))))
    ∙ ap (λ qs. p ∷ qs)
        (mark_reverted-older id p.id ps numbered.1 (omega (arith, numbered.0, older)))

pub find_payment-cases :
    (id : ℕ) (q : Payment) (ps : List Payment)
    → ((q.id ≡ id) × (find_payment id (q ∷ ps) ≡ some q))
      ⊎ ((q.id ≢ id) × (find_payment id (q ∷ ps) ≡ find_payment id ps))
unfolding find_payment
find_payment-cases id q ps = ground arith

pub mark_one-fee : (id : ℕ) (p : Payment) → (mark_one id p).student_fee_id ≡ p.student_fee_id
mark_one-fee id p = ground arith

pub uncounted : (i : ℕ) (p : Payment) → p.student_fee_id ≢ i → live_amount i p ≡ 0
uncounted i p other = ground arith

pub uncounted_reverted : (i : ℕ) (p : Payment) → live_amount i (as_reverted p) ≡ 0
uncounted_reverted i p = ground arith

-- The sums of the other fees do not count a payment.
pub mark_reverted-other :
    (id : ℕ) (p : Payment) (i : ℕ) (ps : List Payment) (next : ℕ)
    → Numbered next ps
    → find_payment id ps ≡ some p
    → p.student_fee_id ≢ i
    → live_total i (mark_reverted id ps) ≡ live_total i ps
unfolding mark_reverted
mark_reverted-other id p i [] next numbered holds other = refl
mark_reverted-other id p i (q ∷ ps) next numbered holds other = elim (find_payment-cases id q ps) [
  | inl (same, here) ↦
      let q_is_p : q ≡ p = some-same (sym here ∙ holds) in
      let elsewhere : q.student_fee_id ≢ i =
        λ at_i. other (sym (ap (λ r. r.student_fee_id) q_is_p) ∙ at_i) in
      omega (
        arith,
        uncounted i (mark_one id q) (λ at_i. elsewhere (sym (mark_one-fee id q) ∙ at_i)),
        uncounted i q elsewhere,
        ap (live_total i) (mark_reverted-older id q.id ps numbered.1 (omega (arith, same))),
      )
  | inr (differs, there) ↦
      ap (λ r. live_amount i r + live_total i (mark_reverted id ps)) (mark_one-same id q differs)
      ∙ ap (λ n. live_amount i q + n)
          (mark_reverted-other id p i ps q.id numbered.1 (sym there ∙ holds) other)
]

pub find_payment-marked :
    (id : ℕ) (ps : List Payment) (q : Payment)
    → find_payment id ps ≡ some q
    → find_payment id (mark_reverted id ps) ≡ some (as_reverted q)
unfolding find_payment mark_reverted
find_payment-marked id [] q found = absurd (cc (found))
find_payment-marked id (p ∷ ps) q found = elim (find_payment-cases id p ps) [
  | inl (same, here) ↦
      let p_is_q : p ≡ q = some-same (sym here ∙ found) in
      elim (find_payment-cases id (mark_one id p) (mark_reverted id ps)) [
        | inl (_, there) ↦
            there
            ∙ ap (λ i. some (mark_one i p)) (sym same)
            ∙ ap some (mark_one-this p)
            ∙ ap (λ r. some (as_reverted r)) p_is_q
        | inr (differs, _) ↦ absurd (differs (mark_one-id id p ∙ same))
      ]
  | inr (differs, later) ↦ elim (find_payment-cases id (mark_one id p) (mark_reverted id ps)) [
    | inl (same, _) ↦ absurd (differs (sym (mark_one-id id p) ∙ same))
    | inr (_, there) ↦ there ∙ find_payment-marked id ps q (sym later ∙ found)
  ]
]
