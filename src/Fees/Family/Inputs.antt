-- ===== src/Fees/Family/Inputs.antt =====
-- The heads of a family's request are normalized twice, by the handler and by `executeStudentAllocInTx`.
use mothercare_backend.Prelude.{
  ℕ, ◌+◌, ◌≡◌, refl, sym, ap, subst, ◌∙◌, inl, inr, false, List, [], ◌∷◌, ltb, sum_by,
  if◌then◌else◌, arith, All, ◌&◌, Bool-cases,
}
use Prim.Native.String.{String}
use text.Mathlib.Text.{◌==◌ as str_eq}
use mothercare_backend.Fees.Breakdown.{is_empty}
use mothercare_backend.Fees.Heads.{
  HeadInput, ExtraInput, input_name, input_key, add_input, merge_inputs, values,
  normalize_allocate_heads_input, positive_heads, positive_extras,
}
use mothercare_backend.Fees.Family.{StudentShare, share_heads}

-- An input that `normalizeAllocateHeadsInput` keeps.
abbrev Named : HeadInput → Type 0
Named h = is_empty (input_name h) ≡ false

abbrev pub head_sum : List HeadInput → ℕ
head_sum hs = sum_by (λ h. h.amount_paise) hs

add_input-sum :
    (key : String) (h : HeadInput) (es : List (String × HeadInput))
    → head_sum (values (add_input key h es)) ≡ h.amount_paise + head_sum (values es)
unfolding add_input
add_input-sum key h [] = refl
add_input-sum key h (e ∷ es) = ground (arith, add_input-sum key h es)

add_input-Named :
    (key : String) (h : HeadInput) (es : List (String × HeadInput))
    → Named h
    → All Named (values es)
    → All Named (values (add_input key h es))
unfolding add_input input_name
add_input-Named key h [] named all = named & tt
add_input-Named key h (e ∷ es) named all = elim (Bool-cases (str_eq e.0 key)) [
  | inl same ↦ rw same (all.0 & all.1)
  | inr differs ↦ rw differs (all.0 & add_input-Named key h es named all.1)
]

merge_inputs-Named :
    (hs : List HeadInput) (es : List (String × HeadInput))
    → All Named (values es)
    → All Named (values (merge_inputs hs es))
unfolding merge_inputs
merge_inputs-Named [] es all = all
merge_inputs-Named (h ∷ hs) es all = elim (Bool-cases (is_empty (input_name h))) [
  | inl empty ↦ merge_inputs-Named hs _ (
      subst (λ b. All Named (values (if b then es else add_input (input_key h) h es))) (sym empty)
        all)
  | inr named ↦ merge_inputs-Named hs _ (
      subst (λ b. All Named (values (if b then es else add_input (input_key h) h es))) (sym named)
        (add_input-Named (input_key h) h es named all))
]

-- Named inputs are all merged.
merge_inputs-sum :
    (hs : List HeadInput) (es : List (String × HeadInput))
    → All Named hs
    → head_sum (values (merge_inputs hs es)) ≡ head_sum hs + head_sum (values es)
unfolding merge_inputs
merge_inputs-sum [] es named = omega arith
merge_inputs-sum (h ∷ hs) es named =
    merge_inputs-sum hs _ named.1
    ∙ omega (
      arith,
      ap (λ b. head_sum (values (if b then es else add_input (input_key h) h es))) named.0,
      add_input-sum (input_key h) h es,
    )

positive_heads-sum : (hs : List HeadInput) → head_sum (positive_heads hs) ≡ head_sum hs
positive_heads-sum [] = refl
positive_heads-sum (h ∷ hs) = ground (arith, positive_heads-sum hs)

positive_heads-Named : (hs : List HeadInput) → All Named hs → All Named (positive_heads hs)
positive_heads-Named [] named = tt
positive_heads-Named (h ∷ hs) named = elim (Bool-cases (ltb 0 h.amount_paise)) [
  | inl some_of_it ↦ rw some_of_it (named.0 & positive_heads-Named hs named.1)
  | inr nothing ↦ rw nothing (positive_heads-Named hs named.1)
]

pub positive_extras-sum :
    (xs : List ExtraInput)
    → sum_by (λ x. x.amount_paise) (positive_extras xs) ≡ sum_by (λ x. x.amount_paise) xs
positive_extras-sum [] = refl
positive_extras-sum (x ∷ xs) = ground (arith, positive_extras-sum xs)

-- The selection that the handler passes on is normalized again by `executeStudentAllocInTx`, to the
-- same amount.
pub normalized_twice :
    (s : StudentShare)
    → head_sum (positive_heads (normalize_allocate_heads_input (share_heads s)))
      ≡ head_sum (share_heads s)
unfolding normalize_allocate_heads_input
normalized_twice s =
    let named = positive_heads-Named _ (merge_inputs-Named s.heads [] tt) in
    positive_heads-sum (values (merge_inputs (share_heads s) []))
    ∙ merge_inputs-sum (share_heads s) [] named
    ∙ omega arith
