-- ===== src/Fees/Merged.antt =====
-- What `mergeFeeHeadBreakdown` keeps of a breakdown.
use Prim.Native.String.{String}
use text.Mathlib.Text.{◌==◌ as str_eq}
use text.Mathlib.TextEquality.{eq_iff}
use mothercare_backend.Prelude.{
  ℕ, ◌+◌, ◌≤◌, ◌≡◌, refl, sym, ap, subst, ◌∙◌, ◌⊎◌, inl, inr, Bool, true, false, not, ◌&&◌, List,
  [], ◌∷◌, sum_by, if◌then◌else◌, arith, Bool-cases,
}
use mothercare_backend.Fees.Rows.{HeadRow}
use mothercare_backend.Fees.Breakdown.{
  Entry, row_name, row_key, stored_row, is_empty, add_head, merge_head, merge_heads, rows_of,
  merge_fee_head_breakdown,
}

abbrev one_if : Bool → ℕ → ℕ
one_if test n = if test then n else 0

-- What the entries of a key amount to, and how many they are.
abbrev pub amount_at : String → List Entry → ℕ
amount_at key es = sum_by (λ e. one_if (str_eq e.key key) e.row.amount) es

abbrev pub entries_at : String → List Entry → ℕ
entries_at key es = sum_by (λ e. one_if (str_eq e.key key) 1) es

-- What the named rows of a key amount to in the stored breakdown.
abbrev pub named_amount : String → List HeadRow → ℕ
named_amount key hs =
    sum_by (λ h. one_if (not (is_empty (row_name h)) && str_eq (row_key h) key) h.amount) hs

abbrev pub named_total : List HeadRow → ℕ
named_total hs = sum_by (λ h. one_if (not (is_empty (row_name h))) h.amount) hs

one_if-add : (b : Bool) (m n : ℕ) → one_if b (m + n) ≡ one_if b m + one_if b n
one_if-add true m n = refl
one_if-add false m n = refl

same_test : (k a b : String) → str_eq a b ≡ true → str_eq a k ≡ str_eq b k
same_test k a b h = ap (λ c. str_eq c k) ((eq_iff a b).0 h)

add_head-at :
    (k key : String) (h : HeadRow) (es : List Entry)
    → amount_at k (add_head key h es) ≡ one_if (str_eq key k) h.amount + amount_at k es
unfolding add_head
add_head-at k key h [] = refl
add_head-at k key h (e ∷ es) = elim (Bool-cases (str_eq e.key key)) [
  | inl same ↦ rw same (
      omega (
        arith,
        one_if-add (str_eq e.key k) e.row.amount h.amount,
        ap (λ b. one_if b h.amount) (same_test k e.key key same),
      ))
  | inr differs ↦ rw differs (omega (arith, add_head-at k key h es))
]

add_head-total :
    (key : String) (h : HeadRow) (es : List Entry)
    → sum_by (λ r. r.amount) (rows_of (add_head key h es))
      ≡ h.amount + sum_by (λ r. r.amount) (rows_of es)
unfolding add_head
add_head-total key h [] = refl
add_head-total key h (e ∷ es) = ground (arith, add_head-total key h es)

add_head-other :
    (k key : String) (h : HeadRow) (es : List Entry)
    → str_eq key k ≡ false
    → entries_at k (add_head key h es) ≡ entries_at k es
unfolding add_head
add_head-other k key h [] other = rw other refl
add_head-other k key h (e ∷ es) other = elim (Bool-cases (str_eq e.key key)) [
  | inl same ↦ rw same refl
  | inr differs ↦ rw differs (omega (arith, add_head-other k key h es other))
]

clash : {b : Bool} → b ≡ true → b ≡ false → ⊥
clash p q = cc (p, q)

one_if-bound : (b : Bool) (n : ℕ) → n ≤ 1 → one_if b n ≤ 1
one_if-bound true n h = h
one_if-bound false n h = omega arith

add_head-single :
    (k key : String) (h : HeadRow) (es : List Entry)
    → entries_at k es ≤ 1
    → entries_at k (add_head key h es) ≤ 1
unfolding add_head
add_head-single k key h [] single = omega (arith, one_if-bound (str_eq key k) 1 (omega arith))
add_head-single k key h (e ∷ es) single = elim (Bool-cases (str_eq e.key key)) [
  | inl same ↦ rw same single
  | inr differs ↦ rw differs (elim (Bool-cases (str_eq e.key k)) [
    | inl here ↦
        let elsewhere : str_eq key k ≡ false = elim (Bool-cases (str_eq key k)) [
          | inl there ↦ absurd (
              clash ((eq_iff e.key key).1 ((eq_iff e.key k).0 here ∙ sym ((eq_iff key k).0 there)))
                differs)
          | inr away ↦ away
        ] in
        omega (arith, single, add_head-other k key h es elsewhere)
    | inr away ↦
        let none_here : one_if (str_eq e.key k) 1 ≡ 0 = ap (λ b. one_if b 1) away in
        omega (arith, none_here, add_head-single k key h es (omega (arith, single, none_here)))
  ])
]

-- A turn of the loop, by whether the row has a name.
merge_head-cases :
    (h : HeadRow) (es : List Entry)
    → ((is_empty (row_name h) ≡ true) × (merge_head h es ≡ es))
      ⊎ ((is_empty (row_name h) ≡ false)
          × (merge_head h es ≡ add_head (row_key h) (stored_row h) es))
unfolding merge_head
merge_head-cases h es = elim (Bool-cases (is_empty (row_name h))) [
  | inl empty ↦ inl (empty, rw (empty, merge_head) refl)
  | inr named ↦ inr (named, rw (named, merge_head) refl)
]

stored-at :
    (k : String) (h : HeadRow) (es : List Entry)
    → amount_at k (add_head (row_key h) (stored_row h) es)
      ≡ one_if (str_eq (row_key h) k) h.amount + amount_at k es
unfolding stored_row
stored-at k h es = add_head-at k (row_key h) (stored_row h) es

stored-total :
    (h : HeadRow) (es : List Entry)
    → sum_by (λ r. r.amount) (rows_of (add_head (row_key h) (stored_row h) es))
      ≡ h.amount + sum_by (λ r. r.amount) (rows_of es)
unfolding stored_row
stored-total h es = add_head-total (row_key h) (stored_row h) es

merge_heads-at :
    (k : String) (hs : List HeadRow) (es : List Entry)
    → amount_at k (merge_heads hs es) ≡ named_amount k hs + amount_at k es
merge_heads-at k [] es = omega arith
merge_heads-at k (h ∷ hs) es = elim (merge_head-cases h es) [
  | inl (empty, skips) ↦ omega (
    arith,
    merge_heads-at k hs (merge_head h es),
    ap (amount_at k) skips,
    ap (λ b. one_if (not b && str_eq (row_key h) k) h.amount) empty,
  )
  | inr (named, adds) ↦ omega (
    arith,
    merge_heads-at k hs (merge_head h es),
    ap (amount_at k) adds,
    stored-at k h es,
    ap (λ b. one_if (not b && str_eq (row_key h) k) h.amount) named,
  )
]

merge_heads-total :
    (hs : List HeadRow) (es : List Entry)
    → sum_by (λ r. r.amount) (rows_of (merge_heads hs es))
      ≡ named_total hs + sum_by (λ r. r.amount) (rows_of es)
merge_heads-total [] es = omega arith
merge_heads-total (h ∷ hs) es = elim (merge_head-cases h es) [
  | inl (empty, skips) ↦ omega (
    arith,
    merge_heads-total hs (merge_head h es),
    ap (λ m. sum_by (λ r. r.amount) (rows_of m)) skips,
    ap (λ b. one_if (not b) h.amount) empty,
  )
  | inr (named, adds) ↦ omega (
    arith,
    merge_heads-total hs (merge_head h es),
    ap (λ m. sum_by (λ r. r.amount) (rows_of m)) adds,
    stored-total h es,
    ap (λ b. one_if (not b) h.amount) named,
  )
]

merge_heads-single :
    (k : String) (hs : List HeadRow) (es : List Entry)
    → entries_at k es ≤ 1
    → entries_at k (merge_heads hs es) ≤ 1
merge_heads-single k [] es single = single
merge_heads-single k (h ∷ hs) es single = elim (merge_head-cases h es) [
  | inl (empty, skips) ↦
      merge_heads-single k hs (merge_head h es) (subst (λ m. entries_at k m ≤ 1) (sym skips) single)
  | inr (named, adds) ↦ merge_heads-single k hs (merge_head h es) (
      subst (λ m. entries_at k m ≤ 1) (sym adds)
        (add_head-single k (row_key h) (stored_row h) es single))
]

-- The merged breakdown has at most one entry for each key, which carries what the named rows of that
-- key add up to, and all of it adds up to the amounts of the named rows.
pub merge_keeps_amounts :
    (hs : List HeadRow)
    → ((k : String)
        → (amount_at k (merge_heads hs []) ≡ named_amount k hs)
          × (entries_at k (merge_heads hs []) ≤ 1))
      × (sum_by (λ r. r.amount) (merge_fee_head_breakdown hs) ≡ named_total hs)
unfolding merge_fee_head_breakdown
merge_keeps_amounts hs = (
  λ k. (omega (arith, merge_heads-at k hs []), merge_heads-single k hs [] (omega arith)),
  omega (arith, merge_heads-total hs []),
)
