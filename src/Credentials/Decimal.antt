-- ===== src/Credentials/Decimal.antt =====
-- The decimal digits of a number and their value.
use mothercare_backend.Prelude.{
  ℕ, ◌+◌, ◌-◌, ◌*◌, ◌/◌, ◌%◌, ◌≤◌, ◌<◌, ◌≡◌, refl, ◌∙◌, inl, inr, true, List, [], ◌∷◌, ◌++◌, ltb,
  length, length-append, arith, All, ◌&◌, Bool-cases,
}
use mothercare_backend.Credentials.Username.{
  digits_from, to_string, parse_from, parse_int, is_digit,
}

parse_from-append :
    (acc : ℕ) (ds : List ℕ) (d : ℕ)
    → parse_from acc (ds ++ d ∷ []) ≡ parse_from acc ds * 10 + (d - 48)
parse_from-append acc [] d = refl
parse_from-append acc (e ∷ ds) d = parse_from-append (acc * 10 + (e - 48)) ds d

digits_from-value : (fuel n : ℕ) → n < fuel → parse_from 0 (digits_from fuel n) ≡ n
unfolding digits_from
digits_from-value ℕ.zero n h = absurd (omega (arith, h))
digits_from-value (ℕ.suc fuel) n h = elim (Bool-cases (ltb n 10)) [
  | inl small ↦ rw small (omega arith)
  | inr large ↦ rw large (
      parse_from-append 0 (digits_from fuel (n / 10)) (n % 10 + 48)
      ∙ omega (arith, digits_from-value fuel (n / 10) (ground (arith, h, large))))
]

pub All-append :
    {A : Type 0} (P : A → Type 0) (xs ys : List A) → All P xs → All P ys → All P (xs ++ ys)
All-append P [] ys p q = q
All-append P (x ∷ xs) ys p q = p.0 & All-append P xs ys p.1 q

abbrev pub IsNumeral : List ℕ → Type 0
IsNumeral ds = All (λ d. is_digit d ≡ true) ds

digits_from-IsNumeral : (fuel n : ℕ) → IsNumeral (digits_from fuel n)
unfolding digits_from
digits_from-IsNumeral ℕ.zero n = tt
digits_from-IsNumeral (ℕ.suc fuel) n = elim (Bool-cases (ltb n 10)) [
  | inl small ↦ rw small (ground (arith, small) & tt)
  | inr large ↦ rw large (
      All-append (λ d. is_digit d ≡ true) (digits_from fuel (n / 10)) ((n % 10 + 48) ∷ [])
        (digits_from-IsNumeral fuel (n / 10)) (ground arith & tt))
]

digits_from-length : (fuel n : ℕ) → 0 < fuel → 1 ≤ length (digits_from fuel n)
unfolding digits_from
digits_from-length ℕ.zero n h = absurd (omega (arith, h))
digits_from-length (ℕ.suc fuel) n h = elim (Bool-cases (ltb n 10)) [
  | inl small ↦ rw small (omega arith)
  | inr large ↦
      rw large (omega (arith, length-append (digits_from fuel (n / 10)) ((n % 10 + 48) ∷ [])))
]

pub to_string-value : (n : ℕ) → parse_int (to_string n) ≡ n
unfolding to_string parse_int
to_string-value n = digits_from-value (n + 1) n (omega arith)

pub to_string-IsNumeral : (n : ℕ) → IsNumeral (to_string n)
unfolding to_string
to_string-IsNumeral n = digits_from-IsNumeral (n + 1) n

pub to_string-length : (n : ℕ) → 1 ≤ length (to_string n)
unfolding to_string
to_string-length n = digits_from-length (n + 1) n (omega arith)
