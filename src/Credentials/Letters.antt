-- ===== src/Credentials/Letters.antt =====
-- What `lettersToRoll` reads from the letters of a number: src/utils/username.ts.
use mothercare_backend.Prelude.{
  ℕ, ◌+◌, ◌/◌, ◌%◌, ◌<◌, ◌≡◌, refl, ap, ◌∙◌, inl, inr, true, false, List, [], ◌∷◌, ◌++◌, ◌==◌, ltb,
  arith, Bool-cases, Bool, if◌then◌else◌, ◌&◌,
}
use mothercare_backend.Credentials.Username.{
  digits_from, to_string, digit_to_letter, or_same, letters_of, pad_start, roll_to_letters,
  is_digit, letter_to_digit, digits_of, strip_zeros, or_zero, letters_to_roll,
}
use mothercare_backend.Credentials.Decimal.{IsNumeral, to_string-IsNumeral}

digit_of_letter :
    (d : ℕ)
    → is_digit d ≡ true
    → or_same (letter_to_digit (or_same (digit_to_letter d) d)) (or_same (digit_to_letter d) d) ≡ d
digit_of_letter d h = ground (arith, h)

digits_of-letters_of : (ds : List ℕ) → IsNumeral ds → digits_of (letters_of ds) ≡ ds
digits_of-letters_of [] h = refl
digits_of-letters_of (d ∷ ds) h = cc (digit_of_letter d h.0, digits_of-letters_of ds h.1)

strip-pad : (ds : List ℕ) → strip_zeros (pad_start ds) ≡ strip_zeros ds
unfolding strip_zeros
strip-pad [] = refl
strip-pad (a ∷ []) = refl
strip-pad (a ∷ b ∷ []) = refl
strip-pad (a ∷ b ∷ c ∷ s) = refl

pad-IsNumeral : (ds : List ℕ) → IsNumeral ds → IsNumeral (pad_start ds)
pad-IsNumeral [] h = refl & refl & refl & tt
pad-IsNumeral (a ∷ []) h = refl & refl & h
pad-IsNumeral (a ∷ b ∷ []) h = refl & h
pad-IsNumeral (a ∷ b ∷ c ∷ s) h = h

-- A numeral that starts with no zero.
abbrev leads : List ℕ → Bool
leads [] = false
leads (d ∷ ds) = if d == 48 then false else true

leads-append : (xs ys : List ℕ) → leads xs ≡ true → leads (xs ++ ys) ≡ true
leads-append [] ys h = cc (h)
leads-append (x ∷ xs) ys h = h

digits_from-leads : (fuel n : ℕ) → n < fuel → 0 < n → leads (digits_from fuel n) ≡ true
unfolding digits_from
digits_from-leads ℕ.zero n h p = absurd (omega (arith, h))
digits_from-leads (ℕ.suc fuel) n h p = elim (Bool-cases (ltb n 10)) [
  | inl small ↦ rw small (ground (arith, p))
  | inr large ↦ rw large (
      leads-append (digits_from fuel (n / 10)) ((n % 10 + 48) ∷ [])
        (digits_from-leads fuel (n / 10) (ground (arith, h, large)) (ground (arith, large))))
]

strip-leads : (ds : List ℕ) → leads ds ≡ true → or_zero (strip_zeros ds) ≡ ds
unfolding strip_zeros
strip-leads [] h = cc (h)
strip-leads (d ∷ ds) h = elim (Bool-cases (d == 48)) [
  | inl zero ↦ absurd (ground (arith, h, zero))
  | inr lead ↦ rw lead refl
]

strip-to_string : (n : ℕ) → or_zero (strip_zeros (to_string n)) ≡ to_string n
unfolding to_string digits_from strip_zeros
strip-to_string ℕ.zero = refl
strip-to_string (ℕ.suc n) =
    strip-leads (to_string (ℕ.suc n))
      (digits_from-leads (ℕ.suc n + 1) (ℕ.suc n) (omega arith) (omega arith))

-- The letters of a number are read back as its digits, however many there are.
pub letters_to_roll-roll_to_letters :
    (n : ℕ) → letters_to_roll (roll_to_letters (to_string n)) ≡ to_string n
unfolding letters_to_roll roll_to_letters
letters_to_roll-roll_to_letters n =
    ap (λ ds. or_zero (strip_zeros ds))
      (digits_of-letters_of (pad_start (to_string n))
        (pad-IsNumeral (to_string n) (to_string-IsNumeral n)))
    ∙ ap or_zero (strip-pad (to_string n))
    ∙ strip-to_string n
