-- ===== src/Credentials/RoundTrip.antt =====
-- What `decodeUsername` reads from a username that `generateUsername` made.
use mothercare_backend.Prelude.{
  ℕ, ◌≤◌, ◌≡◌, refl, sym, ap, subst, ◌∙◌, inl, inr, some, Bool, true, false, List, [], ◌∷◌, ◌++◌,
  leb, length, length-append, if◌then◌else◌, arith, All, ◌&◌, Bool-cases,
}
use mothercare_backend.Credentials.Username.{
  to_string, parse_int, but_last, last_of, scatter, scatter_count, unscatter, unscatter_count,
  digit_to_letter, or_same, letters_of, pad_start, roll_to_letters, is_letter, is_digit, clean_name,
  generate_username, span, Decoded, is_some_text, decode_username,
}
use mothercare_backend.Credentials.Decimal.{
  IsNumeral, All-append, to_string-value, to_string-IsNumeral, to_string-length,
}

last_of-append : (p : List ℕ) (x : ℕ) → last_of (p ++ x ∷ []) ≡ x ∷ []
last_of-append [] x = refl
last_of-append (a ∷ []) x = refl
last_of-append (a ∷ b ∷ p) x = last_of-append (b ∷ p) x

but_last-append : (p : List ℕ) (x : ℕ) → but_last (p ++ x ∷ []) ≡ p
but_last-append [] x = refl
but_last-append (a ∷ []) x = refl
but_last-append (a ∷ b ∷ p) x = ap (λ q. a ∷ q) (but_last-append (b ∷ p) x)

-- A list that is not empty ends in an element.
split_last : (s : List ℕ) → 1 ≤ length s → (p : List ℕ) × (x : ℕ) × (s ≡ p ++ x ∷ [])
split_last [] h = absurd (omega (arith, h))
split_last (a ∷ []) h = ([], a, refl)
split_last (a ∷ b ∷ s) h =
    let (p, x, eq) = split_last (b ∷ s) (omega arith) in (a ∷ p, x, ap (λ q. a ∷ q) eq)

append_assoc2 : (p : List ℕ) (x y : ℕ) → (p ++ x ∷ []) ++ y ∷ [] ≡ p ++ x ∷ y ∷ []
append_assoc2 [] x y = refl
append_assoc2 (a ∷ p) x y = ap (λ q. a ∷ q) (append_assoc2 p x y)

unscatter-cons : (y : ℕ) (p : List ℕ) (x : ℕ) → unscatter (y ∷ p ++ x ∷ []) ≡ p ++ x ∷ y ∷ []
unfolding unscatter
unscatter-cons y [] x = refl
unscatter-cons y (a ∷ p) x =
    ap (λ q. q ++ last_of ((a ∷ p) ++ x ∷ []) ++ y ∷ []) (but_last-append (a ∷ p) x)
    ∙ ap (λ q. (a ∷ p) ++ q ++ y ∷ []) (last_of-append (a ∷ p) x)
    ∙ append_assoc2 (a ∷ p) x y

scatter-ends : (p : List ℕ) (x y : ℕ) → scatter ((p ++ x ∷ []) ++ y ∷ []) ≡ y ∷ p ++ x ∷ []
unfolding scatter
scatter-ends p x y =
    let t = p ++ x ∷ [] in
    let long : leb (length (t ++ y ∷ [])) 1 ≡ false =
      ground (arith, length-append t (y ∷ []), length-append p (x ∷ [])) in
    ap
      (λ b.
        if b
        then t ++ y ∷ []
        else last_of (t ++ y ∷ [])
          ++ but_last (but_last (t ++ y ∷ []))
          ++ last_of (but_last (t ++ y ∷ [])))
      long
    ∙ ap (λ q. q ++ but_last (but_last (t ++ y ∷ [])) ++ last_of (but_last (t ++ y ∷ [])))
        (last_of-append t y)
    ∙ ap (λ q. (y ∷ []) ++ but_last q ++ last_of q) (but_last-append t y)
    ∙ ap (λ q. (y ∷ []) ++ q ++ last_of t) (but_last-append p x)
    ∙ ap (λ q. (y ∷ []) ++ p ++ q) (last_of-append p x)

-- A numeral of one digit stays, a longer one is read back from its three parts.
unscatter-scatter : (s : List ℕ) → 1 ≤ length s → unscatter (scatter s) ≡ s
unfolding scatter unscatter
unscatter-scatter [] h = refl
unscatter-scatter (a ∷ []) h = refl
unscatter-scatter (a ∷ b ∷ s) h =
    let (t, y, whole) = split_last (a ∷ b ∷ s) h in
    let (p, x, front) = split_last t (omega (arith, ap length whole, length-append t (y ∷ []))) in
    let eq : a ∷ b ∷ s ≡ (p ++ x ∷ []) ++ y ∷ [] = whole ∙ ap (λ q. q ++ y ∷ []) front in
    ap (λ q. unscatter (scatter q)) eq
    ∙ ap unscatter (scatter-ends p x y)
    ∙ unscatter-cons y p x
    ∙ sym (append_assoc2 p x y)
    ∙ sym eq

-- The scattered count is the count again.
pub unscatter_count-scatter_count : (n : ℕ) → unscatter_count (scatter_count n) ≡ n
unfolding unscatter_count scatter_count
unscatter_count-scatter_count n =
    ap parse_int (unscatter-scatter (to_string n) (to_string-length n)) ∙ to_string-value n

module _ (test : ℕ → Bool) where
  span-stops :
      (xs : List ℕ) (c : ℕ) (ys : List ℕ)
      → All (λ x. test x ≡ true) xs
      → test c ≡ false
      → span test (xs ++ c ∷ ys) ≡ (xs, c ∷ ys)
  unfolding span
  span-stops [] c ys all stop = rw stop refl
  span-stops (x ∷ xs) c ys all stop =
      rw (all.0) (ap (λ r. (x ∷ r.0, r.1)) (span-stops xs c ys all.1 stop))

last_of-IsNumeral : (s : List ℕ) → IsNumeral s → IsNumeral (last_of s)
last_of-IsNumeral [] all = tt
last_of-IsNumeral (a ∷ []) all = all
last_of-IsNumeral (a ∷ b ∷ s) all = last_of-IsNumeral (b ∷ s) all.1

but_last-IsNumeral : (s : List ℕ) → IsNumeral s → IsNumeral (but_last s)
but_last-IsNumeral [] all = tt
but_last-IsNumeral (a ∷ []) all = tt
but_last-IsNumeral (a ∷ b ∷ s) all = all.0 & but_last-IsNumeral (b ∷ s) all.1

scatter-IsNumeral : (s : List ℕ) → IsNumeral s → IsNumeral (scatter s)
unfolding scatter
scatter-IsNumeral s all = elim (Bool-cases (leb (length s) 1)) [
  | inl short ↦ rw short all
  | inr long ↦ rw long (
      All-append (λ d. is_digit d ≡ true) (last_of s ++ but_last (but_last s))
        (last_of (but_last s))
        (All-append (λ d. is_digit d ≡ true) (last_of s) (but_last (but_last s))
          (last_of-IsNumeral s all) (but_last-IsNumeral (but_last s) (but_last-IsNumeral s all)))
        (last_of-IsNumeral (but_last s) (but_last-IsNumeral s all)))
]

-- Every character is a small letter.
abbrev pub AllLetters : List ℕ → Type 0
AllLetters cs = All (λ c. is_letter c ≡ true) cs

letter-of : (d : ℕ) → is_digit d ≡ true → is_letter (or_same (digit_to_letter d) d) ≡ true
letter-of d h = ground (arith, h)

letters_of-AllLetters : (ds : List ℕ) → IsNumeral ds → AllLetters (letters_of ds)
letters_of-AllLetters [] all = tt
letters_of-AllLetters (d ∷ ds) all = letter-of d all.0 & letters_of-AllLetters ds all.1

pad_start-IsNumeral : (s : List ℕ) → IsNumeral s → IsNumeral (pad_start s)
pad_start-IsNumeral [] all = refl & refl & refl & tt
pad_start-IsNumeral (a ∷ []) all = refl & refl & all
pad_start-IsNumeral (a ∷ b ∷ []) all = refl & all
pad_start-IsNumeral (a ∷ b ∷ c ∷ s) all = all

-- A list that is not empty, as its first element and the rest.
uncons : (s : List ℕ) → 1 ≤ length s → (c : ℕ) × (rest : List ℕ) × (s ≡ c ∷ rest)
uncons [] h = absurd (omega (arith, h))
uncons (c ∷ rest) h = (c, rest, refl)

last_of-single : (s : List ℕ) → 1 ≤ length s → (y : ℕ) × (last_of s ≡ y ∷ [])
last_of-single [] h = absurd (omega (arith, h))
last_of-single (a ∷ []) h = (a, refl)
last_of-single (a ∷ b ∷ s) h = last_of-single (b ∷ s) (omega arith)

digit-letter : (c : ℕ) → is_digit c ≡ true → is_letter c ≡ false
digit-letter c h = ground (arith, h)

letter-digit : (c : ℕ) → is_letter c ≡ true → is_digit c ≡ false
letter-digit c h = ground (arith, h)

-- The four groups of the pattern, read one after the other.
decode-groups :
    (name : List ℕ) (n : ℕ) (number : List ℕ) (l : ℕ) (letters : List ℕ) (y : ℕ)
    → AllLetters name
    → IsNumeral (n ∷ number)
    → AllLetters (l ∷ letters)
    → is_digit y ≡ true
    → is_some_text name ≡ true
    → decode_username (name ++ ((n ∷ number) ++ ((l ∷ letters) ++ y ∷ [])))
      ≡ some (record {
        first_name = name;
        student_number = unscatter_count (n ∷ number);
        admission_year_last_digit = y;
      })
unfolding decode_username
decode-groups name n number l letters y all_name all_number all_letters year given =
    let first =
      span-stops is_letter name n (number ++ ((l ∷ letters) ++ y ∷ [])) all_name
        (digit-letter n all_number.0) in
    let second =
      span-stops is_digit (n ∷ number) l (letters ++ y ∷ []) all_number
        (letter-digit l all_letters.0) in
    let third = span-stops is_letter (l ∷ letters) y [] all_letters (digit-letter y year) in
    rw (first, second, third, given, year) refl

scatter-length : (s : List ℕ) → 1 ≤ length s → 1 ≤ length (scatter s)
unfolding scatter
scatter-length s h =
    let (y, last_digit) = last_of-single s h in
    elim (Bool-cases (leb (length s) 1)) [
      | inl short ↦ rw short h
      | inr long ↦ rw long (
          omega (
            arith,
            ap length last_digit,
            length-append (last_of s ++ but_last (but_last s)) (last_of (but_last s)),
            length-append (last_of s) (but_last (but_last s)),
          ))
    ]

scatter_count-starts : (n : ℕ) → (c : ℕ) × (rest : List ℕ) × (scatter_count n ≡ c ∷ rest)
unfolding scatter_count
scatter_count-starts n =
    uncons (scatter (to_string n)) (scatter-length (to_string n) (to_string-length n))

scatter_count-IsNumeral : (n : ℕ) → IsNumeral (scatter_count n)
unfolding scatter_count
scatter_count-IsNumeral n = scatter-IsNumeral (to_string n) (to_string-IsNumeral n)

roll_to_letters-starts : (s : List ℕ) → (c : ℕ) × (rest : List ℕ) × (roll_to_letters s ≡ c ∷ rest)
unfolding roll_to_letters
roll_to_letters-starts [] = (_, _, refl)
roll_to_letters-starts (a ∷ []) = (_, _, refl)
roll_to_letters-starts (a ∷ b ∷ []) = (_, _, refl)
roll_to_letters-starts (a ∷ b ∷ c ∷ s) = (_, _, refl)

roll_to_letters-AllLetters : (s : List ℕ) → IsNumeral s → AllLetters (roll_to_letters s)
unfolding roll_to_letters
roll_to_letters-AllLetters s all = letters_of-AllLetters (pad_start s) (pad_start-IsNumeral s all)

abbrev as_decoded : List ℕ → ℕ → ℕ → Decoded
as_decoded name m y = record {
  first_name = name;
  student_number = m;
  admission_year_last_digit = y;
}

-- A username that was generated for a name of which at least one character is kept and all that are
-- kept are letters is decoded to that name in its kept form, the student's number, and the last digit
-- of the year.
pub decode_username-generate_username :
    (first_name : List ℕ) (student_number admission_year : ℕ)
    → AllLetters (clean_name first_name)
    → is_some_text (clean_name first_name) ≡ true
    → (y : ℕ) × (last_of (to_string admission_year) ≡ y ∷ [])
      × (decode_username (generate_username first_name student_number admission_year)
          ≡ some (record {
            first_name = clean_name first_name;
            student_number = student_number;
            admission_year_last_digit = y;
          }))
unfolding generate_username
decode_username-generate_username first_name student_number admission_year all_name given =
    let (y, last_digit) =
      last_of-single (to_string admission_year) (to_string-length admission_year) in
    let numeral = to_string-IsNumeral student_number in
    let (n, number, number_eq) = scatter_count-starts student_number in
    let (l, letters, letters_eq) = roll_to_letters-starts (to_string student_number) in
    let kept = clean_name first_name in
    let year_ok =
      subst IsNumeral last_digit
        (last_of-IsNumeral (to_string admission_year) (to_string-IsNumeral admission_year)) in
    (
      y,
      last_digit,
      ap
            (λ q. decode_username (
              kept
              ++ (q
                  ++ (roll_to_letters (to_string student_number)
                      ++ last_of (to_string admission_year)))))
            number_eq
          ∙ ap
              (λ q.
                decode_username
                  (kept ++ ((n ∷ number) ++ (q ++ last_of (to_string admission_year)))))
              letters_eq
          ∙ ap (λ q. decode_username (kept ++ ((n ∷ number) ++ ((l ∷ letters) ++ q)))) last_digit
          ∙ decode-groups kept n number l letters y all_name
              (subst IsNumeral number_eq (scatter_count-IsNumeral student_number))
              (subst AllLetters letters_eq
                (roll_to_letters-AllLetters (to_string student_number) numeral))
              year_ok.0 given
          ∙ ap (λ m. some (as_decoded kept m y))
              (ap unscatter_count (sym number_eq) ∙ unscatter_count-scatter_count student_number),
    )
