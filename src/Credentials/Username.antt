-- ===== src/Credentials/Username.antt =====
-- src/utils/username.ts. A string is the list of its character codes.
use mothercare_backend.Prelude.{
  ℕ, ◌+◌, ◌-◌, ◌*◌, ◌/◌, ◌%◌, Option, none, some, Bool, true, false, ◌&&◌, ◌||◌, List, [], ◌∷◌,
  ◌++◌, ◌==◌, ltb, leb, length, if◌then◌else◌,
}

-- The decimal digits of a number, on as much fuel as the number is large.
unfoldable pub digits_from : ℕ → ℕ → List ℕ
digits_from ℕ.zero n = []
digits_from (ℕ.suc fuel) n =
    let front = digits_from fuel (n / 10) in
    if ltb n 10 then (n + 48) ∷ [] else front ++ (n % 10 + 48) ∷ []

-- `count.toString()`
unfoldable pub to_string : ℕ → List ℕ
unfolding digits_from
to_string n = digits_from (n + 1) n

-- `parseInt(s, 10)`, on digits
abbrev pub parse_from : ℕ → List ℕ → ℕ
parse_from acc [] = acc
parse_from acc (d ∷ ds) = parse_from (acc * 10 + (d - 48)) ds

unfoldable pub parse_int : List ℕ → ℕ
parse_int ds = parse_from 0 ds

module _ {ℓ} {A : Type ℓ} where
  -- `slice(0, -1)`
  abbrev pub but_last : List A → List A
  but_last [] = []
  but_last (x ∷ []) = []
  but_last (x ∷ y ∷ ys) = x ∷ but_last (y ∷ ys)

  -- `slice(-1)`
  abbrev pub last_of : List A → List A
  last_of [] = []
  last_of (x ∷ []) = x ∷ []
  last_of (x ∷ y ∷ ys) = last_of (y ∷ ys)

-- `scatterCount`, on the digits: the last one, those before the last two, and the last but one.
unfoldable pub scatter : List ℕ → List ℕ
scatter s =
    if leb (length s) 1 then s else last_of s ++ but_last (but_last s) ++ last_of (but_last s)

unfoldable pub scatter_count : ℕ → List ℕ
unfolding scatter to_string
scatter_count n = scatter (to_string n)

-- `unscatterCount`, up to its `parseInt`: the middle, the last character and the first one.
unfoldable pub unscatter : List ℕ → List ℕ
unscatter [] = []
unscatter (first ∷ []) = first ∷ []
unscatter (first ∷ x ∷ rest) = but_last (x ∷ rest) ++ last_of (x ∷ rest) ++ first ∷ []

unfoldable pub unscatter_count : List ℕ → ℕ
unfolding unscatter parse_int
unscatter_count scattered = parse_int (unscatter scattered)

-- `DIGIT_TO_LETTER`
abbrev pub digit_to_letter : ℕ → Option ℕ
digit_to_letter d =
    if d == 48
    then some 122
    else if d == 49
    then some 109
    else if d == 50
    then some 112
    else if d == 51
    then some 119
    else if d == 52
    then some 113
    else if d == 53
    then some 116
    else if d == 54
    then some 118
    else if d == 55
    then some 120
    else if d == 56
    then some 114
    else if d == 57
    then some 107
    else none

abbrev pub or_same : Option ℕ → ℕ → ℕ
or_same none c = c
or_same (some d) c = d

abbrev pub letters_of : List ℕ → List ℕ
letters_of [] = []
letters_of (d ∷ ds) = or_same (digit_to_letter d) d ∷ letters_of ds

-- `padStart(3, '0')`
abbrev pub pad_start : List ℕ → List ℕ
pad_start [] = 48 ∷ 48 ∷ 48 ∷ []
pad_start (a ∷ []) = 48 ∷ 48 ∷ a ∷ []
pad_start (a ∷ b ∷ []) = 48 ∷ a ∷ b ∷ []
pad_start s = s

-- `rollToLetters`
unfoldable pub roll_to_letters : List ℕ → List ℕ
roll_to_letters roll = letters_of (pad_start roll)

-- `LETTER_TO_DIGIT`
abbrev pub letter_to_digit : ℕ → Option ℕ
letter_to_digit l =
    if l == 122
    then some 48
    else if l == 109
    then some 49
    else if l == 112
    then some 50
    else if l == 119
    then some 51
    else if l == 113
    then some 52
    else if l == 116
    then some 53
    else if l == 118
    then some 54
    else if l == 120
    then some 55
    else if l == 114
    then some 56
    else if l == 107
    then some 57
    else none

abbrev pub digits_of : List ℕ → List ℕ
digits_of [] = []
digits_of (l ∷ ls) = or_same (letter_to_digit l) l ∷ digits_of ls

-- `.replace(/^0+/, '')`
unfoldable pub strip_zeros : List ℕ → List ℕ
strip_zeros [] = []
strip_zeros (d ∷ ds) = let rest = strip_zeros ds in if d == 48 then rest else d ∷ ds

-- `s || '0'`
abbrev pub or_zero : List ℕ → List ℕ
or_zero [] = 48 ∷ []
or_zero (d ∷ ds) = d ∷ ds

-- `lettersToRoll`
unfoldable pub letters_to_roll : List ℕ → List ℕ
unfolding strip_zeros
letters_to_roll letters = or_zero (strip_zeros (digits_of letters))

abbrev pub is_letter : ℕ → Bool
is_letter c = leb 97 c && leb c 122

abbrev pub is_digit : ℕ → Bool
is_digit c = leb 48 c && leb c 57

-- `toLowerCase`, as far as ASCII can come of it: the capitals, the Kelvin sign and the dotted I.
abbrev pub lower : ℕ → ℕ
lower c =
    if leb 65 c && leb c 90 then c + 32 else if c == 8490 then 107 else if c == 304 then 105 else c

-- `.toLowerCase().replace(/[^a-z0-9]/g, '')`
unfoldable pub clean_name : List ℕ → List ℕ
clean_name [] = []
clean_name (c ∷ cs) =
    let rest = clean_name cs in
    if is_letter (lower c) || is_digit (lower c) then lower c ∷ rest else rest

-- `generateUsername`
unfoldable pub generate_username : List ℕ → ℕ → ℕ → List ℕ
unfolding clean_name scatter_count roll_to_letters to_string
generate_username first_name student_number admission_year =
    clean_name first_name
    ++ (scatter_count student_number
        ++ (roll_to_letters (to_string student_number) ++ last_of (to_string admission_year)))

-- The longest prefix of characters of one class, and what follows it.
unfoldable pub span : (ℕ → Bool) → List ℕ → List ℕ × List ℕ
span test [] = ([], [])
span test (c ∷ cs) =
    let rest = span test cs in if test c then (c ∷ rest.0, rest.1) else ([], c ∷ cs)

pub record Decoded : Type 0 where
  pub first_name : List ℕ
  pub student_number : ℕ
  pub admission_year_last_digit : ℕ

abbrev pub is_some_text : List ℕ → Bool
is_some_text [] = false
is_some_text (c ∷ cs) = true

-- The `(\d)$` of the pattern.
abbrev pub decode_year : List ℕ → List ℕ → List ℕ → Option Decoded
decode_year name number (y ∷ []) =
    if is_digit y
    then some (record {
      first_name = name;
      student_number = unscatter_count number;
      admission_year_last_digit = y;
    })
    else none
decode_year name number _ = none

-- `decodeUsername`: the pattern `^([a-z]+)(\d+)([a-z]+)(\d)$`, whose classes exclude each other, so that
-- each group takes the longest run.
unfoldable pub decode_username : List ℕ → Option Decoded
unfolding span unscatter_count
decode_username username =
    let name = span is_letter username in
    let number = span is_digit name.1 in
    let letters = span is_letter number.1 in
    if is_some_text name.0 && is_some_text number.0 && is_some_text letters.0
    then decode_year name.0 number.0 letters.1
    else none
