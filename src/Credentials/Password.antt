-- ===== src/Credentials/Password.antt =====
-- src/utils/password-policy.ts, and `generatePassword` of src/utils/username.ts. A string is the list of
-- its character codes.
use mothercare_backend.Prelude.{
  ℕ, ◌+◌, ◌-◌, Option, none, some, Bool, false, ◌&&◌, ◌||◌, List, [], ◌∷◌, ◌++◌, ◌==◌, ltb, leb,
  length, not, if◌then◌else◌,
}

-- The reasons of `passwordPolicyError`, in the order of its checks.
pub data WeakPassword : Type 0 where
  too_short : WeakPassword
  no_uppercase : WeakPassword
  no_lowercase : WeakPassword
  no_digit : WeakPassword
  no_special : WeakPassword

abbrev pub has_char : (ℕ → Bool) → List ℕ → Bool
has_char test [] = false
has_char test (c ∷ cs) = test c || has_char test cs

abbrev pub is_upper : ℕ → Bool
is_upper c = leb 65 c && leb c 90

abbrev pub is_lower : ℕ → Bool
is_lower c = leb 97 c && leb c 122

abbrev pub is_numeric : ℕ → Bool
is_numeric c = leb 48 c && leb c 57

-- `SPECIAL`: !@#$%^&*()_+-=[]{}|;:,.<>?
abbrev pub special : List ℕ
special =
    33 ∷ 64 ∷ 35 ∷ 36 ∷ 37 ∷ 94 ∷ 38 ∷ 42 ∷ 40 ∷ 41 ∷ 95 ∷ 43 ∷ 45 ∷ 61 ∷ 91 ∷ 93 ∷ 123 ∷ 125 ∷ 124
    ∷ 59 ∷ 58 ∷ 44 ∷ 46 ∷ 60 ∷ 62 ∷ 63 ∷ []

abbrev pub is_special : ℕ → Bool
is_special c = has_char (λ s. s == c) special

-- `passwordPolicyError`; `none` is a value that is not a string.
unfoldable pub password_policy_error : Option (List ℕ) → Option WeakPassword
password_policy_error none = some too_short
password_policy_error (some password) =
    if ltb (length password) 12
    then some too_short
    else if not (has_char is_upper password)
    then some no_uppercase
    else if not (has_char is_lower password)
    then some no_lowercase
    else if not (has_char is_numeric password)
    then some no_digit
    else if not (has_char is_special password)
    then some no_special
    else none

-- The codes from `first` on.
abbrev pub codes : ℕ → ℕ → List ℕ
codes first ℕ.zero = []
codes first (ℕ.suc n) = first ∷ codes (first + 1) n

abbrev pub upper : List ℕ
upper = codes 65 26

abbrev pub lower_case : List ℕ
lower_case = codes 97 26

abbrev pub digits : List ℕ
digits = codes 48 10

abbrev pub all_chars : List ℕ
all_chars = upper ++ (lower_case ++ (digits ++ special))

abbrev pub char_at : List ℕ → ℕ → Option ℕ
char_at [] i = none
char_at (c ∷ cs) ℕ.zero = some c
char_at (c ∷ cs) (ℕ.suc i) = char_at cs i

-- What `pw += s[i]` appends; out of range it is the text "undefined".
abbrev pub appended : Option ℕ → List ℕ
appended (some c) = c ∷ []
appended none = 117 ∷ 110 ∷ 100 ∷ 101 ∷ 102 ∷ 105 ∷ 110 ∷ 101 ∷ 100 ∷ []

abbrev pub set_at : ℕ → ℕ → List ℕ → List ℕ
set_at i v [] = []
set_at ℕ.zero v (c ∷ cs) = v ∷ cs
set_at (ℕ.suc i) v (c ∷ cs) = c ∷ set_at i v cs

-- `[arr[i], arr[j]] = [arr[j], arr[i]]`, where both are in range.
abbrev pub exchange : ℕ → ℕ → Option ℕ → Option ℕ → List ℕ → List ℕ
exchange i j (some a) (some b) arr = set_at j a (set_at i b arr)
exchange i j _ _ arr = arr

unfoldable pub swap : ℕ → ℕ → List ℕ → List ℕ
swap i j arr = exchange i j (char_at arr i) (char_at arr j) arr

-- `randomInt(max)` of node:crypto, by the number of the call.
module _ (random_int : ℕ → ℕ → ℕ) where
  -- `s[randomInt(s.length)]`, as call `k`
  unfoldable pub pick : ℕ → List ℕ → List ℕ
  pick k s = appended (char_at s (random_int k (length s)))

  -- The loop that adds `n` characters of any kind.
  unfoldable pub fill : ℕ → ℕ → List ℕ
  unfolding pick
  fill k ℕ.zero = []
  fill k (ℕ.suc n) = pick k all_chars ++ fill (k + 1) n

  -- The loop of the shuffle, from index `i` down to 1.
  unfoldable pub shuffle : ℕ → ℕ → List ℕ → List ℕ
  unfolding swap
  shuffle k ℕ.zero arr = arr
  shuffle k (ℕ.suc i) arr = shuffle (k + 1) i (swap (i + 1) (random_int k (i + 2)) arr)

  -- One character of each kind, and 8 more.
  unfoldable pub unshuffled : List ℕ
  unfolding pick fill
  unshuffled =
      pick 0 upper ++ (pick 1 lower_case ++ (pick 2 digits ++ (pick 3 special ++ fill 4 8)))

  -- `generatePassword`
  unfoldable pub generate_password : List ℕ
  unfolding unshuffled shuffle
  generate_password = shuffle 12 (length unshuffled - 1) unshuffled
