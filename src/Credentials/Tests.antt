-- ===== src/Credentials/Tests.antt =====
-- The student 907 of the year 2026, named Ali.
use mothercare_backend.Prelude.{
  ℕ, ◌≡◌, ◌/◌, length, arith, refl, none, some, List, [], ◌∷◌, ◌&◌, true,
}
use mothercare_backend.Credentials.Username.{
  to_string, last_of, is_some_text, clean_name, generate_username, decode_username, roll_to_letters,
}
use mothercare_backend.Credentials.Password.{too_short, password_policy_error, generate_password}
use mothercare_backend.Credentials.Strong.{generated_password_accepted}
use mothercare_backend.Credentials.RoundTrip.{AllLetters, decode_username-generate_username}

-- "Ali"
abbrev ali : List ℕ
ali = 65 ∷ 108 ∷ 105 ∷ []

-- "ali790kzx6"
username :
    generate_username ali 907 2026 ≡ 97 ∷ 108 ∷ 105 ∷ 55 ∷ 57 ∷ 48 ∷ 107 ∷ 122 ∷ 120 ∷ 54 ∷ []
unfolding generate_username
username = refl

ali_letters : AllLetters (clean_name ali)
unfolding clean_name
ali_letters = refl & refl & refl & tt

ali_kept : is_some_text (clean_name ali) ≡ true
unfolding clean_name
ali_kept = refl

decode_username-generate_username_example :
    (y : ℕ) × (last_of (to_string 2026) ≡ y ∷ [])
    × (decode_username (generate_username ali 907 2026)
        ≡ some (record {
          first_name = clean_name ali;
          student_number = 907;
          admission_year_last_digit = y;
        }))
decode_username-generate_username_example =
    decode_username-generate_username ali 907 2026 ali_letters ali_kept

-- The digit of "Ali2" is read as part of the number: 2790 scattered from 7902.
name_with_digit :
    decode_username (generate_username (65 ∷ 108 ∷ 105 ∷ 50 ∷ []) 907 2026)
    ≡ some (record {
      first_name = 97 ∷ 108 ∷ 105 ∷ [];
      student_number = 7902;
      admission_year_last_digit = 54;
    })
unfolding generate_username decode_username
name_with_digit = refl

-- The four digits of 1017 are four letters.
four_letters : roll_to_letters (to_string 1017) ≡ 109 ∷ 122 ∷ 109 ∷ 120 ∷ []
unfolding roll_to_letters to_string
four_letters = refl

-- A `randomInt` that answers half its bound.
abbrev halves : ℕ → ℕ → ℕ
halves k n = n / 2

generated_password_accepted_example :
    (length (generate_password halves) ≡ 12)
    × (password_policy_error (some (generate_password halves)) ≡ none)
generated_password_accepted_example = generated_password_accepted halves (λ k n h. omega arith)

-- The first reason of a short password, and that of twelve letters.
short_password : password_policy_error (some ali) ≡ some too_short
unfolding password_policy_error
short_password = refl

-- "Nsns5s=sssss"
generated :
    generate_password halves
    ≡ 78 ∷ 115 ∷ 110 ∷ 115 ∷ 53 ∷ 115 ∷ 61 ∷ 115 ∷ 115 ∷ 115 ∷ 115 ∷ 115 ∷ []
unfolding generate_password
generated = refl
