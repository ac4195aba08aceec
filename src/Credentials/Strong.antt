-- ===== src/Credentials/Strong.antt =====
-- What the policy of src/utils/password-policy.ts says of the passwords of src/utils/username.ts.
use mothercare_backend.Prelude.{
  ℕ, ◌+◌, ◌-◌, ◌≤◌, ◌<◌, ◌≡◌, refl, ap, ◌∙◌, Option, none, some, some-same, Bool, true, false, ◌&&◌,
  List, [], ◌∷◌, ◌++◌, length, length-append, arith,
}
use mothercare_backend.Credentials.Password.{
  has_char, is_upper, is_lower, is_numeric, is_special, special, password_policy_error, upper,
  lower_case, digits, all_chars, char_at, appended, set_at, swap, exchange, pick, fill, shuffle,
  unshuffled, generate_password,
}

-- 1 for a character that passes the test.
abbrev weight : Bool → ℕ
weight true = 1
weight false = 0

module _ (test : ℕ → Bool) where
  abbrev count : List ℕ → ℕ
  count [] = 0
  count (c ∷ cs) = weight (test c) + count cs

  abbrev passes : List ℕ → Bool
  passes [] = true
  passes (c ∷ cs) = test c && passes cs

  count-append : (xs ys : List ℕ) → count (xs ++ ys) ≡ count xs + count ys
  count-append [] ys = omega arith
  count-append (x ∷ xs) ys = omega (arith, count-append xs ys)

  has_char-count : (xs : List ℕ) → 1 ≤ count xs → has_char test xs ≡ true
  has_char-count [] h = absurd (omega (arith, h))
  has_char-count (x ∷ xs) h = ground (arith, has_char-count xs)

  count-set_at :
      (i v a : ℕ) (xs : List ℕ)
      → char_at xs i ≡ some a
      → count (set_at i v xs) + weight (test a) ≡ count xs + weight (test v)
  count-set_at i v a [] h = cc (h)
  count-set_at ℕ.zero v a (x ∷ xs) h = omega (arith, ap (λ c. weight (test c)) (some-same h))
  count-set_at (ℕ.suc i) v a (x ∷ xs) h = omega (arith, count-set_at i v a xs h)

  passes-at : (s : List ℕ) (i c : ℕ) → passes s ≡ true → char_at s i ≡ some c → test c ≡ true
  passes-at [] i c p h = cc (h)
  passes-at (x ∷ xs) ℕ.zero c p h = ground (arith, some-same h)
  passes-at (x ∷ xs) (ℕ.suc i) c p h = passes-at xs i c (ground arith) h

length-set_at : (i v : ℕ) (xs : List ℕ) → length (set_at i v xs) ≡ length xs
length-set_at i v [] = refl
length-set_at ℕ.zero v (x ∷ xs) = refl
length-set_at (ℕ.suc i) v (x ∷ xs) = omega (arith, length-set_at i v xs)

char_at-some : (xs : List ℕ) (i : ℕ) → i < length xs → (c : ℕ) × (char_at xs i ≡ some c)
char_at-some [] i h = absurd (omega (arith, h))
char_at-some (x ∷ xs) ℕ.zero h = (x, refl)
char_at-some (x ∷ xs) (ℕ.suc i) h = char_at-some xs i (omega arith)

-- The value that is written elsewhere may be the one that stands here.
char_at-set_at :
    (i j v w : ℕ) (xs : List ℕ)
    → char_at xs i ≡ some v
    → char_at xs j ≡ some w
    → char_at (set_at i w xs) j ≡ some w
char_at-set_at i j v w [] h k = k
char_at-set_at ℕ.zero ℕ.zero v w (x ∷ xs) h k = refl
char_at-set_at ℕ.zero (ℕ.suc j) v w (x ∷ xs) h k = k
char_at-set_at (ℕ.suc i) ℕ.zero v w (x ∷ xs) h k = k
char_at-set_at (ℕ.suc i) (ℕ.suc j) v w (x ∷ xs) h k = char_at-set_at i j v w xs h k

-- An exchange keeps the length, and how many characters pass a test.
abbrev SameKinds : List ℕ → List ℕ → Type 0
SameKinds xs ys = (length xs ≡ length ys) × ((test : ℕ → Bool) → count test xs ≡ count test ys)

exchange-SameKinds :
    (i j : ℕ) (o p : Option ℕ) (xs : List ℕ)
    → char_at xs i ≡ o
    → char_at xs j ≡ p
    → SameKinds (exchange i j o p xs) xs
exchange-SameKinds i j none p xs h k = (refl, λ test. refl)
exchange-SameKinds i j (some a) none xs h k = (refl, λ test. refl)
exchange-SameKinds i j (some a) (some b) xs h k = (
  length-set_at j a (set_at i b xs) ∙ length-set_at i b xs,
  λ test. omega (
    arith,
    count-set_at test j a b (set_at i b xs) (char_at-set_at i j a b xs h k),
    count-set_at test i b a xs h,
  ),
)

swap-SameKinds : (i j : ℕ) (xs : List ℕ) → SameKinds (swap i j xs) xs
unfolding swap
swap-SameKinds i j xs = exchange-SameKinds i j (char_at xs i) (char_at xs j) xs refl refl

module _ (random_int : ℕ → ℕ → ℕ) where
  shuffle-SameKinds : (k i : ℕ) (xs : List ℕ) → SameKinds (shuffle random_int k i xs) xs
  unfolding shuffle
  shuffle-SameKinds k ℕ.zero xs = (refl, λ test. refl)
  shuffle-SameKinds k (ℕ.suc i) xs =
      let one = swap-SameKinds (i + 1) (random_int k (i + 2)) xs in
      let rest = shuffle-SameKinds (k + 1) i (swap (i + 1) (random_int k (i + 2)) xs) in
      (rest.0 ∙ one.0, λ test. rest.1 test ∙ one.1 test)

  -- Every number is below its bound.
  module _ (random_int_below : (k n : ℕ) → 0 < n → random_int k n < n) where
    pick-one :
        (test : ℕ → Bool) (k : ℕ) (s : List ℕ)
        → 1 ≤ length s
        → passes test s ≡ true
        → (length (pick random_int k s) ≡ 1) × (count test (pick random_int k s) ≡ 1)
    unfolding pick
    pick-one test k s h p =
        let (c, at) = char_at-some s (random_int k (length s)) (random_int_below k (length s) h) in
        (
          ap (λ o. length (appended o)) at,
          ap (λ o. count test (appended o)) at
              ∙ ap (λ b. weight b + 0) (passes-at test s (random_int k (length s)) c p at),
        )

    fill-length : (k n : ℕ) → length (fill random_int k n) ≡ n
    unfolding fill
    fill-length k ℕ.zero = refl
    fill-length k (ℕ.suc n) = omega (
      arith,
      length-append (pick random_int k all_chars) (fill random_int (k + 1) n),
      (pick-one (λ c. true) k all_chars (omega arith) refl).0,
      fill-length (k + 1) n,
    )

    -- The lengths of the four first characters and of the rest.
    unshuffled-length : length (unshuffled random_int) ≡ 12
    unfolding unshuffled
    unshuffled-length =
        let u = pick random_int 0 upper in
        let l = pick random_int 1 lower_case in
        let d = pick random_int 2 digits in
        let s = pick random_int 3 special in
        let rest = fill random_int 4 8 in
        omega (
          arith,
          length-append u (l ++ (d ++ (s ++ rest))),
          length-append l (d ++ (s ++ rest)),
          length-append d (s ++ rest),
          length-append s rest,
          (pick-one (λ c. true) 0 upper (omega arith) refl).0,
          (pick-one (λ c. true) 1 lower_case (omega arith) refl).0,
          (pick-one (λ c. true) 2 digits (omega arith) refl).0,
          (pick-one (λ c. true) 3 special (omega arith) refl).0,
          fill-length 4 8,
        )

    unshuffled-count :
        (test : ℕ → Bool)
        → count test (unshuffled random_int)
          ≡ count test (pick random_int 0 upper)
            + (count test (pick random_int 1 lower_case)
                + (count test (pick random_int 2 digits)
                    + (count test (pick random_int 3 special) + count test (fill random_int 4 8))))
    unfolding unshuffled
    unshuffled-count test =
        let u = pick random_int 0 upper in
        let l = pick random_int 1 lower_case in
        let d = pick random_int 2 digits in
        let s = pick random_int 3 special in
        let rest = fill random_int 4 8 in
        omega (
          arith,
          count-append test u (l ++ (d ++ (s ++ rest))),
          count-append test l (d ++ (s ++ rest)),
          count-append test d (s ++ rest),
          count-append test s rest,
        )

    -- The shuffle keeps what the text before it has.
    generate_password-has :
        (test : ℕ → Bool)
        → 1 ≤ count test (unshuffled random_int)
        → has_char test (generate_password random_int) ≡ true
    unfolding generate_password
    generate_password-has test h =
        let kept =
          (shuffle-SameKinds 12 (length (unshuffled random_int) - 1) (unshuffled random_int)).1
            test in
        has_char-count test _ (omega (arith, h, kept))

    generate_password-length : length (generate_password random_int) ≡ 12
    unfolding generate_password
    generate_password-length =
        (shuffle-SameKinds 12 (length (unshuffled random_int) - 1) (unshuffled random_int)).0
        ∙ unshuffled-length

accepted :
    (p : List ℕ)
    → length p ≡ 12
    → has_char is_upper p ≡ true
    → has_char is_lower p ≡ true
    → has_char is_numeric p ≡ true
    → has_char is_special p ≡ true
    → password_policy_error (some p) ≡ none
unfolding password_policy_error
accepted p len u l d s = ground arith

-- If `randomInt` answers below its bound, `generatePassword` makes 12 characters that
-- `passwordPolicyError` finds no fault with, wherever the shuffle puts them.
pub generated_password_accepted :
    (random_int : ℕ → ℕ → ℕ)
    → ((k n : ℕ) → 0 < n → random_int k n < n)
    → (length (generate_password random_int) ≡ 12)
      × (password_policy_error (some (generate_password random_int)) ≡ none)
generated_password_accepted r below =
    let has = generate_password-has r below in
    let total = unshuffled-count r below in
    let len = generate_password-length r below in
    (
      len,
      accepted (generate_password r) len
          (has is_upper (
            omega
              (arith, total is_upper, (pick-one r below is_upper 0 upper (omega arith) refl).1)))
          (has is_lower (
            omega (
              arith,
              total is_lower,
              (pick-one r below is_lower 1 lower_case (omega arith) refl).1,
            )))
          (has is_numeric (
            omega (
              arith,
              total is_numeric,
              (pick-one r below is_numeric 2 digits (omega arith) refl).1,
            )))
          (has is_special (
            omega (
              arith,
              total is_special,
              (pick-one r below is_special 3 special (omega arith) refl).1,
            ))),
    )
