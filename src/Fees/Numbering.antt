-- ===== src/Fees/Numbering.antt =====
-- The retries of `generateReceiptNumber` and the numbers that it gives.
use mothercare_backend.Prelude.{
  ℕ, ◌+◌, ◌≤◌, ◌<◌, ◌≡◌, ◌≢◌, ◌↔◌, refl, sym, ap, subst, ℕ-cases, ◌∙◌, ◌⊎◌, inl, inr, true, List,
  [], ◌∷◌, ltb, leb, ◌&&◌, if◌then◌else◌, arith, All, ◌&◌, Bool-cases,
}
use mothercare_backend.Prelude.Outcome.{Outcome, err, ok, Outcome-cases, ok-same, err-same}
use mothercare_backend.Fees.Db.{Receipt}
use mothercare_backend.Fees.Receipts.{
  FeeError, system_busy, is_unique_violation, last_seq, next_receipt, generate_from,
  generate_receipt_number, max_attempts,
}

last_seq-grows : (seq : ℕ) (rs : List Receipt) → seq ≤ last_seq seq rs
unfolding last_seq
last_seq-grows seq [] = omega arith
last_seq-grows seq (r ∷ rs) =
    ground (arith, last_seq-grows (if leb r.seq 9999 && ltb seq r.seq then r.seq else seq) rs)

last_seq-All :
    (seq : ℕ) (rs : List Receipt)
    → All (λ r. r.seq ≤ 9999) rs
    → All (λ r. r.seq ≤ last_seq seq rs) rs
unfolding last_seq
last_seq-All seq [] all = tt
last_seq-All seq (r ∷ rs) all =
    ground
      (arith, last_seq-grows (if leb r.seq 9999 && ltb seq r.seq then r.seq else seq) rs, all.0)
    & last_seq-All (if leb r.seq 9999 && ltb seq r.seq then r.seq else seq) rs all.1

last_seq-capped : (seq : ℕ) (rs : List Receipt) → seq ≤ 9999 → last_seq seq rs ≤ 9999
unfolding last_seq
last_seq-capped seq [] h = h
last_seq-capped seq (r ∷ rs) h =
    last_seq-capped (if leb r.seq 9999 && ltb seq r.seq then r.seq else seq) rs (ground (arith, h))

-- The next number is at most 10000, and it is larger than every number among the candidates, provided
-- that these all have at most four digits.
pub next_receipt_new :
    (series : ℕ) (candidates : List Receipt)
    → ((next_receipt series candidates).seq ≤ 10000)
      × (All (λ r. r.seq ≤ 9999) candidates
          → All (λ r. r.seq < (next_receipt series candidates).seq) candidates)
unfolding next_receipt
next_receipt_new series candidates = (
  omega (arith, last_seq-capped 0 candidates (omega arith)),
  λ all. below (last_seq 0 candidates) candidates (last_seq-All 0 candidates all),
)
  where
    below : (n : ℕ) (rs : List Receipt) → All (λ r. r.seq ≤ n) rs → All (λ r. r.seq < n + 1) rs
    below n [] all = tt
    below n (r ∷ rs) all = omega (arith, all.0) & below n rs all.1

module _ {R : Type 0} (series : ℕ) (reads : ℕ → List Receipt)
    (create : ℕ → Receipt → Outcome FeeError R) where
  -- The transaction of one attempt, with the number that it reads.
  abbrev pub tried : ℕ → Outcome FeeError R
  tried k = create k (next_receipt series (reads k))

  -- The attempt lost its number, or its key, to another request.
  abbrev pub Lost : ℕ → Type 0
  Lost k = (thrown : FeeError) × (tried k ≡ err thrown) × (is_unique_violation thrown ≡ true)

  abbrev pub Answers : ℕ → ℕ → R × Receipt → Type 0
  Answers from left answer =
      (k : ℕ) × (from ≤ k)
      × (k < from + left)
      × ((j : ℕ) → from ≤ j → j < k → Lost j)
      × (tried k ≡ ok answer.0)
      × (answer.1 ≡ next_receipt series (reads k))

  -- What one turn of the loop comes to.
  generate-cases :
      (left from : ℕ)
      → ((made : R) × (tried from ≡ ok made)
          × (generate_from series reads create (ℕ.suc left) from
              ≡ ok (made, next_receipt series (reads from))))
        ⊎ ((Lost from
              × (generate_from series reads create (ℕ.suc left) from
                  ≡ generate_from series reads create left (from + 1))
              × (0 < left))
            ⊎ ((thrown : FeeError) × (tried from ≡ err thrown)
                × (generate_from series reads create (ℕ.suc left) from ≡ err thrown)))
  unfolding generate_from
  generate-cases left from = elim (Outcome-cases (tried from)) [
    | inr (made, done) ↦ inl (made, done, rw (done, generate_from) refl)
    | inl (thrown, failed) ↦ elim (Bool-cases (is_unique_violation thrown && ltb 0 left)) [
      | inl again ↦ inr (
          inl (
            (thrown, failed, ground (arith, again)),
            rw (failed, generate_from, again) refl,
            ground (arith, again),
          ))
      | inr stop ↦ inr (inr (thrown, failed, rw (failed, generate_from, stop) refl))
    ]
  ]

  first-Lost :
      (from : ℕ) {k : ℕ}
      → Lost from
      → ((j : ℕ) → from + 1 ≤ j → j < k → Lost j)
      → (j : ℕ) → from ≤ j
      → j < k
      → Lost j
  first-Lost from lost losts j above below = elim (ℕ-cases from j) [
    | inl same ↦ subst Lost same lost
    | inr other ↦ losts j (omega (arith, above, other)) below
  ]

  generate-Answers :
      (left from : ℕ) (answer : R × Receipt)
      → generate_from series reads create left from ≡ ok answer
      → Answers from left answer
  unfolding generate_from
  generate-Answers ℕ.zero from answer h = absurd (cc (h))
  generate-Answers (ℕ.suc left) from answer h = elim (generate-cases left from) [
    | inl (made, done, eq) ↦
        let same : (made, next_receipt series (reads from)) ≡ answer = ok-same (sym eq ∙ h) in
        (
          from,
          omega arith,
          omega arith,
          λ j above below. absurd (omega (arith, above, below)),
          done ∙ ap (λ a. ok a.0) same,
          sym (ap (λ a. a.1) same),
        )
    | inr (inl (lost, eq, _)) ↦
        let (k, above, below, losts, done, number) =
          generate-Answers left (from + 1) answer (sym eq ∙ h) in
        (k, omega (arith, above), omega (arith, below), first-Lost from lost losts, done, number)
    | inr (inr (thrown, failed, eq)) ↦ absurd (cc (eq, h))
  ]

  generate_from-Answers :
      (left from : ℕ) (answer : R × Receipt)
      → Answers from left answer
      → generate_from series reads create left from ≡ ok answer
  unfolding generate_from
  generate_from-Answers ℕ.zero from answer (k, above, below, losts, done, number) =
      absurd (omega (arith, above, below))
  generate_from-Answers (ℕ.suc left) from answer (k, above, below, losts, done, number) =
      elim (ℕ-cases from k) [
        | inl same ↦
            let here : tried from ≡ ok answer.0 = ap tried same ∙ done in
            rw (here, generate_from)
              (ap ok (
                ap (λ n. (answer.0, n))
                  (ap (λ j. next_receipt series (reads j)) same ∙ sym number)))
        | inr other ↦
            let (thrown, failed, again) = losts from (omega arith) (omega (arith, above, other)) in
            let more : is_unique_violation thrown && ltb 0 left ≡ true =
              ground (arith, again, below, above, other) in
            rw (failed, generate_from, more)
              (generate_from-Answers left (from + 1) answer (
                k,
                omega (arith, above, other),
                omega (arith, below),
                λ j over under. losts j (omega (arith, over)) under,
                done,
                number,
              ))
      ]

  -- The request gets a number if and only if, within the ten attempts, one transaction succeeds and
  -- every attempt before it only lost a unique column to another request; it then has the number and
  -- the result of that attempt.
  pub generate_receipt_number_iff :
      (answer : R × Receipt)
      → (generate_receipt_number series reads create ≡ ok answer) ↔ Answers 0 max_attempts answer
  generate_receipt_number_iff answer =
      (generate-Answers max_attempts 0 answer, generate_from-Answers max_attempts 0 answer)

  attempts-never_busy :
      (left from : ℕ)
      → 0 < left
      → ((k : ℕ) → tried k ≢ err system_busy)
      → generate_from series reads create left from ≢ err system_busy
  attempts-never_busy ℕ.zero from some_left honest h = absurd (omega (arith, some_left))
  attempts-never_busy (ℕ.suc left) from some_left honest h = elim (generate-cases left from) [
    | inl (made, done, eq) ↦ absurd (cc (eq, h))
    | inr (inl (lost, eq, more)) ↦ attempts-never_busy left (from + 1) more honest (sym eq ∙ h)
    | inr (inr (thrown, failed, eq)) ↦ honest from (failed ∙ ap err (err-same (sym eq ∙ h)))
  ]

  -- Nobody is told that the system is busy: the request does not end with the error that stands after
  -- the loop, if no transaction throws that error itself.
  pub generate-never_busy :
      ((k : ℕ) → tried k ≢ err system_busy)
      → generate_receipt_number series reads create ≢ err system_busy
  generate-never_busy honest = attempts-never_busy max_attempts 0 (omega arith) honest
