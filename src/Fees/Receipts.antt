-- ===== src/Fees/Receipts.antt =====
-- `generateReceiptNumber`, which numbers a payment and retries when another request took the number,
-- and what the handlers of payments throw.
use mothercare_backend.Prelude.{
  ℕ, ◌+◌, take, none, Bool, true, false, ◌&&◌, List, [], ◌∷◌, ◌==◌, ltb, leb, if◌then◌else◌,
}
use mothercare_backend.Prelude.Outcome.{Outcome, err, ok}
use mothercare_backend.Fees.Db.{Receipt, Payment}

-- What the handlers of payments throw. `receipt_taken` and `key_taken` are the P2002 of Prisma on the
-- two unique columns.
pub data FeeError : Type 0 where
  bad_key bad_request nothing_open already_paid not_theirs exceeds_due head_missing : FeeError
  key_of_another branch_denied fee_not_found system_busy already_reverted payment_not_found :
      FeeError
  receipt_taken key_taken nothing_selected total_mismatch no_year wrong_year family_not_found
        not_in_family not_the_owner :
      FeeError

-- `err.code === 'P2002'`
abbrev pub is_unique_violation : FeeError → Bool
is_unique_violation receipt_taken = true
is_unique_violation key_taken = true
is_unique_violation _ = false

-- The largest sequence number of the candidates; the pattern reads exactly four digits.
unfoldable pub last_seq : ℕ → List Receipt → ℕ
last_seq seq [] = seq
last_seq seq (r ∷ rs) = last_seq (if leb r.seq 9999 && ltb seq r.seq then r.seq else seq) rs

unfoldable pub next_receipt : ℕ → List Receipt → Receipt
unfolding last_seq
next_receipt series candidates = record {
  series = series;
  seq = last_seq 0 candidates + 1;
  part = none;
}

abbrev pub max_attempts : ℕ
max_attempts = 10

-- `findMany` with the series, newest first, `take: 500`.
abbrev pub in_series : ℕ → List Payment → List Receipt
in_series series [] = []
in_series series (p ∷ ps) =
    let rest = in_series series ps in
    if p.receipt_number.series == series then p.receipt_number ∷ rest else rest

unfoldable pub candidates : ℕ → List Payment → List Receipt
candidates series ps = take 500 (in_series series ps)

module _ {κ} {R : Type κ} (series : ℕ) (reads : ℕ → List Receipt)
    (create : ℕ → Receipt → Outcome FeeError R) where
  -- The attempts that are left: each reads the table at its own time and runs the transaction.
  unfoldable pub generate_from : ℕ → ℕ → Outcome FeeError (R × Receipt)
  generate_from ℕ.zero attempt = err system_busy
  generate_from (ℕ.suc left) attempt =
      let rest = generate_from left (attempt + 1) in
      elim (create attempt (next_receipt series (reads attempt))) [
        | ok made ↦ ok (made, next_receipt series (reads attempt))
        | err thrown ↦ if is_unique_violation thrown && ltb 0 left then rest else err thrown
      ]

  abbrev pub generate_receipt_number : Outcome FeeError (R × Receipt)
  generate_receipt_number = generate_from max_attempts 0
