-- ===== src/Upload/Answers.antt =====
-- What the database looks like after each answer of the upload handlers.
use mothercare_backend.Prelude.{
  ℕ, ◌≤◌, ◌≡◌, refl, String, Option, none, some, Bool, true, false, arith, ◌⊎◌, inl, inr, ◌==◌,
  Bool-cases,
}
use mothercare_backend.Upload.Db.{Session, Db}
use mothercare_backend.Upload.Result.{
  Error, Result, ok, err, Result-cases, storage_failed, provider,
}
use mothercare_backend.Upload.Session.{find_owned, find_owned-found}
use mothercare_backend.Upload.Transfer.{
  Numeric, Storage, ChunkRequest, ChunkResult, part_size, parse_chunk_headers, check_chunk,
  transfer_tx, rescue, bump_retry, accept_chunk, transfer_chunk,
}
use mothercare_backend.Upload.Invariant.{Accepted, check_chunk-Accepted}
use mothercare_backend.Upload.Steps.Inversion.{Moved, transfer_tx-Moved}

-- How a chunk request at `db` ends: with an error only the counter of transient failures may have
-- changed; with an answer the checks held on the row read first, and one transaction moved the bytes.
abbrev pub ChunkOutcome : ℕ → ℕ → ℕ → Option ℕ → ℕ → ℕ → Db → Db → Result ChunkResult × Db → Type 0
ChunkOutcome now now' id user offset len seen db (err e, db') =
    (db' ≡ db) ⊎ ((e ≡ storage_failed) × (db' ≡ bump_retry now' id db))
ChunkOutcome now now' id user offset len seen db (ok r, db') =
    (owner : ℕ) × (s : Session) × (user ≡ some owner)
    × (seen.sessions id ≡ some s)
    × (s.user_id ≡ owner)
    × Accepted now s offset len r.part_number
    × Moved now' id owner offset len r.part_number r.bytes_uploaded db db'
    × (r.expected_size ≡ s.expected_size)
    × (r.complete ≡ (r.bytes_uploaded == s.expected_size))

rescue_quiet :
    (now id : ℕ) (e : Error) (db : Db)
    → ((rescue now id e db).1 ≡ db)
      ⊎ (((rescue now id e db).0 ≡ storage_failed)
          × ((rescue now id e db).1 ≡ bump_retry now id db))
unfolding rescue
rescue_quiet now id (provider true) db = inr (refl, refl)
rescue_quiet now id (provider false) db = inl refl
rescue_quiet now id e db = inl refl

pub accept_chunk-ChunkOutcome :
    (now now' id : ℕ) (user : Option ℕ) (offset len : ℕ) (locks : Bool) (storage : Storage)
    (seen db : Db)
    → ChunkOutcome now now' id user offset len seen db
        (accept_chunk now now' id user offset len locks storage seen db)
unfolding accept_chunk
accept_chunk-ChunkOutcome now now' id none offset len locks storage seen db = inl refl
accept_chunk-ChunkOutcome now now' id (some u) offset len locks storage seen db =
    elim (Result-cases (find_owned id u seen)) [
      | inl (e, missing) ↦ rw (missing, accept_chunk) (inl refl)
      | inr (s, owned) ↦ elim (Result-cases (check_chunk now s offset len)) [
        | inl (e, refused) ↦ rw (owned, refused, accept_chunk) (inl refl)
        | inr (number, checked) ↦ elim (Bool-cases locks) [
          | inr waits ↦ rw (owned, checked, waits, accept_chunk) (inl refl)
          | inl holds ↦ elim (Result-cases (transfer_tx now' id u offset len number storage db)) [
            | inl (e, thrown) ↦
                rw (owned, checked, holds, thrown, accept_chunk) (rescue_quiet now' id e db)
            | inr ((total, db'), moved) ↦
                rw (owned, checked, holds, moved, accept_chunk)
                  (
                    u,
                    s,
                    refl,
                    (find_owned-found id u seen s owned).0,
                    (find_owned-found id u seen s owned).1,
                    check_chunk-Accepted now s offset len number checked,
                    transfer_tx-Moved now' id u offset len number total storage db db' moved,
                    refl,
                    refl,
                  )
          ]
        ]
      ]
    ]

parse_chunk_headers-bounds :
    (number : String → Numeric) (offset_header length_header : Option String) (offset len : ℕ)
    → parse_chunk_headers number offset_header length_header ≡ ok (offset, len)
    → (1 ≤ len) × (len ≤ part_size)
unfolding parse_chunk_headers
parse_chunk_headers-bounds number offset_header length_header offset len h = ground arith

-- The same for the whole handler: an accepted request had two well-formed headers.
abbrev pub TransferOutcome :
    (String → Numeric) → ℕ → ℕ → ChunkRequest → Db → Db → Result ChunkResult × Db → Type 0
TransferOutcome number now now' req seen db (err e, db') =
    (db' ≡ db) ⊎ ((e ≡ storage_failed) × (db' ≡ bump_retry now' req.session_id db))
TransferOutcome number now now' req seen db (ok r, db') =
    (offset : ℕ) × (len : ℕ) × (parse_chunk_headers number req.offset_header
        req.content_length_header
      ≡ ok (offset, len))
    × (1 ≤ len)
    × (len ≤ part_size)
    × ChunkOutcome now now' req.session_id req.user_id offset len seen db (ok r, db')

-- A chunk request that is answered with an error leaves every row, ledger and file as it was, but for
-- the counter of transient failures after a failed storage call. One that succeeds had well-formed
-- headers with 1 to 5 MiB of content, was sent by the owner, passed every check on the row that was
-- read first, and in one transaction advanced the offset by exactly its length and recorded its part.
pub transfer_chunk-TransferOutcome :
    (number : String → Numeric) (now now' : ℕ) (req : ChunkRequest) (locks : Bool)
    (storage : Storage) (seen db : Db)
    → TransferOutcome number now now' req seen db
        (transfer_chunk number now now' req locks storage seen db)
unfolding transfer_chunk
transfer_chunk-TransferOutcome number now now' req locks storage seen db =
    elim (Result-cases (parse_chunk_headers number req.offset_header req.content_length_header)) [
      | inl (e, malformed) ↦ rw (malformed, transfer_chunk) (inl refl)
      | inr ((offset, len), parsed) ↦
          rw (parsed, transfer_chunk)
            (add_headers number now now' req seen db offset len parsed
              (accept_chunk now now' req.session_id req.user_id offset len locks storage seen db)
              (accept_chunk-ChunkOutcome now now' req.session_id req.user_id offset len locks
                storage seen db))
    ]
  where
    add_headers :
        (number : String → Numeric) (now now' : ℕ) (req : ChunkRequest) (seen db : Db)
        (offset len : ℕ)
        → parse_chunk_headers number req.offset_header req.content_length_header ≡ ok (offset, len)
        → (r : Result ChunkResult × Db)
        → ChunkOutcome now now' req.session_id req.user_id offset len seen db r
        → TransferOutcome number now now' req seen db r
    add_headers number now now' req seen db offset len p (err e, db') h = h
    add_headers number now now' req seen db offset len p (ok r, db') h =
        let b =
          parse_chunk_headers-bounds number req.offset_header req.content_length_header offset len
            p in
        (offset, len, p, b.0, b.1, h)
