-- ===== src/Upload/Transfer.antt =====
-- upload-transfer.service.ts: one chunk is checked, streamed to the storage provider and recorded in
-- the part ledger; a byte-full session is completed.
use text.Mathlib.Text.{◌==◌ as str_eq}
use mothercare_backend.Prelude.{
  ℕ, ◌+◌, ◌-◌, ◌*◌, ◌/◌, ◌%◌, String, Option, none, some, Bool, true, false, not, ◌||◌, List, [],
  ◌∷◌, ◌==◌, leb, if◌then◌else◌, sum_by,
}
use mothercare_backend.Prelude.Int.{ℤ, pos, negsuc}
use mothercare_backend.Upload.Status.{initiated, uploading, completing, same, is_terminal_status}
use mothercare_backend.Upload.Db.{Session, Part, Db, put_session, put_parts, upsert}
use mothercare_backend.Upload.Result.{
  Error, Result, ok, err, ◌>>=◌, ◌>>◌, guard, or_throw, unauthenticated, session_expired, already,
  offset_missing, offset_malformed, length_missing, length_malformed, chunk_too_large, stale_offset,
  offset_exceeds, chunk_exceeds, chunk_not_full, not_aligned, concurrent_transfer, storage_failed,
  no_parts, not_contiguous, inconsistent_sizes, parts_cover, provider,
}
use mothercare_backend.Upload.Session.{is_session_expired, find_owned}

-- `TRANSFER_PART_SIZE` and `TRANSFER_MAX_CHUNK`
abbrev pub part_size : ℕ
part_size = 5 * 1024 * 1024

-- What JavaScript's `Number` makes of a header: an integer, or something else.
pub data Numeric : Type 0 where
  int : ℤ → Numeric
  other : Numeric

-- A header that is absent or empty has no text.
abbrev present : Option String → Option String
present none = none
present (some h) = if str_eq h "" then none else some h

abbrev pub whole_number : Numeric → Error → Result ℕ
whole_number (int (pos n)) e = ok n
whole_number (int (negsuc n)) e = err e
whole_number other e = err e

-- `parseChunkHeaders`: the offset and the length.
unfoldable pub parse_chunk_headers :
    (String → Numeric) → Option String → Option String → Result (ℕ × ℕ)
parse_chunk_headers number offset_header length_header = do
  offset_text ← or_throw (present offset_header) offset_missing
  client_offset ← whole_number (number offset_text) offset_malformed
  length_text ← or_throw (present length_header) length_missing
  content_length ← whole_number (number length_text) length_malformed
  guard (leb 1 content_length) length_malformed
  guard (leb content_length part_size) chunk_too_large
  ok (client_offset, content_length)

-- The checks before the transaction; the part's number.
unfoldable pub check_chunk : ℕ → Session → ℕ → ℕ → Result ℕ
unfolding is_session_expired is_terminal_status
check_chunk now s offset len = do
  guard (not (is_session_expired now s)) session_expired
  guard (not (is_terminal_status s.status || same s.status completing)) (already s.status)
  guard (same s.status initiated || same s.status uploading) (already s.status)
  guard (offset == s.bytes_uploaded) (stale_offset s.bytes_uploaded)
  guard (leb offset s.expected_size) offset_exceeds
  let remaining = s.expected_size - offset
  guard (leb len remaining) (chunk_exceeds remaining)
  guard (len == remaining || len == part_size) chunk_not_full
  guard (offset % part_size == 0) not_aligned
  ok (offset / part_size + 1)

-- The checks under the row lock.
unfoldable pub check_locked : ℕ → ℕ → ℕ → ℕ → Db → Result Session
unfolding find_owned is_session_expired
check_locked now id user offset db = do
  s ← find_owned id user db
  guard (not (is_session_expired now s)) session_expired
  guard (same s.status initiated || same s.status uploading) (already s.status)
  guard (s.bytes_uploaded == offset) (stale_offset s.bytes_uploaded)
  ok s

-- `MultipartStorage`, as the answers that one request gets from the provider.
pub record Storage : Type 0 where
  pub create_upload : ℕ → String → Result ℕ
  pub upload_part : ℕ → ℕ → ℕ → ℕ → Result ℕ

abbrev pub start_upload : Storage → Session → Result ℕ
start_upload storage s = elim s.provider_upload_id [
  | some upload ↦ ok upload
  | none ↦ storage.create_upload s.storage_key s.mime_type
]

-- The rows that the transaction writes: provider id, ledger row, and the advanced offset.
abbrev pub advanced : ℕ → ℕ → ℕ → ℕ → Session → Session
advanced now upload offset len s = record s {
  provider_upload_id = some upload;
  status = uploading;
  bytes_uploaded = offset + len;
  last_activity_at = now;
}

abbrev pub part_of : ℕ → ℕ → ℕ → Part
part_of number etag len = record { part_number = number; etag = etag; size = len }

-- The transaction: an error rolls back all that it wrote. `locks` is false if waiting for the row
-- lock timed out.
unfoldable pub transfer_tx : ℕ → ℕ → ℕ → ℕ → ℕ → ℕ → Storage → Db → Result (ℕ × Db)
unfolding check_locked upsert
transfer_tx now id user offset len number storage db = do
  s ← check_locked now id user offset db
  upload ← start_upload storage s
  etag ← storage.upload_part s.storage_key upload number len
  ok (
    offset + len,
    put_parts id (upsert (part_of number etag len) (db.parts id))
        (put_session id (advanced now upload offset len s) db),
  )

abbrev pub bumped : ℕ → Session → Session
bumped now s = record s { retry_count = s.retry_count + 1; last_activity_at = now }

-- The transient counter, on the row if it is still there.
unfoldable pub bump_retry : ℕ → ℕ → Db → Db
bump_retry now id db = elim (db.sessions id) [
  | none ↦ db
  | some s ↦ put_session id (bumped now s) db
]

-- The `catch` of `transferChunk` on what the transaction threw.
unfoldable pub rescue : ℕ → ℕ → Error → Db → Error × Db
unfolding bump_retry
rescue now id (provider true) db = (storage_failed, bump_retry now id db)
rescue now id (provider false) db = (storage_failed, db)
rescue now id Error.database db = (storage_failed, db)
rescue now id e db = (e, db)

-- The answer `ChunkResult`
pub record ChunkResult : Type 0 where
  pub bytes_uploaded : ℕ
  pub expected_size : ℕ
  pub part_number : ℕ
  pub complete : Bool

-- What the client of the row lock sees when the wait for it timed out (55P03).
abbrev contended : ℕ → Session → Db → Error
contended id s db = elim (db.sessions id) [
  | none ↦ concurrent_transfer s.bytes_uploaded
  | some fresh ↦ concurrent_transfer fresh.bytes_uploaded
]

-- `transferChunk` behind the parsing of its headers. `seen` is the database at the first read, `db` the one
-- under the row lock; `locks` is false if the wait for the lock timed out.
unfoldable pub accept_chunk :
    ℕ → ℕ → ℕ → Option ℕ → ℕ → ℕ → Bool → Storage → Db → Db → Result ChunkResult × Db
accept_chunk now now' id none offset len locks storage seen db = (err unauthenticated, db)
accept_chunk now now' id (some user) offset len locks storage seen db =
    elim (find_owned id user seen) [
      | err e ↦ (err e, db)
      | ok s ↦ elim (check_chunk now s offset len) [
        | err e ↦ (err e, db)
        | ok number ↦
            if locks
            then elim (transfer_tx now' id user offset len number storage db) [
              | err e ↦ (err (rescue now' id e db).0, (rescue now' id e db).1)
              | ok (total, db') ↦ (
                ok (record {
                  bytes_uploaded = total;
                  expected_size = s.expected_size;
                  part_number = number;
                  complete = total == s.expected_size;
                }),
                db',
              )
            ]
            else (err (contended id s db), db)
      ]
    ]

-- `ChunkRequest`; the body goes from the socket to the provider and is not read here.
pub record ChunkRequest : Type 0 where
  pub session_id : ℕ
  pub user_id : Option ℕ
  pub offset_header : Option String
  pub content_length_header : Option String

-- `transferChunk`
unfoldable pub transfer_chunk :
    (String → Numeric) → ℕ → ℕ → ChunkRequest → Bool → Storage → Db → Db → Result ChunkResult × Db
transfer_chunk number now now' req locks storage seen db =
    elim (parse_chunk_headers number req.offset_header req.content_length_header) [
      | err e ↦ (err e, db)
      | ok (offset, len) ↦
          accept_chunk now now' req.session_id req.user_id offset len locks storage seen db
    ]

-- The loop of `assertPartsCover` from index i.
unfoldable pub check_parts : ℕ → List Part → Result (Unit {0})
check_parts i [] = ok tt
check_parts i (p ∷ []) = guard (p.part_number == i + 1) not_contiguous
check_parts i (p ∷ q ∷ ps) = do
  guard (p.part_number == i + 1) not_contiguous
  guard (p.size == part_size) inconsistent_sizes
  check_parts (i + 1) (q ∷ ps)

abbrev pub total_size : List Part → ℕ
total_size ps = sum_by (λ (p : Part). p.size) ps

abbrev nonempty : List Part → Bool
nonempty [] = false
nonempty (p ∷ ps) = true

-- `assertPartsCover`
unfoldable pub assert_parts_cover : List Part → ℕ → Result (Unit {0})
unfolding check_parts
assert_parts_cover parts expected_size = do
  guard (nonempty parts) no_parts
  check_parts 0 parts
  guard (total_size parts == expected_size) (parts_cover (total_size parts) expected_size)
