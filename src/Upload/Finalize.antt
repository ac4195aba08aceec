-- ===== src/Upload/Finalize.antt =====
-- `finalizeSession` of upload-session.service.ts: one winner claims the session, links exactly one
-- file record to it in a transaction, and the losers wait for the outcome.
use mothercare_backend.Prelude.{
  ℕ, String, zero, suc, ◌+◌, Option, none, some, Bool, true, false, [], ◌∷◌, ◌++◌, ◌==◌,
  if◌then◌else◌,
}
use text.Mathlib.Text.{◌==◌ as str_eq}
use mothercare_backend.Upload.Status.{uploading, completing, completed, failed, same}
use mothercare_backend.Upload.Db.{Session, Metadata, Db, FileRecord, put_session}
use mothercare_backend.Upload.Result.{
  Result, ok, err, ◌>>◌, guard, unauthenticated, already, unavailable, no_bytes, incomplete,
  finalize_timeout, database,
}
use mothercare_backend.Upload.Session.{View, serialize, ensure_active, find_owned, update_status}

-- The answer `{ session, created }`.
pub record Linked : Type 0 where
  pub session : View
  pub created : Bool

-- `awaitFinalizeOutcome`: `polls` is the database at each of the attempts that are left.
unfoldable pub await_finalize_outcome : ℕ → ℕ → ℕ → (ℕ → Db) → Result Linked
await_finalize_outcome now id zero polls = err finalize_timeout
await_finalize_outcome now id (suc attempts) polls =
    let rest = await_finalize_outcome now id attempts polls in
    elim ((polls attempts).sessions id) [
      | none ↦ err unavailable
      | some s ↦
          if same s.status completed
          then ok (record { session = serialize now s; created = false })
          else if same s.status completing
          then rest
          else err (already s.status)
    ]

-- The checks of `finalizeSession` on the row that it read first: `some` is the idempotent replay.
unfoldable pub check_finalize : ℕ → Session → Result (Option Linked)
unfolding ensure_active
check_finalize now s =
    if same s.status completed
    then ok (some (record { session = serialize now s; created = false }))
    else do
      ensure_active now s
      guard (same s.status uploading) no_bytes
      guard (s.bytes_uploaded == s.expected_size) (incomplete s.bytes_uploaded s.expected_size)
      ok none

-- The single-winner claim.
unfoldable pub claim : ℕ → ℕ → Db → Bool × Db
unfolding update_status
claim now id db = update_status now id (uploading ∷ []) completing db

-- `session.metadata ?? {}`
abbrev pub entries : Option Metadata → Metadata
entries none = λ _. none
entries (some m) = m

-- `...(id ? { [key]: id } : {})`, over the entries before it
abbrev pub with_entry : String → Option ℕ → Metadata → Metadata
with_entry key none m = m
with_entry key (some id) m = λ k. if str_eq k key then some id else m k

-- The column `metadata` of the file record: later entries replace earlier ones.
abbrev pub file_metadata : ℕ → Session → Metadata
file_metadata id s = with_entry "uploadSessionId" (some id) (
    with_entry "academicYearId" s.academic_year_id
      (with_entry "roomId" s.room_id (entries s.metadata)))

abbrev pub file_of : ℕ → Session → FileRecord
file_of id s = record {
  original_name = s.original_filename;
  storage_path = s.storage_key;
  purpose = s.purpose;
  mime_type = s.mime_type;
  size = s.expected_size;
  uploaded_by_id = s.user_id;
  upload_session_id = id;
  entity_type = s.entity_type;
  entity_id = s.entity_id;
  metadata = file_metadata id s;
}

-- What the transaction writes over the current row `s`.
abbrev pub committed : ℕ → ℕ → Session → Session → Db → Db
committed now id read s db = record db {
  sessions =
      (put_session id
        (record s { status = completed; file_record_id = some db.next_id; last_activity_at = now })
        db).sessions;
  files = db.files ++ (db.next_id, file_of id read) ∷ [];
  next_id = db.next_id + 1;
}

-- The transaction: create the file record from the row that was read first, and complete the
-- session. `update` throws for a missing row, and then nothing is written.
unfoldable pub commit_finalize : ℕ → ℕ → Session → Db → Result Db
commit_finalize now id read db = elim (db.sessions id) [
  | none ↦ err database
  | some s ↦ ok (committed now id read s db)
]

-- The `catch`: a failed transaction parks the session. If this write fails too, which is swallowed, the
-- session stays COMPLETING, as after a crash.
unfoldable pub park : ℕ → ℕ → Db → Db
unfolding update_status
park now id db = (update_status now id (completing ∷ []) failed db).1

-- What follows the claim; `commits` says whether the database accepts the transaction.
unfoldable pub after_claim : ℕ → ℕ → Session → Bool → Db → Result Linked × Db
after_claim now id read commits db =
    elim (if commits then commit_finalize now id read db else err database) [
      | err e ↦ (err e, park now id db)
      | ok db' ↦ elim (db'.sessions id) [
        | none ↦ (err database, db')
        | some s ↦ (ok (record { session = serialize now s; created = true }), db')
      ]
    ]

-- `finalizeSession`. `seen` is the database at its first read, `db` the one at its claim.
unfoldable pub finalize_session : ℕ → ℕ → Option ℕ → Bool → (ℕ → Db) → Db → Db → Result Linked × Db
finalize_session now id none commits polls seen db = (err unauthenticated, db)
finalize_session now id (some user) commits polls seen db = elim (find_owned id user seen) [
  | err e ↦ (err e, db)
  | ok s ↦ elim (check_finalize now s) [
    | err e ↦ (err e, db)
    | ok (some linked) ↦ (ok linked, db)
    | ok none ↦
        let (won, db') = claim now id db in
        if won
        then after_claim now id s commits db'
        else (await_finalize_outcome now id 20 polls, db')
  ]
]
