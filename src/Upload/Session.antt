-- ===== src/Upload/Session.antt =====
-- The lifecycle operations of upload-session.service.ts. Each operation takes the time of its reads
-- of the clock; `updateMany` with a guard on the status is one atomic step on the table.
use mothercare_backend.Prelude.{
  ℕ, String, Option, none, some, Bool, true, false, not, ◌&&◌, List, [], ◌∷◌, ◌==◌, leb,
  if◌then◌else◌,
}
use mothercare_backend.Prelude.{◌≡◌, inl, inr, arith, Option-cases}
use mothercare_backend.Upload.Status.{
  Status, initiated, uploading, completing, cancelled, expired, same, includes, active_statuses,
  is_valid_transition,
}
use mothercare_backend.Upload.Db.{Session, Metadata, Db, put_session, put_parts}
use mothercare_backend.Upload.Result.{
  Result, ok, err, ◌>>=◌, ◌>>◌, guard, or_throw, unauthenticated, not_found, session_expired,
  already, unavailable, invalid_transition, finalization_in_progress,
}

unfoldable pub is_session_expired : ℕ → Session → Bool
is_session_expired now s = includes active_statuses s.status && leb s.expires_at now

unfoldable pub effective_status : ℕ → Session → Status
unfolding is_session_expired
effective_status now s = if is_session_expired now s then expired else s.status

unfoldable pub ensure_active : ℕ → Session → Result (Unit {0})
unfolding is_session_expired
ensure_active now s = do
  guard (not (is_session_expired now s)) session_expired
  guard (includes active_statuses s.status) (already s.status)

-- `findUnique` by id, and 404 for a missing row or another user's.
unfoldable pub find_owned : ℕ → ℕ → Db → Result Session
find_owned id user db = do
  s ← or_throw (db.sessions id) not_found
  guard (s.user_id == user) not_found
  ok s

-- `updateMany({ where: { id, status: { in } }, data: { status, lastActivityAt } })`: the table after
-- it, and whether a row matched.
unfoldable pub update_status : ℕ → ℕ → List Status → Status → Db → Bool × Db
update_status now id from to db = elim (db.sessions id) [
  | none ↦ (false, db)
  | some s ↦
      if includes from s.status
      then (true, put_session id (record s { status = to; last_activity_at = now }) db)
      else (false, db)
]

-- `releaseStorage`: the part ledger goes, unless its deletion fails, which is swallowed. The provider's
-- abort is best-effort and is not seen here.
unfoldable pub release_storage : Bool → ℕ → Db → Db
release_storage clears id db = if clears then put_parts id [] db else db

-- What `serializeUploadSession` shows, without the id of the request, the `fileUrl` that is made of the
-- record's id, `createdAt` and `updatedAt`; provider ids and object keys stay inside.
pub record View : Type 0 where
  pub status : Status
  pub purpose : String
  pub original_filename : String
  pub mime_type : String
  pub expected_size : ℕ
  pub bytes_uploaded : ℕ
  pub expires_at : ℕ
  pub file_record_id : Option ℕ
  pub metadata : Option Metadata
  pub retry_count : ℕ
  pub last_activity_at : ℕ

-- `serializeUploadSession`
abbrev pub serialize : ℕ → Session → View
serialize now s = record {
  status = effective_status now s;
  purpose = s.purpose;
  original_filename = s.original_filename;
  mime_type = s.mime_type;
  expected_size = s.expected_size;
  bytes_uploaded = s.bytes_uploaded;
  expires_at = s.expires_at;
  file_record_id = s.file_record_id;
  metadata = s.metadata;
  retry_count = s.retry_count;
  last_activity_at = s.last_activity_at;
}

-- `getSession`
unfoldable pub get_session : ℕ → ℕ → Option ℕ → Db → Result View
unfolding find_owned
get_session now id none db = err unauthenticated
get_session now id (some user) db = do s ← find_owned id user db; ok (serialize now s)

-- The checks of `cancelSession` on the row that it read first.
unfoldable pub check_cancel : ℕ → ℕ → Option ℕ → Db → Result (Unit {0})
unfolding find_owned ensure_active is_valid_transition
check_cancel now id none seen = err unauthenticated
check_cancel now id (some user) seen = do
  s ← find_owned id user seen
  ensure_active now s
  guard (not (same s.status completing)) finalization_in_progress
  guard (is_valid_transition s.status cancelled) (invalid_transition s.status cancelled)

-- What `cancelSession` answers after its `updateMany`.
abbrev pub answer_cancel : Bool → ℕ → ℕ → Bool → Db → Result View × Db
answer_cancel clears now id matched db = elim (db.sessions id) [
  | none ↦ (err unavailable, db)
  | some s ↦
      if matched
      then (ok (serialize now s), release_storage clears id db)
      else (err (already s.status), db)
]

-- `cancelSession`. `seen` is the database at its first read, `db` the one at its `updateMany`.
unfoldable pub cancel_session : Bool → ℕ → ℕ → Option ℕ → Db → Db → Result View × Db
unfolding check_cancel update_status release_storage
cancel_session clears now id user seen db = elim (check_cancel now id user seen) [
  | err e ↦ (err e, db)
  | ok _ ↦
      let (matched, db') = update_status now id (initiated ∷ uploading ∷ []) cancelled db in
      answer_cancel clears now id matched db'
]

-- `expireSession`
unfoldable pub expire_session : Bool → ℕ → ℕ → Db → Result View × Db
unfolding update_status release_storage
expire_session clears now id db =
    let (matched, db') = update_status now id (initiated ∷ uploading ∷ []) expired db in
    elim (db'.sessions id) [
      | none ↦ (err not_found, db')
      | some s ↦ (ok (serialize now s), release_storage clears id db')
    ]

pub find_owned-ok :
    (id user : ℕ) (db : Db) (s : Session)
    → db.sessions id ≡ some s
    → s.user_id ≡ user
    → find_owned id user db ≡ ok s
unfolding find_owned
find_owned-ok id user db s e h = ground arith

pub find_owned-found :
    (id user : ℕ) (db : Db) (s : Session)
    → find_owned id user db ≡ ok s
    → (db.sessions id ≡ some s) × (s.user_id ≡ user)
unfolding find_owned
find_owned-found id user db s h = elim (Option-cases (db.sessions id)) [
  | inl missing ↦ ground arith
  | inr (r, found) ↦ ground arith
]
