-- ===== src/Upload/Steps/Inversion.antt =====
-- What a successful atomic step has found and written.
use mothercare_backend.Prelude.{
  ℕ, ◌+◌, ◌≡◌, inl, inr, none, some, true, false, [], ◌∷◌, ◌++◌, List, arith, Option-cases,
  Bool-cases,
}
use mothercare_backend.Upload.Status.{Status, uploading, completed, includes}
use mothercare_backend.Upload.Db.{Session, Db, put_session, put_parts, upsert}
use mothercare_backend.Upload.Result.{ok, Result-cases}
use mothercare_backend.Upload.Session.{update_status}
use mothercare_backend.Upload.Transfer.{Storage, transfer_tx, start_upload, advanced, part_of}
use mothercare_backend.Upload.Finalize.{commit_finalize, check_finalize, file_of}
use mothercare_backend.Upload.Invariant.{is_open}

pub record Updated (now id : ℕ) (from : List Status) (to : Status) (db db' : Db) : Type 0 where
  pub row : Session
  pub found : db.sessions id ≡ some row
  pub allowed : includes from row.status ≡ true
  pub wrote : db' ≡ put_session id (record row { status = to; last_activity_at = now }) db

pub update_status-Updated :
    (now id : ℕ) (from : List Status) (to : Status) (db db' : Db)
    → update_status now id from to db ≡ (true, db')
    → Updated now id from to db db'
unfolding update_status
update_status-Updated now id from to db db' h = elim (Option-cases (db.sessions id)) [
  | inl missing ↦ ground arith
  | inr (s, found) ↦ elim (Bool-cases (includes from s.status)) [
    | inl allowed ↦ record { row = s; found = found; allowed = allowed; wrote = ground arith }
    | inr refused ↦ ground arith
  ]
]

pub record Moved (now id user offset len number total : ℕ) (db db' : Db) : Type 0 where
  pub row : Session
  pub upload : ℕ
  pub etag : ℕ
  pub found : db.sessions id ≡ some row
  pub owned : row.user_id ≡ user
  pub active : is_open row.status ≡ true
  pub at_offset : row.bytes_uploaded ≡ offset
  pub sum : total ≡ offset + len
  pub wrote :
      db'
      ≡ put_parts id
          (upsert (part_of number etag len) (db.parts id))
          (put_session id (advanced now upload offset len row) db)

pub transfer_tx-Moved :
    (now id user offset len number total : ℕ) (storage : Storage) (db db' : Db)
    → transfer_tx now id user offset len number storage db ≡ ok (total, db')
    → Moved now id user offset len number total db db'
unfolding transfer_tx
transfer_tx-Moved now id user offset len number total storage db db' h =
    elim (Option-cases (db.sessions id)) [
      | inl missing ↦ ground arith
      | inr (s, found) ↦ elim (Result-cases (start_upload storage s)) [
        | inl (e, failed_start) ↦ ground arith
        | inr (upload, started) ↦
            elim (Result-cases (storage.upload_part s.storage_key upload number len)) [
              | inl (e, failed_part) ↦ ground arith
              | inr (etag, stored) ↦ record {
                row = s;
                upload = upload;
                etag = etag;
                found = found;
                owned = ground arith;
                active = ground arith;
                at_offset = ground arith;
                sum = ground arith;
                wrote = ground arith;
              }
            ]
      ]
    ]

pub record Committed (now id : ℕ) (seen : Session) (db db' : Db) : Type 0 where
  pub row : Session
  pub found : db.sessions id ≡ some row
  pub sessions :
      db'.sessions
      ≡ (put_session id
          (record row {
            status = completed;
            file_record_id = some db.next_id;
            last_activity_at = now;
          })
          db).sessions
  pub parts : db'.parts ≡ db.parts
  pub files : db'.files ≡ db.files ++ (db.next_id, file_of id seen) ∷ []
  pub next_id : db'.next_id ≡ db.next_id + 1

pub commit_finalize-Committed :
    (now id : ℕ) (seen : Session) (db db' : Db)
    → commit_finalize now id seen db ≡ ok db'
    → Committed now id seen db db'
unfolding commit_finalize
commit_finalize-Committed now id seen db db' h = elim (Option-cases (db.sessions id)) [
  | inl missing ↦ ground arith
  | inr (s, found) ↦ record {
    row = s;
    found = found;
    sessions = ground arith;
    parts = ground arith;
    files = ground arith;
    next_id = ground arith;
  }
]

pub update_status_hit :
    (now id : ℕ) (from : List Status) (to : Status) (db : Db) (s : Session)
    → db.sessions id ≡ some s
    → includes from s.status ≡ true
    → update_status now id from to db
      ≡ (true, put_session id (record s { status = to; last_activity_at = now }) db)
unfolding update_status
update_status_hit now id from to db s e h = ground arith

pub update_status_miss :
    (now id : ℕ) (from : List Status) (to : Status) (db : Db) (s : Session)
    → db.sessions id ≡ some s
    → includes from s.status ≡ false
    → update_status now id from to db ≡ (false, db)
unfolding update_status
update_status_miss now id from to db s e h = ground arith

-- A request that passes the checks of `finalizeSession` has read a byte-full row.
pub check_finalize-full :
    (now : ℕ) (s : Session)
    → check_finalize now s ≡ ok none
    → (s.status ≡ uploading) × (s.bytes_uploaded ≡ s.expected_size)
unfolding check_finalize
check_finalize-full now s h = ground arith
